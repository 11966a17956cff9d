-- ===== src/Passes/ConstantFolding/Folding.antt =====
-- What p03 makes of an operation on constants.
use jules.Prelude.{
  ℕ, ltb, ◌<◌, ◌≡◌, ◌≢◌, refl, ap, ◌∙◌, arith, Bool, true, false, ◌||◌, none, some, if◌then◌else◌,
  ◌⊎◌, ==_refl, ==_of_ne,
}
use jules.Prelude.Words.{IsWord, slt, sign_bit, not64}
use jules.Son.Types.{TypeId, ty_i1, ty_is_signed}
use jules.Son.Node.{NodeId, Op, BinOp, CmpOp, no_node, input, to_cmp}
use jules.Son.Graph.{Graph, node, size, replace_inputs, new_node}
use jules.Son.Graph.Uses.{HasFreshUses}
use jules.Passes.ConstEval.{
  FloatOps, ConstVal, Folded, const_of, make_const_node, eval_cmp_const, int_cmp,
}
use jules.Passes.ConstEval.Arithmetic.{Computes, Compares}
use jules.Passes.ConstEval.Arithmetic.Comparison.{int_cmp-Compares}
use jules.Passes.Meaning.Edit.{
  node-replace-kill, node-make_const_node, size-make_const_node, make_const_node-HasFreshUses,
  const_node,
}
use jules.Passes.ConstantFolding.{decide, replace_by, perform, visit}

-- The node `id` of `g` is dead in `h`, the node that `h` has after those of `g` is a constant of this
-- type and payload, and every other node has it for an input where it had `id`.
pub record FoldsTo (g : Graph) (id : NodeId) (t : TypeId) (v : ℕ) (h : Graph) : Type 0 where
  pub dead : (node h id).op ≡ Op.dead
  pub is_const : (node h (size g)).op ≡ Op.const
  pub type_is : (node h (size g)).ty ≡ t
  pub payload_is : (node h (size g)).ival ≡ v
  pub others : (j : NodeId) → j < size g → j ≢ id → node h j ≡ replace_inputs id (size g) (node g j)

abbrev type_of : Folded → TypeId
type_of (Folded.value v) = v.ty
type_of Folded.runtime = 0
type_of Folded.trap = 0

module _ (g : Graph) (id : NodeId) (fresh : HasFreshUses g) (lt : id < size g)
    (room : size g < no_node) where
  replaced_by :
      (v : ConstVal)
      → FoldsTo g id v.ty v.iv
          (replace_by (make_const_node g (input (node g id) 0) v).0 id (size g))
  unfolding replace_by replace_inputs new_node
  replaced_by v =
      let pin = input (node g id) 0 in
      let g1 = (make_const_node g pin v).0 in
      let sizes = size-make_const_node g pin v in
      let at = λ (j : NodeId).
        node-replace-kill g1 id (size g) j (make_const_node-HasFreshUses g pin v)
          (omega (arith, sizes)) (omega (arith, sizes)) (omega arith) in
      let h = replace_by g1 id (size g) in
      let new : node h (size g) ≡ replace_inputs id (size g) (const_node pin v) =
        at (size g)
        ∙ rw
            (
              ==_of_ne (size g) id (omega arith),
              node-make_const_node g pin v (size g),
              ==_refl (size g),
            )
            refl in
      record {
        dead = ap (λ n. n.op) (at id) ∙ rw (==_refl id) refl;
        is_const = ap (λ n. n.op) new;
        type_is = ap (λ n. n.ty) new;
        payload_is = ap (λ n. n.ival) new;
        others = λ j hj ne.
            at j
            ∙ rw
                (
                  ==_of_ne j id ne,
                  node-make_const_node g pin v j,
                  ==_of_ne j (size g) (omega arith),
                )
                refl;
      }

abbrev pub IsDivision : BinOp → Type 0
IsDivision op = (op ≡ BinOp.div) ⊎ (op ≡ BinOp.mod_op)

-- Two words have a value, but for a division by 0 and for that of the least i64 by -1.
abbrev Evaluation : BinOp → TypeId → ℕ → ℕ → Folded → Type 0
Evaluation op t x y f =
    ((w : ConstVal) × (f ≡ Folded.value w))
    ⊎ (IsDivision op × (y ≡ 0) × (f ≡ Folded.runtime))
    ⊎ (IsDivision op × (ty_is_signed t ≡ true) × (x ≡ sign_bit) × (y ≡ not64 0) × (f ≡ Folded.trap))

-- The visit folds the node to what the operation computes of the words `x` and `y`, of the type
-- `t`, leaves the graph alone at a division by 0, or traps at the least i64 by -1.
abbrev pub FoldsBin : FloatOps → Graph → NodeId → BinOp → TypeId → ℕ → ℕ → Type 0
FoldsBin F g id op t x y =
    ((g' : Graph) × (v : ℕ) × (visit F g id ≡ some (g', true))
      × Computes op (ty_is_signed t) x y v
      × FoldsTo g id t v g')
    ⊎ (IsDivision op × (y ≡ 0) × (visit F g id ≡ some (g, false)))
    ⊎ (IsDivision op
        × (ty_is_signed t ≡ true)
        × (x ≡ sign_bit)
        × (y ≡ not64 0)
        × (visit F g id ≡ none))

-- The visit folds the node to the answer of the comparison of `x` and `y`, of the type `t`.
abbrev pub FoldsCmp : FloatOps → Graph → NodeId → CmpOp → TypeId → ℕ → ℕ → Type 0
FoldsCmp F g id op t x y =
    (g' : Graph) × (yes : Bool) × (visit F g id ≡ some (g', true))
    × Compares op (ty_is_signed t) x y yes
    × FoldsTo g id ty_i1 (if yes then 1 else 0) g'

-- p03 at a comparison of two integer constants that are words, in a graph whose use lists can be
-- trusted and that has an id left for a new node: the visit puts a new bool, 1 or 0, in the node's
-- place, which answers the comparison in the order of the first operand's type.
pub fold_cmp-Compares :
    (F : FloatOps) (g : Graph) (id : NodeId) (op : CmpOp) (a b : ConstVal)
    → HasFreshUses g
    → id < size g
    → size g < no_node
    → (node g id).op ≡ Op.cmp
    → to_cmp (node g id).sub ≡ some op
    → const_of g (input (node g id) 1) ≡ some a
    → const_of g (input (node g id) 2) ≡ some b
    → (a.is_fp || b.is_fp) ≡ false
    → IsWord a.iv
    → IsWord b.iv
    → FoldsCmp F g id op a.ty a.iv b.iv
unfolding visit decide eval_cmp_const perform
fold_cmp-Compares F g id op a b fresh lt room e s ca cb int ha hb =
    let sg = ty_is_signed a.ty in
    let yes = int_cmp (λ p q. if sg then slt p q else ltb p q) op a.iv b.iv in
    let w : ConstVal = record { is_fp = false; ty = ty_i1; iv = if yes then 1 else 0; fv = 0 } in
    (
      replace_by (make_const_node g (input (node g id) 0) w).0 id (size g),
      yes,
      rw (e, s, ca, cb, int) refl,
      int_cmp-Compares op sg a.iv b.iv ha hb,
      replaced_by g id fresh lt room w,
    )
