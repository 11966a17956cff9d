-- ===== src/Passes/IdentityCollapse/Meaning.antt =====
-- p02 keeps the meaning of the graph.
use jules.Prelude.{
  ℕ, ◌+◌, ◌≤◌, ◌<◌, ◌≡◌, ◌⊎◌, inl, inr, refl, sym, ◌∙◌, subst, arith, false, [], ◌∷◌, ◌==◌, ◌||◌,
  if◌then◌else◌, Bool-cases, ==_refl, ==_of_ne,
}
use jules.Son.Types.{TypeId, ty_is_float}
use jules.Son.Node.{NodeId, Node, Op, UnOp, no_node, input, ◌is◌, un_code}
use jules.Son.Graph.{Graph, node, size, make, new_node}
use jules.Son.Graph.Uses.{HasFreshUses}
use jules.Son.Graph.Replace.{node-make}
use jules.Passes.ConstEval.{FloatOps, ConstVal, make_const_node}
use jules.Passes.Meaning.{Valuation, HasType, NodeHolds, Models, op_value}
use jules.Passes.Meaning.Edit.{
  new_node-in_range, make-HasFreshUses, size-make, make_const_node-HasFreshUses, Refines, extend,
  Models-replace-kill, Models-push, replace-kill-HasFreshUses, size-replace-kill,
  node-make_const_node, size-make_const_node, const_node, const_node-Holds,
}
use jules.Passes.IdentityCollapse.{
  Action, keep, use_node, use_zero, use_complement, zero_of, replace, fold_to_zero, complement,
  choose, perform, visit,
}
use jules.Passes.IdentityCollapse.Sound.{
  Named, Justified, uses, zeros, complements, choose-Justified,
}
use jules.Passes.IdentityCollapse.Values.{not_of, bnot_value}

module _ (F : FloatOps) (g : Graph) (ρ : Valuation) (m : Models F g ρ)
    (fresh : HasFreshUses g) where
  unchanged : Refines F g ρ g
  unchanged = (ρ, λ j h. refl, m, fresh, omega arith)

  replace-Refines :
      (id c : NodeId)
      → id < size g
      → size g ≤ no_node
      → ρ id ≡ ρ c
      → (c < size g) ⊎ (c ≡ no_node)
      → Refines F g ρ (replace g id c).0
  unfolding replace
  replace-Refines id c hid room e named = elim (Bool-cases (id == c || c == no_node)) [
    | inl q ↦ rw q unchanged
    | inr q ↦ rw q (
      ρ,
      λ j h. refl,
      Models-replace-kill g id c fresh hid (ground arith) room (ground arith) F ρ m e,
      replace-kill-HasFreshUses g id c fresh,
      omega (arith, size-replace-kill g id c),
    )
  ]

-- Replacing a node by one that has just been pushed.
module _ (F : FloatOps) (g g' : Graph) (n : Node) (ρ : Valuation) (v : ConstVal) (id : NodeId)
    (pushed : (j : NodeId) → node g' j ≡ (if j == size g then n else node g j))
    (grown : size g' ≡ size g + 1) (dirty : HasFreshUses g') (room : size g < no_node)
    (n_range : (i : ℕ) → (input n i < size g) ⊎ (input n i ≡ no_node)) where
  pub replace-push-Refines :
      Models F g ρ
      → NodeHolds F ρ v n
      → id < size g
      → ρ id ≡ v
      → Refines F g ρ (replace g' id (size g)).0
  replace-push-Refines m h hid e =
      let σ = extend ρ (size g) v in
      let old = λ (j : NodeId) (lt : j < size g). old_value j lt in
      let (τ, agrees, m', f', le) =
        replace-Refines F g' σ (Models-push F g g' n pushed grown room n_range ρ v m h) dirty id
          (size g) (omega arith) (omega arith) (old id hid ∙ e ∙ sym new_value)
          (inl (omega arith)) in
      (τ, λ j lt. agrees j (omega arith) ∙ old j lt, m', f', omega arith)
    where
      old_value : (j : NodeId) → j < size g → extend ρ (size g) v j ≡ ρ j
      old_value j lt = rw (==_of_ne j (size g) (omega arith)) refl

      new_value : extend ρ (size g) v (size g) ≡ v
      new_value = rw (==_refl (size g)) refl

module _ (F : FloatOps) (g : Graph) (ρ : Valuation) (m : Models F g ρ) (fresh : HasFreshUses g)
    (id : NodeId) (hid : id < size g) (room : size g < no_node) where
  fold_to_zero-Refines : ρ id ≡ zero_of (node g id).ty → Refines F g ρ (fold_to_zero g id).0
  unfolding fold_to_zero
  fold_to_zero-Refines e =
      let n = node g id in
      let z = zero_of n.ty in
      let g' = (make_const_node g (input n 0) z).0 in
      replace-push-Refines F g g' (const_node (input n 0) z) ρ z id
        (node-make_const_node g (input n 0) z) (size-make_const_node g (input n 0) z)
        (make_const_node-HasFreshUses g (input n 0) z) room
        (λ i.
          new_node-in_range g Op.const n.ty (input n 0 ∷ []) 0 0 i (omega arith)
            (m.in_range id 0, tt))
        m (const_node-Holds F ρ (input n 0) z (subst (HasType n.ty) e (m.holds id).typed)) hid e

  bnot_node-Holds :
      (t : TypeId) (u v : ConstVal) (pin a : NodeId)
      → HasType t u
      → HasType t v
      → ty_is_float t ≡ false
      → u ≡ not_of t v
      → v ≡ ρ a
      → NodeHolds F ρ (not_of t v) (new_node Op.un t (pin ∷ a ∷ []) (un_code UnOp.bnot) 0)
  unfolding new_node op_value
  bnot_node-Holds t u v pin a hu hv int e ea = record {
    typed = subst (HasType t) e hu;
    computed = λ w q. (let r = rw (sym ea, bnot_value F t v hv int) at q in cc);
    operands = λ q. cc;
    unary = λ q. (λ r. let s = rw (sym ea, bnot_value F t v hv int) at r in cc);
    copies = λ q. cc;
  }

  complement-Refines :
      (a : NodeId)
      → (a < size g) ⊎ (a ≡ no_node)
      → HasType (node g id).ty (ρ a)
      → ty_is_float (node g id).ty ≡ false
      → ρ id ≡ not_of (node g id).ty (ρ a)
      → Refines F g ρ (complement g id a).0
  unfolding complement
  complement-Refines a named ha int e =
      let n = node g id in
      let ins = input n 0 ∷ a ∷ [] in
      let g' = (make g Op.un n.ty ins (un_code UnOp.bnot) 0).0 in
      replace-push-Refines F g g' (new_node Op.un n.ty ins (un_code UnOp.bnot) 0) ρ
        (not_of n.ty (ρ a)) id (node-make g Op.un n.ty ins (un_code UnOp.bnot) 0)
        (size-make g Op.un n.ty ins (un_code UnOp.bnot) 0)
        (make-HasFreshUses g Op.un n.ty ins (un_code UnOp.bnot) 0) room
        (λ i.
          new_node-in_range g Op.un n.ty ins (un_code UnOp.bnot) 0 i (omega arith)
            (m.in_range id 0, (named, tt)))
        m
        (bnot_node-Holds (node g id).ty (ρ id) (ρ a) (input (node g id) 0) a (m.holds id).typed ha
          int e refl)
        hid e

  perform-Refines :
      (act : Action)
      → Justified F ρ (ρ id) (node g id).ty (Named F g ρ m) act
      → Refines F g ρ (perform g id act).0
  unfolding perform
  perform-Refines keep j = unchanged F g ρ m fresh
  perform-Refines (use_node c) (uses named e) =
      replace-Refines F g ρ m fresh id c hid (omega arith) e named
  perform-Refines use_zero (zeros e) = fold_to_zero-Refines e
  perform-Refines (use_complement c) (complements named ha int e) =
      complement-Refines c named ha int e

-- Where negating a double twice gives it back, a visit of p02 at a node of the graph leaves every
-- node's value as it is: if the graph holds of a valuation, its use lists can be trusted and
-- there is an id left for a new node, then the graph after the visit holds of a valuation that
-- agrees on all the old nodes, and its use lists can be trusted.
pub visit-Refines :
    (F : FloatOps)
    → ((x : ℕ) → F.fneg (F.fneg x) ≡ x)
    → (g : Graph) (ρ : Valuation) (id : NodeId) → Models F g ρ
    → HasFreshUses g
    → id < size g
    → size g < no_node
    → Refines F g ρ (visit g id).0
unfolding visit
visit-Refines F neg_twice g ρ id m fresh hid room = elim (Bool-cases ((node g id).op is Op.dead)) [
  | inl q ↦ rw q (unchanged F g ρ m fresh)
  | inr q ↦ rw q (
      perform-Refines F g ρ m fresh id hid room (choose g (node g id) (node g id).op)
        (choose-Justified F g ρ m neg_twice id (node g id).op refl))
]
