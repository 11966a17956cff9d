-- ===== src/Passes/IdentityCollapse/Sound.antt =====
-- What p02 does to a node is justified by the values of its inputs.
use jules.Prelude.{
  ℕ, ◌<◌, ◌≡◌, ◌⊎◌, inl, inr, refl, sym, ◌∙◌, subst, arith, Bool, true, false, not, ◌&&◌, Option,
  some, ◌==◌, if◌then◌else◌, Option-cases, eq_of_==,
}
use jules.Son.Types.{TypeId, ty_is_float}
use jules.Son.Node.{
  NodeId, Node, Op, BinOp, UnOp, CastOp, no_node, input, ◌is◌, eq_of_is, to_bin, to_un, un_code,
}
use jules.Son.Graph.{Graph, node, size}
use jules.Passes.ConstEval.{FloatOps, ConstVal, Folded, payload, const_of, eval_bin_const}
use jules.Passes.Meaning.{Valuation, HasType, NodeHolds, Models, op_value}
use jules.Passes.IdentityCollapse.{
  int_zero, int_one, int_all_ones, zero_of, constant_with, Action, keep, use_node, use_zero,
  use_complement, collapse_bin, collapse_un, choose,
}
use jules.Passes.IdentityCollapse.Values
use jules.Passes.IdentityCollapse.Values.{not_of, un_twice, cast_copies}
use jules.Passes.Meaning.Values.{bin_value, cast_value, select_value, un_defined}

op_value-const :
    (F : FloatOps) (n : Node) (a b c : ConstVal)
    → n.op ≡ Op.const
    → op_value F n.op n.sub n.ty (payload n) a b c ≡ some (payload n)
unfolding op_value
op_value-const F n a b c e = rw e refl

module _ (F : FloatOps) (ρ : Valuation) (u : ConstVal) (t : TypeId) (Named : NodeId → Type 0) where
  -- The action gives the node's uses another node of its value `u`.
  pub data Justified : Action → Type 0 where
    keeps : Justified keep
    uses : {c : NodeId} → Named c → u ≡ ρ c → Justified (use_node c)
    zeros : u ≡ zero_of t → Justified use_zero
    complements :
        {c : NodeId}
        → Named c
        → HasType t (ρ c)
        → ty_is_float t ≡ false
        → u ≡ not_of t (ρ c)
        → Justified (use_complement c)

  pick :
      (b : Bool) (x y : Action)
      → (b ≡ true → Justified x)
      → (b ≡ false → Justified y)
      → Justified (if b then x else y)
  pick true x y p q = p refl
  pick false x y p q = q refl

  module _ (a b : NodeId) (ca cb : Option ConstVal) (fp : Bool) (ha : HasType t (ρ a))
      (hb : HasType t (ρ b)) (na : Named a) (nb : Named b)
      (ka : (test : ConstVal → Bool) → constant_with test ca ≡ true → test (ρ a) ≡ true)
      (kb : (test : ConstVal → Bool) → constant_with test cb ≡ true → test (ρ b) ≡ true) where
    first : (p q : Bool) → (p && q) ≡ true → p ≡ true
    first p q h = ground arith

    second : (p q : Bool) → (p && q) ≡ true → q ≡ true
    second p q h = ground arith

    abbrev Computes : BinOp → Type 0
    Computes op = (w : ConstVal) → eval_bin_const F op (ρ a) (ρ b) ≡ Folded.value w → u ≡ w

    on_b :
        (test : ConstVal → Bool) (x y : Action)
        → (test (ρ b) ≡ true → Justified x)
        → Justified y
        → Justified (if constant_with test cb then x else y)
    on_b test x y p q = pick (constant_with test cb) x y (λ h. p (kb test h)) (λ _. q)

    on_a :
        (test : ConstVal → Bool) (x y : Action)
        → (test (ρ a) ≡ true → Justified x)
        → Justified y
        → Justified (if constant_with test ca then x else y)
    on_a test x y p q = pick (constant_with test ca) x y (λ h. p (ka test h)) (λ _. q)

    -- One case for each operation, with its tests in the order of the code.
    collapse_bin-Justified : (op : BinOp) → Computes op → Justified (collapse_bin op fp a b ca cb)
    unfolding collapse_bin
    collapse_bin-Justified BinOp.add c =
        on_b int_zero _ _ (λ h. uses na (c _ (Values.add-zero F t _ _ ha hb h)))
          (on_a int_zero _ _ (λ h. uses nb (c _ (Values.zero-add F t _ _ ha hb h))) keeps)
    collapse_bin-Justified BinOp.sub c =
        on_b int_zero _ _ (λ h. uses na (c _ (Values.sub-zero F t _ _ ha hb h))) keeps
    collapse_bin-Justified BinOp.mul c =
        on_b int_one _ _ (λ h. uses na (c _ (Values.mul-one F t _ _ ha hb h)))
          (on_a int_one _ _ (λ h. uses nb (c _ (Values.one-mul F t _ _ ha hb h)))
            (pick (not fp && constant_with int_zero cb) _ _
              (λ h. zeros (c _ (Values.mul-zero F t _ _ ha hb (kb int_zero (second (not fp) _ h)))))
              (λ _.
                pick (not fp && constant_with int_zero ca) _ _
                  (λ h.
                    zeros (c _ (Values.zero-mul F t _ _ ha hb (ka int_zero (second (not fp) _ h)))))
                  (λ _. keeps))))
    collapse_bin-Justified BinOp.div c =
        on_b int_one _ _ (λ h. uses na (c _ (Values.div-one F t _ _ ha hb h))) keeps
    collapse_bin-Justified BinOp.mod_op c =
        pick (constant_with int_one cb && not fp) _ _
          (λ h. zeros (c _ (Values.mod-one F t _ _ ha hb (kb int_one (first _ (not fp) h)))))
          (λ _. keeps)
    collapse_bin-Justified BinOp.and c =
        on_b int_all_ones _ _ (λ h. uses na (c _ (Values.and-ones_value F t _ _ ha hb h)))
          (on_a int_all_ones _ _ (λ h. uses nb (c _ (Values.ones-and_value F t _ _ ha hb h)))
            (on_b int_zero _ _ (λ h. zeros (c _ (Values.and-zero_value F t _ _ ha hb h)))
              (on_a int_zero _ _ (λ h. zeros (c _ (Values.zero-and_value F t _ _ ha hb h))) keeps)))
    collapse_bin-Justified BinOp.or c =
        on_b int_zero _ _ (λ h. uses na (c _ (Values.or-zero_value F t _ _ ha hb h)))
          (on_a int_zero _ _ (λ h. uses nb (c _ (Values.zero-or_value F t _ _ ha hb h)))
            (on_b int_all_ones _ _ (λ h. uses nb (c _ (Values.or-ones_value F t _ _ ha hb h)))
              (on_a int_all_ones _ _ (λ h. uses na (c _ (Values.ones-or_value F t _ _ ha hb h)))
                keeps)))
    collapse_bin-Justified BinOp.xor c =
        on_b int_zero _ _ (λ h. uses na (c _ (Values.xor-zero_value F t _ _ ha hb h)))
          (on_a int_zero _ _ (λ h. uses nb (c _ (Values.zero-xor_value F t _ _ ha hb h)))
            (on_b int_all_ones _ _
              (λ h.
                let (e, int) = Values.xor-ones_value F t _ _ ha hb h in
                complements na ha int (c _ e))
              keeps))
    collapse_bin-Justified BinOp.shl c =
        on_b int_zero _ _ (λ h. uses na (c _ (Values.shl-zero F t _ _ ha hb h))) keeps
    collapse_bin-Justified BinOp.shr c =
        on_b int_zero _ _ (λ h. uses na (c _ (Values.shr-zero F t _ _ ha hb h))) keeps
    collapse_bin-Justified BinOp.min c =
        pick (a == b) _ _
          (λ h. uses na (c _ (rw (sym (eq_of_== a b h)) (Values.min_self F t _ _ ha ha))))
          (λ _. keeps)
    collapse_bin-Justified BinOp.max c =
        pick (a == b) _ _
          (λ h. uses na (c _ (rw (sym (eq_of_== a b h)) (Values.max_self F t _ _ ha ha))))
          (λ _. keeps)
    collapse_bin-Justified BinOp.and_not c = keeps

module _ (F : FloatOps) (g : Graph) (ρ : Valuation) (m : Models F g ρ) where
  -- A constant input has the value of its payload.
  pub const_of-value : (b : NodeId) (c : ConstVal) → const_of g b ≡ some c → ρ b ≡ c
  unfolding const_of
  const_of-value b c h = ground (
    arith,
    eq_of_is (node g b).op Op.const,
    op_value-const F (node g b) (ρ (input (node g b) 1)) (ρ (input (node g b) 2))
        (ρ (input (node g b) 3)),
    (m.holds b).computed (payload (node g b)),
  )

  const_of-known :
      (b : NodeId) (test : ConstVal → Bool)
      → constant_with test (const_of g b) ≡ true
      → test (ρ b) ≡ true
  const_of-known b test h = elim (Option-cases (const_of g b)) [
    | inl e ↦ let no_test = rw e at h in cc
    | inr (c, e) ↦ rw (const_of-value b c e) (rw e at h)
  ]

  abbrev pub Named : NodeId → Type 0
  Named c = (c < size g) ⊎ (c ≡ no_node)

  module _ (neg_twice : (x : ℕ) → F.fneg (F.fneg x) ≡ x) where
    operand_typed : (t : TypeId) (i : NodeId) → (ρ i).ty ≡ t → HasType t (ρ i)
    operand_typed t i e =
        subst (λ u. HasType u (ρ i)) (sym (m.holds i).typed.ty_eq ∙ e) (m.holds i).typed

    choose_bin :
        (id : NodeId) (n : Node)
        → NodeHolds F ρ (ρ id) n
        → n.op ≡ Op.bin
        → ((i : ℕ) → Named (input n i))
        → Justified F ρ (ρ id) n.ty Named (choose g n Op.bin)
    unfolding choose
    choose_bin id n h e named = elim (Option-cases (to_bin n.sub)) [
      | inl none_op ↦ rw (none_op, choose) keeps
      | inr (op, some_op) ↦
          rw (some_op, choose)
            (collapse_bin-Justified F ρ (ρ id) n.ty Named (input n 1) (input n 2)
              (const_of g (input n 1)) (const_of g (input n 2)) (ty_is_float n.ty)
              (operand_typed n.ty (input n 1) (h.operands e).0)
              (operand_typed n.ty (input n 2) (h.operands e).1) (named 1) (named 2)
              (const_of-known (input n 1)) (const_of-known (input n 2)) op
              (λ w q. bin_value F h w op e some_op q))
    ]

    choose_cast :
        (id : NodeId) (n : Node)
        → NodeHolds F ρ (ρ id) n
        → n.op ≡ Op.cast
        → ((i : ℕ) → Named (input n i))
        → Justified F ρ (ρ id) n.ty Named (choose g n Op.cast)
    unfolding choose
    choose_cast id n h e named =
        pick F ρ (ρ id) n.ty Named ((node g (input n 1)).ty == n.ty) _ _
          (λ q.
            let same : (ρ (input n 1)).ty ≡ n.ty =
              (m.holds (input n 1)).typed.ty_eq ∙ eq_of_== _ _ q in
            let copy = cast_copies F n.ty (ρ (input n 1)) (operand_typed n.ty (input n 1) same) in
            uses (named 1) (elim (h.copies e same) [
              | inl (kind, int) ↦ cast_value F h _ CastOp.ptr e kind (copy.0 int)
              | inr (inl (kind, fp)) ↦ cast_value F h _ CastOp.fp_ext e kind (copy.1 fp)
              | inr (inr (kind, int, x)) ↦ cast_value F h _ CastOp.trunc e kind (copy.2 int x)
            ]))
          (λ _. keeps)

    choose_select :
        (id : NodeId) (n : Node)
        → NodeHolds F ρ (ρ id) n
        → n.op ≡ Op.select
        → ((i : ℕ) → Named (input n i))
        → Justified F ρ (ρ id) n.ty Named (choose g n Op.select)
    unfolding choose
    choose_select id n h e named =
        pick F ρ (ρ id) n.ty Named (input n 2 == input n 3) _ _
          (λ q. uses (named 2) (select_value F h e ∙ same_arms (eq_of_== _ _ q))) (λ _. keeps)
      where
        same_arms :
            input n 2 ≡ input n 3
            → (if (ρ (input n 1)).iv == 0 then ρ (input n 3) else ρ (input n 2)) ≡ ρ (input n 2)
        same_arms q = rw (sym q) (ground arith)

    -- Both nodes of a double negation have the same operation.
    twice_negated :
        (id : NodeId) (n x : Node) (op : UnOp)
        → NodeHolds F ρ (ρ id) n
        → n.op ≡ Op.un
        → to_un n.sub ≡ some op
        → x ≡ node g (input n 1)
        → x.op ≡ Op.un
        → to_un x.sub ≡ some op
        → ρ id ≡ ρ (input x 1)
    twice_negated id n x op h e s q ex sx =
        let hx = subst (λ k. NodeHolds F ρ (ρ (input n 1)) k) (sym q) (m.holds (input n 1)) in
        un_twice F neg_twice n.ty (node g (input x 1)).ty (ρ id) (ρ (input n 1)) (ρ (input x 1))
          h.typed (m.holds (input x 1)).typed op (un_defined F hx op ex sx) (un_defined F h op e s)

    same_operation :
        (n x : Node) (op : UnOp) (b : Bool)
        → to_un n.sub ≡ some op
        → (x.op is Op.un && x.sub == n.sub && b) ≡ true
        → (x.op ≡ Op.un) × (to_un x.sub ≡ some op)
    same_operation n x op b s c =
        (eq_of_is x.op Op.un (ground arith), rw (let e : x.sub ≡ n.sub = ground arith in e) s)

    both_neg :
        (x : Node) (op : UnOp)
        → (x.op is Op.un && x.sub == un_code UnOp.neg && un_code op == un_code UnOp.neg) ≡ true
        → (x.op ≡ Op.un) × (to_un x.sub ≡ some op)
    both_neg x UnOp.neg c = (
      eq_of_is x.op Op.un (ground arith),
      rw (let e : x.sub ≡ un_code UnOp.neg = ground arith in e) refl,
    )
    both_neg x UnOp.not c = absurd (ground arith)
    both_neg x UnOp.bnot c = absurd (ground arith)

    choose_un :
        (id : NodeId) (n : Node)
        → NodeHolds F ρ (ρ id) n
        → n.op ≡ Op.un
        → Named (input (node g (input n 1)) 1)
        → Justified F ρ (ρ id) n.ty Named (choose g n Op.un)
    unfolding choose collapse_un
    choose_un id n h e named = elim (Option-cases (to_un n.sub)) [
      | inl none_op ↦ rw (none_op, choose) keeps
      | inr (op, some_op) ↦
          rw (some_op, choose)
            (let x = node g (input n 1) in
              pick F ρ (ρ id) n.ty Named _ _ _
                (λ c.
                  let (ex, sx) = same_operation n x op _ some_op c in
                  uses named (twice_negated id n x op h e some_op refl ex sx))
                (λ _.
                  pick F ρ (ρ id) n.ty Named _ _ _
                    (λ c.
                      let (ex, sx) = both_neg x op c in
                      uses named (twice_negated id n x op h e some_op refl ex sx))
                    (λ _. keeps)))
    ]

    -- The action that `visit` chooses for a node that holds is justified.
    pub choose-Justified :
        (id : NodeId) (op : Op)
        → (node g id).op ≡ op
        → Justified F ρ (ρ id) (node g id).ty Named (choose g (node g id) op)
    unfolding choose
    choose-Justified id Op.bin e = choose_bin id (node g id) (m.holds id) e (λ i. m.in_range id i)
    choose-Justified id Op.cast e = choose_cast id (node g id) (m.holds id) e (λ i. m.in_range id i)
    choose-Justified id Op.select e =
        choose_select id (node g id) (m.holds id) e (λ i. m.in_range id i)
    choose-Justified id Op.un e =
        choose_un id (node g id) (m.holds id) e (m.in_range (input (node g id) 1) 1)
    choose-Justified id _ e = keeps
