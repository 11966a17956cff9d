-- ===== src/Passes/SelectOptimization/Sound.antt =====
-- p17 keeps the meaning of the graph.
use jules.Prelude.{
  ℕ, ◌<◌, ◌≡◌, inl, inr, refl, sym, ap, ◌∙◌, subst, arith, Bool, true, false, not, some, ◌==◌, ◌&&◌,
  if◌then◌else◌, Bool-cases, eq_of_==, length,
}
use jules.Son.Types.{ty_i1}
use jules.Son.Node.{NodeId, Op, UnOp, input, ◌is◌, eq_of_is, un_code, to_un}
use jules.Son.Graph.{Graph, node, size}
use jules.Son.Graph.Uses.{HasFreshUses}
use jules.Passes.ConstEval.{FloatOps, ConstVal, Folded, payload, eval_un_const}
use jules.Passes.Meaning.{Valuation, Holds, Models, op_value}
use jules.Passes.Meaning.Edit.{Refines}
use jules.Passes.Meaning.Values.{select_value, un_defined}
use jules.Passes.SelectOptimization.{
  Action, keep, swap_arms, set_true_arm, set_false_arm, choose, perform, visit,
}
use jules.Passes.Meaning.Rewire.{Rewired, Rewired-refl, set_input-Rewired}
use jules.Passes.Meaning.Rewire.Refine.{Named, Rewired-Refines}

iv_of : Folded → ℕ
iv_of (Folded.value w) = w.iv
iv_of Folded.runtime = 0
iv_of Folded.trap = 0

not_of_sub : (sub : ℕ) → (sub == un_code UnOp.not) ≡ true → to_un sub ≡ some UnOp.not
not_of_sub sub h = rw (eq_of_== sub 1 h) refl

swapped :
    (v t f : ConstVal) (a c : ℕ)
    → v ≡ (if c == 0 then f else t)
    → c ≡ (if a == 0 then 1 else 0)
    → v ≡ (if a == 0 then t else f)
swapped v t f a c h k = elim (Bool-cases (a == 0)) [
  | inl e ↦ rw e (h ∙ rw (k, e) refl)
  | inr e ↦ rw e (h ∙ rw (k, e) refl)
]

nested_true :
    (b : Bool) (v t f x y : ConstVal)
    → v ≡ (if b then f else t)
    → t ≡ (if b then y else x)
    → v ≡ (if b then f else x)
nested_true true v t f x y h k = h
nested_true false v t f x y h k = h ∙ k

nested_false :
    (b : Bool) (v t f x y : ConstVal)
    → v ≡ (if b then f else t)
    → f ≡ (if b then y else x)
    → v ≡ (if b then y else t)
nested_false true v t f x y h k = h ∙ k
nested_false false v t f x y h k = h

iv-not :
    (F : FloatOps) (a w : ConstVal)
    → eval_un_const F UnOp.not a ≡ Folded.value w
    → w.iv ≡ (if a.iv == 0 then 1 else 0)
unfolding eval_un_const iv_of
iv-not F a w h = elim (Bool-cases (a.ty == ty_i1)) [
  | inl e ↦
      let h' : Folded.value
            (record { is_fp = a.is_fp; ty = a.ty; iv = if a.iv == 0 then 1 else 0; fv = 0 })
          ≡ Folded.value w =
        rw e at h in
      ap iv_of (sym h')
  | inr e ↦ let h' : Folded.runtime ≡ Folded.value w = rw e at h in absurd (cc)
]

module _ (F : FloatOps) (g : Graph) (ρ : Valuation) (m : Models F g ρ) (id : NodeId) where
  -- A select may have any inputs that select the same value.
  select-Holds :
      (a b c : ConstVal)
      → (node g id).op ≡ Op.select
      → ρ id ≡ (if a.iv == 0 then c else b)
      → Holds F (ρ id) (node g id).op (node g id).sub (node g id).ty (payload (node g id)) a b c
  unfolding op_value
  select-Holds a b c e q = record {
    typed = (m.holds id).typed;
    computed = λ w k. (let k' = rw e at k in cc);
    operands = λ k. cc;
    unary = λ k. cc;
    copies = λ k. cc;
  }

  negated_value :
      (c : NodeId)
      → (node g c).op ≡ Op.un
      → to_un (node g c).sub ≡ some UnOp.not
      → (ρ c).iv ≡ (if (ρ (input (node g c) 1)).iv == 0 then 1 else 0)
  negated_value c e s =
      let a = ρ (input (node g c) 1) in
      let h : eval_un_const F UnOp.not a ≡ Folded.value (ρ c) =
        un_defined F (m.holds c) UnOp.not e s in
      iv-not F a (ρ c) h

  -- What makes an action right: the select's new inputs select its value.
  data Right : Action → Type 0 where
    keeps : Right keep
    swaps :
        {c : NodeId}
        → Named g c
        → ρ id ≡ (if (ρ c).iv == 0 then ρ (input (node g id) 2) else ρ (input (node g id) 3))
        → Right (swap_arms c)
    sets_true :
        {t : NodeId}
        → Named g t
        → ρ id ≡ (if (ρ (input (node g id) 1)).iv == 0 then ρ (input (node g id) 3) else ρ t)
        → Right (set_true_arm t)
    sets_false :
        {f : NodeId}
        → Named g f
        → ρ id ≡ (if (ρ (input (node g id) 1)).iv == 0 then ρ f else ρ (input (node g id) 2))
        → Right (set_false_arm f)

  choose-Right : (node g id).op ≡ Op.select → Right (choose g id (node g id))
  unfolding choose
  choose-Right e =
      let n = node g id in
      let c = input n 1 in
      let cn = node g c in
      let tn = node g (input n 2) in
      let fn = node g (input n 3) in
      let value = select_value F (m.holds id) e in
      elim (Bool-cases (cn.op is Op.un && cn.sub == un_code UnOp.not)) [
        | inl h ↦ rw h (
            swaps (m.in_range c 1) (
              swapped (ρ id) (ρ (input n 2)) (ρ (input n 3)) (ρ (input cn 1)).iv (ρ c).iv value (
                negated_value c (eq_of_is cn.op Op.un (ground arith))
                  (not_of_sub cn.sub (ground arith)))))
        | inr h ↦
            elim (Bool-cases (tn.op is Op.select && input tn 1 == c && not (input n 2 == id))) [
              | inl k ↦
                  rw (h, k)
                    (sets_true (m.in_range (input n 2) 2) (
                      nested_true ((ρ c).iv == 0) (ρ id) (ρ (input n 2)) (ρ (input n 3))
                        (ρ (input tn 2)) (ρ (input tn 3)) value
                        (subst
                          (λ x.
                            ρ (input n 2)
                            ≡ (if (ρ x).iv == 0 then ρ (input tn 3) else ρ (input tn 2)))
                          (eq_of_== (input tn 1) c (ground arith))
                          (select_value F (m.holds (input n 2))
                            (eq_of_is tn.op Op.select (ground arith))))))
              | inr k ↦
                  elim (Bool-cases
                    (fn.op is Op.select && input fn 1 == c && not (input n 3 == id))) [
                      | inl l ↦
                          rw (h, k, l)
                            (sets_false (m.in_range (input n 3) 3) (
                              nested_false ((ρ c).iv == 0) (ρ id) (ρ (input n 2)) (ρ (input n 3))
                                (ρ (input fn 2)) (ρ (input fn 3)) value
                                (subst
                                  (λ x.
                                    ρ (input n 3)
                                    ≡ (if (ρ x).iv == 0 then ρ (input fn 3) else ρ (input fn 2)))
                                  (eq_of_== (input fn 1) c (ground arith))
                                  (select_value F (m.holds (input n 3))
                                    (eq_of_is fn.op Op.select (ground arith))))))
                      | inr l ↦ rw (h, k, l) keeps
                    ]
            ]
      ]

  perform-Refines :
      (act : Action)
      → (node g id).op ≡ Op.select
      → id < size g
      → length (node g id).slots ≡ 16
      → HasFreshUses g
      → Right act
      → Refines F g ρ (perform g id (node g id) act).0
  unfolding perform
  perform-Refines keep e hid l fresh j = (ρ, λ k h. refl, m, fresh, omega arith)
  perform-Refines (swap_arms c) e hid l fresh (swaps named v) =
      let n = node g id in
      let r0 = Rewired-refl g id l fresh in
      let r1 = set_input-Rewired g _ id _ 1 c hid (omega arith) r0 in
      let r2 = set_input-Rewired g _ id _ 2 (input n 3) hid (omega arith) r1 in
      let r3 = set_input-Rewired g _ id _ 3 (input n 2) hid (omega arith) r2 in
      Rewired-Refines F g ρ m id _ _ r3
        (λ i. ground (arith, m.in_range id 2, m.in_range id 3, m.in_range id i))
        (select-Holds (ρ c) (ρ (input n 3)) (ρ (input n 2)) e v)
  perform-Refines (set_true_arm t) e hid l fresh (sets_true named v) =
      let n = node g id in
      Rewired-Refines F g ρ m id _ _
        (set_input-Rewired g _ id _ 2 t hid (omega arith) (Rewired-refl g id l fresh))
        (λ i. ground (arith, m.in_range id i))
        (select-Holds (ρ (input n 1)) (ρ t) (ρ (input n 3)) e v)
  perform-Refines (set_false_arm f) e hid l fresh (sets_false named v) =
      let n = node g id in
      Rewired-Refines F g ρ m id _ _
        (set_input-Rewired g _ id _ 3 f hid (omega arith) (Rewired-refl g id l fresh))
        (λ i. ground (arith, m.in_range id i))
        (select-Holds (ρ (input n 1)) (ρ (input n 2)) (ρ f) e v)

-- Whatever it chooses, the pass only changes the inputs of the node that it visits.
perform-Rewired :
    (g : Graph) (id : NodeId) (act : Action)
    → id < size g
    → length (node g id).slots ≡ 16
    → HasFreshUses g
    → (ins : ℕ → NodeId) × Rewired g id ins (perform g id (node g id) act).0
unfolding perform
perform-Rewired g id keep hid l fresh = (input (node g id), Rewired-refl g id l fresh)
perform-Rewired g id (swap_arms c) hid l fresh =
    let n = node g id in
    let r1 = set_input-Rewired g _ id _ 1 c hid (omega arith) (Rewired-refl g id l fresh) in
    let r2 = set_input-Rewired g _ id _ 2 (input n 3) hid (omega arith) r1 in
    (_, set_input-Rewired g _ id _ 3 (input n 2) hid (omega arith) r2)
perform-Rewired g id (set_true_arm t) hid l fresh =
    (_, set_input-Rewired g _ id _ 2 t hid (omega arith) (Rewired-refl g id l fresh))
perform-Rewired g id (set_false_arm f) hid l fresh =
    (_, set_input-Rewired g _ id _ 3 f hid (omega arith) (Rewired-refl g id l fresh))

pub visit-Rewired :
    (g : Graph) (id : NodeId)
    → id < size g
    → length (node g id).slots ≡ 16
    → HasFreshUses g
    → (ins : ℕ → NodeId) × Rewired g id ins (visit g id).0
unfolding visit
visit-Rewired g id hid l fresh = elim (Bool-cases ((node g id).op is Op.select)) [
  | inl q ↦ rw q (perform-Rewired g id (choose g id (node g id)) hid l fresh)
  | inr q ↦ rw q (input (node g id), Rewired-refl g id l fresh)
]

-- A visit of p17 at a node with the array of sixteen slots leaves every node's value as it is: if
-- the graph holds of a valuation and its use lists can be trusted, then the graph after the visit
-- holds of a valuation that agrees on all the old nodes, and its use lists can be trusted.
pub select_visit-Refines :
    (F : FloatOps) (g : Graph) (ρ : Valuation) (id : NodeId)
    → Models F g ρ
    → HasFreshUses g
    → id < size g
    → length (node g id).slots ≡ 16
    → Refines F g ρ (visit g id).0
unfolding visit
select_visit-Refines F g ρ id m fresh hid l = elim (Bool-cases ((node g id).op is Op.select)) [
  | inl q ↦
      let e = eq_of_is (node g id).op Op.select q in
      rw q (
        perform-Refines F g ρ m id (choose g id (node g id)) e hid l fresh
          (choose-Right F g ρ m id e))
  | inr q ↦ rw q (ρ, λ k h. refl, m, fresh, omega arith)
]
