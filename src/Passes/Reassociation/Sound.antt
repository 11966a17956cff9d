-- ===== src/Passes/Reassociation/Sound.antt =====
-- p13 keeps the meaning of the graph.
use jules.Prelude.{
  ℕ, ◌<◌, ◌≡◌, inl, inr, refl, sym, ap, ◌∙◌, subst, arith, Bool, true, false, not, ◌&&◌, ◌||◌, some,
  none, Option-cases, if◌then◌else◌, Bool-cases, length, ◌==◌,
}
use jules.Son.Types.{TypeId, ty_is_float}
use jules.Son.Node.{NodeId, Op, input, ◌is◌, eq_of_is, to_bin}
use jules.Son.Graph.{Graph, node, size}
use jules.Son.Graph.Uses.{HasFreshUses}
use jules.Passes.ConstEval.{FloatOps, ConstVal, payload, eval_bin_const}
use jules.Passes.Meaning.{Valuation, HasType, Holds, Models, op_value, folded_value, ◌>>=◌}
use jules.Passes.Meaning.Edit.{Refines}
use jules.Passes.Meaning.Rewire.{Rewired, Rewired-refl, set_input-Rewired}
use jules.Passes.Meaning.Rewire.Refine.{Rewired-Refines}
use jules.Passes.Meaning.Rewire.Run.{HasSlots, run_rewiring-Ends}
use jules.Passes.Driver.Rule.{Ends}
use jules.Passes.Reassociation.{
  is_commutative, out_of_order, swap_operands, visit, run_reassociation,
}
use jules.Passes.Reassociation.Values.{Commutes, eval_bin_const_comm}

HasType-own : (t u : TypeId) (v : ConstVal) → HasType u v → v.ty ≡ t → HasType t v
HasType-own t u v h e = let k : u ≡ t = sym h.ty_eq ∙ e in subst (λ x. HasType x v) k h

-- A commutative node may have its operands the other way round.
swap-Holds :
    (F : FloatOps) (v : ConstVal) (sub : ℕ) (t : TypeId) (own a b c : ConstVal) (ta tb : TypeId)
    → HasType ta a
    → HasType tb b
    → (ty_is_float t ≡ true → Commutes F)
    → is_commutative (to_bin sub) ≡ true
    → Holds F v Op.bin sub t own a b c
    → Holds F v Op.bin sub t own b a c
unfolding op_value is_commutative
swap-Holds F v sub t own a b c ta tb ha hb f swaps h = elim (Option-cases (to_bin sub)) [
  | inl e ↦ absurd (let k : is_commutative none ≡ true = rw e at swaps in cc)
  | inr (o, e) ↦
      let swaps' : is_commutative (some o) ≡ true = rw e at swaps in
      let (ea, eb) = h.operands refl in
      let same =
        eval_bin_const_comm F o t b a (HasType-own t tb b hb eb) (HasType-own t ta a ha ea) f
          swaps' in
      record {
        typed = h.typed;
        computed = λ w q. h.computed w (
            rw e (
              let q' : (some o >>= λ o'. folded_value (eval_bin_const F o' b a)) ≡ some w =
                rw e at q in
              ap folded_value (sym same) ∙ q'));
        operands = λ k. (eb, ea);
        unary = λ k. cc;
        copies = λ k. cc;
      }
]

-- The inputs 1 and 2 of the node change places.
swap_operands-Rewired :
    (g : Graph) (id a b : NodeId)
    → id < size g
    → length (node g id).slots ≡ 16
    → HasFreshUses g
    → Rewired g id
        (λ i. if i == 2 then a else if i == 1 then b else input (node g id) i)
        (swap_operands g id a b)
unfolding swap_operands
swap_operands-Rewired g id a b hid l fresh =
    set_input-Rewired g _ id _ 2 a hid (omega arith)
      (set_input-Rewired g _ id _ 1 b hid (omega arith) (Rewired-refl g id l fresh))

-- The test of a visit that leaves the node alone.
abbrev stays : Bool → Graph → NodeId → Bool
stays fp_fast g id =
    let n = node g id in
    not (n.op is Op.bin)
    || ty_is_float n.ty && not fp_fast
    || not (is_commutative (to_bin n.sub))
    || not (out_of_order g (input n 1) (input n 2))

visit-stays :
    (fp_fast : Bool) (g : Graph) (id : NodeId)
    → stays fp_fast g id ≡ true
    → visit fp_fast g id ≡ (g, false)
unfolding visit
visit-stays fp_fast g id h = ground arith

visit_swaps :
    (fp_fast : Bool) (g : Graph) (id : NodeId)
    → stays fp_fast g id ≡ false
    → visit fp_fast g id ≡ (swap_operands g id (input (node g id) 1) (input (node g id) 2), true)
unfolding visit
visit_swaps fp_fast g id h = ground arith

pub visit-Rewired :
    (fp_fast : Bool) (g : Graph) (id : NodeId)
    → id < size g
    → length (node g id).slots ≡ 16
    → HasFreshUses g
    → (ins : ℕ → NodeId) × Rewired g id ins (visit fp_fast g id).0
visit-Rewired fp_fast g id hid l fresh = elim (Bool-cases (stays fp_fast g id)) [
  | inl h ↦ rw (visit-stays fp_fast g id h) (input (node g id), Rewired-refl g id l fresh)
  | inr h ↦
      rw (visit_swaps fp_fast g id h)
        (_, swap_operands-Rewired g id (input (node g id) 1) (input (node g id) 2) hid l fresh)
]

-- A visit of p13 leaves every node's value as it is.
pub reassociation_visit-Refines :
    (F : FloatOps) (fp_fast : Bool)
    → (fp_fast ≡ true → Commutes F)
    → (g : Graph) (ρ : Valuation) (id : NodeId) → Models F g ρ
    → HasFreshUses g
    → id < size g
    → length (node g id).slots ≡ 16
    → Refines F g ρ (visit fp_fast g id).0
reassociation_visit-Refines F fp_fast f g ρ id m fresh hid l =
    elim (Bool-cases (stays fp_fast g id)) [
      | inl h ↦ rw (visit-stays fp_fast g id h) (ρ, λ k q. refl, m, fresh, omega arith)
      | inr h ↦
          let n = node g id in
          let bin : n.op ≡ Op.bin = eq_of_is n.op Op.bin (ground arith) in
          rw (visit_swaps fp_fast g id h) (
            Rewired-Refines F g ρ m id _ _
              (swap_operands-Rewired g id (input n 1) (input n 2) hid l fresh)
              (λ i. ground (arith, m.in_range id 1, m.in_range id 2, m.in_range id i))
              (subst
                (λ o.
                  Holds F (ρ id) o n.sub n.ty (payload n) (ρ (input n 2)) (ρ (input n 1))
                    (ρ (input n 3)))
                (sym bin)
                (swap-Holds F (ρ id) n.sub n.ty (payload n) (ρ (input n 1)) (ρ (input n 2))
                  (ρ (input n 3)) _ _ (m.holds (input n 1)).typed (m.holds (input n 2)).typed
                  (λ fl. f (ground arith)) (ground arith)
                  (subst
                    (λ o.
                      Holds F (ρ id) o n.sub n.ty (payload n) (ρ (input n 1)) (ρ (input n 2))
                        (ρ (input n 3)))
                    bin (m.holds id)))))
    ]

-- The whole of p13, on a graph that holds of a valuation, whose use lists can be trusted and whose
-- nodes have sixteen slots each, ends within its fuel and without a trap, in a graph that holds of
-- a valuation that agrees on all the nodes; with the fast floating point, if floating-point sums
-- and products do not depend on the order of their operands.
pub run_reassociation-Ends :
    (F : FloatOps) (fp_fast : Bool) (g : Graph) (ρ : Valuation)
    → (fp_fast ≡ true → Commutes F)
    → Models F g ρ
    → HasFreshUses g
    → HasSlots g
    → Ends (λ h. Refines F g ρ h × HasSlots h) (run_reassociation fp_fast g)
unfolding run_reassociation
run_reassociation-Ends F fp_fast g ρ f m fresh slots =
    run_rewiring-Ends F (visit fp_fast) (visit-Rewired fp_fast)
      (reassociation_visit-Refines F fp_fast f) g ρ 4 m fresh slots
