-- ===== src/Passes/Meaning/Rewire/Run.antt =====
-- The rounds of a pass whose visits change the inputs of the node that they visit, and no value.
use jules.Prelude.{◌+◌, ◌≤◌, ◌<◌, ◌≡◌, ℕ, refl, sym, ap, ◌∙◌, arith, length, ℕ_discrete, some, Bool}
use jules.Son.Node.{NodeId}
use jules.Son.Graph.{Graph, node, size}
use jules.Son.Graph.Uses.{HasFreshUses}
use jules.Passes.ConstEval.{FloatOps}
use jules.Passes.Meaning.{Valuation, Models}
use jules.Passes.Meaning.Edit.{Refines, Refines-trans}
use jules.Passes.Meaning.Rewire.{Rewired}
use jules.Passes.Driver
use jules.Passes.Driver.Rule.{Ends, run-Ends}

-- Every node has the array of sixteen slots.
abbrev pub HasSlots : Graph → Type 0
HasSlots g = (j : NodeId) → j < size g → length (node g j).slots ≡ 16

module _ (F : FloatOps) (visit : Graph → NodeId → Graph × Bool)
    (rewires : (g : Graph) (id : NodeId)
      → id < size g
      → length (node g id).slots ≡ 16
      → HasFreshUses g
      → (ins : ℕ → NodeId) × Rewired g id ins (visit g id).0)
    (refines : (g : Graph) (ρ : Valuation) (id : NodeId)
      → Models F g ρ
      → HasFreshUses g
      → id < size g
      → length (node g id).slots ≡ 16
      → Refines F g ρ (visit g id).0)
    (g : Graph) (ρ : Valuation) where
  abbrev Kept : Graph → Type 0
  Kept h = Refines F g ρ h × HasSlots h

  visit-Kept :
      (h : Graph) (id : NodeId)
      → Kept h
      → id < size h
      → Kept (visit h id).0 × (size (visit h id).0 ≤ size h)
  visit-Kept h id (r, slots) hid =
      let (σ, same, m, fresh, le) = r in
      let (ins, w) = rewires h id hid (slots id hid) fresh in
      (
        (
          Refines-trans F g h (visit h id).0 ρ r
              (λ τ m' fresh'. refines h τ id m' fresh' hid (slots id hid)),
          λ j lt. elim (ℕ_discrete j id) [
            | yes e ↦ rw e w.slot_count
            | no ne ↦ ap (λ n. length n.slots) (w.others j ne) ∙ slots j (rw (sym w.same_size) lt)
          ],
        ),
        omega (arith, w.same_size),
      )

  pub run_rewiring-Ends :
      (k : ℕ)
      → Models F g ρ
      → HasFreshUses g
      → HasSlots g
      → Ends
          (λ h. Refines F g ρ h × HasSlots h)
          (Driver.run (λ h id. some (visit h id)) (λ h. size h + 1) k g)
  run_rewiring-Ends k m fresh slots =
      run-Ends (λ h id. some (visit h id)) Kept size (λ h p. omega arith)
        (λ h id p lt.
          let (q, le) = visit-Kept h id p lt in ((visit h id).0, (visit h id).1, refl, q, le))
        (λ h. size h + 1) k g (λ h p. omega arith) ((ρ, λ j lt. refl, m, fresh, omega arith), slots)
