-- ===== src/Passes/Driver.antt =====
-- The loop that the rewriting passes of jules/src/core/son/passes share: rounds of a sweep over the
-- node ids, nodes that the sweep adds included, until a round changes nothing or the rounds run out.
pub mod Rule
use jules.Prelude.{
  ℕ, zero, suc, ◌+◌, Bool, true, false, ◌||◌, Option, none, some, ltb, if◌then◌else◌,
}
use jules.Son.Node.{NodeId}
use jules.Son.Graph.{Graph, size}

-- `trapped`: a visit ended the compiler. `out_of_fuel`: the sweep had more steps than fuel.
pub data Outcome : Type 0 where
  finished : Graph → Bool → Outcome
  trapped : Outcome
  out_of_fuel : Outcome

-- A pass's `visit`, with what it returns; `none` is a trap.
abbrev pub Visit : Type 0
Visit = Graph → NodeId → Option (Graph × Bool)

module _ (visit : Visit) where
  -- `for (id = 0; id < g_.size(); ++id) this_round |= visit(id);` from the id `id` on.
  unfoldable pub sweep : ℕ → NodeId → Graph → Bool → Outcome
  sweep zero id g this_round = out_of_fuel
  sweep (suc fuel) id g this_round = elim (ltb id (size g)) [
    | false ↦ finished g this_round
    | true ↦ elim (visit g id) [
      | none ↦ trapped
      | some (g', changed) ↦ sweep fuel (id + 1) g' (this_round || changed)
    ]
  ]

  -- `rounds` rounds; each sweep has the fuel that `fuel` gives for its graph.
  unfoldable pub rounds : (Graph → ℕ) → ℕ → Graph → Bool → Outcome
  rounds fuel zero g changed = finished g changed
  rounds fuel (suc k) g changed = elim (sweep (fuel g) 0 g false) [
    | trapped ↦ trapped
    | out_of_fuel ↦ out_of_fuel
    | finished g' this_round ↦ elim this_round [
      | true ↦ rounds fuel k g' (changed || true)
      | false ↦ finished g' (changed || false)
    ]
  ]

  unfoldable pub run : (Graph → ℕ) → ℕ → Graph → Outcome
  unfolding rounds sweep
  run fuel max_rounds g = rounds fuel max_rounds g false
