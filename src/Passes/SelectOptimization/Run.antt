-- ===== src/Passes/SelectOptimization/Run.antt =====
-- The whole of p17: its rounds end and keep the meaning of the graph.
use jules.Son.Graph.{Graph}
use jules.Son.Graph.Uses.{HasFreshUses}
use jules.Passes.ConstEval.{FloatOps}
use jules.Passes.Meaning.{Valuation, Models}
use jules.Passes.Meaning.Edit.{Refines}
use jules.Passes.Driver.Rule.{Ends}
use jules.Passes.Meaning.Rewire.Run.{HasSlots, run_rewiring-Ends}
use jules.Passes.SelectOptimization.{visit, run_select}
use jules.Passes.SelectOptimization.Sound.{visit-Rewired, select_visit-Refines}

-- The whole of p17, on a graph that holds of a valuation, whose use lists can be trusted and
-- whose nodes have sixteen slots each, ends within its fuel and without a trap, in a graph that
-- holds of a valuation that agrees on all the nodes.
pub run_select-Ends :
    (F : FloatOps) (g : Graph) (ρ : Valuation)
    → Models F g ρ
    → HasFreshUses g
    → HasSlots g
    → Ends (λ h. Refines F g ρ h × HasSlots h) (run_select g)
unfolding run_select
run_select-Ends F g ρ m fresh slots =
    run_rewiring-Ends F visit visit-Rewired (select_visit-Refines F) g ρ 4 m fresh slots
