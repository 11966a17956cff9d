-- ===== src/Passes/SelectOptimization.antt =====
-- jules/src/core/son/passes/p17_select_optimization.cpp: selects on a negated condition, and selects
-- nested on one condition.
pub mod Sound
pub mod Run
use jules.Passes.Driver.{Outcome, Visit}
use jules.Passes.Driver
use jules.Prelude.{ℕ, some, ◌+◌, ◌*◌, Bool, true, false, not, ◌==◌, ◌&&◌, if◌then◌else◌}
use jules.Son.Node.{NodeId, Node, Op, UnOp, input, ◌is◌, un_code}
use jules.Son.Graph.{Graph, node, size, set_input}

pub data Action : Type 0 where
  keep : Action
  swap_arms : NodeId → Action
  set_true_arm : NodeId → Action
  set_false_arm : NodeId → Action

unfoldable pub choose : Graph → NodeId → Node → Action
choose g id n =
    let c = input n 1 in
    let cn = node g c in
    let tn = node g (input n 2) in
    let fn = node g (input n 3) in
    if cn.op is Op.un && cn.sub == un_code UnOp.not
    then swap_arms (input cn 1)
    else if tn.op is Op.select && input tn 1 == c && not (input n 2 == id)
    then set_true_arm (input tn 2)
    else if fn.op is Op.select && input fn 1 == c && not (input n 3 == id)
    then set_false_arm (input fn 3)
    else keep

unfoldable pub perform : Graph → NodeId → Node → Action → Graph × Bool
unfolding set_input
perform g id n keep = (g, false)
perform g id n (swap_arms c) =
    (set_input (set_input (set_input g id 1 c) id 2 (input n 3)) id 3 (input n 2), true)
perform g id n (set_true_arm t) = (set_input g id 2 t, true)
perform g id n (set_false_arm f) = (set_input g id 3 f, true)

unfoldable pub visit : Graph → NodeId → Graph × Bool
unfolding choose perform
visit g id =
    let n = node g id in if n.op is Op.select then perform g id n (choose g id n) else (g, false)

abbrev pub total_visit : Visit
total_visit g id = some (visit g id)

-- `run`: four rounds, which add no nodes.
unfoldable pub run_select : Graph → Outcome
unfolding Driver.run visit
run_select g = Driver.run total_visit (λ h. size h + 1) 4 g
