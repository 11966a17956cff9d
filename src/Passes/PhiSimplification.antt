-- ===== src/Passes/PhiSimplification.antt =====
-- jules/src/core/son/passes/p07_phi_simplification.cpp: phis that pass one value on, and regions with
-- one predecessor.
pub mod Sound
use jules.Passes.Driver.{Outcome, Visit}
use jules.Passes.Driver
use jules.Passes.Phis.{common_input, phi_values, strip_self, replace}
use jules.Prelude.{
  ℕ, zero, suc, ◌+◌, ◌==◌, Bool, true, false, not, ◌&&◌, ◌||◌, Option, none, some, List, [], ◌∷◌,
  if◌then◌else◌,
}
use jules.Son.Node.{NodeId, Node, Op, no_node, input, ◌is◌}
use jules.Son.Graph.{Graph, node, size, set_input, uses_of, replace_all_uses, kill}

unfoldable pub visit_phi : Graph → NodeId → Graph × Bool
unfolding common_input strip_self replace
visit_phi g id =
    let n = node g id in
    if (node g (input n 0)).op is Op.dead
    then (g, false)
    else if n.n_in == 2
    then replace g id (input n 1)
    else elim (common_input id no_node (phi_values n)) [
      | none ↦ (g, false)
      | some c ↦ if c == no_node then (g, false) else replace (strip_self g id c) id c
    ]

-- `if (un.in[j] == id) g_.set_input(u, j, pred)` for `count` slots from `j` on
unfoldable pub splice : ℕ → ℕ → Graph → NodeId → NodeId → NodeId → Graph
unfolding set_input
splice zero j g u id pred = g
splice (suc count) j g u id pred =
    splice count (j + 1) (if input (node g u) j == id then set_input g u j pred else g) u id pred

unfoldable pub repin_user : Graph → NodeId → NodeId → NodeId → Graph
unfolding splice set_input
repin_user g id pred u =
    let un = node g u in
    if un.op is Op.phi && input un 0 == id
    then kill (replace_all_uses g u (input un 1)) u
    else if un.op is Op.region
    then splice un.n_in 0 g u id pred
    else if input un 0 == id
    then set_input g u 0 pred
    else g

unfoldable pub repin : Graph → NodeId → NodeId → List NodeId → Graph
unfolding repin_user
repin g id pred [] = g
repin g id pred (u ∷ us) = repin (repin_user g id pred u) id pred us

unfoldable pub visit_region : Graph → NodeId → Graph × Bool
unfolding repin
visit_region g id =
    let n = node g id in
    let pred = input n 0 in
    if not (n.n_in == 1) || pred == id || (node g pred).op is Op.dead
    then (g, false)
    else let (g', users) = uses_of g id in (kill (repin g' id pred users) id, true)

unfoldable pub visit : Graph → NodeId → Graph × Bool
unfolding visit_phi visit_region
visit g id =
    let n = node g id in
    if n.op is Op.phi
    then visit_phi g id
    else if n.op is Op.region
    then visit_region g id
    else (g, false)

abbrev pub total_visit : Visit
total_visit g id = some (visit g id)

-- `run`: eight rounds, which add no nodes.
unfoldable pub run_phis : Graph → Outcome
unfolding Driver.run visit
run_phis g = Driver.run total_visit (λ h. size h + 1) 8 g
