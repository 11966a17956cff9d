-- ===== src/Passes/Phis.antt =====
-- What the phi and copy passes p07, p10 and p11 of jules/src/core/son/passes share: the one value that
-- a phi passes on.
pub mod Gone
use jules.Prelude.{
  ℕ, zero, suc, ◌==◌, Bool, true, false, ◌||◌, Option, none, some, List, [], ◌∷◌, drop,
  if◌then◌else◌,
}
use jules.Son.Node.{NodeId, Node, no_node, inputs}
use jules.Son.Graph.{Graph, node, put, replace_tail, replace_all_uses, kill}

-- `common` after the input `v`, or `none` where they differ.
abbrev pub merge : NodeId → NodeId → NodeId → Option NodeId
merge id common v =
    if v == id
    then some common
    else if common == no_node
    then some v
    else if v == common
    then some common
    else none

-- The loop over the inputs; `none` is `all_same = false`.
unfoldable pub common_input : NodeId → NodeId → List NodeId → Option NodeId
common_input id common [] = some common
common_input id common (v ∷ vs) = elim (merge id common v) [
  | none ↦ none
  | some c ↦ common_input id c vs
]

-- The inputs of a phi, without its region.
abbrev pub phi_values : Node → List NodeId
phi_values n = drop 1 (inputs n)

-- `if (n.in[i] == id) n.in[i] = common` for i from 1 on, and mark_uses_dirty
unfoldable pub strip_self : Graph → NodeId → NodeId → Graph
strip_self g id common =
    let n = node g id in put g id (record n { slots = replace_tail n.n_in id common n.slots })

-- PhiSimplifier::replace
unfoldable pub replace : Graph → NodeId → NodeId → Graph × Bool
replace g from to =
    if from == to || to == no_node
    then (g, false)
    else (kill (replace_all_uses g from to) from, true)
