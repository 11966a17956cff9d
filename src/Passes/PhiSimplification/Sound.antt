-- ===== src/Passes/PhiSimplification/Sound.antt =====
-- A phi that p07 replaces is gone.
use jules.Prelude.{
  ◌≤◌, ◌<◌, ◌≡◌, inl, inr, arith, ◌==◌, true, false, ◌||◌, if◌then◌else◌, Bool-cases, Option-cases,
}
use jules.Son.Node.{NodeId, Op, no_node, input, ◌is◌}
use jules.Son.Graph.{Graph, node, size}
use jules.Son.Graph.Uses.{HasFreshUses}
use jules.Passes.Phis.{common_input, phi_values, strip_self, replace}
use jules.Passes.Phis.Gone.{Gone, replace-Gone, strip_self-HasFreshUses, size-strip_self}
use jules.Passes.PhiSimplification.{visit_phi}

-- A replacement that reports a change leaves the node gone.
replaced-Gone :
    (g : Graph) (from to : NodeId)
    → HasFreshUses g
    → from < size g
    → size g ≤ no_node
    → (replace g from to).1 ≡ true
    → Gone from (replace g from to).0
unfolding replace
replaced-Gone g from to fresh lt room h = elim (Bool-cases (from == to || to == no_node)) [
  | inl q ↦ let h' : false ≡ true = rw (q) at h in absurd (cc)
  | inr q ↦ rw (q) (replace-Gone g from to fresh lt room (λ e. ground arith))
]

guarded-Gone :
    (g g0 : Graph) (from to : NodeId)
    → HasFreshUses g
    → from < size g
    → size g ≤ no_node
    → (if to == no_node then (g0, false) else replace g from to).1 ≡ true
    → Gone from (if to == no_node then (g0, false) else replace g from to).0
guarded-Gone g g0 from to fresh lt room h = elim (Bool-cases (to == no_node)) [
  | inl q ↦ let h' : false ≡ true = rw (q) at h in absurd (cc)
  | inr q ↦ rw (q) (replaced-Gone g from to fresh lt room (rw (q) at h))
]

-- In a graph with fresh uses and no more nodes than indices: where the visit of a phi, a node of the
-- graph, says that it changed the graph, the phi is dead afterwards and no node has it for an input.
pub visit_phi-Gone :
    (g : Graph) (id : NodeId)
    → HasFreshUses g
    → id < size g
    → size g ≤ no_node
    → (visit_phi g id).1 ≡ true
    → Gone id (visit_phi g id).0
unfolding visit_phi
visit_phi-Gone g id fresh lt room h =
    let n = node g id in
    elim (Bool-cases ((node g (input n 0)).op is Op.dead)) [
      | inl q ↦ let h' : false ≡ true = rw (q) at h in absurd (cc)
      | inr q ↦ elim (Bool-cases (n.n_in == 2)) [
        | inl two ↦ rw (q, two) (replaced-Gone g id (input n 1) fresh lt room (rw (q, two) at h))
        | inr other ↦ elim (Option-cases (common_input id no_node (phi_values n))) [
          | inl e ↦ let h' : false ≡ true = rw (q, other, e) at h in absurd (cc)
          | inr (c, e) ↦
              rw (q, other, e)
                (guarded-Gone (strip_self g id c) g id c (strip_self-HasFreshUses g id c)
                  (rw (size-strip_self g id c) lt) (rw (size-strip_self g id c) room)
                  (rw (q, other, e) at h))
        ]
      ]
    ]
