-- ===== src/Son/Verifier/Phis.antt =====
-- What the verifier makes sure of the phis of a region, through the region's use list.
use jules.Prelude.{
  ℕ, zero, suc, ◌+◌, ◌≤◌, ◌<◌, ◌≡◌, ◌≢◌, refl, sym, subst, ◌∙◌, arith, ◌==◌, true, false, List, [],
  ◌∷◌, get_or, contains, Bool-cases, inl, inr, ℕ_discrete, eq_of_==,
}
use jules.Frontend.Diag.{Diagnostics}
use jules.Son.Node.{NodeId, Node, Op, no_node, default_node, input, inputs, ◌is◌}
use jules.Son.Graph.{Graph, node, size, uses_of, rebuild_uses}
use jules.Son.Graph.Uses.{HasFreshUses, uses_of-IsListed, rebuild_uses-IsListed}
use jules.Son.Verifier.{
  none_of, check_slots, check_preds, check_phis, check_region, check_node, check_nodes,
  check_no_dead_uses, verify_graph,
}
use jules.Son.Verifier.Sound.{no_failures-append, nodes-check_node, failures}

-- The phi `u` of the region `j` has the region in slot 0 and a value for each predecessor.
abbrev pub PhiFits : List Node → NodeId → NodeId → Type 0
PhiFits ns j u =
    let phi = get_or ns u default_node in
    (phi.n_in ≡ (get_or ns j default_node).n_in + 1) × (input phi 0 ≡ j)

none_of-check_phis :
    (g : Graph) (id u : NodeId) (us : List NodeId)
    → none_of (check_phis g id us) ≡ true
    → contains u us ≡ true
    → (node g u).op is Op.phi ≡ true
    → PhiFits g.nodes id u
unfolding check_phis
none_of-check_phis g id u [] h c p = absurd (cc)
none_of-check_phis g id u (w ∷ us) h c p =
    let (here, there) = no_failures-append _ (check_phis g id us) h in
    elim (ℕ_discrete u w) [
      | yes e ↦ let first = rw (sym e, p) at here in (grind failures, eq_of_== _ _ (grind failures))
      | no ne ↦ none_of-check_phis g id u us there (ground arith) p
    ]

check_node-HasFreshUses :
    (g : Graph) (id : NodeId) → HasFreshUses g → HasFreshUses (check_node g id).0
unfolding check_node check_region uses_of rebuild_uses
check_node-HasFreshUses g id fresh = elim (Bool-cases ((node g id).op is Op.dead)) [
  | inl d ↦ rw d fresh
  | inr d ↦ elim (Bool-cases ((node g id).op is Op.region)) [
    | inr r ↦ rw (d, r) fresh
    | inl r ↦ elim (Bool-cases ((node g id).n_in == 0)) [
      | inl z ↦ rw (d, r, z) fresh
      | inr z ↦ elim (Bool-cases g.uses_dirty) [
        | inl dirty ↦ rw (d, r, z, dirty) (λ _. rebuild_uses-IsListed g)
        | inr clean ↦ rw (d, r, z, clean) (λ _. fresh clean)
      ]
    ]
  ]
]

nodes-uses_of : (g : Graph) (n : NodeId) → (uses_of g n).0.nodes ≡ g.nodes
unfolding uses_of rebuild_uses
nodes-uses_of g n = ground arith

users-uses_of : (g : Graph) (n : NodeId) → (uses_of g n).1 ≡ get_or (uses_of g n).0.uses n []
unfolding uses_of
users-uses_of g n = refl

passed_phis :
    (g : Graph) (id u : NodeId)
    → HasFreshUses g
    → id < size g
    → id ≢ no_node
    → (node g id).op is Op.region ≡ true
    → (node g id).op is Op.dead ≡ false
    → none_of (check_node g id).1 ≡ true
    → (node g u).op is Op.phi ≡ true
    → contains id (inputs (node g u)) ≡ true
    → PhiFits g.nodes id u
unfolding check_node check_region
passed_phis g id u fresh lt named r live h p c = elim (Bool-cases ((node g id).n_in == 0)) [
  | inl z ↦ absurd (
      let q = rw (live, r, z) at h in
      let (a, b) = no_failures-append (check_slots id 0 (inputs (node g id))) _ q in cc)
  | inr z ↦
      let (g', users) = uses_of g id in
      let same = nodes-uses_of g id in
      let (a, b) =
        no_failures-append (check_slots id 0 (inputs (node g id))) _ (rw (live, r, z) at h) in
      let (a', b') = no_failures-append (check_preds g id (inputs (node g id))) _ b in
      let listed : contains u users ≡ true =
        rw (users-uses_of g id) (uses_of-IsListed g id fresh id u lt named ∙ c) in
      subst (λ ns. PhiFits ns id u) same (none_of-check_phis g' id u users b' listed (rw same p))
]

PhiFits-nodes :
    (k id : ℕ) (g : Graph) (j u : NodeId)
    → HasFreshUses g
    → none_of (check_nodes k id g).1 ≡ true
    → id ≤ j
    → j < id + k
    → j < size g
    → j ≢ no_node
    → (node g j).op is Op.region ≡ true
    → (node g j).op is Op.dead ≡ false
    → (node g u).op is Op.phi ≡ true
    → contains j (inputs (node g u)) ≡ true
    → PhiFits g.nodes j u
unfolding check_nodes
PhiFits-nodes zero id g j u fresh h le lt in_graph named r live p c = absurd (omega arith)
PhiFits-nodes (suc k) id g j u fresh h le lt in_graph named r live p c =
    let g1 = (check_node g id).0 in
    let same = nodes-check_node g id in
    let (here, there) = no_failures-append (check_node g id).1 (check_nodes k (id + 1) g1).1 h in
    elim (ℕ_discrete j id) [
      | yes e ↦ passed_phis g j u fresh in_graph named r live (rw e here) p c
      | no e ↦
          subst (λ ns. PhiFits ns j u) same
            (PhiFits-nodes k (id + 1) g1 j u (check_node-HasFreshUses g id fresh) there
              (omega arith) (omega arith) (rw same in_graph) named (rw same r) (rw same live)
              (rw same p) (rw same c))
    ]

-- In a graph that the verifier passes, whose use lists can be trusted and which has no more nodes
-- than indices: a phi that has a region of the graph among its inputs has it in slot 0, and has a
-- value for each of the region's predecessors.
pub verify_graph-PhiFits :
    (g : Graph) (d : Diagnostics) (j u : NodeId)
    → HasFreshUses g
    → size g ≤ no_node
    → (verify_graph g d).1 ≡ true
    → j < size g
    → (node g j).op ≡ Op.region
    → (node g u).op ≡ Op.phi
    → contains j (inputs (node g u)) ≡ true
    → PhiFits g.nodes j u
unfolding verify_graph
verify_graph-PhiFits g d j u fresh room h lt r p c =
    let (a, b) =
      no_failures-append (check_nodes (size g) 0 g).1 (check_no_dead_uses (size g) 0 g) h in
    PhiFits-nodes (size g) 0 g j u fresh a (omega arith) (omega arith) lt (λ e. omega arith)
      (rw r refl) (rw r refl) (rw p refl) c
