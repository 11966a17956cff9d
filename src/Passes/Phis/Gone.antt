-- ===== src/Passes/Phis/Gone.antt =====
-- What the phi passes share: the value that a phi passes on, and a node that is replaced is gone.
use jules.Prelude.{
  ◌≤◌, ◌<◌, ◌≡◌, ◌≢◌, ◌⊎◌, inl, inr, refl, ap, ◌∙◌, arith, ◌==◌, Bool, true, false, none, some,
  List, [], ◌∷◌, contains, length-set, if◌then◌else◌, Bool-cases, Option-cases, ==_refl, eq_of_==,
}
use jules.Son.Node.{NodeId, Node, Op, no_node, inputs}
use jules.Son.Graph.{Graph, node, size, replace_all_uses, kill}
use jules.Son.Graph.Uses.{HasFreshUses}
use jules.Son.Graph.Replace.{node-kill, replace_all_uses_gone, size-replace_all_uses}
use jules.Passes.Phis.{merge, common_input, strip_self}

-- The node is dead, and no node has it for an input.
pub record Gone (id : NodeId) (h : Graph) : Type 0 where
  pub dead : (node h id).op ≡ Op.dead
  pub unused : (j : NodeId) → contains id (inputs (node h j)) ≡ false

inputs-if :
    (id : NodeId) (b : Bool) (n : Node)
    → contains id (inputs n) ≡ false
    → contains id (inputs (if b then record n { op = Op.dead } else n)) ≡ false
inputs-if id true n h = h
inputs-if id false n h = h

-- Replacing all uses of a node by another and killing it leaves it dead and unused.
pub replace-Gone :
    (g : Graph) (from to : NodeId)
    → HasFreshUses g
    → from < size g
    → size g ≤ no_node
    → from ≢ to
    → Gone from (kill (replace_all_uses g from to) from)
replace-Gone g from to fresh lt room ne =
    let g' = replace_all_uses g from to in
    let lt' : from < size g' = rw (size-replace_all_uses g from to) lt in
    record {
      dead = ap (λ n. n.op) (node-kill g' from from lt') ∙ rw (==_refl from) refl;
      unused = λ j.
          ap (λ n. contains from (inputs n)) (node-kill g' from j lt')
          ∙ inputs-if from (j == from) (node g' j)
              (replace_all_uses_gone g from to j fresh lt (omega arith) ne);
    }

pub strip_self-HasFreshUses : (g : Graph) (id c : NodeId) → HasFreshUses (strip_self g id c)
unfolding strip_self
strip_self-HasFreshUses g id c = λ clean. cc

pub size-strip_self : (g : Graph) (id c : NodeId) → size (strip_self g id c) ≡ size g
unfolding strip_self
size-strip_self g id c = length-set g.nodes id _

-- What a merge of `v` into `common` says of both.
merge-some :
    (id common v c : NodeId)
    → merge id common v ≡ some c
    → ((v ≡ id) ⊎ (v ≡ c)) × ((common ≡ no_node) ⊎ (common ≡ c))
merge-some id common v c h = ground arith

common_input_keeps :
    (id common c : NodeId) (vs : List NodeId)
    → common_input id common vs ≡ some c
    → (common ≡ no_node) ⊎ (common ≡ c)
unfolding common_input
common_input_keeps id common c [] h = ground arith
common_input_keeps id common c (x ∷ vs) h = elim (Option-cases (merge id common x)) [
  | inl q ↦ let h' : none ≡ some c = rw (q, common_input) at h in absurd (cc)
  | inr (d, q) ↦
      let h' : common_input id d vs ≡ some c = rw (q, common_input) at h in
      ground (arith, merge-some id common x d q, common_input_keeps id d c vs h')
]

-- A phi's inputs that are found to be one value `c`, whatever the loop starts from, are the phi
-- itself, `c`, or unconnected.
pub common_input-some :
    (id common c : NodeId) (vs : List NodeId) (v : NodeId)
    → common_input id common vs ≡ some c
    → contains v vs ≡ true
    → (v ≡ id) ⊎ (v ≡ c) ⊎ (v ≡ no_node)
unfolding common_input
common_input-some id common c [] v h e = absurd (cc)
common_input-some id common c (x ∷ vs) v h e = elim (Option-cases (merge id common x)) [
  | inl q ↦ let h' : none ≡ some c = rw (q, common_input) at h in absurd (cc)
  | inr (d, q) ↦
      let h' : common_input id d vs ≡ some c = rw (q, common_input) at h in
      let first = merge-some id common x d q in
      let kept = common_input_keeps id d c vs h' in
      elim (Bool-cases (v == x)) [
        | inl same ↦ ground (arith, eq_of_== v x same)
        | inr other ↦ common_input-some id d c vs v h' (ground arith)
      ]
]
