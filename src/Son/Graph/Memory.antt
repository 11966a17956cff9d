-- ===== src/Son/Graph/Memory.antt =====
-- replace_uses_as_memory of graph.cpp, slot by slot.
use jules.Prelude.{
  ℕ, zero, suc, ◌<◌, ◌≡◌, ◌≢◌, refl, arith, ◌==◌, ltb, Bool, true, false, ◌&&◌, List, [], ◌∷◌,
  get_or, length, get_or-set, ℕ_discrete, ◌∙◌, if◌then◌else◌, Bool-cases, inl, inr,
}
use jules.Son.Node.{NodeId, Node, Op, no_node, input, ◌is◌}
use jules.Son.Graph.{
  Graph, node, size, replace_slots, replace_in_slot, replace_memory, replace_tail,
  replace_uses_as_memory,
}
use jules.Son.Graph.Uses.{HasFreshUses}
use jules.Son.Graph.Replace.{node-replace_uses_as_memory}

-- The slots that carry memory: those of a phi but the region's, and slot 1 of any other node.
abbrev pub is_memory_slot : Node → ℕ → Bool
is_memory_slot n i = ltb i n.n_in && (if n.op is Op.phi then ltb 0 i else i == 1)

-- The node `m` is `n` with `to` for `from` in the slots that carry memory.
pub record MemoryMoved (from to : NodeId) (n m : Node) : Type 0 where
  pub moved :
      (i : ℕ) → input m i ≡ (if is_memory_slot n i && input n i == from then to else input n i)
  pub same_rest : record m { slots = n.slots } ≡ n

slot-replace :
    (from to : NodeId) (k : ℕ) (slots : List NodeId) (i : ℕ)
    → from ≢ no_node
    → get_or (replace_slots k from to slots) i no_node
      ≡ (if ltb i k && get_or slots i no_node == from then to else get_or slots i no_node)
slot-replace from to zero slots i named = ground arith
slot-replace from to (suc k) [] i named = ground arith
slot-replace from to (suc k) (v ∷ slots) zero named = ground arith
slot-replace from to (suc k) (v ∷ slots) (suc i) named =
    slot-replace from to k slots i named ∙ ground arith

slot-replace_tail :
    (from to : NodeId) (k : ℕ) (slots : List NodeId) (i : ℕ)
    → from ≢ no_node
    → get_or (replace_tail k from to slots) i no_node ≡ (
        if (ltb i k && ltb 0 i) && get_or slots i no_node == from
        then to
        else get_or slots i no_node)
slot-replace_tail from to zero slots i named = ground arith
slot-replace_tail from to (suc k) [] i named = ground arith
slot-replace_tail from to (suc k) (v ∷ slots) zero named = ground arith
slot-replace_tail from to (suc k) (v ∷ slots) (suc i) named =
    slot-replace from to k slots i named ∙ ground arith

has_slot : (slots : List NodeId) (i : ℕ) → get_or slots i no_node ≢ no_node → i < length slots
has_slot [] i h = absurd (h refl)
has_slot (v ∷ slots) zero h = omega arith
has_slot (v ∷ slots) (suc i) h = omega (arith, has_slot slots i h)

moved-replace_memory :
    (from to : NodeId) (n : Node)
    → from ≢ no_node
    → MemoryMoved from to n (replace_memory from to n)
unfolding replace_memory replace_in_slot
moved-replace_memory from to n named = elim (Bool-cases (n.op is Op.phi)) [
  | inl phi ↦ record {
    moved = λ i. rw phi (slot-replace_tail from to n.n_in n.slots i named);
    same_rest = rw phi refl;
  }
  | inr other ↦ elim (Bool-cases (ltb 1 n.n_in && input n 1 == from)) [
    | inl hit ↦
        let lt : 1 < length n.slots = has_slot n.slots 1 (λ e. ground arith) in
        record {
          moved = λ i. rw (other, hit) (get_or-set n.slots 1 i to no_node lt ∙ at_one i hit);
          same_rest = rw (other, hit) refl;
        }
    | inr miss ↦ record {
      moved = λ i. rw (other, miss) (not_one i miss);
      same_rest = rw (other, miss) refl;
    }
  ]
]
  where
    at_one :
        (i : ℕ)
        → (ltb 1 n.n_in && input n 1 == from) ≡ true
        → (if i == 1 then to else input n i)
          ≡ (if (ltb i n.n_in && i == 1) && input n i == from then to else input n i)
    at_one i hit = elim (ℕ_discrete i 1) [ yes e ↦ rw e (ground arith) | no e ↦ ground arith ]

    not_one :
        (i : ℕ)
        → (ltb 1 n.n_in && input n 1 == from) ≡ false
        → input n i ≡ (if (ltb i n.n_in && i == 1) && input n i == from then to else input n i)
    not_one i miss = elim (ℕ_discrete i 1) [ yes e ↦ rw e (ground arith) | no e ↦ ground arith ]

-- After `replace_uses_as_memory(from, to)`, for a node `from` of the graph other than `to`, and
-- use lists that can be trusted, a slot that was `from` and carries memory is `to`: a phi's slots
-- from 1 on, and slot 1 of any other node. Every other slot, and all else of every node, is as
-- before.
pub replace_uses_as_memory-MemoryMoved :
    (g : Graph) (from to : NodeId) (j : NodeId)
    → HasFreshUses g
    → from < size g
    → from ≢ no_node
    → from ≢ to
    → MemoryMoved from to (node g j) (node (replace_uses_as_memory g from to) j)
replace_uses_as_memory-MemoryMoved g from to j fresh h k ne =
    rw (node-replace_uses_as_memory g from to j fresh h k ne)
      (moved-replace_memory from to (node g j) k)
