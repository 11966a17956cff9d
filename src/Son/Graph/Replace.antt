-- ===== src/Son/Graph/Replace.antt =====
-- What the mutations of graph.cpp do to every node of the graph, and that they keep the use lists
-- trustworthy.
use jules.Prelude.{
  ℕ, zero, suc, ◌<◌, ◌≡◌, ◌≢◌, refl, sym, ap, ◌∙◌, arith, ◌==◌, ltb, false, ◌&&◌, List, [], ◌∷◌,
  length, get_or, set, take, contains, length-set, get_or-set, get_or-concat, if◌then◌else◌,
  Bool-cases, inl, inr, ==_of_ne, ==_refl, eq_of_==,
}
use jules.Son.Types.{TypeId}
use jules.Son.Node.{eq_of_is, NodeId, Node, Op, no_node, default_node, inputs, ◌is◌}
use jules.Son.Graph.{
  Graph, node, size, replace_slots, replace_inputs, replace_in_slot, replace_memory, replace_tail,
  edit_users, rebuild_uses, replace_all_uses, replace_uses_as_memory, kill, make, new_node,
}
use jules.Son.Graph.Uses.{HasFreshUses, node-edit_uses}

module _ (from to : NodeId) where
  replace_slots_twice :
      (k : ℕ) (slots : List NodeId)
      → from ≢ to
      → replace_slots k from to (replace_slots k from to slots) ≡ replace_slots k from to slots
  replace_slots_twice zero slots ne = refl
  replace_slots_twice (suc k) [] ne = refl
  replace_slots_twice (suc k) (v ∷ slots) ne = ground (arith, replace_slots_twice k slots)

  replace_slots_absent :
      (k : ℕ) (slots : List NodeId)
      → contains from (take k slots) ≡ false
      → replace_slots k from to slots ≡ slots
  replace_slots_absent zero slots h = refl
  replace_slots_absent (suc k) [] h = refl
  replace_slots_absent (suc k) (v ∷ slots) h = ground (arith, replace_slots_absent k slots)

  replace_slots_gone :
      (k : ℕ) (slots : List NodeId)
      → from ≢ to
      → contains from (take k (replace_slots k from to slots)) ≡ false
  replace_slots_gone zero slots ne = refl
  replace_slots_gone (suc k) [] ne = refl
  replace_slots_gone (suc k) (v ∷ slots) ne = ground (arith, replace_slots_gone k slots)

  replace_tail_twice :
      (k : ℕ) (slots : List NodeId)
      → from ≢ to
      → replace_tail k from to (replace_tail k from to slots) ≡ replace_tail k from to slots
  replace_tail_twice zero slots ne = refl
  replace_tail_twice (suc k) [] ne = refl
  replace_tail_twice (suc k) (v ∷ slots) ne = ap (λ vs. v ∷ vs) (replace_slots_twice k slots ne)

  replace_tail_absent :
      (k : ℕ) (slots : List NodeId)
      → contains from (take k slots) ≡ false
      → replace_tail k from to slots ≡ slots
  replace_tail_absent zero slots h = refl
  replace_tail_absent (suc k) [] h = refl
  replace_tail_absent (suc k) (v ∷ slots) h =
      ap (λ vs. v ∷ vs) (replace_slots_absent k slots (ground arith))

  -- A slot that has been replaced does not hold `from` again.
  set_slot_differs :
      (slots : List NodeId) (slot : ℕ)
      → from ≢ to
      → from ≢ no_node
      → (get_or (set slots slot to) slot no_node == from) ≡ false
  set_slot_differs [] slot ne k = ==_of_ne no_node from (λ e. k (sym e))
  set_slot_differs (v ∷ slots) zero ne k = ==_of_ne to from (λ e. ne (sym e))
  set_slot_differs (v ∷ slots) (suc slot) ne k = set_slot_differs slots slot ne k

  absent_at :
      (k slot : ℕ) (slots : List NodeId)
      → contains from (take k slots) ≡ false
      → slot < k
      → from ≢ no_node
      → (get_or slots slot no_node == from) ≡ false
  absent_at zero slot slots h lt ne = absurd (omega arith)
  absent_at (suc k) slot [] h lt ne = ==_of_ne no_node from (λ e. ne (sym e))
  absent_at (suc k) zero (v ∷ slots) h lt ne = ground arith
  absent_at (suc k) (suc slot) (v ∷ slots) h lt ne =
      absent_at k slot slots (ground arith) (omega arith) ne

  replace_in_slot_twice :
      (slot : ℕ) (n : Node)
      → from ≢ to
      → from ≢ no_node
      → replace_in_slot from to slot (replace_in_slot from to slot n)
        ≡ replace_in_slot from to slot n
  unfolding replace_in_slot
  replace_in_slot_twice slot n ne k =
      elim (Bool-cases (ltb slot n.n_in && get_or n.slots slot no_node == from)) [
        | inl e ↦ rw e (rw (set_slot_differs n.slots slot ne k) (ground arith))
        | inr e ↦ rw e (rw e refl)
      ]

  replace_in_slot_absent :
      (slot : ℕ) (n : Node)
      → from ≢ no_node
      → contains from (inputs n) ≡ false
      → replace_in_slot from to slot n ≡ n
  unfolding replace_in_slot
  replace_in_slot_absent slot n k h = ground (arith, absent_at n.n_in slot n.slots h)

pub node-replace_all_uses :
    (g : Graph) (from to : NodeId) (j : NodeId)
    → HasFreshUses g
    → from < size g
    → from ≢ no_node
    → from ≢ to
    → node (replace_all_uses g from to) j ≡ replace_inputs from to (node g j)
unfolding replace_all_uses
node-replace_all_uses g from to j fresh h k ne =
    node-edit_uses from (replace_inputs from to)
      (λ n. ap (λ s. record n { slots = s }) (replace_slots_twice from to n.n_in n.slots ne))
      (λ n absent.
        ap (λ s. record n { slots = s }) (replace_slots_absent from to n.n_in n.slots absent))
      g to j fresh h k ne

replace_memory_other :
    (from to : NodeId) (n : Node)
    → n.op is Op.phi ≡ false
    → replace_memory from to n ≡ replace_in_slot from to 1 n
unfolding replace_memory
replace_memory_other from to n e = rw e refl

op-replace_in_slot :
    (from to : NodeId) (slot : ℕ) (n : Node) → (replace_in_slot from to slot n).op ≡ n.op
unfolding replace_in_slot
op-replace_in_slot from to slot n = ground arith

replace_memory_twice :
    (from to : NodeId) (n : Node)
    → from ≢ to
    → from ≢ no_node
    → replace_memory from to (replace_memory from to n) ≡ replace_memory from to n
unfolding replace_memory
replace_memory_twice from to n ne k = elim (Bool-cases (n.op is Op.phi)) [
  | inl e ↦
      rw e (rw e (ap (λ s. record n { slots = s }) (replace_tail_twice from to n.n_in n.slots ne)))
  | inr e ↦ rw (replace_memory_other from to n e) (
      replace_memory_other from to (replace_in_slot from to 1 n)
        (rw (op-replace_in_slot from to 1 n) e)
      ∙ replace_in_slot_twice from to 1 n ne k)
]

replace_memory_absent :
    (from to : NodeId) (n : Node)
    → from ≢ no_node
    → contains from (inputs n) ≡ false
    → replace_memory from to n ≡ n
unfolding replace_memory
replace_memory_absent from to n k h = elim (Bool-cases (n.op is Op.phi)) [
  | inl e ↦ rw e (ap (λ s. record n { slots = s }) (replace_tail_absent from to n.n_in n.slots h))
  | inr e ↦ rw e (replace_in_slot_absent from to 1 n k h)
]

-- After `replace_uses_as_memory(from, to)`, for a node `from` of the graph other than `to`, and
-- use lists that can be trusted, the memory inputs that were `from` are `to`: those of a phi from
-- slot 1 on, and slot 1 of any other node. All else is as before.
pub node-replace_uses_as_memory :
    (g : Graph) (from to : NodeId) (j : NodeId)
    → HasFreshUses g
    → from < size g
    → from ≢ no_node
    → from ≢ to
    → node (replace_uses_as_memory g from to) j ≡ replace_memory from to (node g j)
unfolding replace_uses_as_memory
node-replace_uses_as_memory g from to j fresh h k ne =
    node-edit_uses from (replace_memory from to) (λ n. replace_memory_twice from to n ne k)
      (λ n. replace_memory_absent from to n k) g to j fresh h k ne

-- After `replace_all_uses(from, to)`, for a node `from` of the graph other than `to`, and use
-- lists that can be trusted, no node has `from` among its inputs.
pub replace_all_uses_gone :
    (g : Graph) (from to : NodeId) (j : NodeId)
    → HasFreshUses g
    → from < size g
    → from ≢ no_node
    → from ≢ to
    → contains from (inputs (node (replace_all_uses g from to) j)) ≡ false
replace_all_uses_gone g from to j fresh h k ne =
    rw (node-replace_all_uses g from to j fresh h k ne)
      (unfold replace_inputs in replace_slots_gone from to (node g j).n_in (node g j).slots ne)

length-edit_users :
    (edit : Node → Node) (us : List NodeId) (ns : List Node)
    → length (edit_users edit us ns) ≡ length ns
unfolding edit_users
length-edit_users edit [] ns = refl
length-edit_users edit (u ∷ us) ns =
    length-edit_users edit us _ ∙ length-set ns u (edit (get_or ns u default_node))

pub size-replace_all_uses :
    (g : Graph) (from to : NodeId) → size (replace_all_uses g from to) ≡ size g
unfolding replace_all_uses
size-replace_all_uses g from to = elim (Bool-cases (from == to)) [
  | inl e ↦ rw e refl
  | inr e ↦ rw e (elim (Bool-cases g.uses_dirty) [
    | inl d ↦
        rw d (
          length-edit_users (replace_inputs from to) (get_or (rebuild_uses g).uses from []) g.nodes)
    | inr d ↦ rw d (length-edit_users (replace_inputs from to) (get_or g.uses from []) g.nodes)
  ])
]

pub replace_all_uses-HasFreshUses :
    (g : Graph) (from to : NodeId) → HasFreshUses g → HasFreshUses (replace_all_uses g from to)
unfolding replace_all_uses
replace_all_uses-HasFreshUses g from to fresh = elim (Bool-cases (from == to)) [
  | inl e ↦ rw e fresh
  | inr e ↦ rw e (λ clean. cc)
]

pub node-kill :
    (g : Graph) (n j : NodeId)
    → n < size g
    → node (kill g n) j ≡ (if j == n then record (node g j) { op = Op.dead } else node g j)
unfolding kill
node-kill g n j h = elim (Bool-cases ((node g n).op is Op.dead)) [
  | inl e ↦ rw e (already (eq_of_is _ Op.dead e))
  | inr e ↦ rw e (get_or-set g.nodes n j _ default_node h ∙ here)
]
  where
    here :
        (if j == n then record (node g n) { op = Op.dead } else node g j)
        ≡ (if j == n then record (node g j) { op = Op.dead } else node g j)
    here = elim (Bool-cases (j == n)) [ inl e ↦ rw (eq_of_== j n e) refl | inr e ↦ rw e refl ]

    already :
        (node g n).op ≡ Op.dead
        → node g j ≡ (if j == n then record (node g j) { op = Op.dead } else node g j)
    already e = elim (Bool-cases (j == n)) [
      | inl q ↦ rw (eq_of_== j n q, ==_refl n) (λ i. record (node g n) { op = e i })
      | inr q ↦ rw q refl
    ]

pub size-kill : (g : Graph) (n : NodeId) → size (kill g n) ≡ size g
unfolding kill
size-kill g n = ground (arith, length-set g.nodes n (record (node g n) { op = Op.dead }))

pub kill-HasFreshUses : (g : Graph) (n : NodeId) → HasFreshUses g → HasFreshUses (kill g n)
unfolding kill
kill-HasFreshUses g n fresh = elim (Bool-cases ((node g n).op is Op.dead)) [
  | inl e ↦ rw e fresh
  | inr e ↦ rw e (λ clean. cc)
]

pub node-make :
    (g : Graph) (op : Op) (ty : TypeId) (ins : List NodeId) (sub aux : ℕ) (j : NodeId)
    → node (make g op ty ins sub aux).0 j
      ≡ (if j == size g then new_node op ty ins sub aux else node g j)
unfolding make
node-make g op ty ins sub aux j = get_or-concat g.nodes (new_node op ty ins sub aux) default_node j
