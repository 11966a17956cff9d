-- ===== src/Son/Graph.antt =====
-- jules/src/core/son/graph.h, graph.cpp: the graph container. A node id is an index of `nodes`; the
-- use lists are a cache that is rebuilt when `uses_dirty` says so.
pub mod Uses
pub mod Memory
pub mod Replace
pub mod Pure
use jules.Prelude.{
  ℕ, zero, suc, ◌+◌, ◌%◌, ◌^◌, ◌==◌, Bool, true, false, ◌&&◌, ◌||◌, List, [], ◌∷◌, ◌++◌, map,
  length, get_or, set, take, ltb, leb, if◌then◌else◌,
}
use jules.Support.Hash.{fnv1a, bytes_of, hash_mix, fnv_offset}
use jules.Son.Types.{TypeId, ty_ctrl, ty_is_float}
use jules.Son.Node.{
  NodeId, Node, Op, no_node, default_node, initial_slots, max_inputs, input, inputs, op_code, ◌is◌,
}

pub record Graph : Type 0 where
  pub nodes : List Node
  pub uses : List (List NodeId)
  pub start : NodeId
  pub stop : NodeId
  pub uses_dirty : Bool
  pub changes : ℕ

-- node(id); an id out of range, which the code asserts away, reads as a dead node.
abbrev pub node : Graph → NodeId → Node
node g id = get_or g.nodes id default_node

abbrev pub size : Graph → ℕ
size g = length g.nodes

abbrev pub put : Graph → NodeId → Node → Graph
put g id n = record g { nodes = set g.nodes id n; uses_dirty = true }

-- `n.in[i++] = v` over the new node's slots
abbrev pub fill : List NodeId → List NodeId → List NodeId
fill [] slots = slots
fill (v ∷ vs) [] = []
fill (v ∷ vs) (s ∷ slots) = v ∷ fill vs slots

unfoldable pub new_node : Op → TypeId → List NodeId → ℕ → ℕ → Node
new_node op ty ins sub aux = record default_node {
  op = op;
  n_in = length ins;
  sub = sub;
  ty = ty;
  aux = aux;
  slots = fill ins initial_slots;
}

abbrev push : Graph → Node → Graph
push g n = record g { nodes = g.nodes ++ n ∷ []; uses_dirty = true }

-- The new node's id is the old number of nodes.
unfoldable pub make : Graph → Op → TypeId → List NodeId → ℕ → ℕ → Graph × NodeId
unfolding new_node
make g op ty ins sub aux = (push g (new_node op ty ins sub aux), length g.nodes)

unfoldable pub make_arr : Graph → Op → TypeId → List NodeId → ℕ → ℕ → ℕ → Graph × NodeId
unfolding new_node
make_arr g op ty ins n_in sub aux =
    let n = if ltb n_in max_inputs then n_in else max_inputs in
    (push g (new_node op ty (take n ins) sub aux), length g.nodes)

-- Graph()
unfoldable pub empty_graph : Graph
unfolding new_node
empty_graph = record {
  nodes = new_node Op.start ty_ctrl [] 0 0 ∷ [];
  uses = [];
  start = 0;
  stop = no_node;
  uses_dirty = true;
  changes = 0;
}

unfoldable pub set_input : Graph → NodeId → ℕ → NodeId → Graph
set_input g n idx v =
    let nd = node g n in
    if input nd idx == v
    then g
    else put g n (record nd {
      slots = set nd.slots idx v;
      n_in = if leb nd.n_in idx then idx + 1 else nd.n_in;
    })

unfoldable pub append_input : Graph → NodeId → NodeId → Graph
append_input g n v =
    let nd = node g n in put g n (record nd { slots = set nd.slots nd.n_in v; n_in = nd.n_in + 1 })

count_live : List Node → ℕ
count_live [] = 0
count_live (n ∷ ns) = if n.op is Op.dead then count_live ns else count_live ns + 1

unfoldable pub live_count : Graph → ℕ
unfolding count_live
live_count g = count_live g.nodes

-- uses_[n.in[i]].push_back(u) for each input of `u`
unfoldable pub add_uses : NodeId → List NodeId → List (List NodeId) → List (List NodeId)
add_uses u [] uses = uses
add_uses u (v ∷ vs) uses =
    add_uses u vs (if v == no_node then uses else set uses v (get_or uses v [] ++ u ∷ []))

-- The loop over the nodes, which starts at the id `u`.
unfoldable pub collect_uses : NodeId → List Node → List (List NodeId) → List (List NodeId)
unfolding add_uses
collect_uses u [] uses = uses
collect_uses u (n ∷ ns) uses = collect_uses (u + 1) ns (add_uses u (inputs n) uses)

unfoldable pub rebuild_uses : Graph → Graph
unfolding collect_uses
rebuild_uses g = record g {
  uses = collect_uses 0 g.nodes (map (λ _. []) g.nodes);
  uses_dirty = false;
}

unfoldable pub uses_of : Graph → NodeId → Graph × List NodeId
unfolding rebuild_uses
uses_of g n = let g' = if g.uses_dirty then rebuild_uses g else g in (g', get_or g'.uses n [])

-- `if (nd.in[i] == from) nd.in[i] = to` for each i < k
abbrev pub replace_slots : ℕ → NodeId → NodeId → List NodeId → List NodeId
replace_slots zero from to slots = slots
replace_slots (suc k) from to [] = []
replace_slots (suc k) from to (v ∷ slots) =
    (if v == from then to else v) ∷ replace_slots k from to slots

unfoldable pub replace_inputs : NodeId → NodeId → Node → Node
replace_inputs from to n = record n { slots = replace_slots n.n_in from to n.slots }

unfoldable pub replace_in_slot : NodeId → NodeId → ℕ → Node → Node
replace_in_slot from to slot n =
    if ltb slot n.n_in && input n slot == from then record n { slots = set n.slots slot to } else n

-- The same for each i from 1 on.
abbrev pub replace_tail : ℕ → NodeId → NodeId → List NodeId → List NodeId
replace_tail zero from to slots = slots
replace_tail (suc k) from to [] = []
replace_tail (suc k) from to (region ∷ slots) = region ∷ replace_slots k from to slots

-- A phi's inputs from 1 on, and slot 1 of any other node, are memory versions.
unfoldable pub replace_memory : NodeId → NodeId → Node → Node
unfolding replace_in_slot
replace_memory from to n =
    if n.op is Op.phi
    then record n { slots = replace_tail n.n_in from to n.slots }
    else replace_in_slot from to 1 n

-- `for (NodeId u : users) edit(node(u))`
unfoldable pub edit_users : (Node → Node) → List NodeId → List Node → List Node
edit_users edit [] nodes = nodes
edit_users edit (u ∷ us) nodes =
    edit_users edit us (set nodes u (edit (get_or nodes u default_node)))

abbrev pub bump : ℕ → ℕ
bump c = (c + 1) % 2 ^ 64

-- What the three `replace…` functions share: an edit of each user of `from`.
unfoldable pub edit_uses : Graph → NodeId → NodeId → (Node → Node) → Graph
unfolding uses_of edit_users
edit_uses g from to edit =
    if from == to
    then g
    else let (g', users) = uses_of g from in
      record g' {
        nodes = edit_users edit users g'.nodes;
        uses_dirty = true;
        changes = bump g'.changes;
      }

unfoldable pub replace_all_uses : Graph → NodeId → NodeId → Graph
unfolding edit_uses replace_inputs
replace_all_uses g from to = edit_uses g from to (replace_inputs from to)

unfoldable pub replace_uses_in_slot : Graph → NodeId → NodeId → ℕ → Graph
unfolding edit_uses replace_in_slot
replace_uses_in_slot g from to slot = edit_uses g from to (replace_in_slot from to slot)

unfoldable pub replace_uses_as_memory : Graph → NodeId → NodeId → Graph
unfolding edit_uses replace_memory
replace_uses_as_memory g from to = edit_uses g from to (replace_memory from to)

unfoldable pub kill : Graph → NodeId → Graph
kill g n =
    if (node g n).op is Op.dead
    then g
    else record (put g n (record (node g n) { op = Op.dead })) { changes = bump g.changes }
