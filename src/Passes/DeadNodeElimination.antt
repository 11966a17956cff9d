-- ===== src/Passes/DeadNodeElimination.antt =====
-- jules/src/core/son/passes/p01_dead_node_elimination.cpp: marking from the stop node and from the
-- calls of the blocks that control reaches, and a sweep that kills the rest.
pub mod Marking
pub mod Closure
pub mod Walking
pub mod Calls
pub mod Rounds
pub mod Sweep
pub mod Sound
use jules.Support.FlatMap
use jules.Prelude.{
  ℕ, zero, suc, ◌+◌, ◌==◌, ltb, Bool, true, false, not, ◌&&◌, ◌||◌, Option, none, some, List, [],
  ◌∷◌, ◌++◌, length, if◌then◌else◌,
}
use jules.Son.Node.{NodeId, Node, Op, no_node, input, inputs, ◌is◌}
use jules.Son.Graph.{Graph, node, size, uses_of, kill}
use jules.Passes.Driver.{Outcome, finished, out_of_fuel}

-- `live_` and `work_`, whose back is the head of the list.
pub record Marks : Type 0 where
  pub live : List (ℕ × Bool)
  pub work : List NodeId

unfoldable pub mark : Graph → NodeId → Marks → Marks
unfolding FlatMap.contains FlatMap.insert
mark g n s =
    if n == no_node || FlatMap.contains s.live n
    then s
    else if (node g n).op is Op.dead
    then s
    else record { live = FlatMap.insert s.live n true; work = n ∷ s.work }

-- `for (u8 i = 0; i < nd.n_in; ++i) mark(nd.in[i])`
unfoldable pub mark_all : Graph → List NodeId → Marks → Marks
mark_all g [] s = s
mark_all g (v ∷ vs) s = mark_all g vs (mark g v s)

-- The loop that drains `work_`; `none` is a want of fuel.
unfoldable pub drain : ℕ → Graph → Marks → Option Marks
unfolding mark_all
drain zero g s = elim s.work [ [] ↦ some s | n ∷ rest ↦ none ]
drain (suc fuel) g s = elim s.work [
  | [] ↦ some s
  | n ∷ rest ↦ drain fuel g (mark_all g (inputs (node g n)) (record s { work = rest }))
]

abbrev pub Succs : Type 0
Succs = List (ℕ × List NodeId)

-- succs[b].push_back(s)
unfoldable pub add_succ : Succs → NodeId → NodeId → Succs
unfolding FlatMap.at FlatMap.insert
add_succ succs b s =
    let (there, old) = FlatMap.at succs b [] in FlatMap.insert there b (old ++ s ∷ [])

-- The projections among the users of an If in the block `b`.
unfoldable pub add_projections : Graph → NodeId → List NodeId → Succs → Succs
unfolding add_succ
add_projections g b [] succs = succs
add_projections g b (p ∷ ps) succs = add_projections g b ps (
    if (node g p).op is Op.if_true || (node g p).op is Op.if_false
    then add_succ succs b p
    else succs)

-- succs[n.in[i]].push_back(id) for each input
unfoldable pub add_preds : NodeId → List NodeId → Succs → Succs
unfolding add_succ
add_preds id [] succs = succs
add_preds id (b ∷ bs) succs = add_preds id bs (add_succ succs b id)

-- The switch on the node's operation.
unfoldable pub node_succs : Op → Graph → NodeId → Succs → Graph × Succs
unfolding add_projections add_preds add_succ
node_succs Op.if_op g id succs =
    let (g', users) = uses_of g id in (g', add_projections g' (input (node g id) 0) users succs)
node_succs Op.jump g id succs = (g, add_succ succs (input (node g id) 0) id)
node_succs Op.region g id succs = (g, add_preds id (inputs (node g id)) succs)
node_succs _ g id succs = (g, succs)

-- The loop over `count` ids from `id` on.
unfoldable pub succs_from : ℕ → NodeId → Graph → Succs → Graph × Succs
unfolding node_succs
succs_from zero id g succs = (g, succs)
succs_from (suc count) id g succs =
    let (g', succs') = node_succs (node g id).op g id succs in succs_from count (id + 1) g' succs'

unfoldable pub control_succs : Graph → Graph × Succs
unfolding succs_from
control_succs g = succs_from (size g) 0 g []

-- The state of the walk over the blocks: the graph, whose use lists it may rebuild, the marks,
-- `stack` with its back first, and `reach`.
pub record Walk : Type 0 where
  pub graph : Graph
  pub marks : Marks
  pub stack : List NodeId
  pub reach : List (ℕ × Bool)

-- The calls pinned to the block `b` among its users are marked.
unfoldable pub mark_calls : Graph → NodeId → List NodeId → Marks → Marks
unfolding mark
mark_calls g b [] s = s
mark_calls g b (u ∷ us) s =
    mark_calls g b us
      (if (node g u).op is Op.call && input (node g u) 0 == b then mark g u s else s)

unfoldable pub push_succs : List NodeId → Walk → Walk
unfolding FlatMap.contains FlatMap.insert
push_succs [] w = w
push_succs (s ∷ ss) w = push_succs ss (
    if FlatMap.contains w.reach s
    then w
    else record w { stack = s ∷ w.stack; reach = FlatMap.insert w.reach s true })

abbrev pub succs_at : Succs → NodeId → List NodeId
succs_at succs b = elim (FlatMap.find succs b) [ some ss ↦ ss | none ↦ [] ]

-- A round of the walk, after `b` left the stack.
unfoldable pub enter : Succs → Walk → NodeId → List NodeId → Walk
unfolding FlatMap.find mark_calls push_succs
enter succs w b rest =
    let (g', users) = uses_of w.graph b in
    push_succs (succs_at succs b)
      (record w { graph = g'; marks = mark_calls g' b users w.marks; stack = rest })

unfoldable pub walk : ℕ → Succs → Walk → Option Walk
unfolding enter
walk zero succs w = elim w.stack [ [] ↦ some w | b ∷ rest ↦ none ]
walk (suc fuel) succs w = elim w.stack [
  | [] ↦ some w
  | b ∷ rest ↦ walk fuel succs (enter succs w b rest)
]

-- All successors that the table lists: the walk pushes each at most once.
abbrev pub targets : Succs → List NodeId
targets [] = []
targets (e ∷ es) = e.1 ++ targets es

abbrev pub no_marks : Marks
no_marks = record { live = []; work = [] }

unfoldable pub first_walk : Graph → Marks → Walk
unfolding FlatMap.insert
first_walk g s = record {
  graph = g;
  marks = s;
  stack = g.start ∷ [];
  reach = FlatMap.insert [] g.start true;
}

unfoldable pub mark_roots : Graph → Option (Graph × Marks)
unfolding mark walk drain control_succs first_walk
mark_roots g =
    let (g', succs) = control_succs g in
    elim (walk (length (targets succs) + 1) succs (first_walk g' (mark g g.stop no_marks))) [
      | none ↦ none
      | some w ↦ elim (drain (size g) w.graph w.marks) [ none ↦ none | some s ↦ some (w.graph, s) ]
    ]

-- The loop over `count` ids from `id` on.
unfoldable pub sweep : ℕ → NodeId → List (ℕ × Bool) → Graph → Bool → Graph × Bool
unfolding FlatMap.contains
sweep zero id live g changed = (g, changed)
sweep (suc count) id live g changed =
    let (g', changed') =
      if (node g id).op is Op.dead || FlatMap.contains live id
      then (g, changed)
      else (kill g id, true) in
    sweep count (id + 1) live g' changed'

unfoldable pub run_dce : Graph → Outcome
unfolding mark_roots sweep
run_dce g = elim (mark_roots g) [
  | none ↦ out_of_fuel
  | some (g', s) ↦ let (h, changed) = sweep (size g') 0 s.live g' false in finished h changed
]
