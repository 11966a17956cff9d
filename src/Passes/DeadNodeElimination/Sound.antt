-- ===== src/Passes/DeadNodeElimination/Sound.antt =====
-- p01 as a whole: it ends, keeps its roots and all that they use, and every operand of what it keeps.

use jules.Support.FlatMap.Search.{IsSorted}
use jules.Support.FlatMap.Laws.{contains-insert, insert-IsSorted}
use jules.Prelude.{
  ◌+◌, ◌≤◌, ◌≡◌, refl, sym, ap, ◌∙◌, arith, Bool, true, false, ◌&&◌, Option, some, [], length,
  contains, Bool-cases, inl, inr, ◌⊎◌, get_or,
}
use jules.Son.Node.{NodeId, Op, no_node, inputs, default_node, ◌is◌}
use jules.Son.Graph.{Graph, node, size}
use jules.Son.Graph.Uses.{HasFreshUses}
use jules.Passes.Driver.{Outcome, finished}
use jules.Passes.Meaning.Edit.{killed}
use jules.Passes.DeadNodeElimination.{
  Marks, mark, drain, Succs, Walk, succs_at, walk, targets, no_marks, control_succs, first_walk,
  mark_roots, sweep, run_dce,
}
use jules.Passes.DeadNodeElimination.Marking.{
  contains-empty, lt-size_of_alive, is_live, settled, unmarked-empty, mark-Marked, settled-mark,
}
use jules.Passes.DeadNodeElimination.Closure.{InputsSettled, Drains, drained, drain-Drains}
use jules.Passes.DeadNodeElimination.Walking.{is_reached, missing_le}
use jules.Passes.DeadNodeElimination.Calls.{settled-nodes}
use jules.Passes.DeadNodeElimination.Rounds
use jules.Passes.DeadNodeElimination.Rounds.{Pinned, Ends, ends, walk-Ends}
use jules.Passes.DeadNodeElimination.Sweep.{
  SameNodes, succs_from-SameNodes, doomed, window, doom, node-sweep, size-sweep, sweep-HasFreshUses,
}

-- Control leads from the start node to the block, by the pass's table of successors.
pub data Reaches (succs : Succs) (start : NodeId) : NodeId → Type 0 where
  here : Reaches succs start start
  step :
      {b s : NodeId}
      → Reaches succs start b
      → contains s (succs_at succs b) ≡ true
      → Reaches succs start s

-- What p01 does to the graph `g`.
pub record Eliminated (g h : Graph) : Type 0 where
  pub same_size : size h ≡ size g
  pub fresh : HasFreshUses h
  pub choice : (j : NodeId) → (node h j ≡ node g j) ⊎ (node h j ≡ killed (node g j))
  pub stop_kept : node h g.stop ≡ node g g.stop
  pub calls_kept :
      (b u : NodeId) → Reaches (control_succs g).1 g.start b → Pinned g b u → node h u ≡ node g u
  pub operands_kept :
      (j m : NodeId)
      → ((node h j).op is Op.dead) ≡ false
      → contains m (inputs (node h j)) ≡ true
      → node h m ≡ node g m

pub data Eliminates (g : Graph) : Outcome → Type 0 where
  eliminates : {h : Graph} {changed : Bool} → Eliminated g h → Eliminates g (finished h changed)

Ends-inverse :
    (g : Graph) (succs : Succs) {o : Option Walk}
    → Ends g succs o
    → (w : Walk) × (o ≡ some w) × Rounds.Inv g succs w × (w.stack ≡ [])
Ends-inverse g succs (ends {w} i e) = (w, refl, i, e)

Drains-inverse :
    (g : Graph) (s : Marks) {o : Option Marks}
    → Drains g s o
    → (t : Marks) × (o ≡ some t)
      × ((n : NodeId) → is_live t n ≡ true → InputsSettled g t n)
      × ((n : NodeId) → is_live s n ≡ true → is_live t n ≡ true)
Drains-inverse g s (drained {t} closed grows) = (t, refl, closed, grows)

module _ (g : Graph) (fresh : HasFreshUses g) where
  abbrev table : Graph × Succs
  table = control_succs g

  table_same : SameNodes g table.0
  unfolding control_succs
  table_same = succs_from-SameNodes (size g) 0 g [] fresh

  abbrev begun : Walk
  begun = first_walk table.0 (mark g g.stop no_marks)

  Inv-begun : Rounds.Inv g table.1 begun
  unfolding first_walk
  Inv-begun =
      let (nodes, fresh', start, stop) = table_same in
      let none_sorted : IsSorted no_marks.live = λ i j lt top. absurd (omega arith) in
      let m = mark-Marked g g.stop no_marks in
      record {
        same_nodes = nodes;
        fresh = fresh';
        sorted_marks = m.sorted none_sorted;
        waiting = λ q live. elim (m.fresh none_sorted q live) [
          | inr w ↦ w
          | inl old ↦ absurd (let k = contains-empty q in cc)
        ];
        measure = m.measure none_sorted ∙ (let k = unmarked-empty (size g) in omega arith);
        sorted_reach = insert-IsSorted [] table.0.start true none_sorted;
        started =
            contains-insert [] table.0.start true g.start none_sorted ∙ rw start (ground arith);
        stop_settled = settled-mark g g.stop no_marks none_sorted;
        closed = λ b reached. inl (
            let k = contains-insert [] table.0.start true b none_sorted in
            let l = contains-empty b in ground arith);
      }

  reached_all :
      (w : Walk)
      → Rounds.Inv g table.1 w
      → w.stack ≡ []
      → (b : NodeId) → Reaches table.1 g.start b
      → is_reached w b ≡ true
  reached_all w i e b here = i.started
  reached_all w i e s (step {b} r named) = elim (i.closed b (reached_all w i e b r)) [
    | inl wait ↦ let k : contains b [] ≡ true = rw e at wait in absurd (cc)
    | inr done ↦ done.onward s named
  ]

  -- The graph after the walk `w` and a drain to the marks `t`.
  module _ (room : size g ≤ no_node) (w : Walk) (i : Rounds.Inv g table.1 w) (empty : w.stack ≡ [])
      (t : Marks) (closed : (n : NodeId) → is_live t n ≡ true → InputsSettled w.graph t n)
      (grows : (n : NodeId) → is_live w.marks n ≡ true → is_live t n ≡ true) where
    abbrev last : Graph
    last = (sweep (size w.graph) 0 t.live w.graph false).0

    same_size : size w.graph ≡ size g
    same_size = ap length i.same_nodes

    same_node : (j : NodeId) → node w.graph j ≡ node g j
    same_node j = ap (λ ns. get_or ns j default_node) i.same_nodes

    node-last :
        (j : NodeId)
        → node last j ≡ doom (window (size w.graph) 0 j && doomed t.live w.graph j) (node g j)
    node-last j =
        node-sweep (size w.graph) 0 t.live w.graph false j (omega arith)
        ∙ ap (doom (window (size w.graph) 0 j && doomed t.live w.graph j)) (same_node j)

    settled_kept : (m : NodeId) → settled w.graph t m ≡ true → node last m ≡ node g m
    settled_kept m h =
        let out : (window (size w.graph) 0 m && doomed t.live w.graph m) ≡ false =
          (let e = same_size in ground arith) in
        node-last m ∙ rw out refl

    root_kept : (m : NodeId) → settled g w.marks m ≡ true → node last m ≡ node g m
    root_kept m h =
        let h' = settled-nodes g w.graph i.same_nodes w.marks m ∙ h in
        settled_kept m (let k = grows m in ground arith)

    operand_kept :
        (j m : NodeId)
        → ((node last j).op is Op.dead) ≡ false
        → contains m (inputs (node last j)) ≡ true
        → node last m ≡ node g m
    operand_kept j m alive named =
        elim (Bool-cases (window (size w.graph) 0 j && doomed t.live w.graph j)) [
          | inl b ↦
              let e : node last j ≡ killed (node g j) = node-last j ∙ rw b refl in
              let dead : true ≡ false = rw e at alive in absurd (cc)
          | inr b ↦
              let e : node last j ≡ node g j = node-last j ∙ rw b refl in
              let e' : node last j ≡ node w.graph j = e ∙ sym (same_node j) in
              let awake : ((node w.graph j).op is Op.dead) ≡ false = rw e' at alive in
              let lt = lt-size_of_alive w.graph j awake in
              let live : is_live t j ≡ true = ground arith in
              settled_kept m (closed j live m (rw e' at named))
        ]

    Eliminated-last : Eliminated g last
    Eliminated-last = record {
      same_size = size-sweep (size w.graph) 0 t.live w.graph false ∙ same_size;
      fresh = sweep-HasFreshUses (size w.graph) 0 t.live w.graph false i.fresh;
      choice = λ j. elim (Bool-cases (window (size w.graph) 0 j && doomed t.live w.graph j)) [
        | inl b ↦ inr (node-last j ∙ rw b refl)
        | inr b ↦ inl (node-last j ∙ rw b refl)
      ];
      stop_kept = root_kept g.stop i.stop_settled;
      calls_kept = λ b u r pin. elim (i.closed b (reached_all w i empty b r)) [
        | inl wait ↦ let k : contains b [] ≡ true = rw empty at wait in absurd (cc)
        | inr done ↦ root_kept u (done.calls u pin)
      ];
      operands_kept = operand_kept;
    }

  -- The state that the walk ends in.
  walked :
      (w : Walk) × (walk (length (targets table.1) + 1) table.1 begun ≡ some w)
      × Rounds.Inv g table.1 w
      × (w.stack ≡ [])
  unfolding first_walk
  walked =
      let le = missing_le (targets table.1) begun.reach in
      Ends-inverse g table.1
        (walk-Ends g table.1 (length (targets table.1) + 1) begun Inv-begun (omega arith))

  -- The marks that the drain ends in.
  drained_to :
      (w : Walk)
      → Rounds.Inv g table.1 w
      → (t : Marks) × (drain (size g) w.graph w.marks ≡ some t)
        × ((n : NodeId) → is_live t n ≡ true → InputsSettled w.graph t n)
        × ((n : NodeId) → is_live w.marks n ≡ true → is_live t n ≡ true)
  drained_to w i = Drains-inverse w.graph w.marks (
      drain-Drains w.graph (size g) w.marks
        (record { sorted = i.sorted_marks; closed = λ n live. inl (i.waiting n live) })
        (let e : size w.graph ≡ size g = ap length i.same_nodes in rw e (omega (arith, i.measure))))

  -- p01 ends within its fuel, on every graph whose use lists can be trusted and whose size is at
  -- most the id of no node. The graph after it has the same nodes but for those that it killed.
  -- The stop node is as it was, and so is each call pinned to a block to which the table of
  -- successors leads from the start node. An input of a node that is not dead is as it was.
  pub run_dce-Eliminates : size g ≤ no_node → Eliminates g (run_dce g)
  unfolding run_dce mark_roots
  run_dce-Eliminates room =
      let (w, went, i, empty) = walked in
      let (t, emptied, closed, grows) = drained_to w i in
      rw (went, emptied, mark_roots, run_dce)
        (eliminates (Eliminated-last room w i empty t closed grows))
