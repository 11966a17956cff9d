-- ===== src/Passes/DeadNodeElimination/Rounds.antt =====
-- The rounds of p01's walk over the blocks: it ends, and the calls of every block that it reaches are
-- marked.

use jules.Support.FlatMap.Search.{IsSorted}
use jules.Prelude.{
  ℕ, zero, suc, ◌+◌, ◌≤◌, ◌<◌, ◌≡◌, ◌≢◌, refl, sym, subst, ap, ◌∙◌, arith, ◌==◌, true, Option, some,
  List, [], ◌∷◌, length, contains, Bool-cases, inl, inr, ◌⊎◌, eq_of_==, get_or,
}
use jules.Son.Node.{NodeId, no_node, inputs, default_node}
use jules.Son.Graph.{Graph, node, size, uses_of}
use jules.Son.Graph.Uses.{HasFreshUses, uses_of-IsListed}
use jules.Passes.DeadNodeElimination.{
  Marks, Succs, Walk, mark_calls, push_succs, succs_at, enter, walk, targets,
}
use jules.Passes.DeadNodeElimination.Marking.{is_live, settled, unmarked, Marked, settled_later}
use jules.Passes.DeadNodeElimination.Walking.{is_reached, missing, push_succs-Pushed}
use jules.Passes.DeadNodeElimination.Calls.{
  pinned_call, mark_calls-Marked, settled-mark_calls, uses_of-nodes, uses_of-HasFreshUses,
  succs_at-AllIn, settled-nodes, pinned_call-nodes, Marked-nodes,
}
use jules.Passes.DeadNodeElimination.Closure.{List-cases}

-- A call pinned to a block `b` of the graph.
pub record Pinned (g : Graph) (b u : NodeId) : Type 0 where
  pub block : b < size g
  pub named : b ≢ no_node
  pub uses : contains b (inputs (node g u)) ≡ true
  pub call : pinned_call g b u ≡ true

module _ (g : Graph) (succs : Succs) where
  -- What the walk has done for a block that left the stack.
  pub record Entered (w : Walk) (b : NodeId) : Type 0 where
    pub onward : (s : NodeId) → contains s (succs_at succs b) ≡ true → is_reached w s ≡ true
    pub calls : (u : NodeId) → Pinned g b u → settled g w.marks u ≡ true

  pub record Inv (w : Walk) : Type 0 where
    pub same_nodes : w.graph.nodes ≡ g.nodes
    pub fresh : HasFreshUses w.graph
    pub sorted_marks : IsSorted w.marks.live
    pub waiting : (q : NodeId) → is_live w.marks q ≡ true → contains q w.marks.work ≡ true
    pub measure : unmarked (size g) w.marks.live + length w.marks.work ≡ size g
    pub sorted_reach : IsSorted w.reach
    pub started : is_reached w g.start ≡ true
    pub stop_settled : settled g w.marks g.stop ≡ true
    pub closed : (b : NodeId) → is_reached w b ≡ true → (contains b w.stack ≡ true) ⊎ Entered w b

  module _ (w : Walk) (b : NodeId) (rest : List NodeId) (e : w.stack ≡ b ∷ rest) (i : Inv w) where
    abbrev asked : Graph
    asked = (uses_of w.graph b).0

    abbrev users : List NodeId
    users = (uses_of w.graph b).1

    abbrev marks : Marks
    marks = mark_calls asked b users w.marks

    abbrev left : Walk
    left = record w { graph = asked; marks = marks; stack = rest }

    asked_nodes : asked.nodes ≡ g.nodes
    asked_nodes = uses_of-nodes w.graph b ∙ i.same_nodes

    Marked-calls : Marked g w.marks marks
    Marked-calls =
        Marked-nodes g asked asked_nodes w.marks marks (mark_calls-Marked asked b users w.marks)

    entered_calls : (u : NodeId) → Pinned g b u → settled g marks u ≡ true
    unfolding uses_of
    entered_calls u p =
        sym (settled-nodes g asked asked_nodes marks u)
        ∙ settled-mark_calls asked b users w.marks u i.sorted_marks
            (subst
              (λ ns.
                b < length ns
                → contains b (inputs (get_or ns u default_node)) ≡ true
                → contains u users ≡ true)
              i.same_nodes (λ lt uses. uses_of-IsListed w.graph b i.fresh b u lt p.named ∙ uses)
              p.block p.uses)
            (pinned_call-nodes g asked asked_nodes b u ∙ p.call)

    Inv-enter :
        Inv (enter succs w b rest)
        × (missing (targets succs) (enter succs w b rest).reach
              + length (enter succs w b rest).stack
              + 1
            ≤ missing (targets succs) w.reach + length w.stack)
    unfolding enter
    Inv-enter =
        let (p, onward) =
          push_succs-Pushed (targets succs) (succs_at succs b) left i.sorted_reach
            (succs_at-AllIn succs b) in
        let w' = push_succs (succs_at succs b) left in
        let m = Marked-calls in
        let eg : w'.graph ≡ asked = p.same_graph in
        let em : w'.marks ≡ marks = p.same_marks in
        (
          record {
            same_nodes = ap (λ h. h.nodes) eg ∙ asked_nodes;
            fresh = rw eg (uses_of-HasFreshUses w.graph b i.fresh);
            sorted_marks = rw em (m.sorted i.sorted_marks);
            waiting = λ q live.
                elim (m.fresh i.sorted_marks q (subst (λ s. is_live s q ≡ true) em live)) [
                  | inr wait ↦ rw em wait
                  | inl old ↦ rw em (m.pending q (i.waiting q old))
                ];
            measure = rw em (m.measure i.sorted_marks ∙ i.measure);
            sorted_reach = p.sorted;
            started = p.grows g.start i.started;
            stop_settled =
                rw em (settled_later g w.marks marks g.stop i.sorted_marks m i.stop_settled);
            closed = λ q reached. elim (p.fresh q reached) [
              | inr wait ↦ inl wait
              | inl old ↦ elim (i.closed q old) [
                | inr done ↦ inr (record {
                  onward = λ s h. p.grows s (done.onward s h);
                  calls = λ u pin.
                      rw em (settled_later g w.marks marks u i.sorted_marks m (done.calls u pin));
                })
                | inl wait ↦ elim (Bool-cases (q == b)) [
                  | inl same ↦ inr (
                      subst (Entered (enter succs w b rest)) (sym (eq_of_== q b same))
                        (record { onward = onward; calls = λ u pin. rw em (entered_calls u pin) }))
                  | inr other ↦ inl (
                      p.pending q
                        (let k : contains q (b ∷ rest) ≡ true = rw e at wait in ground arith))
                ]
              ]
            ];
          },
          omega (arith, p.measure, ap length e),
        )

  -- The walk ends with an empty stack.
  pub data Ends : Option Walk → Type 0 where
    ends : {w : Walk} → Inv w → w.stack ≡ [] → Ends (some w)

  walk_step :
      (fuel : ℕ) (w : Walk) (b : NodeId) (rest : List NodeId)
      → w.stack ≡ b ∷ rest
      → walk (suc fuel) succs w ≡ walk fuel succs (enter succs w b rest)
  unfolding walk
  walk_step fuel w b rest e = rw (e, walk) refl

  walk_done : (fuel : ℕ) (w : Walk) → w.stack ≡ [] → walk fuel succs w ≡ some w
  unfolding walk
  walk_done zero w e = simp (e, walk)
  walk_done (suc fuel) w e = simp (e, walk)

  pub walk-Ends :
      (fuel : ℕ) (w : Walk)
      → Inv w
      → missing (targets succs) w.reach + length w.stack ≤ fuel
      → Ends (walk fuel succs w)
  walk-Ends zero w i le = elim (List-cases w.stack) [
    | inl e ↦ subst Ends (sym (walk_done 0 w e)) (ends i e)
    | inr (b, rest, e) ↦ absurd (omega (arith, ap length e))
  ]
  walk-Ends (suc fuel) w i le = elim (List-cases w.stack) [
    | inl e ↦ subst Ends (sym (walk_done (suc fuel) w e)) (ends i e)
    | inr (b, rest, e) ↦
        let (i', le') = Inv-enter w b rest e i in
        subst Ends (sym (walk_step fuel w b rest e))
          (walk-Ends fuel (enter succs w b rest) i' (omega arith))
  ]
