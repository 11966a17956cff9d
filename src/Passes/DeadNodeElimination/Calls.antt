-- ===== src/Passes/DeadNodeElimination/Calls.antt =====
-- The calls that p01 marks at a block, and the successors that it pushes.
use jules.Support.FlatMap
use jules.Support.FlatMap.Search.{IsSorted}
use jules.Support.FlatMap.{value_at}
use jules.Prelude.{
  ℕ, zero, suc, ◌+◌, ◌≡◌, refl, subst, ap, ◌∙◌, arith, ◌==◌, Bool, true, ◌&&◌, ◌||◌, none, some,
  List, [], ◌∷◌, length, contains, Bool-cases, Option-cases, inl, inr, eq_of_==, contains-append,
  get_elem?, get_or,
}
use jules.Son.Node.{NodeId, Op, no_node, input, default_node, ◌is◌}
use jules.Son.Graph.{Graph, node, uses_of, rebuild_uses}
use jules.Son.Graph.Uses.{HasFreshUses, uses_of-IsListed}
use jules.Passes.DeadNodeElimination.{Marks, mark, Succs, mark_calls, succs_at, targets}
use jules.Passes.DeadNodeElimination.Marking.{
  is_live, settled, unmarked, Marked, Marked-refl, Marked-trans, mark-Marked, settled-mark,
  settled_later,
}
use jules.Passes.DeadNodeElimination.Walking.{AllIn}

-- `u` is a call pinned to the block `b`.
abbrev pub pinned_call : Graph → NodeId → NodeId → Bool
pinned_call g b u = (node g u).op is Op.call && input (node g u) 0 == b

pub mark_calls-Marked :
    (g : Graph) (b : NodeId) (us : List NodeId) (s : Marks) → Marked g s (mark_calls g b us s)
unfolding mark_calls
mark_calls-Marked g b [] s = Marked-refl g s
mark_calls-Marked g b (u ∷ us) s = elim (Bool-cases (pinned_call g b u)) [
  | inl h ↦ rw h (
      Marked-trans g s (mark g u s) (mark_calls g b us (mark g u s)) (mark-Marked g u s)
        (mark_calls-Marked g b us (mark g u s)))
  | inr h ↦ rw h (mark_calls-Marked g b us s)
]

pub settled-mark_calls :
    (g : Graph) (b : NodeId) (us : List NodeId) (s : Marks) (q : NodeId)
    → IsSorted s.live
    → contains q us ≡ true
    → pinned_call g b q ≡ true
    → settled g (mark_calls g b us s) q ≡ true
unfolding mark_calls
settled-mark_calls g b [] s q h e call = absurd (cc)
settled-mark_calls g b (u ∷ us) s q h e call = elim (Bool-cases (q == u)) [
  | inl same ↦
      let here : pinned_call g b u ≡ true = (let k = eq_of_== q u same in rw k at call) in
      rw (here, mark_calls)
        (settled_later g (mark g u s) (mark_calls g b us (mark g u s)) q
          (Marked.sorted (mark-Marked g u s) h) (mark_calls-Marked g b us (mark g u s))
          (rw (eq_of_== q u same) (settled-mark g u s h)))
  | inr other ↦ elim (Bool-cases (pinned_call g b u)) [
    | inl here ↦
        rw (here, mark_calls)
          (settled-mark_calls g b us (mark g u s) q (Marked.sorted (mark-Marked g u s) h)
            (ground arith) call)
    | inr skip ↦ rw (skip, mark_calls) (settled-mark_calls g b us s q h (ground arith) call)
  ]
]

-- Asking for use lists changes no node.
pub uses_of-nodes : (g : Graph) (b : NodeId) → (uses_of g b).0.nodes ≡ g.nodes
unfolding uses_of rebuild_uses
uses_of-nodes g b = elim (Bool-cases g.uses_dirty) [ inl e ↦ rw e refl | inr e ↦ rw e refl ]

pub uses_of-HasFreshUses : (g : Graph) (b : NodeId) → HasFreshUses g → HasFreshUses (uses_of g b).0
uses_of-HasFreshUses g b fresh clean from j =
    rw (uses_of-nodes g b) (uses_of-IsListed g b fresh from j)

contains-value_at :
    (es : Succs) (i : ℕ) (ss : List NodeId) (q : NodeId)
    → value_at (get_elem? es i) ≡ some ss
    → contains q ss ≡ true
    → contains q (targets es) ≡ true
contains-value_at [] i ss q e named = absurd (cc)
contains-value_at (x ∷ es) zero ss q e named =
    let k : x.1 ≡ ss = cc in contains-append q x.1 (targets es) ∙ rw k (rw named refl)
contains-value_at (x ∷ es) (suc i) ss q e named =
    contains-append q x.1 (targets es)
    ∙ (let rest = contains-value_at es i ss q e named in ground arith)

entry_of_find :
    (succs : Succs) (b : NodeId) (ss : List NodeId)
    → FlatMap.find succs b ≡ some ss
    → value_at (get_elem? succs (FlatMap.lower succs b)) ≡ some ss
unfolding FlatMap.find
entry_of_find succs b ss e = elim (Bool-cases (FlatMap.hit succs b (FlatMap.lower succs b))) [
  | inl hit ↦ rw hit at e
  | inr miss ↦ let e' : none ≡ some ss = rw miss at e in absurd (cc)
]

pub succs_at-AllIn : (succs : Succs) (b : NodeId) → AllIn (succs_at succs b) (targets succs)
succs_at-AllIn succs b q h = elim (Option-cases (FlatMap.find succs b)) [
  | inl e ↦ let h' : contains q [] ≡ true = rw (e, contains, succs_at) at h in absurd (cc)
  | inr (ss, e) ↦
      let h' : contains q ss ≡ true = rw (e, contains, succs_at) at h in
      contains-value_at succs (FlatMap.lower succs b) ss q (entry_of_find succs b ss e) h'
]

module _ (g g' : Graph) (same : g'.nodes ≡ g.nodes) where
  pub settled-nodes : (s : Marks) (q : NodeId) → settled g' s q ≡ settled g s q
  settled-nodes s q =
      ap (λ ns. q == no_node || is_live s q || (get_or ns q default_node).op is Op.dead) same

  pub pinned_call-nodes : (b u : NodeId) → pinned_call g' b u ≡ pinned_call g b u
  pinned_call-nodes b u =
      ap (λ ns. (get_or ns u default_node).op is Op.call && input (get_or ns u default_node) 0 == b)
        same

  pub Marked-nodes : (s t : Marks) → Marked g' s t → Marked g s t
  Marked-nodes s t m = record {
    sorted = m.sorted;
    measure = λ h.
        subst
          (λ ns.
            unmarked (length ns) t.live + length t.work
            ≡ unmarked (length ns) s.live + length s.work)
          same (m.measure h);
    grows = m.grows;
    pending = m.pending;
    fresh = m.fresh;
  }
