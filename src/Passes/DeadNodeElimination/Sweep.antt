-- ===== src/Passes/DeadNodeElimination/Sweep.antt =====
-- The passes over all the ids that p01 makes: the table of successors, and the sweep.
use jules.Support.FlatMap
use jules.Prelude.{
  ℕ, zero, suc, ◌+◌, ◌≤◌, ◌≡◌, refl, ap, ◌∙◌, arith, ◌==◌, Bool, true, false, not, ◌&&◌, ◌||◌, leb,
  ltb, List, if◌then◌else◌, Bool-cases, inl, inr, eq_of_==,
}
use jules.Son.Node.{NodeId, Node, Op, ◌is◌}
use jules.Son.Graph.{Graph, node, size, kill, uses_of, rebuild_uses}
use jules.Son.Graph.Uses.{HasFreshUses}
use jules.Son.Graph.Replace.{node-kill, size-kill, kill-HasFreshUses}
use jules.Passes.Meaning.Edit.{killed}
use jules.Passes.DeadNodeElimination.{Succs, node_succs, succs_from, sweep}
use jules.Passes.DeadNodeElimination.Calls.{uses_of-nodes, uses_of-HasFreshUses}

-- The graph only has other use lists, which can be trusted.
abbrev pub SameNodes : Graph → Graph → Type 0
SameNodes g h = (h.nodes ≡ g.nodes) × HasFreshUses h × (h.start ≡ g.start) × (h.stop ≡ g.stop)

uses_of-start : (g : Graph) (n : NodeId) → (uses_of g n).0.start ≡ g.start
unfolding uses_of rebuild_uses
uses_of-start g n = elim (Bool-cases g.uses_dirty) [ inl e ↦ rw e refl | inr e ↦ rw e refl ]

uses_of-stop : (g : Graph) (n : NodeId) → (uses_of g n).0.stop ≡ g.stop
unfolding uses_of rebuild_uses
uses_of-stop g n = elim (Bool-cases g.uses_dirty) [ inl e ↦ rw e refl | inr e ↦ rw e refl ]

node_succs-SameNodes :
    (o : Op) (g : Graph) (id : NodeId) (succs : Succs)
    → HasFreshUses g
    → SameNodes g (node_succs o g id succs).0
unfolding node_succs
node_succs-SameNodes Op.if_op g id succs fresh =
    (uses_of-nodes g id, uses_of-HasFreshUses g id fresh, uses_of-start g id, uses_of-stop g id)
node_succs-SameNodes _ g id succs fresh = (refl, fresh, refl, refl)

pub succs_from-SameNodes :
    (count : ℕ) (id : NodeId) (g : Graph) (succs : Succs)
    → HasFreshUses g
    → SameNodes g (succs_from count id g succs).0
unfolding succs_from
succs_from-SameNodes zero id g succs fresh = (refl, fresh, refl, refl)
succs_from-SameNodes (suc count) id g succs fresh =
    let (g', succs') = node_succs (node g id).op g id succs in
    let (e, fresh', s, t) = node_succs-SameNodes (node g id).op g id succs fresh in
    let (e2, fresh2, s2, t2) = succs_from-SameNodes count (id + 1) g' succs' fresh' in
    (e2 ∙ e, fresh2, s2 ∙ s, t2 ∙ t)

-- The sweep has no reason to keep the node.
abbrev pub doomed : List (ℕ × Bool) → Graph → NodeId → Bool
doomed live g j = not ((node g j).op is Op.dead || FlatMap.contains live j)

abbrev pub window : ℕ → NodeId → NodeId → Bool
window count id j = leb id j && ltb j (id + count)

abbrev pub doom : Bool → Node → Node
doom b n = if b then killed n else n

sweep_skipped :
    (count : ℕ) (id : NodeId) (live : List (ℕ × Bool)) (g : Graph) (changed : Bool)
    → doomed live g id ≡ false
    → sweep (suc count) id live g changed ≡ sweep count (id + 1) live g changed
unfolding sweep
sweep_skipped count id live g changed h =
    let h' : ((node g id).op is Op.dead || FlatMap.contains live id) ≡ true = ground arith in
    rw (h', sweep) refl

sweep-kill :
    (count : ℕ) (id : NodeId) (live : List (ℕ × Bool)) (g : Graph) (changed : Bool)
    → doomed live g id ≡ true
    → sweep (suc count) id live g changed ≡ sweep count (id + 1) live (kill g id) true
unfolding sweep
sweep-kill count id live g changed h =
    let h' : ((node g id).op is Op.dead || FlatMap.contains live id) ≡ false = ground arith in
    rw (h', sweep) refl

-- Each node after the sweep.
pub node-sweep :
    (count : ℕ) (id : NodeId) (live : List (ℕ × Bool)) (g : Graph) (changed : Bool) (j : NodeId)
    → id + count ≤ size g
    → node (sweep count id live g changed).0 j
      ≡ doom (window count id j && doomed live g j) (node g j)
unfolding sweep
node-sweep zero id live g changed j le =
    let out : window 0 id j ≡ false = ground arith in rw out refl
node-sweep (suc count) id live g changed j le = elim (Bool-cases (doomed live g id)) [
  | inr skip ↦
      let rest = node-sweep count (id + 1) live g changed j (omega arith) in
      ap (λ r. node r.0 j) (sweep_skipped count id live g changed skip)
      ∙ rest
      ∙ ap (λ b. doom b (node g j)) (same skip)
  | inl gone ↦
      let rest =
        node-sweep count (id + 1) live (kill g id) true j (rw (size-kill g id) (omega arith)) in
      let now = node-kill g id j (omega arith) in
      ap (λ r. node r.0 j) (sweep-kill count id live g changed gone)
      ∙ rest
      ∙ elim (Bool-cases (j == id)) [
        | inl here ↦
            let e = eq_of_== j id here in
            let at_id : node (kill g id) j ≡ killed (node g j) = now ∙ rw here refl in
            let out : window count (id + 1) j ≡ false = ground arith in
            let into : (window (suc count) id j && doomed live g j) ≡ true = rw e (ground arith) in
            rw (out, into) at_id
        | inr there ↦
            let at_j : node (kill g id) j ≡ node g j = now ∙ rw there refl in
            let w : window count (id + 1) j ≡ window (suc count) id j = ground arith in
            rw (at_j, w) refl
      ]
]
  where
    same :
        doomed live g id ≡ false
        → (window count (id + 1) j && doomed live g j)
          ≡ (window (suc count) id j && doomed live g j)
    same skip = elim (Bool-cases (j == id)) [
      | inl here ↦ let e = eq_of_== j id here in rw e (rw skip (ground arith))
      | inr there ↦
          let w : window count (id + 1) j ≡ window (suc count) id j = ground arith in rw w refl
    ]

pub size-sweep :
    (count : ℕ) (id : NodeId) (live : List (ℕ × Bool)) (g : Graph) (changed : Bool)
    → size (sweep count id live g changed).0 ≡ size g
unfolding sweep
size-sweep zero id live g changed = refl
size-sweep (suc count) id live g changed = elim (Bool-cases (doomed live g id)) [
  | inr skip ↦
      ap (λ r. size r.0) (sweep_skipped count id live g changed skip)
      ∙ size-sweep count (id + 1) live g changed
  | inl gone ↦
      ap (λ r. size r.0) (sweep-kill count id live g changed gone)
      ∙ size-sweep count (id + 1) live (kill g id) true
      ∙ size-kill g id
]

pub sweep-HasFreshUses :
    (count : ℕ) (id : NodeId) (live : List (ℕ × Bool)) (g : Graph) (changed : Bool)
    → HasFreshUses g
    → HasFreshUses (sweep count id live g changed).0
unfolding sweep
sweep-HasFreshUses zero id live g changed fresh = fresh
sweep-HasFreshUses (suc count) id live g changed fresh = elim (Bool-cases (doomed live g id)) [
  | inr skip ↦
      rw (sweep_skipped count id live g changed skip)
        (sweep-HasFreshUses count (id + 1) live g changed fresh)
  | inl gone ↦
      rw (sweep-kill count id live g changed gone)
        (sweep-HasFreshUses count (id + 1) live (kill g id) true (kill-HasFreshUses g id fresh))
]
