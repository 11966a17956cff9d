-- ===== src/Passes/DeadNodeElimination/Marking.antt =====
-- The marks of p01: each call of `mark` keeps their order and loses no pending node.
use jules.Support.FlatMap
use jules.Support.FlatMap.Search.{IsSorted}
use jules.Support.FlatMap.Laws.{contains-insert, find-lookup, insert-IsSorted}
use jules.Prelude.{
  ℕ, zero, suc, ◌+◌, ◌≤◌, ◌<◌, ◌≡◌, refl, ap, ◌∙◌, arith, ◌==◌, Bool, true, false, ◌||◌, List, [],
  ◌∷◌, length, contains, if◌then◌else◌, Bool-cases, inl, inr, ◌⊎◌, dec_lt, get_or-beyond, eq_of_==,
  ==_of_ne,
}
use jules.Son.Node.{NodeId, Op, no_node, ◌is◌, default_node}
use jules.Son.Graph.{Graph, node, size}
use jules.Passes.DeadNodeElimination.{Marks, mark, mark_all}

abbrev pub is_live : Marks → NodeId → Bool
is_live s n = FlatMap.contains s.live n

-- The code has nothing to mark at `n`.
abbrev pub settled : Graph → Marks → NodeId → Bool
settled g s n = n == no_node || is_live s n || (node g n).op is Op.dead

-- How many ids below `n` are not marked.
abbrev pub unmarked : ℕ → List (ℕ × Bool) → ℕ
unmarked zero live = 0
unmarked (suc n) live = (if FlatMap.contains live n then 0 else 1) + unmarked n live

unmarked-insert_beyond :
    (n k : ℕ) (live : List (ℕ × Bool)) (b : Bool)
    → IsSorted live
    → n ≤ k
    → unmarked n (FlatMap.insert live k b) ≡ unmarked n live
unmarked-insert_beyond zero k live b sorted le = refl
unmarked-insert_beyond (suc n) k live b sorted le =
    rw (contains-insert live k b n sorted, ==_of_ne n k (omega arith))
      (rw (unmarked-insert_beyond n k live b sorted (omega arith)) refl)

pub unmarked-insert :
    (n k : ℕ) (live : List (ℕ × Bool)) (b : Bool)
    → IsSorted live
    → FlatMap.contains live k ≡ false
    → k < n
    → unmarked n (FlatMap.insert live k b) + 1 ≡ unmarked n live
unmarked-insert zero k live b sorted out lt = absurd (omega arith)
unmarked-insert (suc n) k live b sorted out lt =
    let here = contains-insert live k b n sorted in
    elim (Bool-cases (n == k)) [
      | inl same ↦
          let e = eq_of_== n k same in
          let rest = unmarked-insert_beyond n k live b sorted (omega arith) in
          rw (here, same, rest)
            (let q : FlatMap.contains live n ≡ false = rw e out in rw q (omega arith))
      | inr other ↦
          let rest = unmarked-insert n k live b sorted out (ground arith) in
          rw (here, other) (omega (arith, rest))
    ]

abbrev pub no_ids : List (ℕ × Bool)
no_ids = []

pub contains-empty : (q : ℕ) → FlatMap.contains no_ids q ≡ false
unfolding FlatMap.contains
contains-empty q = ap FlatMap.is_some (find-lookup no_ids q (λ i j lt top. absurd (omega arith)))

pub unmarked-empty : (n : ℕ) → unmarked n [] ≡ n
unmarked-empty zero = refl
unmarked-empty (suc n) = rw (contains-empty n, unmarked-empty n) (omega arith)

-- What a series of calls of `mark` keeps.
pub record Marked (g : Graph) (s s' : Marks) : Type 0 where
  pub sorted : IsSorted s.live → IsSorted s'.live
  pub measure :
      IsSorted s.live
      → unmarked (size g) s'.live + length s'.work ≡ unmarked (size g) s.live + length s.work
  pub grows : IsSorted s.live → (q : NodeId) → is_live s q ≡ true → is_live s' q ≡ true
  pub pending : (q : NodeId) → contains q s.work ≡ true → contains q s'.work ≡ true
  pub fresh :
      IsSorted s.live
      → (q : NodeId) → is_live s' q ≡ true
      → (is_live s q ≡ true) ⊎ (contains q s'.work ≡ true)

pub Marked-refl : (g : Graph) (s : Marks) → Marked g s s
Marked-refl g s = record {
  sorted = λ h. h;
  measure = λ h. refl;
  grows = λ h q e. e;
  pending = λ q e. e;
  fresh = λ h q e. inl e;
}

pub Marked-trans : (g : Graph) (s t u : Marks) → Marked g s t → Marked g t u → Marked g s u
Marked-trans g s t u a b = record {
  sorted = λ h. b.sorted (a.sorted h);
  measure = λ h. b.measure (a.sorted h) ∙ a.measure h;
  grows = λ h q e. b.grows (a.sorted h) q (a.grows h q e);
  pending = λ q e. b.pending q (a.pending q e);
  fresh = λ h q e. elim (b.fresh (a.sorted h) q e) [
    | inr waiting ↦ inr waiting
    | inl old ↦ elim (a.fresh h q old) [ inl older ↦ inl older | inr w ↦ inr (b.pending q w) ]
  ];
}

-- A node that is not dead is a node of the graph.
pub lt-size_of_alive : (g : Graph) (n : NodeId) → ((node g n).op is Op.dead) ≡ false → n < size g
lt-size_of_alive g n h = elim (dec_lt n (size g)) [
  | yes lt ↦ lt
  | no ge ↦
      let e = get_or-beyond g.nodes n default_node (omega arith) in
      let h' : true ≡ false = rw e at h in absurd (cc)
]

module _ (g : Graph) (n : NodeId) (s : Marks) where
  abbrev added : Marks
  added = record { live = FlatMap.insert s.live n true; work = n ∷ s.work }

  Marked-added : is_live s n ≡ false → ((node g n).op is Op.dead) ≡ false → Marked g s added
  Marked-added out alive = record {
    sorted = λ h. insert-IsSorted s.live n true h;
    measure = λ h.
        let fewer = unmarked-insert (size g) n s.live true h out (lt-size_of_alive g n alive) in
        omega arith;
    grows = λ h q e. contains-insert s.live n true q h ∙ ground arith;
    pending = λ q e. ground arith;
    fresh = λ h q e.
        let now = contains-insert s.live n true q h in
        elim (Bool-cases (q == n)) [
          | inl same ↦ inr (rw same refl)
          | inr other ↦ inl (ground arith)
        ];
  }

  pub mark-Marked : Marked g s (mark g n s)
  unfolding mark
  mark-Marked = elim (Bool-cases (n == no_node || is_live s n)) [
    | inl skip ↦ rw skip (Marked-refl g s)
    | inr fresh ↦ elim (Bool-cases ((node g n).op is Op.dead)) [
      | inl dead ↦ rw (fresh, dead) (Marked-refl g s)
      | inr alive ↦ rw (fresh, alive) (Marked-added (ground arith) alive)
    ]
  ]

  -- Nothing is left to mark at the node.
  pub settled-mark : IsSorted s.live → settled g (mark g n s) n ≡ true
  unfolding mark
  settled-mark h = elim (Bool-cases (n == no_node || is_live s n)) [
    | inl skip ↦ rw skip (ground arith)
    | inr fresh ↦ elim (Bool-cases ((node g n).op is Op.dead)) [
      | inl dead ↦ rw (fresh, dead) (ground arith)
      | inr alive ↦ rw (fresh, alive) (rw (contains-insert s.live n true n h) (ground arith))
    ]
  ]

pub settled_later :
    (g : Graph) (s t : Marks) (q : NodeId)
    → IsSorted s.live
    → Marked g s t
    → settled g s q ≡ true
    → settled g t q ≡ true
settled_later g s t q h m e = ground (arith, m.grows h q)

pub mark_all-Marked : (g : Graph) (vs : List NodeId) (s : Marks) → Marked g s (mark_all g vs s)
unfolding mark_all
mark_all-Marked g [] s = Marked-refl g s
mark_all-Marked g (v ∷ vs) s =
    Marked-trans g s (mark g v s) (mark_all g vs (mark g v s)) (mark-Marked g v s)
      (mark_all-Marked g vs (mark g v s))

pub settled-mark_all :
    (g : Graph) (vs : List NodeId) (s : Marks) (q : NodeId)
    → IsSorted s.live
    → contains q vs ≡ true
    → settled g (mark_all g vs s) q ≡ true
unfolding mark_all
settled-mark_all g [] s q h e = absurd (cc)
settled-mark_all g (v ∷ vs) s q h e =
    let sorted = Marked.sorted (mark-Marked g v s) h in
    elim (Bool-cases (q == v)) [
      | inl same ↦
          settled_later g (mark g v s) (mark_all g vs (mark g v s)) q sorted
            (mark_all-Marked g vs (mark g v s)) (rw (eq_of_== q v same) (settled-mark g v s h))
      | inr other ↦ settled-mark_all g vs (mark g v s) q sorted (ground arith)
    ]
