-- ===== src/Support/FlatMap/Search.antt =====
-- The binary search of the flat map.
use jules.Prelude.{
  ℕ, zero, suc, ◌+◌, ◌-◌, ◌/◌, ◌≤◌, ◌<◌, ◌≡◌, refl, arith, ltb, List, length, Bool-cases, inl, inr,
  dec_lt, ℕ_discrete, get_elem?, lt→ltb, ==_refl,
}
use jules.Support.FlatMap.{key, search, lower, find, value_at}

-- Keys that grow strictly.
abbrev pub IsSorted {ℓ} : {V : Type ℓ} → List (ℕ × V) → Type 0
IsSorted es = (i j : ℕ) → i < j → j < length es → key es i < key es j

module _ {ℓ} {V : Type ℓ} (es : List (ℕ × V)) (k : ℕ) (sorted : IsSorted es) where
  key_le : (i j : ℕ) → i ≤ j → j < length es → key es i ≤ key es j
  key_le i j le lt = elim (ℕ_discrete i j) [
    | yes e ↦ rw e (omega arith)
    | no ne ↦ omega (arith, sorted i j (omega arith) lt)
  ]

  search_splits :
      (fuel lo hi i : ℕ)
      → hi ≤ length es
      → lo ≤ hi
      → hi ≤ lo + fuel
      → ((j : ℕ) → j < lo → key es j < k)
      → ((j : ℕ) → hi ≤ j → j < length es → k ≤ key es j)
      → i < length es
      → ltb (key es i) k ≡ ltb i (search fuel es k lo hi)
  unfolding search
  search_splits zero lo hi i top le room below above lt = ground (arith, below i, above i)
  search_splits (suc fuel) lo hi i top le room below above lt =
      let mid = lo + (hi - lo) / 2 in
      elim (Bool-cases (ltb lo hi)) [
        | inr stop ↦ rw (stop, search) (ground (arith, below i, above i))
        | inl more ↦ elim (Bool-cases (ltb (key es mid) k)) [
          | inl small ↦
              rw (more, small, search)
                (search_splits fuel (mid + 1) hi i top (ground arith) (ground arith)
                  (λ j q. ground (arith, key_le j mid)) above lt)
          | inr large ↦
              rw (more, large, search)
                (search_splits fuel lo mid i (ground arith) (omega arith) (ground arith) below
                  (λ j q r. ground (arith, key_le mid j)) lt)
        ]
      ]

-- In a map with strictly growing keys, the entries before `lower` of a key have the smaller keys,
-- and no other entry has.
pub lower_splits {ℓ} :
    {V : Type ℓ} (es : List (ℕ × V)) (k i : ℕ)
    → IsSorted es
    → i < length es
    → ltb (key es i) k ≡ ltb i (lower es k)
unfolding lower
lower_splits es k i sorted lt =
    search_splits es k sorted (length es) 0 (length es) i (omega arith) (omega arith) (omega arith)
      (λ j q. absurd (omega arith)) (λ j q r. absurd (omega arith)) lt

lower_at {ℓ} :
    {V : Type ℓ} (es : List (ℕ × V)) (i : ℕ) → IsSorted es → i < length es → lower es (key es i) ≡ i
lower_at es i sorted lt =
    let l = lower es (key es i) in
    let here = lower_splits es (key es i) i sorted lt in
    let le : l ≤ i = ground arith in
    elim (dec_lt l i) [
      | no ge ↦ omega arith
      | yes less ↦
          let before = sorted l i less lt in
          let there = lower_splits es (key es i) l sorted (omega arith) in absurd (ground arith)
    ]

-- In a map with strictly growing keys, `find` gives the value of each entry at the entry's key.
pub find-entry {ℓ} :
    {V : Type ℓ} (es : List (ℕ × V)) (i : ℕ)
    → IsSorted es
    → i < length es
    → find es (key es i) ≡ value_at (get_elem? es i)
unfolding find
find-entry es i sorted lt =
    rw (lower_at es i sorted lt) (rw (lt→ltb i (length es) lt, ==_refl (key es i)) refl)
