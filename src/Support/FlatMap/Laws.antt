-- ===== src/Support/FlatMap/Laws.antt =====
-- The flat map against an association list in the order of its keys.
use jules.Prelude.{
  ℕ, zero, suc, ◌+◌, ◌-◌, ◌/◌, ◌≤◌, ◌<◌, ◌≡◌, refl, sym, ap, ◌∙◌, arith, ltb, ◌==◌, true, false,
  ◌||◌, Option, none, some, List, [], ◌∷◌, ◌++◌, length, get_elem?, set, take, drop, if◌then◌else◌,
  Bool-cases, inl, inr, eq_of_==, ne_of_==, ==_of_ne, lt→ltb, ltb→lt, ltb→le,
}
use jules.Support.FlatMap.{key, search, lower, hit, value_at, find, insert, contains, is_some}
use jules.Support.FlatMap.Search.{IsSorted, lower_splits}

module _ {ℓ} {V : Type ℓ} where
  -- The first entry with the key.
  abbrev pub lookup : List (ℕ × V) → ℕ → Option V
  lookup [] k = none
  lookup (e ∷ es) k = if e.0 == k then some e.1 else lookup es k

  -- The entries with one more before the first whose key is not smaller, or in its place.
  abbrev pub place : List (ℕ × V) → ℕ → V → List (ℕ × V)
  place [] k v = (k, v) ∷ []
  place (e ∷ es) k v =
      if ltb e.0 k then e ∷ place es k v else if e.0 == k then (k, v) ∷ es else (k, v) ∷ e ∷ es

  -- The number of first entries with smaller keys.
  abbrev rank : List (ℕ × V) → ℕ → ℕ
  rank [] k = 0
  rank (e ∷ es) k = if ltb e.0 k then suc (rank es k) else 0

  rank_le : (es : List (ℕ × V)) (k : ℕ) → rank es k ≤ length es
  rank_le [] k = omega arith
  rank_le (e ∷ es) k = ground (arith, rank_le es k)

  rank_below : (es : List (ℕ × V)) (k i : ℕ) → i < rank es k → ltb (key es i) k ≡ true
  rank_below [] k i h = absurd (omega arith)
  rank_below (e ∷ es) k zero h = ground arith
  rank_below (e ∷ es) k (suc i) h = ground (arith, rank_below es k i)

  rank_at : (es : List (ℕ × V)) (k : ℕ) → rank es k < length es → ltb (key es (rank es k)) k ≡ false
  rank_at [] k h = absurd (omega arith)
  rank_at (e ∷ es) k h = ground (arith, rank_at es k)

  search_le : (fuel : ℕ) (es : List (ℕ × V)) (k lo hi : ℕ) → lo ≤ hi → search fuel es k lo hi ≤ hi
  unfolding search
  search_le zero es k lo hi le = le
  search_le (suc fuel) es k lo hi le = ground (
    arith,
    search_le fuel es k (lo + (hi - lo) / 2 + 1) hi,
    search_le fuel es k lo (lo + (hi - lo) / 2),
  )

  lower-rank : (es : List (ℕ × V)) (k : ℕ) → IsSorted es → lower es k ≡ rank es k
  unfolding lower
  lower-rank es k sorted =
      let le = search_le (length es) es k 0 (length es) (omega arith) in
      let l = lower es k in
      let r = rank es k in
      elim (Bool-cases (ltb l r)) [
        | inl less ↦
            let lt = ltb→lt l r less in
            let q = lower_splits es k l sorted (omega (arith, rank_le es k)) in
            absurd (ground (arith, rank_below es k l lt))
        | inr ge ↦ elim (Bool-cases (ltb r l)) [
          | inl more ↦
              let lt = ltb→lt r l more in
              let q = lower_splits es k r sorted (omega arith) in
              absurd (ground (arith, rank_at es k))
          | inr same ↦ omega (arith, ltb→le l r ge, ltb→le r l same)
        ]
      ]

  rank_small :
      (e : ℕ × V) (es : List (ℕ × V)) (k : ℕ) → ltb e.0 k ≡ true → rank (e ∷ es) k ≡ suc (rank es k)
  rank_small e es k h = rw h refl

  place_small :
      (e : ℕ × V) (es : List (ℕ × V)) (k : ℕ) (v : V)
      → ltb e.0 k ≡ true
      → place (e ∷ es) k v ≡ e ∷ place es k v
  place_small e es k v h = rw h refl

  hit-suc : (e : ℕ × V) (es : List (ℕ × V)) (k i : ℕ) → hit (e ∷ es) k (suc i) ≡ hit es k i
  hit-suc e es k i = ground arith

  IsSorted-tail : (e : ℕ × V) (es : List (ℕ × V)) → IsSorted (e ∷ es) → IsSorted es
  IsSorted-tail e es sorted i j lt top = sorted (suc i) (suc j) (omega arith) (omega arith)

  IsSorted-head :
      (e : ℕ × V) (es : List (ℕ × V)) (i : ℕ) → IsSorted (e ∷ es) → i < length es → e.0 < key es i
  IsSorted-head e es i sorted lt = sorted 0 (suc i) (omega arith) (omega arith)

  IsSorted-cons :
      (e : ℕ × V) (es : List (ℕ × V))
      → ((i : ℕ) → i < length es → e.0 < key es i)
      → IsSorted es
      → IsSorted (e ∷ es)
  IsSorted-cons e es above sorted zero zero lt top = absurd (omega arith)
  IsSorted-cons e es above sorted zero (suc j) lt top = above j (omega arith)
  IsSorted-cons e es above sorted (suc i) zero lt top = absurd (omega arith)
  IsSorted-cons e es above sorted (suc i) (suc j) lt top = sorted i j (omega arith) (omega arith)

  lookup_below :
      (es : List (ℕ × V)) (k : ℕ) → ((i : ℕ) → i < length es → k < key es i) → lookup es k ≡ none
  lookup_below [] k above = refl
  lookup_below (e ∷ es) k above =
      let here = above 0 (omega arith) in
      let rest = lookup_below es k (λ i lt. above (suc i) (omega arith)) in ground arith

  find_at : List (ℕ × V) → ℕ → ℕ → Option V
  find_at es k i = if hit es k i then value_at (get_elem? es i) else none

  find_at-suc :
      (e : ℕ × V) (es : List (ℕ × V)) (k i : ℕ) → find_at (e ∷ es) k (suc i) ≡ find_at es k i
  unfolding find_at
  find_at-suc e es k i = ap (λ b. if b then value_at (get_elem? es i) else none) (hit-suc e es k i)

  find_at-rank : (es : List (ℕ × V)) (k : ℕ) → IsSorted es → find_at es k (rank es k) ≡ lookup es k
  unfolding find_at
  find_at-rank [] k sorted = refl
  find_at-rank (e ∷ es) k sorted = elim (Bool-cases (ltb e.0 k)) [
    | inl small ↦
        ap (find_at (e ∷ es) k) (rank_small e es k small)
        ∙ find_at-suc e es k (rank es k)
        ∙ find_at-rank es k (IsSorted-tail e es sorted)
        ∙ ap (λ b. if b then some e.1 else lookup es k)
            (sym (==_of_ne e.0 k (omega (arith, ltb→lt e.0 k small))))
    | inr large ↦ elim (Bool-cases (e.0 == k)) [
      | inl same ↦ rw (large, same, lt→ltb 0 (suc (length es)) (omega arith)) refl
      | inr other ↦
          rw (large, other, lt→ltb 0 (suc (length es)) (omega arith))
            (sym (
              lookup_below es k λ i lt.
                omega (
                  arith,
                  IsSorted-head e es i sorted lt,
                  ltb→le e.0 k large,
                  ne_of_== e.0 k other,
                )))
    ]
  ]

  -- In a map with strictly growing keys, `find` gives the value of the first entry with the key,
  -- and `none` if no entry has it.
  pub find-lookup : (es : List (ℕ × V)) (k : ℕ) → IsSorted es → find es k ≡ lookup es k
  unfolding find find_at
  find-lookup es k sorted = rw (lower-rank es k sorted) (find_at-rank es k sorted)

  insert_at : List (ℕ × V) → ℕ → V → ℕ → List (ℕ × V)
  insert_at es k v i = if hit es k i then set es i (k, v) else take i es ++ (k, v) ∷ drop i es

  insert_at-suc :
      (e : ℕ × V) (es : List (ℕ × V)) (k : ℕ) (v : V) (i : ℕ)
      → insert_at (e ∷ es) k v (suc i) ≡ e ∷ insert_at es k v i
  unfolding insert_at
  insert_at-suc e es k v i =
      rw (hit-suc e es k i)
        (elim (Bool-cases (hit es k i)) [ inl h ↦ rw h refl | inr h ↦ rw h refl ])

  insert_at-rank : (es : List (ℕ × V)) (k : ℕ) (v : V) → insert_at es k v (rank es k) ≡ place es k v
  unfolding insert_at
  insert_at-rank [] k v = refl
  insert_at-rank (e ∷ es) k v = elim (Bool-cases (ltb e.0 k)) [
    | inl small ↦
        ap (insert_at (e ∷ es) k v) (rank_small e es k small)
        ∙ insert_at-suc e es k v (rank es k)
        ∙ ap (λ r. e ∷ r) (insert_at-rank es k v)
        ∙ sym (place_small e es k v small)
    | inr large ↦ elim (Bool-cases (e.0 == k)) [
      | inl same ↦ rw (large, same, lt→ltb 0 (suc (length es)) (omega arith)) refl
      | inr other ↦ rw (large, other, lt→ltb 0 (suc (length es)) (omega arith)) refl
    ]
  ]

  insert-place : (es : List (ℕ × V)) (k : ℕ) (v : V) → IsSorted es → insert es k v ≡ place es k v
  unfolding insert insert_at
  insert-place es k v sorted = rw (lower-rank es k sorted) (insert_at-rank es k v)

  lookup-place :
      (es : List (ℕ × V)) (k : ℕ) (v : V) (q : ℕ)
      → lookup (place es k v) q ≡ (if q == k then some v else lookup es q)
  lookup-place [] k v q = ground arith
  lookup-place (e ∷ es) k v q = ground (arith, lookup-place es k v q)

  key-place :
      (es : List (ℕ × V)) (k b : ℕ) (v : V)
      → b < k
      → ((i : ℕ) → i < length es → b < key es i)
      → (i : ℕ) → i < length (place es k v)
      → b < key (place es k v) i
  key-place [] k b v lt above zero top = lt
  key-place [] k b v lt above (suc i) top = absurd (omega arith)
  key-place (e ∷ es) k b v lt above zero top = ground (arith, above 0)
  key-place (e ∷ es) k b v lt above (suc i) top =
      let rest = key-place es k b v lt (λ j q. above (suc j) (omega arith)) i in
      ground (arith, above i, above (suc i))

  place-IsSorted : (es : List (ℕ × V)) (k : ℕ) (v : V) → IsSorted es → IsSorted (place es k v)
  place-IsSorted [] k v sorted = λ i j lt top. absurd (omega arith)
  place-IsSorted (e ∷ es) k v sorted = elim (Bool-cases (ltb e.0 k)) [
    | inl small ↦ rw small (
        IsSorted-cons e (place es k v)
          (key-place es k e.0 v (ltb→lt e.0 k small) (λ i. IsSorted-head e es i sorted))
          (place-IsSorted es k v (IsSorted-tail e es sorted)))
    | inr large ↦ elim (Bool-cases (e.0 == k)) [
      | inl same ↦
          rw (large, same)
            (IsSorted-cons (k, v) es
              (λ i lt. omega (arith, IsSorted-head e es i sorted lt, eq_of_== e.0 k same))
              (IsSorted-tail e es sorted))
      | inr other ↦ rw (large, other) (IsSorted-cons (k, v) (e ∷ es) (above large other) sorted)
    ]
  ]
    where
      above :
          ltb e.0 k ≡ false
          → (e.0 == k) ≡ false
          → (i : ℕ) → i < length (e ∷ es)
          → k < key (e ∷ es) i
      above large other zero lt = omega (arith, ltb→le e.0 k large, ne_of_== e.0 k other)
      above large other (suc i) lt =
          omega (arith, ltb→le e.0 k large, IsSorted-head e es i sorted (omega arith))

  -- Insertion keeps the keys growing strictly.
  pub insert-IsSorted : (es : List (ℕ × V)) (k : ℕ) (v : V) → IsSorted es → IsSorted (insert es k v)
  insert-IsSorted es k v sorted = rw (insert-place es k v sorted) (place-IsSorted es k v sorted)

  -- In a map with strictly growing keys, after an insertion `find` gives the new value at the key
  -- and what it gave before at every other key.
  pub find-insert :
      (es : List (ℕ × V)) (k : ℕ) (v : V) (q : ℕ)
      → IsSorted es
      → find (insert es k v) q ≡ (if q == k then some v else find es q)
  find-insert es k v q sorted =
      find-lookup (insert es k v) q (insert-IsSorted es k v sorted)
      ∙ rw (insert-place es k v sorted, find-lookup es q sorted) (lookup-place es k v q)

  pub contains-insert :
      (es : List (ℕ × V)) (k : ℕ) (v : V) (q : ℕ)
      → IsSorted es
      → contains (insert es k v) q ≡ (q == k || contains es q)
  unfolding contains
  contains-insert es k v q sorted =
      ap is_some (find-insert es k v q sorted)
      ∙ elim (Bool-cases (q == k)) [ inl e ↦ rw e refl | inr e ↦ rw e refl ]
