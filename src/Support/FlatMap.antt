-- ===== src/Support/FlatMap.antt =====
-- jules/src/core/support/common.h: the map that is a sorted vector of entries. Keys are numbers.
pub mod Search
pub mod Laws
use jules.Prelude.{
  ℕ, zero, suc, ◌+◌, ◌-◌, ◌/◌, ◌==◌, ltb, Bool, true, false, not, ◌&&◌, Option, none, some, List,
  [], ◌∷◌, ◌++◌, length, get_or, get_elem?, set, take, drop, if◌then◌else◌,
}

module _ {ℓ} {V : Type ℓ} where
  -- entries_[i].first, which the code reads only below the size
  abbrev pub key : List (ℕ × V) → ℕ → ℕ
  key [] i = 0
  key (e ∷ es) zero = e.0
  key (e ∷ es) (suc i) = key es i

  -- The loop of `lower`; each round halves the range, so the size is fuel enough.
  unfoldable pub search : ℕ → List (ℕ × V) → ℕ → ℕ → ℕ → ℕ
  search zero es k lo hi = lo
  search (suc fuel) es k lo hi =
      let mid = lo + (hi - lo) / 2 in
      elim (ltb lo hi) [
        | false ↦ lo
        | true ↦ elim (ltb (key es mid) k) [
          | true ↦ search fuel es k (mid + 1) hi
          | false ↦ search fuel es k lo mid
        ]
      ]

  unfoldable pub lower : List (ℕ × V) → ℕ → ℕ
  unfolding search
  lower es k = search (length es) es k 0 (length es)

  -- `i < entries_.size() && entries_[i].first == k`
  abbrev pub hit : List (ℕ × V) → ℕ → ℕ → Bool
  hit es k i = ltb i (length es) && key es i == k

  abbrev pub value_at : Option (ℕ × V) → Option V
  value_at none = none
  value_at (some e) = some e.1

  unfoldable pub find : List (ℕ × V) → ℕ → Option V
  unfolding lower
  find es k = let i = lower es k in if hit es k i then value_at (get_elem? es i) else none

  unfoldable pub insert : List (ℕ × V) → ℕ → V → List (ℕ × V)
  unfolding lower
  insert es k v =
      let i = lower es k in if hit es k i then set es i (k, v) else take i es ++ (k, v) ∷ drop i es

  unfoldable pub erase : List (ℕ × V) → ℕ → List (ℕ × V) × Bool
  unfolding lower
  erase es k =
      let i = lower es k in if hit es k i then (take i es ++ drop (i + 1) es, true) else (es, false)

  abbrev pub is_some : Option V → Bool
  is_some none = false
  is_some (some v) = true

  -- `find(k) != nullptr`
  unfoldable pub contains : List (ℕ × V) → ℕ → Bool
  unfolding find
  contains es k = is_some (find es k)

  -- operator[]: the map, with the default value put at a new key, and the value there.
  unfoldable pub at : List (ℕ × V) → ℕ → V → List (ℕ × V) × V
  unfolding find insert
  at es k empty = elim (find es k) [ some v ↦ (es, v) | none ↦ (insert es k empty, empty) ]
