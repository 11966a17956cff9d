-- ===== src/Codegen/Ralloc/Assign/Index.antt =====
-- The index of the vreg ids.
use jules.Support.FlatMap
use jules.Support.FlatMap.Search.{IsSorted}
use jules.Support.FlatMap.Laws.{find-insert, insert-IsSorted}
use jules.Prelude.{
  ℕ, zero, suc, ◌+◌, ◌<◌, ◌≡◌, ◌≢◌, refl, sym, ap, ◌∙◌, arith, some, List, [], ◌∷◌, length, get_or,
  ==_refl, ==_of_ne,
}
use jules.Codegen.Ralloc.{RaVReg, RaProblem, vreg, no_vreg}
use jules.Codegen.Ralloc.Assign.{index_from, index_of}

-- Different vregs have different ids.
abbrev pub DistinctIds : List RaVReg → Type 0
DistinctIds vs =
    (i j : ℕ)
    → i < length vs
    → j < length vs
    → (get_or vs i no_vreg).id ≡ (get_or vs j no_vreg).id
    → i ≡ j

find-index_from_other :
    (n : ℕ) (vs : List RaVReg) (index : List (ℕ × ℕ)) (q : ℕ)
    → IsSorted index
    → ((j : ℕ) → j < length vs → (get_or vs j no_vreg).id ≢ q)
    → FlatMap.find (index_from n vs index) q ≡ FlatMap.find index q
unfolding index_from
find-index_from_other n [] index q h other = refl
find-index_from_other n (v ∷ vs) index q h other =
    find-index_from_other (n + 1) vs (FlatMap.insert index v.id n) q
      (insert-IsSorted index v.id n h) (λ j lt. other (suc j) (omega arith))
    ∙ find-insert index v.id n q h
    ∙ rw (==_of_ne q v.id (λ e. other 0 (omega arith) (sym e))) refl

find-index_from :
    (n : ℕ) (vs : List RaVReg) (index : List (ℕ × ℕ)) (i : ℕ)
    → IsSorted index
    → DistinctIds vs
    → i < length vs
    → FlatMap.find (index_from n vs index) (get_or vs i no_vreg).id ≡ some (n + i)
unfolding index_from
find-index_from n [] index i h distinct lt = absurd (omega arith)
find-index_from n (v ∷ vs) index zero h distinct lt =
    find-index_from_other (n + 1) vs (FlatMap.insert index v.id n) v.id
      (insert-IsSorted index v.id n h)
      (λ j q e. absurd (let k = distinct (suc j) 0 (omega arith) (omega arith) e in omega arith))
    ∙ find-insert index v.id n v.id h
    ∙ rw (==_refl v.id) (ap some (omega arith))
find-index_from n (v ∷ vs) index (suc i) h distinct lt =
    find-index_from (n + 1) vs (FlatMap.insert index v.id n) i (insert-IsSorted index v.id n h)
      (λ a b p q e. (let k = distinct (suc a) (suc b) (omega arith) (omega arith) e in omega arith))
      (omega arith)
    ∙ ap some (omega arith)

-- The index of a problem whose ids differ gives each vreg's position.
pub find-index_of :
    (p : RaProblem) (i : ℕ)
    → DistinctIds p.vregs
    → i < length p.vregs
    → FlatMap.find (index_of p) (vreg p i).id ≡ some i
unfolding index_of
find-index_of p i distinct lt =
    find-index_from 0 p.vregs [] i (λ a b q top. absurd (omega arith)) distinct lt
    ∙ ap some (omega arith)
