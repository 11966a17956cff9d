-- ===== src/Codegen/Ralloc/Sort.antt =====
-- What the sorting of vregs keeps.
use jules.Prelude.{
  ℕ, ◌≤◌, ◌≡◌, refl, ap, ◌∙◌, arith, ◌==◌, Bool, true, false, ◌||◌, List, [], ◌∷◌, ◌++◌, contains,
  contains-append, Bool-cases, inl, inr,
}
use jules.Codegen.Ralloc.{RaProblem, vreg, insert_sorted, sort, earlier}

pub contains-insert_sorted :
    (before : ℕ → ℕ → Bool) (i q : ℕ) (js : List ℕ)
    → contains q (insert_sorted before i js) ≡ (q == i || contains q js)
unfolding insert_sorted
contains-insert_sorted before i q [] = refl
contains-insert_sorted before i q (j ∷ js) = ground (arith, contains-insert_sorted before i q js)

-- Sorting keeps the elements.
pub contains-sort :
    (before : ℕ → ℕ → Bool) (q : ℕ) (is : List ℕ) → contains q (sort before is) ≡ contains q is
unfolding sort
contains-sort before q [] = refl
contains-sort before q (i ∷ is) =
    contains-insert_sorted before i q (sort before is)
    ∙ ap (λ b. q == i || b) (contains-sort before q is)

-- No element stands twice.
abbrev pub Distinct : List ℕ → Type 0
Distinct [] = Unit
Distinct (i ∷ is) = (contains i is ≡ false) × Distinct is

insert_sorted-Distinct :
    (before : ℕ → ℕ → Bool) (i : ℕ) (js : List ℕ)
    → contains i js ≡ false
    → Distinct js
    → Distinct (insert_sorted before i js)
unfolding insert_sorted
insert_sorted-Distinct before i [] new d = (refl, tt)
insert_sorted-Distinct before i (j ∷ js) new d = elim (Bool-cases (before j i)) [
  | inl later ↦ rw later (
    contains-insert_sorted before i j js ∙ (let k = d.0 in ground arith),
    insert_sorted-Distinct before i js (ground arith) d.1,
  )
  | inr here ↦ rw here (new, d)
]

pub sort-Distinct : (before : ℕ → ℕ → Bool) (is : List ℕ) → Distinct is → Distinct (sort before is)
unfolding sort
sort-Distinct before [] d = tt
sort-Distinct before (i ∷ is) d =
    insert_sorted-Distinct before i (sort before is) (contains-sort before i is ∙ d.0)
      (sort-Distinct before is d.1)

-- The first points do not fall, from `f` on.
abbrev pub Ascends : RaProblem → ℕ → List ℕ → Type 0
Ascends p f [] = Unit
Ascends p f (i ∷ is) = (f ≤ (vreg p i).first) × Ascends p (vreg p i).first is

Ascends-lower : (p : RaProblem) (f f' : ℕ) (is : List ℕ) → f' ≤ f → Ascends p f is → Ascends p f' is
Ascends-lower p f f' [] le a = tt
Ascends-lower p f f' (i ∷ is) le a = (let k = a.0 in omega arith, a.1)

insert_sorted-Ascends :
    (p : RaProblem) (f i : ℕ) (js : List ℕ)
    → f ≤ (vreg p i).first
    → Ascends p f js
    → Ascends p f (insert_sorted (earlier p) i js)
unfolding insert_sorted
insert_sorted-Ascends p f i [] le a = (le, tt)
insert_sorted-Ascends p f i (j ∷ js) le a = elim (Bool-cases (earlier p j i)) [
  | inl later ↦ rw later (a.0, insert_sorted-Ascends p (vreg p j).first i js (before later) a.1)
  | inr here ↦ rw here (le, (after here, a.1))
]
  where
    before : earlier p j i ≡ true → (vreg p j).first ≤ (vreg p i).first
    before h = ground arith

    after : earlier p j i ≡ false → (vreg p i).first ≤ (vreg p j).first
    after h = ground arith

pub sort-Ascends : (p : RaProblem) (is : List ℕ) → Ascends p 0 (sort (earlier p) is)
unfolding sort
sort-Ascends p [] = tt
sort-Ascends p (i ∷ is) =
    insert_sorted-Ascends p 0 i (sort (earlier p) is) (omega arith) (sort-Ascends p is)

pub append-Distinct :
    (is js : List ℕ)
    → Distinct is
    → Distinct js
    → ((q : ℕ) → contains q is ≡ true → contains q js ≡ false)
    → Distinct (is ++ js)
append-Distinct [] js d e apart = e
append-Distinct (i ∷ is) js d e apart = (
  contains-append i is js ∙ (let k = d.0 in let l = apart i (ground arith) in ground arith),
  append-Distinct is js d.1 e (λ q h. apart q (ground arith)),
)
