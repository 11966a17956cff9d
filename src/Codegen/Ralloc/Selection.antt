-- ===== src/Codegen/Ralloc/Selection.antt =====
-- The lists of vregs that the selection draws from: whom they hold, each once.
use jules.Prelude.{
  ℕ, suc, ◌+◌, ◌<◌, ◌≡◌, arith, ◌==◌, Bool, true, false, not, ◌||◌, ◌&&◌, List, [], ◌∷◌, length,
  get_or, contains, if◌then◌else◌, Bool-cases, inl, inr, eq_of_==,
}
use jules.Codegen.Ralloc.{RaVReg, RaProblem, vreg, no_vreg, of_class, with_ids, without}
use jules.Codegen.Ralloc.Sort.{Distinct}

-- The vreg stands at the distance `k` in the list, is of the class, and crosses calls or not.
pub record OfClass (ci : ℕ) (crossing : Bool) (i : ℕ) (vs : List RaVReg) (q : ℕ) : Type 0 where
  pub k : ℕ
  pub at_is : q ≡ i + k
  pub within : k < length vs
  pub class_is : (get_or vs k no_vreg).cls ≡ ci
  pub crosses_is : (get_or vs k no_vreg).crosses_call ≡ crossing

OfClass-later :
    (ci : ℕ) (crossing : Bool) (i : ℕ) (v : RaVReg) (vs : List RaVReg) (q : ℕ)
    → OfClass ci crossing (i + 1) vs q
    → OfClass ci crossing i (v ∷ vs) q
OfClass-later ci crossing i v vs q o = record {
  k = suc o.k;
  at_is = omega (arith, o.at_is);
  within = omega (arith, o.within);
  class_is = o.class_is;
  crosses_is = o.crosses_is;
}

-- The test by which `of_class` takes a vreg.
abbrev taken : ℕ → ℕ → Bool → RaVReg → Bool
taken ci callee crossing v =
    v.cls == ci
    && not (v.crosses_call && callee == 0)
    && (if v.crosses_call then crossing else not crossing)

of_class_takes :
    (ci callee : ℕ) (crossing : Bool) (i : ℕ) (v : RaVReg) (vs : List RaVReg)
    → taken ci callee crossing v ≡ true
    → of_class ci callee crossing i (v ∷ vs) ≡ i ∷ of_class ci callee crossing (i + 1) vs
unfolding of_class
of_class_takes ci callee crossing i v vs h = ground arith

of_class_leaves :
    (ci callee : ℕ) (crossing : Bool) (i : ℕ) (v : RaVReg) (vs : List RaVReg)
    → taken ci callee crossing v ≡ false
    → of_class ci callee crossing i (v ∷ vs) ≡ of_class ci callee crossing (i + 1) vs
unfolding of_class
of_class_leaves ci callee crossing i v vs h = ground arith

pub of_class-OfClass :
    (ci callee : ℕ) (crossing : Bool) (i : ℕ) (vs : List RaVReg) (q : ℕ)
    → contains q (of_class ci callee crossing i vs) ≡ true
    → OfClass ci crossing i vs q
unfolding of_class
of_class-OfClass ci callee crossing i [] q h = absurd (cc)
of_class-OfClass ci callee crossing i (v ∷ vs) q h =
    elim (Bool-cases (taken ci callee crossing v)) [
      | inr leaves ↦
          let h' = rw (of_class_leaves ci callee crossing i v vs leaves) at h in
          OfClass-later ci crossing i v vs q (of_class-OfClass ci callee crossing (i + 1) vs q h')
      | inl takes ↦
          let h' : (q == i || contains q (of_class ci callee crossing (i + 1) vs)) ≡ true =
            rw (of_class_takes ci callee crossing i v vs takes) at h in
          elim (Bool-cases (q == i)) [
            | inl same ↦ record {
              k = 0;
              at_is = omega (arith, eq_of_== q i same);
              within = omega arith;
              class_is = ground arith;
              crosses_is = ground arith;
            }
            | inr other ↦
                OfClass-later ci crossing i v vs q
                  (of_class-OfClass ci callee crossing (i + 1) vs q (ground arith))
          ]
    ]

pub of_class-Distinct :
    (ci callee : ℕ) (crossing : Bool) (i : ℕ) (vs : List RaVReg)
    → Distinct (of_class ci callee crossing i vs)
unfolding of_class
of_class-Distinct ci callee crossing i [] = tt
of_class-Distinct ci callee crossing i (v ∷ vs) = elim (Bool-cases (taken ci callee crossing v)) [
  | inr leaves ↦
      rw (of_class_leaves ci callee crossing i v vs leaves)
        (of_class-Distinct ci callee crossing (i + 1) vs)
  | inl takes ↦ rw (of_class_takes ci callee crossing i v vs takes) (
    elim (Bool-cases (contains i (of_class ci callee crossing (i + 1) vs))) [
      | inr out ↦ out
      | inl into ↦
          let o = of_class-OfClass ci callee crossing (i + 1) vs i into in
          absurd (omega (arith, o.at_is))
    ],
    of_class-Distinct ci callee crossing (i + 1) vs,
  )
]

pub contains-with_ids :
    (p : RaProblem) (ids is : List ℕ) (q : ℕ)
    → contains q (with_ids p ids is) ≡ true
    → contains q is ≡ true
contains-with_ids p ids [] q h = h
contains-with_ids p ids (i ∷ is) q h = ground (arith, contains-with_ids p ids is q)

pub with_ids-Distinct :
    (p : RaProblem) (ids is : List ℕ) → Distinct is → Distinct (with_ids p ids is)
with_ids-Distinct p ids [] d = tt
with_ids-Distinct p ids (i ∷ is) d = elim (Bool-cases (contains (vreg p i).id ids)) [
  | inl h ↦ rw h (
    (let k = contains-with_ids p ids is i in let l = d.0 in ground arith),
    with_ids-Distinct p ids is d.1,
  )
  | inr h ↦ rw h (with_ids-Distinct p ids is d.1)
]

pub contains-without :
    (sel is : List ℕ) (q : ℕ)
    → contains q (without sel is) ≡ true
    → (contains q is ≡ true) × (contains q sel ≡ false)
contains-without sel [] q h = absurd (cc)
contains-without sel (i ∷ is) q h = elim (Bool-cases (contains i sel)) [
  | inl old ↦ let (a, b) = contains-without sel is q (rw old at h) in (ground arith, b)
  | inr new ↦
      let h' : (q == i || contains q (without sel is)) ≡ true = rw new at h in
      elim (Bool-cases (q == i)) [
        | inl same ↦ (ground arith, let e = eq_of_== q i same in rw e new)
        | inr other ↦ let (a, b) = contains-without sel is q (ground arith) in (ground arith, b)
      ]
]

pub without-Distinct : (sel is : List ℕ) → Distinct is → Distinct (without sel is)
without-Distinct sel [] d = tt
without-Distinct sel (i ∷ is) d = elim (Bool-cases (contains i sel)) [
  | inl h ↦ rw h (without-Distinct sel is d.1)
  | inr h ↦ rw h (
    (let k = contains-without sel is i in let l = d.0 in ground arith),
    without-Distinct sel is d.1,
  )
]
