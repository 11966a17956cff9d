-- ===== src/Codegen/Ralloc/Assign/Banks.antt =====
-- The register that a vreg is given stands in a bank that the vreg may use.
use jules.Prelude.{
  ℕ, zero, suc, ◌<◌, ◌≡◌, ◌≢◌, refl, sym, ap, ◌∙◌, subst, arith, ◌==◌, Bool, true, false, not, ◌&&◌,
  ◌||◌, none, some, List, [], ◌∷◌, map, length, length-set, get_or, get_or-set, set, contains,
  if◌then◌else◌, Bool-cases, Option-cases, inl, inr, eq_of_==, ℕ_discrete, dec_lt, get_or-beyond,
  ==_refl, ==_of_ne,
}
use jules.Codegen.Ralloc.{RaVReg, RaBank, RaClass, RaProblem, no_bank, vreg}
use jules.Codegen.Ralloc.Assign.{
  RaAssign, no_assign, RegUse, expire, expire_one, take_free, place, slots_of, assign_all, count_up,
}
use jules.Codegen.Ralloc.Assign.Slots.{found, some_pair, some_places}
use jules.Codegen.Ralloc.Assign.Index.{DistinctIds}
use jules.Codegen.Ralloc.Assign.Disjoint.{promoted, reg_of, given}
use jules.Codegen.Ralloc.Assign.Sound.{assign_one-placed, assign_one-unplaced}

-- The register is in a bank of the class, which is callee-saved where the vreg crosses calls.
pub record Eligible (cls : RaClass) (crosses : Bool) (r : ℕ) : Type 0 where
  pub bank : ℕ
  pub within : bank < length cls
  pub has : contains r (get_or cls bank no_bank).regs ≡ true
  pub saved : crosses ≡ true → (get_or cls bank no_bank).callee_saved ≡ true

abbrev regs_in : List RegUse → List ℕ
regs_in us = map (λ (u : RegUse). u.reg) us

-- The slots are those of the banks' registers.
abbrev pub OfBanks : RaClass → List (List RegUse) → Type 0
OfBanks cls slots = (c : ℕ) → regs_in (get_or slots c []) ≡ (get_or cls c no_bank).regs

regs_in-fresh :
    (rs : List ℕ) → regs_in (map (λ r. record { reg = r; last = 0; active = false }) rs) ≡ rs
regs_in-fresh [] = refl
regs_in-fresh (r ∷ rs) = ap (λ x. r ∷ x) (regs_in-fresh rs)

pub slots_of-OfBanks : (cls : RaClass) → OfBanks cls (slots_of cls)
slots_of-OfBanks [] c = refl
slots_of-OfBanks (b ∷ bs) zero = regs_in-fresh b.regs
slots_of-OfBanks (b ∷ bs) (suc c) = slots_of-OfBanks bs c

regs_in-expire : (v : RaVReg) (us : List RegUse) → regs_in (map (expire_one v) us) ≡ regs_in us
regs_in-expire v [] = refl
regs_in-expire v (u ∷ us) =
    let e : (expire_one v u).reg ≡ u.reg = ground arith in
    ap (λ r. r ∷ regs_in (map (expire_one v) us)) e ∙ ap (λ x. u.reg ∷ x) (regs_in-expire v us)

expire-get_or :
    (v : RaVReg) (slots : List (List RegUse)) (c : ℕ)
    → regs_in (get_or (expire v slots) c []) ≡ regs_in (get_or slots c [])
expire-get_or v [] c = refl
expire-get_or v (us ∷ slots) zero = regs_in-expire v us
expire-get_or v (us ∷ slots) (suc c) = expire-get_or v slots c

-- A register that was taken free was one of the slots', which keep their registers.
take_free-regs :
    (last : ℕ) (us us' : List RegUse) (r : ℕ)
    → take_free last us ≡ some (us', r)
    → (regs_in us' ≡ regs_in us) × (contains r (regs_in us) ≡ true)
unfolding take_free
take_free-regs last [] us' r h = absurd (cc)
take_free-regs last (u ∷ us) us' r h = elim (Bool-cases u.active) [
  | inr free ↦
      let (eu, er) =
        some_pair (record { reg = u.reg; last = last; active = true } ∷ us) us' u.reg r
          (rw (free, take_free) at h) in
      (
        ap regs_in (sym eu),
        subst (λ q. (q == u.reg || contains q (regs_in us)) ≡ true) er (rw (==_refl u.reg) refl),
      )
  | inl busy ↦ elim (Option-cases (take_free last us)) [
    | inl e ↦ let h' : none ≡ found (us', r) = rw (busy, e, take_free) at h in absurd (cc)
    | inr ((vs, q), e) ↦
        let (eu, er) = some_pair (u ∷ vs) us' q r (rw (busy, e, take_free) at h) in
        let (same, has) = take_free-regs last us vs q e in
        (
          ap regs_in (sym eu) ∙ ap (λ x. u.reg ∷ x) same,
          subst (λ x. (x == u.reg || contains x (regs_in us)) ≡ true) er (ground arith),
        )
  ]
]

nonempty : (r : ℕ) (rs : List ℕ) → contains r rs ≡ true → rs ≢ []
nonempty r rs h e = let h' : contains r [] ≡ true = rw e at h in cc

OfBanks-set :
    (cls : RaClass) (slots : List (List RegUse)) (c : ℕ) (us : List RegUse)
    → c < length slots
    → regs_in us ≡ regs_in (get_or slots c [])
    → OfBanks cls slots
    → OfBanks cls (set slots c us)
OfBanks-set cls slots c us lt e of d =
    ap regs_in (get_or-set slots c d us [] lt) ∙ elim (Bool-cases (d == c)) [
      | inl same ↦ rw same (let k = eq_of_== d c same in rw k (e ∙ of c))
      | inr other ↦ rw other (of d)
    ]

-- What a register found in the bank `c` comes to.
bank-Eligible :
    (cls : RaClass) (slots : List (List RegUse)) (v : RaVReg) (c : ℕ) (us : List RegUse) (r : ℕ)
    → OfBanks cls slots
    → (v.crosses_call ≡ true → (get_or cls c no_bank).callee_saved ≡ true)
    → take_free v.last (get_or slots c []) ≡ some (us, r)
    → Eligible cls v.crosses_call r × OfBanks cls (set slots c us)
bank-Eligible cls slots v c us r of saved h =
    let (same, has) = take_free-regs v.last (get_or slots c []) us r h in
    let has' : contains r (get_or cls c no_bank).regs ≡ true = sym (ap (contains r) (of c)) ∙ has in
    let bank_lt : c < length cls = elim (dec_lt c (length cls)) [
      | yes lt ↦ lt
      | no ge ↦
          let e = get_or-beyond cls c no_bank (omega arith) in
          absurd (nonempty r (get_or cls c no_bank).regs has' (ap (λ (b : RaBank). b.regs) e))
    ] in
    let slot_lt : c < length slots = elim (dec_lt c (length slots)) [
      | yes lt ↦ lt
      | no ge ↦
          let e = get_or-beyond slots c [] (omega arith) in
          absurd (nonempty r (regs_in (get_or slots c [])) has (ap regs_in e))
    ] in
    (
      record { bank = c; within = bank_lt; has = has'; saved = saved },
      OfBanks-set cls slots c us slot_lt same of,
    )

place-Eligible :
    (cls : RaClass) (order : List ℕ) (v : RaVReg) (slots slots' : List (List RegUse)) (bis : List ℕ)
    (r : ℕ)
    → OfBanks cls slots
    → place cls order v slots bis ≡ some (slots', r)
    → Eligible cls v.crosses_call r × OfBanks cls slots'
unfolding place
place-Eligible cls order v slots slots' [] r of h = absurd (cc)
place-Eligible cls order v slots slots' (bi ∷ bis) r of h =
    let choice = if v.crosses_call then bi else get_or order bi 0 in
    elim (Bool-cases (v.crosses_call && not ((get_or cls bi no_bank).callee_saved))) [
      | inl skip ↦ place-Eligible cls order v slots slots' bis r of (rw (skip, place) at h)
      | inr open_to ↦ elim (Option-cases (take_free v.last (get_or slots choice []))) [
        | inl e ↦ place-Eligible cls order v slots slots' bis r of (rw (open_to, e, place) at h)
        | inr ((us, q), e) ↦
            let (es, er) =
              some_places (set slots choice us) slots' q r (rw (open_to, e, place) at h) in
            let (el, of') = bank-Eligible cls slots v choice us q of (λ k. rw k (ground arith)) e in
            (subst (Eligible cls v.crosses_call) er el, subst (OfBanks cls) es of')
      ]
    ]

-- Every promoted vreg has a register that it may use.
abbrev pub AllEligible : RaProblem → List RaAssign → Type 0
AllEligible p out =
    (i : ℕ)
    → promoted out i ≡ true
    → Eligible (get_or p.classes (vreg p i).cls []) (vreg p i).crosses_call (reg_of out i)

-- A vreg may have an assignment with a register that it may use.
pub set-AllEligible :
    (p : RaProblem) (out : List RaAssign) (v : ℕ) (a : RaAssign)
    → v < length out
    → Eligible (get_or p.classes (vreg p v).cls []) (vreg p v).crosses_call a.reg
    → AllEligible p out
    → AllEligible p (set out v a)
set-AllEligible p out v a lt el all i pr =
    let at_i = get_or-set out v i a no_assign lt in
    elim (ℕ_discrete i v) [
      | yes e ↦
          let now : get_or (set out v a) i no_assign ≡ a = at_i ∙ rw e (rw (==_refl v) refl) in
          subst (λ x. Eligible (get_or p.classes (vreg p i).cls []) (vreg p i).crosses_call x)
            (sym (ap (λ a. a.reg) now))
            (subst
              (λ x. Eligible (get_or p.classes (vreg p x).cls []) (vreg p x).crosses_call a.reg)
              (sym e) el)
      | no ne ↦
          let now : get_or (set out v a) i no_assign ≡ get_or out i no_assign =
            at_i ∙ rw (==_of_ne i v ne) refl in
          subst (λ x. Eligible (get_or p.classes (vreg p i).cls []) (vreg p i).crosses_call x)
            (sym (ap (λ a. a.reg) now)) (all i (sym (ap (λ a. a.promoted) now) ∙ pr))
    ]

-- There is an assignment for each vreg, and each promoted vreg has a register that it may use.
abbrev pub Good : RaProblem → List RaAssign → Type 0
Good p out = (length out ≡ length p.vregs) × AllEligible p out

-- The loop over the vregs of a class keeps that.
pub assign_all-Good :
    (p : RaProblem) (ci : ℕ) (cls : RaClass) (order is : List ℕ) (slots : List (List RegUse))
    (out : List RaAssign)
    → DistinctIds p.vregs
    → get_or p.classes ci [] ≡ cls
    → ((i : ℕ) → contains i is ≡ true → ((vreg p i).cls ≡ ci) × (i < length p.vregs))
    → OfBanks cls slots
    → Good p out
    → Good p (assign_all p cls order is (slots, out)).1
unfolding assign_all
assign_all-Good p ci cls order [] slots out ids here within of good = good
assign_all-Good p ci cls order (v ∷ is) slots out ids here within of (sized, all) =
    let (cv, lt) = within v (ground arith) in
    let gone = expire (vreg p v) slots in
    let of' : OfBanks cls gone = λ c. expire-get_or (vreg p v) slots c ∙ of c in
    let rest = λ (s : List (List RegUse)) (o : List RaAssign).
      assign_all-Good p ci cls order is s o ids here (λ i h. within i (ground arith)) in
    elim (Option-cases (place cls order (vreg p v) gone (count_up 0 (length cls)))) [
      | inl e ↦
          subst (λ s. Good p (assign_all p cls order is s).1)
            (sym (assign_one-unplaced p is ids cls order v slots out e))
            (rest gone out of' (sized, all))
      | inr ((slots', r), e) ↦
          let (el, of2) =
            place-Eligible cls order (vreg p v) gone slots' (count_up 0 (length cls)) r of' e in
          let el' : Eligible (get_or p.classes (vreg p v).cls []) (vreg p v).crosses_call r =
            subst (λ c. Eligible c (vreg p v).crosses_call r)
              (sym (ap (λ c. get_or p.classes c []) cv ∙ here)) el in
          subst (λ s. Good p (assign_all p cls order is s).1)
            (sym (assign_one-placed p is ids cls order v slots slots' out r lt e))
            (rest slots' (given out v r) of2
              (length-set out v _ ∙ sized, set-AllEligible p out v _ (omega arith) el' all))
    ]
