-- ===== src/Codegen/Ralloc/Eligible.antt =====
-- The whole allocator gives each vreg a register of its class, callee-saved if it crosses a call.

use jules.Prelude.{
  ℕ, suc, ◌+◌, ◌<◌, ◌≡◌, ◌⊎◌, inl, inr, sym, ap, ◌∙◌, subst, arith, ◌==◌, Bool, true, false, not,
  ◌&&◌, ◌||◌, List, [], ◌∷◌, length, length-map, length-set, get_or, contains, if◌then◌else◌,
  Bool-cases,
}
use jules.Codegen.Ralloc.{RaBank, RaClass, RaProblem, RaSpan, no_bank, vreg, select_class}
use jules.Codegen.Ralloc.Selected.{select_class-Selected}
use jules.Codegen.Ralloc.Assign.{RaAssign, first_out, slots_of, bank_order, assign_all}
use jules.Codegen.Ralloc.Assign.Index.{DistinctIds}
use jules.Codegen.Ralloc.Assign.Disjoint.{promoted, reg_of}
use jules.Codegen.Ralloc.Assign.Banks.{
  Eligible, Good, set-AllEligible, slots_of-OfBanks, assign_all-Good,
}
use jules.Codegen.Ralloc.Coalesce.{
  in_bank, reg_callee, attempt, coalesce_pair, assign_classes, ralloc_hybrid,
}
use jules.Codegen.Ralloc.Classes.{idle_first}
use jules.Codegen.Ralloc.Coalesce.Sound.{promoted_lt}
use jules.Codegen.Ralloc.Coalesce.Rule.{rounds_keep}

in_bank-true :
    (r : ℕ) (rs : List ℕ) (callee found : Bool)
    → in_bank r rs callee found ≡ true
    → (found ≡ true) ⊎ (contains r rs ≡ true) × (callee ≡ true)
in_bank-true r [] callee found h = inl h
in_bank-true r (x ∷ rs) callee found h =
    ground (arith, in_bank-true r rs callee (if x == r then callee else found) h)

-- A bank that has the register and is callee-saved.
record SavedIn (r : ℕ) (bs : List RaBank) : Type 0 where
  bank : ℕ
  within : bank < length bs
  has : contains r (get_or bs bank no_bank).regs ≡ true
  saved : (get_or bs bank no_bank).callee_saved ≡ true

reg_callee-true :
    (r : ℕ) (bs : List RaBank) (found : Bool)
    → reg_callee r bs found ≡ true
    → (found ≡ true) ⊎ SavedIn r bs
unfolding reg_callee
reg_callee-true r [] found h = inl h
reg_callee-true r (b ∷ bs) found h =
    elim (reg_callee-true r bs (in_bank r b.regs b.callee_saved found) h) [
      | inr s ↦ inr (record {
        bank = suc s.bank;
        within = omega (arith, s.within);
        has = s.has;
        saved = s.saved;
      })
      | inl here ↦ elim (in_bank-true r b.regs b.callee_saved found here) [
        | inl before ↦ inl before
        | inr (has, saved) ↦
            inr (record { bank = 0; within = omega arith; has = has; saved = saved })
      ]
    ]

-- A mover that passes the test may use the register of a vreg of its class.
attempt-Eligible :
    (p : RaProblem) (cls : RaClass) (out : List RaAssign) (m o r : ℕ) (crosses : Bool)
    → attempt p cls out m o r ≡ true
    → Eligible cls crosses r
    → Eligible cls (vreg p m).crosses_call r
unfolding attempt
attempt-Eligible p cls out m o r crosses h e = elim (Bool-cases (vreg p m).crosses_call) [
  | inr no_call ↦ record { bank = e.bank; within = e.within; has = e.has; saved = λ k. absurd (cc) }
  | inl call ↦ elim (reg_callee-true r cls false (ground arith)) [
    | inl q ↦ absurd (cc)
    | inr s ↦ record { bank = s.bank; within = s.within; has = s.has; saved = λ k. s.saved }
  ]
]

coalesce_pair-Good :
    (p : RaProblem) (out : List RaAssign) (i j : ℕ)
    → Good p out
    → Good p (coalesce_pair p out i j).0
unfolding coalesce_pair
coalesce_pair-Good p out i j (sized, all) =
    let cls = get_or p.classes (vreg p i).cls [] in
    elim (Bool-cases (
      not ((vreg p i).cls == (vreg p j).cls)
      || not (promoted out i && promoted out j)
      || reg_of out i == reg_of out j)) [
        | inl h ↦ rw h (sized, all)
        | inr h ↦
            let e : (vreg p i).cls ≡ (vreg p j).cls = ground arith in
            let pi : promoted out i ≡ true = ground arith in
            let pj : promoted out j ≡ true = ground arith in
            let same : get_or p.classes (vreg p j).cls [] ≡ cls =
              ap (λ c. get_or p.classes c []) (sym e) in
            elim (Bool-cases (attempt p cls out i j (reg_of out j))) [
              | inl a ↦
                  rw (h, a)
                    (
                      length-set out i _ ∙ sized,
                      set-AllEligible p out i _ (promoted_lt out i pi)
                          (attempt-Eligible p cls out i j (reg_of out j) (vreg p j).crosses_call a (
                            subst (λ c. Eligible c (vreg p j).crosses_call (reg_of out j)) same
                              (all j pj)))
                          all,
                    )
              | inr a ↦ elim (Bool-cases (attempt p cls out j i (reg_of out i))) [
                | inl b ↦
                    rw (h, a, b)
                      (
                        length-set out j _ ∙ sized,
                        set-AllEligible p out j _ (promoted_lt out j pj)
                            (subst (λ c. Eligible c (vreg p j).crosses_call (reg_of out i))
                              (sym same)
                              (attempt-Eligible p cls out j i (reg_of out i) (vreg p i).crosses_call
                                b (all i pi)))
                            all,
                      )
                | inr b ↦ rw (h, a, b) (sized, all)
              ]
            ]
      ]

-- The loop over the classes, which are those of the problem from the index `ci` on.
assign_classes-Good :
    (flow_select : List RaSpan → List ℕ → List ℕ) (p : RaProblem) (ci : ℕ) (classes : List RaClass)
    (out : List RaAssign)
    → DistinctIds p.vregs
    → ((k : ℕ) → get_or p.classes (ci + k) [] ≡ get_or classes k [])
    → Good p out
    → Good p (assign_classes flow_select p ci classes out)
unfolding assign_classes
assign_classes-Good flow_select p ci [] out ids same good = good
assign_classes-Good flow_select p ci (cls ∷ rest) out ids same good =
    let is = select_class flow_select p ci cls in
    let s = select_class-Selected flow_select p ci cls in
    let order = bank_order p.prefer_callee_saved cls in
    let here : get_or p.classes ci [] ≡ cls =
      (let e : ci ≡ ci + 0 = omega arith in ap (λ c. get_or p.classes c []) e ∙ same 0) in
    assign_classes-Good flow_select p (ci + 1) rest
      (assign_all p cls order is (slots_of cls, out)).1 ids
      (λ k.
        (let e : ci + 1 + k ≡ ci + suc k = omega arith in
          ap (λ c. get_or p.classes c []) e ∙ same (suc k)))
      (assign_all-Good p ci cls order is (slots_of cls) out ids here
        (λ i h. ((s.in_class i h).class_is, (s.in_class i h).within)) (slots_of-OfBanks cls) good)

-- In a problem whose vregs have different ids, whatever the flow selects, the register of a
-- promoted vreg stands in a bank of the vreg's class, and in one that is callee-saved if the vreg
-- crosses a call.
pub ralloc_hybrid-Eligible :
    (flow_select : List RaSpan → List ℕ → List ℕ) (p : RaProblem) (i : ℕ)
    → DistinctIds p.vregs
    → promoted (ralloc_hybrid flow_select p).vregs i ≡ true
    → Eligible
        (get_or p.classes (vreg p i).cls [])
        (vreg p i).crosses_call
        (reg_of (ralloc_hybrid flow_select p).vregs i)
unfolding ralloc_hybrid
ralloc_hybrid-Eligible flow_select p i ids =
    let (_, all) =
      rounds_keep p (Good p) (coalesce_pair-Good p) 6
        (assign_classes flow_select p 0 p.classes (first_out p)) 0
        (assign_classes-Good flow_select p 0 p.classes (first_out p) ids
          (λ k. (let e : 0 + k ≡ k = omega arith in ap (λ c. get_or p.classes c []) e))
          (length-map _ p.vregs, λ j h. absurd (let k = idle_first p j in cc))) in
    all i
