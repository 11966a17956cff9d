-- ===== src/Codegen/Ralloc/Selected.antt =====
-- What the selection gives the assignment: vregs of the class, each once, by their first points.
use jules.Prelude.{
  ℕ, ◌-◌, ◌<◌, ◌≡◌, ◌⊎◌, refl, sym, ◌∙◌, arith, ◌==◌, Bool, true, false, ◌||◌, List, [], ◌∷◌, ◌++◌,
  length, contains, contains-append, if◌then◌else◌, Bool-cases, inl, inr, eq_of_==,
}
use jules.Codegen.Ralloc.{
  RaClass, RaProblem, RaSpan, vreg, callee_saved_regs, of_class, with_ids, without, fits, span_of,
  occupy, repair, sort, earlier, heavier, select_class,
}
use jules.Codegen.Ralloc.Sort.{
  Distinct, contains-sort, sort-Distinct, Ascends, sort-Ascends, append-Distinct,
}
use jules.Codegen.Ralloc.Selection.{
  OfClass, of_class-OfClass, of_class-Distinct, contains-with_ids, with_ids-Distinct,
  contains-without, without-Distinct,
}
use jules.Codegen.Ralloc.Assign.Sound.{InOrder}

-- The repair adds some of the rejected vregs.
record Repaired (sel is sel' : List ℕ) : Type 0 where
  distinct : Distinct sel'
  from : (q : ℕ) → contains q sel' ≡ true → (contains q sel ≡ true) ⊎ (contains q is ≡ true)

Repaired-skip : (i : ℕ) (sel is sel' : List ℕ) → Repaired sel is sel' → Repaired sel (i ∷ is) sel'
Repaired-skip i sel is sel' r = record {
  distinct = r.distinct;
  from = λ q h. elim (r.from q h) [ inl old ↦ inl old | inr new ↦ inr (ground arith) ];
}

contains-concat : (i q : ℕ) (sel : List ℕ) → contains q (sel ++ i ∷ []) ≡ (contains q sel || q == i)
contains-concat i q sel = contains-append q sel (i ∷ []) ∙ ground arith

Repaired-add :
    (i : ℕ) (sel is sel' : List ℕ) → Repaired (sel ++ i ∷ []) is sel' → Repaired sel (i ∷ is) sel'
Repaired-add i sel is sel' r = record {
  distinct = r.distinct;
  from = λ q h. elim (r.from q h) [
    | inl old ↦
        let k = contains-concat i q sel in
        elim (Bool-cases (contains q sel)) [
          | inl older ↦ inl older
          | inr newer ↦ inr (ground arith)
        ]
    | inr new ↦ inr (ground arith)
  ];
}

repair-Repaired :
    (p : RaProblem) (lo hi callee total : ℕ) (xa xb is sel : List ℕ)
    → Distinct sel
    → Distinct is
    → ((q : ℕ) → contains q is ≡ true → contains q sel ≡ false)
    → Repaired sel is (repair p lo hi callee total xa xb is sel)
unfolding repair
repair-Repaired p lo hi callee total xa xb [] sel d e apart = record {
  distinct = d;
  from = λ q h. inl h;
}
repair-Repaired p lo hi callee total xa xb (i ∷ is) sel d e apart =
    let s = span_of (vreg p i) in
    elim (Bool-cases (fits (s.end - s.start) s.start lo callee total xa xb)) [
      | inr full ↦
          rw (full, repair)
            (Repaired-skip i sel is _ (
              repair-Repaired p lo hi callee total xa xb is sel d e.1
                (λ q h. apart q (ground arith))))
      | inl room ↦
          let xa' = occupy (s.end - s.start) s.start lo hi xa in
          rw (room, repair)
            (Repaired-add i sel is _ (
              repair-Repaired p lo hi callee total xa' xb is (sel ++ i ∷ [])
                (append-Distinct sel (i ∷ []) d (refl, tt)
                  (λ q h.
                    (let k = apart i (ground arith) in
                      elim (Bool-cases (q == i)) [
                        | inl same ↦
                            let e' = eq_of_== q i same in
                            let h' : contains i sel ≡ true = rw e' at h in absurd (cc)
                        | inr other ↦ ground arith
                      ])))
                e.1
                (λ q h.
                  contains-concat i q sel
                  ∙ (let k = apart q (ground arith) in
                      elim (Bool-cases (q == i)) [
                        | inl same ↦
                            let e' = eq_of_== q i same in
                            let h' : contains i is ≡ true = rw e' at h in absurd (let l = e.0 in cc)
                        | inr other ↦ ground arith
                      ]))))
    ]

-- A vreg of the class.
pub record InClass (p : RaProblem) (ci q : ℕ) : Type 0 where
  pub within : q < length p.vregs
  pub class_is : (vreg p q).cls ≡ ci

OfClass-InClass :
    (p : RaProblem) (ci : ℕ) (crossing : Bool) (q : ℕ)
    → OfClass ci crossing 0 p.vregs q
    → InClass p ci q × ((vreg p q).crosses_call ≡ crossing)
OfClass-InClass p ci crossing q o =
    let e : q ≡ o.k = omega (arith, o.at_is) in
    (record { within = omega (arith, o.within); class_is = rw e o.class_is }, rw e o.crosses_is)

InOrder-sorted :
    (p : RaProblem) (f : ℕ) (is : List ℕ)
    → Ascends p f is
    → Distinct is
    → ((q : ℕ) → contains q is ≡ true → q < length p.vregs)
    → InOrder p f is
InOrder-sorted p f [] a d within = tt
InOrder-sorted p f (i ∷ is) a d within = (
  a.0,
  within i (ground arith),
  d.0,
  InOrder-sorted p (vreg p i).first is a.1 d.1 (λ q h. within q (ground arith)),
)

-- The flow's choice among the ranges, where there are any.
abbrev chosen : RaProblem → Bool → List ℕ → List ℕ → List ℕ
chosen p empty ids is = if empty then [] else with_ids p ids is

chosen-Distinct :
    (p : RaProblem) (empty : Bool) (ids is : List ℕ)
    → Distinct is
    → Distinct (chosen p empty ids is)
chosen-Distinct p true ids is d = tt
chosen-Distinct p false ids is d = with_ids-Distinct p ids is d

contains-chosen :
    (p : RaProblem) (empty : Bool) (ids is : List ℕ) (q : ℕ)
    → contains q (chosen p empty ids is) ≡ true
    → contains q is ≡ true
contains-chosen p true ids is q h = absurd (cc)
contains-chosen p false ids is q h = contains-with_ids p ids is q h

-- Vregs of the class in the order of the assignment.
pub record Selected (p : RaProblem) (ci : ℕ) (is : List ℕ) : Type 0 where
  pub in_order : InOrder p 0 is
  pub in_class : (q : ℕ) → contains q is ≡ true → InClass p ci q

Selected-empty : (p : RaProblem) (ci : ℕ) → Selected p ci []
Selected-empty p ci = record { in_order = tt; in_class = λ q h. absurd (cc) }

Selected-if :
    (p : RaProblem) (ci : ℕ) (b c : Bool) (is : List ℕ)
    → Selected p ci is
    → Selected p ci (if b then [] else if c then [] else is)
Selected-if p ci true c is s = Selected-empty p ci
Selected-if p ci false true is s = Selected-empty p ci
Selected-if p ci false false is s = s

module _ (p : RaProblem) (ci callee : ℕ) where
  abbrev group : Bool → List ℕ
  group crossing = of_class ci callee crossing 0 p.vregs

  group-InClass :
      (crossing : Bool) (q : ℕ)
      → contains q (group crossing) ≡ true
      → InClass p ci q × ((vreg p q).crosses_call ≡ crossing)
  group-InClass crossing q h =
      OfClass-InClass p ci crossing q (of_class-OfClass ci callee crossing 0 p.vregs q h)

  Selected-parts :
      (lo hi total : ℕ) (xa xb ids_a ids_b : List ℕ) (empty_a empty_b : Bool)
      → Selected p ci (
          sort (earlier p) (
            repair p lo hi callee total xa xb
              (sort (heavier p) (without (chosen p empty_a ids_a (group true)) (group true)))
              (chosen p empty_a ids_a (group true))
            ++ chosen p empty_b ids_b (group false)))
  Selected-parts lo hi total xa xb ids_a ids_b empty_a empty_b =
      let crossing = group true in
      let sel_a = chosen p empty_a ids_a crossing in
      let sel_b = chosen p empty_b ids_b (group false) in
      let rejected = sort (heavier p) (without sel_a crossing) in
      let left : (q : ℕ)
          → contains q rejected ≡ true
          → (contains q crossing ≡ true) × (contains q sel_a ≡ false) =
        λ q h.
          contains-without sel_a crossing q
            (sym (contains-sort (heavier p) q (without sel_a crossing)) ∙ h) in
      let d = of_class-Distinct ci callee true 0 p.vregs in
      let r =
        repair-Repaired p lo hi callee total xa xb rejected sel_a
          (chosen-Distinct p empty_a ids_a crossing d)
          (sort-Distinct (heavier p) (without sel_a crossing) (without-Distinct sel_a crossing d))
          (λ q h. (left q h).1) in
      let repaired = repair p lo hi callee total xa xb rejected sel_a in
      let from_a : (q : ℕ) → contains q repaired ≡ true → contains q crossing ≡ true = λ q h.
        elim (r.from q h) [
          | inl old ↦ contains-chosen p empty_a ids_a crossing q old
          | inr new ↦ (left q new).0
        ] in
      let from_b : (q : ℕ) → contains q sel_b ≡ true → contains q (group false) ≡ true =
        λ q h. contains-chosen p empty_b ids_b (group false) q h in
      let all = repaired ++ sel_b in
      let distinct : Distinct all =
        append-Distinct repaired sel_b r.distinct
          (chosen-Distinct p empty_b ids_b (group false)
            (of_class-Distinct ci callee false 0 p.vregs))
          (λ q h. elim (Bool-cases (contains q sel_b)) [
            | inr out ↦ out
            | inl both ↦
                let a = (group-InClass true q (from_a q h)).1 in
                let b = (group-InClass false q (from_b q both)).1 in absurd (cc)
          ]) in
      let in_class : (q : ℕ) → contains q (sort (earlier p) all) ≡ true → InClass p ci q = λ q h.
        let h' : contains q all ≡ true = sym (contains-sort (earlier p) q all) ∙ h in
        let k = contains-append q repaired sel_b in
        elim (Bool-cases (contains q repaired)) [
          | inl a ↦ (group-InClass true q (from_a q a)).0
          | inr b ↦ (group-InClass false q (from_b q (ground arith))).0
        ] in
      record {
        in_order =
            InOrder-sorted p 0 (sort (earlier p) all) (sort-Ascends p all)
              (sort-Distinct (earlier p) all distinct) (λ q h. (in_class q h).within);
        in_class = in_class;
      }

-- Whatever the flow selects, the vregs that a class's stages select are of the class, stand once
-- each, and stand in the order of their first points.
pub select_class-Selected :
    (flow_select : List RaSpan → List ℕ → List ℕ) (p : RaProblem) (ci : ℕ) (cls : RaClass)
    → Selected p ci (select_class flow_select p ci cls)
unfolding select_class
select_class-Selected flow_select p ci cls =
    Selected-if p ci _ _ _ (Selected-parts p ci (callee_saved_regs cls) _ _ _ _ _ _ _ _ _)
