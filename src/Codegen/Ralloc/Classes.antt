-- ===== src/Codegen/Ralloc/Classes.antt =====
-- The assignment of all classes: vregs of one class that get one register are live one after the
-- other.
use jules.Prelude.{
  ℕ, zero, suc, ◌+◌, ◌≤◌, ◌<◌, ◌≡◌, ◌≢◌, ◌⊎◌, inl, inr, refl, sym, ap, ◌∙◌, arith, true, false,
  List, [], ◌∷◌, length, get_or, map, length-map, contains, Bool-cases, ℕ_discrete, All,
}
use jules.Codegen.Ralloc.{RaVReg, RaClass, RaProblem, RaSpan, vreg, select_class}
use jules.Codegen.Ralloc.Selected.{Selected, select_class-Selected}
use jules.Codegen.Ralloc.Assign.{RaAssign, no_assign, first_out, slots_of, bank_order, assign_all}
use jules.Codegen.Ralloc.Assign.Slots.{flat}
use jules.Codegen.Ralloc.Assign.Index.{DistinctIds}
use jules.Codegen.Ralloc.Assign.Disjoint.{promoted, reg_of, DistinctRegs, Clear}
use jules.Codegen.Ralloc.Assign.Sound.{Assigned, assign_all-Assigned}
use jules.Codegen.Ralloc.Coalesce.{assign_classes}

idle_map :
    (vs : List RaVReg) (i : ℕ)
    → (get_or
        (map (λ (v : RaVReg). record { id = v.id; reg = 0; promoted = false }) vs)
        i
        no_assign).promoted
      ≡ false
idle_map [] i = refl
idle_map (v ∷ vs) zero = refl
idle_map (v ∷ vs) (suc i) = idle_map vs i

module _ (p : RaProblem) where
  -- A vreg of the class is defined at its first point, which is `f`.
  pub record Defined (ci f : ℕ) : Type 0 where
    pub def : ℕ
    pub of_class : (vreg p def).cls ≡ ci
    pub at_point : (vreg p def).first ≡ f
    pub defines : (vreg p def).starts_at_def ≡ true

  -- The range of `i` ends before that of `j` begins, or where it begins and a vreg is defined.
  abbrev pub Before : ℕ → ℕ → Type 0
  Before i j =
      ((vreg p i).last < (vreg p j).first)
      ⊎ ((vreg p i).last ≡ (vreg p j).first) × Defined (vreg p j).cls (vreg p j).first

  -- Two vregs may share a register.
  abbrev pub MayShare : ℕ → ℕ → Type 0
  MayShare i j = Before i j ⊎ Before j i

  -- Promoted vregs of one class with one register may share it.
  pub record Shares (ok : ℕ → ℕ → Type 0) (out : List RaAssign) : Type 0 where
    pub sized : length out ≡ length p.vregs
    pub sharing :
        (i j : ℕ)
        → i ≢ j
        → (vreg p i).cls ≡ (vreg p j).cls
        → promoted out i ≡ true
        → promoted out j ≡ true
        → reg_of out i ≡ reg_of out j
        → ok i j

  -- The vregs of the classes from `ci` on are not promoted.
  abbrev Waiting : ℕ → List RaAssign → Type 0
  Waiting ci out = (i : ℕ) → ci ≤ (vreg p i).cls → promoted out i ≡ false

  Clear-Before :
      (ci i j : ℕ) (is : List ℕ)
      → Selected p ci is
      → (vreg p j).cls ≡ ci
      → Clear p is i (vreg p j).first
      → Before i j
  Clear-Before ci i j is s cj c = elim c [
    | inl lt ↦ inl lt
    | inr (e, (w, named, at_w, def)) ↦ inr (
      e,
      record {
        def = w;
        of_class = (s.in_class w named).class_is ∙ sym cj;
        at_point = at_w;
        defines = def;
      },
    )
  ]

  class-Shares :
      (ci : ℕ) (is : List ℕ) (out out' : List RaAssign)
      → Selected p ci is
      → Waiting ci out
      → Shares MayShare out
      → Assigned p is out out'
      → Shares MayShare out' × Waiting (ci + 1) out'
  class-Shares ci is out out' s waiting shares a = (
    record { sized = a.sized; sharing = sharing },
    λ i le. still i (outside i (omega arith)) ∙ waiting i (omega arith),
  )
    where
      -- A vreg of another class is not in the list.
      outside : (i : ℕ) → (vreg p i).cls ≢ ci → contains i is ≡ false
      outside i ne = elim (Bool-cases (contains i is)) [
        | inl into ↦ absurd (ne (s.in_class i into).class_is)
        | inr out_of ↦ out_of
      ]

      still : (i : ℕ) → contains i is ≡ false → promoted out' i ≡ promoted out i
      still i h = ap (λ x. x.promoted) (a.others i h)

      -- A promoted vreg of the class is in the list.
      inside : (i : ℕ) → (vreg p i).cls ≡ ci → promoted out' i ≡ true → contains i is ≡ true
      inside i e pr = elim (Bool-cases (contains i is)) [
        | inl into ↦ into
        | inr out_of ↦ let k = still i out_of in let l = waiting i (omega arith) in absurd (cc)
      ]

      sharing :
          (i j : ℕ)
          → i ≢ j
          → (vreg p i).cls ≡ (vreg p j).cls
          → promoted out' i ≡ true
          → promoted out' j ≡ true
          → reg_of out' i ≡ reg_of out' j
          → MayShare i j
      sharing i j ne e pi pj er = elim (ℕ_discrete (vreg p i).cls ci) [
        | yes here ↦
            let there : (vreg p j).cls ≡ ci = sym e ∙ here in
            elim (a.clear i j (inside i here pi) (inside j there pj) ne pi pj er) [
              | inl c ↦ inl (Clear-Before ci i j is s there c)
              | inr c ↦ inr (Clear-Before ci j i is s here c)
            ]
        | no other ↦
            let oi = outside i other in
            let oj = outside j (λ q. other (e ∙ q)) in
            shares.sharing i j ne e (sym (still i oi) ∙ pi) (sym (still j oj) ∙ pj)
              (sym (ap (λ x. x.reg) (a.others i oi)) ∙ er ∙ ap (λ x. x.reg) (a.others j oj))
      ]

  -- The loop over the classes, from the index `ci` on.
  assign_classes-Shares :
      (flow_select : List RaSpan → List ℕ → List ℕ) (ci : ℕ) (classes : List RaClass)
      (out : List RaAssign)
      → DistinctIds p.vregs
      → All (λ cls. DistinctRegs (flat (slots_of cls))) classes
      → Waiting ci out
      → Shares MayShare out
      → Shares MayShare (assign_classes flow_select p ci classes out)
  unfolding assign_classes
  assign_classes-Shares flow_select ci [] out ids regs waiting shares = shares
  assign_classes-Shares flow_select ci (cls ∷ rest) out ids regs waiting shares =
      let is = select_class flow_select p ci cls in
      let s = select_class-Selected flow_select p ci cls in
      let order = bank_order p.prefer_callee_saved cls in
      let out' = (assign_all p cls order is (slots_of cls, out)).1 in
      let a =
        assign_all-Assigned p cls order is out ids regs.0 s.in_order
          (λ i h. waiting i (omega (arith, (s.in_class i h).class_is))) shares.sized in
      let (shares', waiting') = class-Shares ci is out out' s waiting shares a in
      assign_classes-Shares flow_select (ci + 1) rest out' ids regs.1 waiting' shares'

  pub idle_first : (i : ℕ) → promoted (first_out p) i ≡ false
  idle_first i = idle_map p.vregs i

  -- Before coalescing, in a problem whose ids differ and whose classes have no register twice,
  -- whatever the flow selects: of two promoted vregs of one class with one register, the range of
  -- one ends before the range of the other begins, or ends where it begins and some range of the
  -- class begins with a definition.
  pub assign_classes-MayShare :
      (flow_select : List RaSpan → List ℕ → List ℕ)
      → DistinctIds p.vregs
      → All (λ cls. DistinctRegs (flat (slots_of cls))) p.classes
      → Shares MayShare (assign_classes flow_select p 0 p.classes (first_out p))
  assign_classes-MayShare flow_select ids regs =
      assign_classes-Shares flow_select 0 p.classes (first_out p) ids regs (λ i le. idle_first i)
        (record {
          sized = length-map _ p.vregs;
          sharing = λ i j ne e pi pj er. absurd (let k = idle_first i in cc);
        })
