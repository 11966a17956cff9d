-- ===== src/Codegen/Ralloc/Assign/Sound.antt =====
-- The assignment of one class: what it writes, and that vregs with one register are not live together.

use jules.Prelude.{
  ℕ, ◌≤◌, ◌<◌, ◌≡◌, ◌≢◌, ◌⊎◌, inl, inr, refl, sym, ap, ◌∙◌, subst, arith, true, false, none, some,
  List, [], ◌∷◌, length, get_or, get_or-set_ne, contains, Option-cases, ℕ_discrete,
}
use jules.Codegen.Ralloc.{RaClass, RaProblem, vreg}
use jules.Codegen.Ralloc.Assign.{
  RaAssign, no_assign, RegUse, index_of, expire, place, promote, assign_one, assign_all, count_up,
  slots_of,
}
use jules.Codegen.Ralloc.Assign.Slots.{flat, flat-expire, place-Taken}
use jules.Codegen.Ralloc.Assign.Index.{DistinctIds, find-index_of}
use jules.Codegen.Ralloc.Assign.Disjoint.{
  promoted, reg_of, DistinctRegs, Clear, Inv, Inv-expire, Inv-skip, Inv-place, given,
}

-- Vregs of the problem, each once, in the order of their first points, from `f` on.
abbrev pub InOrder : RaProblem → ℕ → List ℕ → Type 0
InOrder p f [] = Unit
InOrder p f (i ∷ is) =
    (f ≤ (vreg p i).first)
    × (i < length p.vregs)
    × (contains i is ≡ false)
    × InOrder p (vreg p i).first is

-- None of the vregs is promoted yet.
abbrev pub Idle : List RaAssign → List ℕ → Type 0
Idle out is = (i : ℕ) → contains i is ≡ true → promoted out i ≡ false

module _ (p : RaProblem) (all : List ℕ) (ids : DistinctIds p.vregs) where
  pub promote-given :
      (v r : ℕ) (out : List RaAssign)
      → v < length p.vregs
      → promote (index_of p) (vreg p v).id r out ≡ given out v r
  unfolding promote
  promote-given v r out lt = rw (find-index_of p v ids lt, promote) refl

  -- What a step for the vreg `v` comes to.
  abbrev Stepped : List RaAssign → List ℕ → ℕ → List (List RegUse) × List RaAssign → Type 0
  Stepped out done v s =
      Inv p all (v ∷ done) (flat s.0) s.1 (vreg p v).first
      × ((w : ℕ) → w ≢ v → get_or s.1 w no_assign ≡ get_or out w no_assign)

  pub assign_one-placed :
      (cls : RaClass) (order : List ℕ) (v : ℕ) (slots slots' : List (List RegUse))
      (out : List RaAssign) (r : ℕ)
      → v < length p.vregs
      → place cls order (vreg p v) (expire (vreg p v) slots) (count_up 0 (length cls))
        ≡ some (slots', r)
      → assign_one p cls order v (slots, out) ≡ (slots', given out v r)
  unfolding assign_one
  assign_one-placed cls order v slots slots' out r lt e =
      rw (e, assign_one, promote-given v r out lt) refl

  pub assign_one-unplaced :
      (cls : RaClass) (order : List ℕ) (v : ℕ) (slots : List (List RegUse)) (out : List RaAssign)
      → place cls order (vreg p v) (expire (vreg p v) slots) (count_up 0 (length cls)) ≡ none
      → assign_one p cls order v (slots, out) ≡ (expire (vreg p v) slots, out)
  unfolding assign_one
  assign_one-unplaced cls order v slots out e = rw (e, assign_one) refl

  -- A step of the loop keeps the invariant, and writes only the vreg's own assignment.
  assign_one-Inv :
      (cls : RaClass) (order : List ℕ) (v : ℕ) (slots : List (List RegUse)) (out : List RaAssign)
      (done : List ℕ) (f : ℕ)
      → contains v all ≡ true
      → f ≤ (vreg p v).first
      → v < length p.vregs
      → contains v done ≡ false
      → promoted out v ≡ false
      → Inv p all done (flat slots) out f
      → Stepped out done v (assign_one p cls order v (slots, out))
  assign_one-Inv cls order v slots out done f named le lt new idle i =
      let gone = expire (vreg p v) slots in
      let i' : Inv p all done (flat gone) out (vreg p v).first =
        rw (flat-expire (vreg p v) slots) (Inv-expire p all done (flat slots) out f v named le i) in
      elim (Option-cases (place cls order (vreg p v) gone (count_up 0 (length cls)))) [
        | inl e ↦
            subst (Stepped out done v) (sym (assign_one-unplaced cls order v slots out e))
              (Inv-skip p all done (flat gone) out (vreg p v).first v idle i', λ w ne. refl)
        | inr ((slots', r), e) ↦
            subst (Stepped out done v) (sym (assign_one-placed cls order v slots slots' out r lt e))
              (
                Inv-place p all done (flat gone) (flat slots') out v r lt new
                    (place-Taken cls order (vreg p v) gone slots' (count_up 0 (length cls)) r e) i',
                λ w ne. get_or-set_ne out v w _ no_assign (λ q. ne (sym q)),
              )
      ]

  -- The loop over the vregs keeps the invariant.
  assign_all-Inv :
      (cls : RaClass) (order : List ℕ) (is : List ℕ) (slots : List (List RegUse))
      (out : List RaAssign) (done : List ℕ) (f : ℕ)
      → ((i : ℕ) → contains i is ≡ true → contains i all ≡ true)
      → InOrder p f is
      → ((i : ℕ) → contains i is ≡ true → contains i done ≡ false)
      → Idle out is
      → Inv p all done (flat slots) out f
      → (done' : List ℕ) × (f' : ℕ) × Inv p all done'
          (flat (assign_all p cls order is (slots, out)).0)
          (assign_all p cls order is (slots, out)).1
          f'
        × ((i : ℕ) → contains i is ≡ true → contains i done' ≡ true)
        × ((i : ℕ) → contains i done ≡ true → contains i done' ≡ true)
        × ((w : ℕ)
            → contains w is ≡ false
            → get_or (assign_all p cls order is (slots, out)).1 w no_assign
              ≡ get_or out w no_assign)
  unfolding assign_all
  assign_all-Inv cls order [] slots out done f within ordered new idle i =
      (done, f, i, λ j h. absurd (cc), λ j h. h, λ w h. refl)
  assign_all-Inv cls order (v ∷ is) slots out done f within ordered new idle i =
      let (le, lt, once, rest) = ordered in
      let (slots', out') = assign_one p cls order v (slots, out) in
      let (i', others) =
        assign_one-Inv cls order v slots out done f (within v (ground arith)) le lt
          (new v (ground arith)) (idle v (ground arith)) i in
      let apart : (j : ℕ) → contains j is ≡ true → j ≢ v =
        λ j h e. (let h' : contains v is ≡ true = rw e at h in cc) in
      let (done', f', last, all_in, kept, untouched) =
        assign_all-Inv cls order is slots' out' (v ∷ done) (vreg p v).first
          (λ j h. within j (ground arith)) rest
          (λ j h. (let ne = apart j h in let old = new j (ground arith) in ground arith))
          (λ j h. ap (λ a. a.promoted) (others j (apart j h)) ∙ idle j (ground arith)) i' in
      (
        done',
        f',
        last,
        λ j h. elim (ℕ_discrete j v) [
          | yes e ↦ kept j (ground arith)
          | no ne ↦ all_in j (ground arith)
        ],
        λ j h. kept j (ground arith),
        λ w h. untouched w (ground arith) ∙ others w (ground arith),
      )

Inv-begun :
    (p : RaProblem) (all : List ℕ) (F : List RegUse) (out : List RaAssign)
    → DistinctRegs F
    → length out ≡ length p.vregs
    → Inv p all [] F out 0
Inv-begun p all F out regs sized = record {
  sized = sized;
  distinct = regs;
  held = λ k lt i d pr e. absurd (cc);
  pairs = λ i j di dj ne pi pj e. absurd (cc);
}

-- What the assignment of the list `is` makes of `out`.
pub record Assigned (p : RaProblem) (is : List ℕ) (out out' : List RaAssign) : Type 0 where
  pub sized : length out' ≡ length p.vregs
  pub others : (w : ℕ) → contains w is ≡ false → get_or out' w no_assign ≡ get_or out w no_assign
  pub clear :
      (i j : ℕ)
      → contains i is ≡ true
      → contains j is ≡ true
      → i ≢ j
      → promoted out' i ≡ true
      → promoted out' j ≡ true
      → reg_of out' i ≡ reg_of out' j
      → Clear p is i (vreg p j).first ⊎ Clear p is j (vreg p i).first

pub assign_all-Assigned :
    (p : RaProblem) (cls : RaClass) (order is : List ℕ) (out : List RaAssign)
    → DistinctIds p.vregs
    → DistinctRegs (flat (slots_of cls))
    → InOrder p 0 is
    → Idle out is
    → length out ≡ length p.vregs
    → Assigned p is out (assign_all p cls order is (slots_of cls, out)).1
assign_all-Assigned p cls order is out ids regs ordered idle sized =
    let (done, f, last, all_in, _, others) =
      assign_all-Inv p is ids cls order is (slots_of cls) out [] 0 (λ k h. h) ordered (λ k h. refl)
        idle (Inv-begun p is (flat (slots_of cls)) out regs sized) in
    record {
      sized = last.sized;
      others = others;
      clear = λ i j hi hj. last.pairs i j (all_in i hi) (all_in j hj);
    }

-- The assignment of one class, for vregs that stand once each in the order of their first points
-- and are not promoted yet, in a problem whose ids differ and a class without a register twice: of
-- two of the vregs that are promoted to one register, the range of one ends before the range of
-- the other begins, or ends where it begins and some range of the list begins with a definition.
pub assign_all-Clear :
    (p : RaProblem) (cls : RaClass) (order is : List ℕ) (out : List RaAssign) (i j : ℕ)
    → DistinctIds p.vregs
    → DistinctRegs (flat (slots_of cls))
    → InOrder p 0 is
    → Idle out is
    → length out ≡ length p.vregs
    → contains i is ≡ true
    → contains j is ≡ true
    → i ≢ j
    → promoted (assign_all p cls order is (slots_of cls, out)).1 i ≡ true
    → promoted (assign_all p cls order is (slots_of cls, out)).1 j ≡ true
    → reg_of (assign_all p cls order is (slots_of cls, out)).1 i
      ≡ reg_of (assign_all p cls order is (slots_of cls, out)).1 j
    → Clear p is i (vreg p j).first ⊎ Clear p is j (vreg p i).first
assign_all-Clear p cls order is out i j ids regs ordered idle sized =
    Assigned.clear (assign_all-Assigned p cls order is out ids regs ordered idle sized) i j
