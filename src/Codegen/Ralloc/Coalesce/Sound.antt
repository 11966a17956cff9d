-- ===== src/Codegen/Ralloc/Coalesce/Sound.antt =====
-- Coalescing keeps the sub-intervals of vregs with one register apart, and so does the allocator.
use jules.Support.FlatMap
use jules.Prelude.{
  ℕ, zero, suc, ◌<◌, ◌≡◌, ◌≢◌, refl, sym, ap, ◌∙◌, subst, arith, ◌==◌, Bool, true, false, not, ◌||◌,
  List, [], ◌∷◌, length, length-set, get_or, get_or-set, get_or-beyond, ℕ_discrete, dec_lt, ==_refl,
  ==_of_ne,
}
use jules.Codegen.Ralloc.{RaVReg, RaClass, RaProblem, vreg, no_vreg}
use jules.Codegen.Ralloc.Assign.{RaAssign, no_assign, index_of}
use jules.Codegen.Ralloc.Assign.Index.{DistinctIds, find-index_of}
use jules.Codegen.Ralloc.Assign.Disjoint.{promoted, reg_of}
use jules.Codegen.Ralloc.Classes.{Shares}
use jules.Codegen.Ralloc.Coalesce.{
  ranges_overlap, gens_of, gens_apart, lives_on, no_third, attempt, move_to,
}
use jules.Codegen.Ralloc.Coalesce.Apart.{InHull, GensApart, GensApart-far, GensApart-sym}

-- The test that `no_third` makes of one vreg.
abbrev off : RaProblem → List RaAssign → ℕ → ℕ → ℕ → RaVReg → Bool
off p out m o reg u =
    let vm = vreg p m in
    u.id == vm.id
    || u.id == (vreg p o).id
    || not (u.cls == vm.cls)
    || not (lives_on out reg (FlatMap.find (index_of p) u.id))
    || not (ranges_overlap u.first u.last vm.first vm.last)

no_third-off :
    (p : RaProblem) (out : List RaAssign) (m o reg : ℕ) (us : List RaVReg) (k : ℕ)
    → k < length us
    → no_third p out m o reg us ≡ true
    → off p out m o reg (get_or us k no_vreg) ≡ true
unfolding no_third
no_third-off p out m o reg [] k lt h = absurd (omega arith)
no_third-off p out m o reg (u ∷ us) zero lt h = ground arith
no_third-off p out m o reg (u ∷ us) (suc k) lt h =
    no_third-off p out m o reg us k (omega arith) (ground arith)

pub promoted_lt : (out : List RaAssign) (i : ℕ) → promoted out i ≡ true → i < length out
promoted_lt out i h = elim (dec_lt i (length out)) [
  | yes lt ↦ lt
  | no ge ↦
      let e = get_or-beyond out i no_assign (omega arith) in
      let h' : false ≡ true = sym (ap (λ a. a.promoted) e) ∙ h in absurd (cc)
]

module _ (p : RaProblem) (ids : DistinctIds p.vregs) (hulls : (k : ℕ) → InHull (vreg p k)) where
  -- Who keeps off the mover's hull keeps off its sub-intervals.
  third-GensApart :
      (out : List RaAssign) (m o reg k : ℕ)
      → no_third p out m o reg p.vregs ≡ true
      → m < length p.vregs
      → o < length p.vregs
      → k < length p.vregs
      → k ≢ m
      → k ≢ o
      → (vreg p k).cls ≡ (vreg p m).cls
      → promoted out k ≡ true
      → reg_of out k ≡ reg
      → GensApart p k m
  third-GensApart out m o reg k h lm lo lk nm nk ec pk er =
      let test = no_third-off p out m o reg p.vregs k lk h in
      let found = find-index_of p k ids lk in
      let lives : lives_on out reg (FlatMap.find (index_of p) (vreg p k).id) ≡ true =
        rw found (ground arith) in
      let id_m : (vreg p k).id ≢ (vreg p m).id = λ e. nm (ids k m lk lm e) in
      let id_o : (vreg p k).id ≢ (vreg p o).id = λ e. nk (ids k o lk lo e) in
      GensApart-far p k m hulls (ground arith)

  abbrev pub Apart : List RaAssign → Type 0
  Apart = Shares p (GensApart p)

  -- A move that passes the test keeps vregs with one register apart.
  pub move_to-Apart :
      (out : List RaAssign) (cls : RaClass) (m o : ℕ)
      → m ≢ o
      → (vreg p m).cls ≡ (vreg p o).cls
      → promoted out m ≡ true
      → promoted out o ≡ true
      → attempt p cls out m o (reg_of out o) ≡ true
      → Apart out
      → Apart (move_to m (reg_of out o) out)
  unfolding attempt
  move_to-Apart out cls m o ne ec pm po h s = record {
    sized = length-set out m _ ∙ s.sized;
    sharing = sharing;
  }
    where
      lm : m < length p.vregs
      lm = omega (arith, promoted_lt out m pm, s.sized)

      lo : o < length p.vregs
      lo = omega (arith, promoted_lt out o po, s.sized)

      moved : List RaAssign
      moved = move_to m (reg_of out o) out

      at_m : get_or moved m no_assign ≡ record (get_or out m no_assign) { reg = reg_of out o }
      at_m = get_or-set out m m _ no_assign (promoted_lt out m pm) ∙ rw (==_refl m) refl

      at_other : (j : ℕ) → j ≢ m → get_or moved j no_assign ≡ get_or out j no_assign
      at_other j q =
          get_or-set out m j _ no_assign (promoted_lt out m pm) ∙ rw (==_of_ne j m q) refl

      clear_of : gens_apart (gens_of (vreg p m)) (gens_of (vreg p o)) ≡ true
      clear_of = ground arith

      thirds : no_third p out m o (reg_of out o) p.vregs ≡ true
      thirds = ground arith

      -- A vreg that has the register already, and is not the mover.
      with_m :
          (j : ℕ)
          → j ≢ m
          → (vreg p j).cls ≡ (vreg p m).cls
          → promoted moved j ≡ true
          → reg_of moved j ≡ reg_of moved m
          → GensApart p j m
      with_m j nm e pj er =
          let pj' = sym (ap (λ a. a.promoted) (at_other j nm)) ∙ pj in
          elim (ℕ_discrete j o) [
            | yes q ↦ subst (λ x. GensApart p x m) (sym q) (GensApart-sym p m o clear_of)
            | no nk ↦
                third-GensApart out m o (reg_of out o) j thirds lm lo
                  (omega (arith, promoted_lt out j pj', s.sized)) nm nk e pj'
                  (sym (ap (λ a. a.reg) (at_other j nm)) ∙ er ∙ ap (λ a. a.reg) at_m)
          ]

      sharing :
          (i j : ℕ)
          → i ≢ j
          → (vreg p i).cls ≡ (vreg p j).cls
          → promoted moved i ≡ true
          → promoted moved j ≡ true
          → reg_of moved i ≡ reg_of moved j
          → GensApart p i j
      sharing i j nij e pi pj er = elim (ℕ_discrete i m) [
        | yes ei ↦
            let nj : j ≢ m = λ q. nij (ei ∙ sym q) in
            subst (λ x. GensApart p x j) (sym ei)
              (GensApart-sym p j m (
                with_m j nj (sym e ∙ ap (λ x. (vreg p x).cls) ei) pj
                  (sym er ∙ ap (reg_of moved) ei)))
        | no ni ↦ elim (ℕ_discrete j m) [
          | yes ej ↦
              subst (λ x. GensApart p i x) (sym ej)
                (with_m i ni (e ∙ ap (λ x. (vreg p x).cls) ej) pi (er ∙ ap (reg_of moved) ej))
          | no nj ↦
              s.sharing i j nij e (sym (ap (λ a. a.promoted) (at_other i ni)) ∙ pi)
                (sym (ap (λ a. a.promoted) (at_other j nj)) ∙ pj)
                (sym (ap (λ a. a.reg) (at_other i ni)) ∙ er ∙ ap (λ a. a.reg) (at_other j nj))
        ]
      ]
