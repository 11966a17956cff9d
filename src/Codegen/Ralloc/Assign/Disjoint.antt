-- ===== src/Codegen/Ralloc/Assign/Disjoint.antt =====
-- Vregs that the assignment gives one register are not live together.

use jules.Prelude.{
  ℕ, zero, suc, ◌≤◌, ◌<◌, ◌≡◌, ◌≢◌, ◌⊎◌, inl, inr, refl, sym, ap, ◌∙◌, subst, arith, ◌==◌, Bool,
  true, false, ◌&&◌, List, [], ◌∷◌, map, length, length-map, length-set, get_or, get_or-set, set,
  contains, if◌then◌else◌, Bool-cases, eq_of_==, ==_refl, ==_of_ne, ℕ_discrete,
}
use jules.Codegen.Ralloc.{RaVReg, RaProblem, vreg}
use jules.Codegen.Ralloc.Assign.{RaAssign, no_assign, RegUse, ended, expire_one}
use jules.Codegen.Ralloc.Assign.Slots.{no_use, Taken}

get_or-map_lt {ℓ κ} :
    {A : Type ℓ} {B : Type κ} (f : A → B) (xs : List A) (k : ℕ) (d : A) (e : B)
    → k < length xs
    → get_or (map f xs) k e ≡ f (get_or xs k d)
get_or-map_lt f [] k d e h = absurd (omega arith)
get_or-map_lt f (x ∷ xs) zero d e h = refl
get_or-map_lt f (x ∷ xs) (suc k) d e h = get_or-map_lt f xs k d e (omega arith)

abbrev pub promoted : List RaAssign → ℕ → Bool
promoted out i = (get_or out i no_assign).promoted

abbrev pub reg_of : List RaAssign → ℕ → ℕ
reg_of out i = (get_or out i no_assign).reg

-- No register stands twice in the banks.
abbrev pub DistinctRegs : List RegUse → Type 0
DistinctRegs F =
    (a b : ℕ)
    → a < length F
    → b < length F
    → (get_or F a no_use).reg ≡ (get_or F b no_use).reg
    → a ≡ b

-- The vreg has the register now.
abbrev pub given : List RaAssign → ℕ → ℕ → List RaAssign
given out v r = set out v (record (get_or out v no_assign) { reg = r; promoted = true })

-- `all` are the vregs that the assignment places.
module _ (p : RaProblem) (all : List ℕ) where
  -- One of them is defined at the point.
  abbrev pub DefAt : ℕ → Type 0
  DefAt f =
      (w : ℕ) × (contains w all ≡ true) × ((vreg p w).first ≡ f) × ((vreg p w).starts_at_def ≡ true)

  -- The vreg's range ends before the point, or at the point, where a range begins with a definition.
  abbrev pub Clear : ℕ → ℕ → Type 0
  Clear i f = ((vreg p i).last < f) ⊎ ((vreg p i).last ≡ f) × DefAt f

  Clear-later : (i f f' : ℕ) → f ≤ f' → Clear i f → Clear i f'
  Clear-later i f f' le c = elim (ℕ_discrete f f') [
    | yes e ↦ subst (Clear i) e c
    | no ne ↦ inl (elim c [ inl lt ↦ omega arith | inr (e, d) ↦ omega arith ])
  ]

  -- What a slot says of the vregs in `done` that have its register.
  abbrev Held : List ℕ → List RaAssign → ℕ → RegUse → Type 0
  Held done out f u =
      (i : ℕ)
      → contains i done ≡ true
      → promoted out i ≡ true
      → reg_of out i ≡ u.reg
      → Clear i f ⊎ (u.active ≡ true) × (u.last ≡ (vreg p i).last)

  reg-expire : (v : RaVReg) (u : RegUse) → (expire_one v u).reg ≡ u.reg
  reg-expire v u = ground arith

  Held-expire :
      (done : List ℕ) (out : List RaAssign) (f v : ℕ) (u : RegUse)
      → contains v all ≡ true
      → f ≤ (vreg p v).first
      → Held done out f u
      → Held done out (vreg p v).first (expire_one (vreg p v) u)
  Held-expire done out f v u named le h i d pr e =
      let old = h i d pr (e ∙ reg-expire (vreg p v) u) in
      elim (Bool-cases (u.active && ended u (vreg p v))) [
        | inr stays ↦ rw stays (elim old [
          | inl c ↦ inl (Clear-later i f (vreg p v).first le c)
          | inr holds ↦ inr holds
        ])
        | inl gone ↦ inl (elim old [
          | inl c ↦ Clear-later i f (vreg p v).first le c
          | inr (active, last) ↦ elim (ℕ_discrete (vreg p i).last (vreg p v).first) [
            | yes same ↦ inr (same, (v, named, refl, ground arith))
            | no ne ↦ inl (ground arith)
          ]
        ])
      ]

  pub record Inv (done : List ℕ) (F : List RegUse) (out : List RaAssign) (f : ℕ) : Type 0 where
    pub sized : length out ≡ length p.vregs
    pub distinct : DistinctRegs F
    pub held : (k : ℕ) → k < length F → Held done out f (get_or F k no_use)
    pub pairs :
        (i j : ℕ)
        → contains i done ≡ true
        → contains j done ≡ true
        → i ≢ j
        → promoted out i ≡ true
        → promoted out j ≡ true
        → reg_of out i ≡ reg_of out j
        → Clear i (vreg p j).first ⊎ Clear j (vreg p i).first

  pub Inv-expire :
      (done : List ℕ) (F : List RegUse) (out : List RaAssign) (f v : ℕ)
      → contains v all ≡ true
      → f ≤ (vreg p v).first
      → Inv done F out f
      → Inv done (map (expire_one (vreg p v)) F) out (vreg p v).first
  Inv-expire done F out f v named le i =
      let at =
        λ (k : ℕ) (lt : k < length F). get_or-map_lt (expire_one (vreg p v)) F k no_use no_use lt in
      let n = length-map (expire_one (vreg p v)) F in
      record {
        sized = i.sized;
        distinct = λ a b la lb e.
            let la' : a < length F = omega arith in
            let lb' : b < length F = omega arith in
            i.distinct a b la' lb' (
              sym (reg-expire (vreg p v) (get_or F a no_use))
              ∙ sym (ap (λ u. u.reg) (at a la'))
              ∙ e
              ∙ ap (λ u. u.reg) (at b lb')
              ∙ reg-expire (vreg p v) (get_or F b no_use));
        held = λ k lt.
            let lt' : k < length F = omega arith in
            subst (Held done out (vreg p v).first) (sym (at k lt'))
              (Held-expire done out f v (get_or F k no_use) named le (i.held k lt'));
        pairs = i.pairs;
      }

  pub Inv-skip :
      (done : List ℕ) (F : List RegUse) (out : List RaAssign) (f v : ℕ)
      → promoted out v ≡ false
      → Inv done F out f
      → Inv (v ∷ done) F out f
  Inv-skip done F out f v idle i = record {
    sized = i.sized;
    distinct = i.distinct;
    held = λ k lt j d pr e. i.held k lt j (ground (arith)) pr e;
    pairs = λ j k dj dk ne pj pk e. i.pairs j k (ground arith) (ground arith) ne pj pk e;
  }

  pub Inv-place :
      (done : List ℕ) (F F' : List RegUse) (out : List RaAssign) (v r : ℕ)
      → v < length p.vregs
      → contains v done ≡ false
      → Taken (vreg p v).last F F' r
      → Inv done F out (vreg p v).first
      → Inv (v ∷ done) F' (given out v r) (vreg p v).first
  Inv-place done F F' out v r lt new t i = record {
    sized = length-set out v _ ∙ i.sized;
    distinct = λ a b la lb e.
        i.distinct a b (rw same_length at la) (rw same_length at lb)
          (sym (regs_at a (rw same_length at la)) ∙ e ∙ regs_at b (rw same_length at lb));
    held = λ k lk. held_at k (rw same_length at lk);
    pairs = λ j k dj dk ne pj pk e. elim (ℕ_discrete j v) [
      | yes ev ↦ inr (newest k j (λ q. ne (ev ∙ sym q)) ev dk pk (sym e))
      | no nv ↦ elim (ℕ_discrete k v) [
        | yes ew ↦ inl (newest j k nv ew dj pj e)
        | no nw ↦
            i.pairs j k (done_of j nv dj) (done_of k nw dk) ne (was j nv pj) (was k nw pk)
              (sym (reg_other j nv) ∙ e ∙ reg_other k nw)
      ]
    ];
  }
    where
      at_v :
          get_or (given out v r) v no_assign
          ≡ record (get_or out v no_assign) { reg = r; promoted = true }
      at_v = get_or-set out v v _ no_assign (rw i.sized lt) ∙ rw (==_refl v) refl

      at_other : (j : ℕ) → j ≢ v → get_or (given out v r) j no_assign ≡ get_or out j no_assign
      at_other j ne = get_or-set out v j _ no_assign (rw i.sized lt) ∙ rw (==_of_ne j v ne) refl

      -- The vregs that had the register are out of the way.
      clear :
          (j : ℕ)
          → contains j done ≡ true
          → promoted out j ≡ true
          → reg_of out j ≡ r
          → Clear j (vreg p v).first
      clear j d pr e = elim (i.held t.pos t.within j d pr (e ∙ sym t.reg_is)) [
        | inl c ↦ c
        | inr (active, last) ↦ absurd (let k = t.free in cc)
      ]

      done_of : (j : ℕ) → j ≢ v → contains j (v ∷ done) ≡ true → contains j done ≡ true
      done_of j ne d = ground arith

      was : (j : ℕ) → j ≢ v → promoted (given out v r) j ≡ true → promoted out j ≡ true
      was j ne h = sym (ap (λ a. a.promoted) (at_other j ne)) ∙ h

      reg_other : (j : ℕ) → j ≢ v → reg_of (given out v r) j ≡ reg_of out j
      reg_other j ne = ap (λ a. a.reg) (at_other j ne)

      reg_v : reg_of (given out v r) v ≡ r
      reg_v = ap (λ a. a.reg) at_v

      newest :
          (j k : ℕ)
          → j ≢ v
          → k ≡ v
          → contains j (v ∷ done) ≡ true
          → promoted (given out v r) j ≡ true
          → reg_of (given out v r) j ≡ reg_of (given out v r) k
          → Clear j (vreg p k).first
      newest j k ne ek d pr e =
          subst (λ x. Clear j (vreg p x).first) (sym ek)
            (clear j (done_of j ne d) (was j ne pr)
              (sym (reg_other j ne) ∙ e ∙ ap (reg_of (given out v r)) ek ∙ reg_v))

      same_length : length F' ≡ length F
      same_length = ap length t.held ∙ length-set F t.pos _

      slot_at :
          (k : ℕ)
          → get_or F' k no_use ≡ (
              if k == t.pos
              then record { reg = r; last = (vreg p v).last; active = true }
              else get_or F k no_use)
      slot_at k = ap (λ us. get_or us k no_use) t.held ∙ get_or-set F t.pos k _ no_use t.within

      regs_at : (k : ℕ) → k < length F → (get_or F' k no_use).reg ≡ (get_or F k no_use).reg
      regs_at k lk = ap (λ u. u.reg) (slot_at k) ∙ elim (Bool-cases (k == t.pos)) [
        | inl e ↦ rw e (let q = eq_of_== k t.pos e in rw q (sym t.reg_is))
        | inr e ↦ rw e refl
      ]

      held_at :
          (k : ℕ)
          → k < length F
          → Held (v ∷ done) (given out v r) (vreg p v).first (get_or F' k no_use)
      held_at k lk j dj pj e = elim (ℕ_discrete k t.pos) [
        | yes here ↦
            let now : get_or F' k no_use
                ≡ record { reg = r; last = (vreg p v).last; active = true } =
              slot_at k ∙ rw here (rw (==_refl t.pos) refl) in
            elim (ℕ_discrete j v) [
              | yes ev ↦ inr (
                ap (λ u. u.active) now,
                ap (λ u. u.last) now ∙ ap (λ x. (vreg p x).last) (sym ev),
              )
              | no nv ↦ inl (
                  clear j (done_of j nv dj) (was j nv pj)
                    (sym (reg_other j nv) ∙ e ∙ ap (λ u. u.reg) now))
            ]
        | no there ↦
            let now : get_or F' k no_use ≡ get_or F k no_use =
              slot_at k ∙ rw (==_of_ne k t.pos there) refl in
            elim (ℕ_discrete j v) [
              | yes ev ↦ absurd (
                  there (
                    i.distinct k t.pos lk t.within (
                      sym (ap (λ u. u.reg) now)
                      ∙ sym e
                      ∙ ap (reg_of (given out v r)) ev
                      ∙ reg_v
                      ∙ sym t.reg_is)))
              | no nv ↦
                  subst
                    (λ u. Clear j (vreg p v).first ⊎ (u.active ≡ true) × (u.last ≡ (vreg p j).last))
                    (sym now)
                    (i.held k lk j (done_of j nv dj) (was j nv pj)
                      (sym (reg_other j nv) ∙ e ∙ ap (λ u. u.reg) now))
            ]
      ]
