-- ===== src/Codegen/Ralloc/Coalesce/Apart.antt =====
-- Sub-intervals that are apart, and ranges that are far from each other.

use jules.Prelude.{
  ℕ, ◌≤◌, ◌≡◌, ◌⊎◌, inl, inr, refl, sym, ap, ◌∙◌, arith, ◌==◌, true, ◌&&◌, List, [], ◌∷◌, length,
  Bool-cases, All,
}
use jules.Codegen.Ralloc.{RaGen, RaVReg, RaProblem, vreg}
use jules.Codegen.Ralloc.Classes.{MayShare}
use jules.Codegen.Ralloc.Coalesce.{gens_of, apart_from, gens_apart}

gens_apart-cons :
    (x : RaGen) (gm go : List RaGen)
    → gens_apart go (x ∷ gm) ≡ (apart_from x go && gens_apart go gm)
unfolding gens_apart
gens_apart-cons x gm [] = refl
gens_apart-cons x gm (y ∷ go) = ground (arith, gens_apart-cons x gm go)

gens_apart-nil : (go : List RaGen) → gens_apart go [] ≡ true
unfolding gens_apart
gens_apart-nil [] = refl
gens_apart-nil (y ∷ go) = gens_apart-nil go

gens_apart_sym : (gm go : List RaGen) → gens_apart gm go ≡ gens_apart go gm
unfolding gens_apart
gens_apart_sym [] go = sym (gens_apart-nil go)
gens_apart_sym (x ∷ gm) go =
    ap (λ b. apart_from x go && b) (gens_apart_sym gm go) ∙ sym (gens_apart-cons x gm go)

-- The sub-interval lies in [lo, hi].
abbrev pub Within : ℕ → ℕ → RaGen → Type 0
Within lo hi x = (lo ≤ x.start) × (x.end ≤ hi)

apart_from-Within :
    (x : RaGen) (lo hi lo' hi' : ℕ) (go : List RaGen)
    → Within lo hi x
    → All (Within lo' hi') go
    → (hi ≤ lo') ⊎ (hi' ≤ lo)
    → apart_from x go ≡ true
apart_from-Within x lo hi lo' hi' [] w all far = refl
apart_from-Within x lo hi lo' hi' (y ∷ go) w all far =
    let rest = apart_from-Within x lo hi lo' hi' go w all.1 far in
    let (a, b) = w in let (c, d) = all.0 in ground arith

gens_apart-Within :
    (lo hi lo' hi' : ℕ) (gm go : List RaGen)
    → All (Within lo hi) gm
    → All (Within lo' hi') go
    → (hi ≤ lo') ⊎ (hi' ≤ lo)
    → gens_apart gm go ≡ true
unfolding gens_apart
gens_apart-Within lo hi lo' hi' [] go all all' far = refl
gens_apart-Within lo hi lo' hi' (x ∷ gm) go all all' far =
    let here = apart_from-Within x lo hi lo' hi' go all.0 all' far in
    let rest = gens_apart-Within lo hi lo' hi' gm go all.1 all' far in ground arith

-- The vreg's sub-intervals lie in its range.
abbrev pub InHull : RaVReg → Type 0
InHull v = All (Within v.first v.last) v.gens

gens_of-Within : (v : RaVReg) → InHull v → All (Within v.first v.last) (gens_of v)
gens_of-Within v h = elim (Bool-cases (length v.gens == 0)) [
  | inl e ↦ rw e ((omega arith, omega arith), tt)
  | inr e ↦ rw e h
]

module _ (p : RaProblem) where
  -- No sub-interval of one vreg meets one of the other but where one ends and the other begins.
  abbrev pub GensApart : ℕ → ℕ → Type 0
  GensApart i j = gens_apart (gens_of (vreg p i)) (gens_of (vreg p j)) ≡ true

  pub GensApart-far :
      (i j : ℕ)
      → ((k : ℕ) → InHull (vreg p k))
      → ((vreg p i).last ≤ (vreg p j).first) ⊎ ((vreg p j).last ≤ (vreg p i).first)
      → GensApart i j
  GensApart-far i j hulls far =
      gens_apart-Within _ _ _ _ (gens_of (vreg p i)) (gens_of (vreg p j))
        (gens_of-Within (vreg p i) (hulls i)) (gens_of-Within (vreg p j) (hulls j)) far

  pub GensApart-sym : (i j : ℕ) → GensApart i j → GensApart j i
  GensApart-sym i j h = sym (gens_apart_sym (gens_of (vreg p i)) (gens_of (vreg p j))) ∙ h

  pub MayShare-GensApart :
      (i j : ℕ) → ((k : ℕ) → InHull (vreg p k)) → MayShare p i j → GensApart i j
  MayShare-GensApart i j hulls m = GensApart-far i j hulls (elim m [
    | inl (inl lt) ↦ inl (omega arith)
    | inl (inr (e, _)) ↦ inl (omega arith)
    | inr (inl lt) ↦ inr (omega arith)
    | inr (inr (e, _)) ↦ inr (omega arith)
  ])
