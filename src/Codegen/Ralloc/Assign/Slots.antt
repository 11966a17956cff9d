-- ===== src/Codegen/Ralloc/Assign/Slots.antt =====
-- The register slots of the assignment as one list over all banks.
use jules.Prelude.{
  ℕ, zero, suc, ◌<◌, ◌≡◌, refl, sym, ap, ◌∙◌, arith, true, false, not, ◌&&◌, Option, none, some,
  List, [], ◌∷◌, ◌++◌, map, length, length-append, get_or, get_or-append_left, set, subst,
  if◌then◌else◌, Bool-cases, Option-cases, inl, inr,
}
use jules.Codegen.Ralloc.{RaVReg, RaClass, no_bank}
use jules.Codegen.Ralloc.Assign.{RegUse, expire, expire_one, take_free, place}

abbrev pub flat {ℓ} : {A : Type ℓ} → List (List A) → List A
flat [] = []
flat (xs ∷ xss) = xs ++ flat xss

map-append {ℓ κ} :
    {A : Type ℓ} {B : Type κ} (f : A → B) (xs ys : List A) → map f (xs ++ ys) ≡ map f xs ++ map f ys
map-append f [] ys = refl
map-append f (x ∷ xs) ys = ap (λ r. f x ∷ r) (map-append f xs ys)

pub flat-expire :
    (v : RaVReg) (slots : List (List RegUse))
    → flat (expire v slots) ≡ map (expire_one v) (flat slots)
flat-expire v [] = refl
flat-expire v (us ∷ slots) =
    ap (λ r. map (expire_one v) us ++ r) (flat-expire v slots)
    ∙ sym (map-append (expire_one v) us (flat slots))

abbrev pub no_use : RegUse
no_use = record { reg = 0; last = 0; active = true }

-- The slot at the position is free and has the register; held, it makes the slots `after`.
pub record Taken (last : ℕ) (before after : List RegUse) (r : ℕ) : Type 0 where
  pub pos : ℕ
  pub within : pos < length before
  pub free : (get_or before pos no_use).active ≡ false
  pub reg_is : (get_or before pos no_use).reg ≡ r
  pub held : after ≡ set before pos (record { reg = r; last = last; active = true })

set-append_left {ℓ} :
    {A : Type ℓ} (xs ys : List A) (i : ℕ) (x : A)
    → i < length xs
    → set xs i x ++ ys ≡ set (xs ++ ys) i x
set-append_left [] ys i x h = absurd (omega arith)
set-append_left (y ∷ xs) ys zero x h = refl
set-append_left (y ∷ xs) ys (suc i) x h = ap (λ r. y ∷ r) (set-append_left xs ys i x (omega arith))

Taken-left :
    (last : ℕ) (us us' rest : List RegUse) (r : ℕ)
    → Taken last us us' r
    → Taken last (us ++ rest) (us' ++ rest) r
Taken-left last us us' rest r t =
    let same = get_or-append_left us rest t.pos no_use t.within in
    record {
      pos = t.pos;
      within = omega (arith, t.within, length-append us rest);
      free = ap (λ u. u.active) same ∙ t.free;
      reg_is = ap (λ u. u.reg) same ∙ t.reg_is;
      held = ap (λ x. x ++ rest) t.held ∙ set-append_left us rest t.pos _ t.within;
    }

Taken-right :
    (last : ℕ) (us rest rest' : List RegUse) (r : ℕ)
    → Taken last rest rest' r
    → Taken last (us ++ rest) (us ++ rest') r
Taken-right last [] rest rest' r t = t
Taken-right last (u ∷ us) rest rest' r t =
    let t' = Taken-right last us rest rest' r t in
    record {
      pos = suc t'.pos;
      within = omega (arith, t'.within);
      free = t'.free;
      reg_is = t'.reg_is;
      held = ap (λ x. u ∷ x) t'.held;
    }

-- A bank's slots and a register, as `take_free` finds them.
abbrev pub Found : Type 0
Found = List RegUse × ℕ

abbrev pub found : Found → Option Found
found x = some x

pub some_pair :
    (us vs : List RegUse) (q r : ℕ) → found (us, q) ≡ found (vs, r) → (us ≡ vs) × (q ≡ r)
some_pair us vs q r h = (cc, cc)

take_free-Taken :
    (last : ℕ) (us us' : List RegUse) (r : ℕ)
    → take_free last us ≡ some (us', r)
    → Taken last us us' r
unfolding take_free
take_free-Taken last [] us' r h = absurd (cc)
take_free-Taken last (u ∷ us) us' r h = elim (Bool-cases u.active) [
  | inr free ↦
      let (eu, er) =
        some_pair (record { reg = u.reg; last = last; active = true } ∷ us) us' u.reg r
          (rw (free, take_free) at h) in
      record {
        pos = 0;
        within = omega arith;
        free = free;
        reg_is = er;
        held = sym eu ∙ ap (λ q. record { reg = q; last = last; active = true } ∷ us) er;
      }
  | inl busy ↦ elim (Option-cases (take_free last us)) [
    | inl e ↦ let h' : none ≡ found (us', r) = rw (busy, e, take_free) at h in absurd (cc)
    | inr ((vs, q), e) ↦
        let (eu, er) = some_pair (u ∷ vs) us' q r (rw (busy, e, take_free) at h) in
        subst (λ x. Taken last (u ∷ us) x r) eu
          (Taken-right last (u ∷ []) us vs r
            (subst (λ x. Taken last us vs x) er (take_free-Taken last us vs q e)))
  ]
]

abbrev pub Places : Type 0
Places = List (List RegUse) × ℕ

abbrev pub placed : Places → Option Places
placed x = some x

pub some_places :
    (us vs : List (List RegUse)) (q r : ℕ) → placed (us, q) ≡ placed (vs, r) → (us ≡ vs) × (q ≡ r)
some_places us vs q r h = (cc, cc)

Taken-flat :
    (last : ℕ) (slots : List (List RegUse)) (c : ℕ) (us : List RegUse) (r : ℕ)
    → Taken last (get_or slots c []) us r
    → Taken last (flat slots) (flat (set slots c us)) r
Taken-flat last [] c us r t = absurd (omega (arith, t.within))
Taken-flat last (x ∷ slots) zero us r t = Taken-left last x us (flat slots) r t
Taken-flat last (x ∷ slots) (suc c) us r t =
    Taken-right last x (flat slots) (flat (set slots c us)) r (Taken-flat last slots c us r t)

pub place-Taken :
    (cls : RaClass) (order : List ℕ) (v : RaVReg) (slots slots' : List (List RegUse)) (bis : List ℕ)
    (r : ℕ)
    → place cls order v slots bis ≡ some (slots', r)
    → Taken v.last (flat slots) (flat slots') r
unfolding place
place-Taken cls order v slots slots' [] r h = absurd (cc)
place-Taken cls order v slots slots' (bi ∷ bis) r h =
    let choice = if v.crosses_call then bi else get_or order bi 0 in
    elim (Bool-cases (v.crosses_call && not ((get_or cls bi no_bank).callee_saved))) [
      | inl skip ↦ place-Taken cls order v slots slots' bis r (rw (skip, place) at h)
      | inr eligible ↦ elim (Option-cases (take_free v.last (get_or slots choice []))) [
        | inl e ↦ place-Taken cls order v slots slots' bis r (rw (eligible, e, place) at h)
        | inr ((us, q), e) ↦
            let (es, er) =
              some_places (set slots choice us) slots' q r (rw (eligible, e, place) at h) in
            subst (λ x. Taken v.last (flat slots) (flat x) r) es
              (Taken-flat v.last slots choice us r (
                subst (λ x. Taken v.last (get_or slots choice []) us x) er
                  (take_free-Taken v.last (get_or slots choice []) us q e)))
      ]
    ]
