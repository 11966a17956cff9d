-- ===== src/Passes/ConstEval/Arithmetic/Shift.antt =====
-- The right shifts of pass_utils.h.
use jules.Prelude.{
  ℕ, suc, ◌+◌, ◌-◌, ◌*◌, ◌/◌, ◌%◌, ◌^◌, ◌≤◌, ◌<◌, ◌≡◌, ◌≢◌, inl, inr, refl, ◌∙◌, arith, Bool, true,
  false, if◌then◌else◌, Bool-cases, ap,
}
use jules.Prelude.Words.{IsWord, negative, not64, sar64, shr64}
use native.Mathlib.Nat.{div-le_self, one-le-pow}
use jules.Passes.ConstEval.Arithmetic.{ShiftedRight}
use jules.Passes.ConstEval.Arithmetic.Division.{div-Divides}

pub power_positive : (n : ℕ) → 2 ^ n ≢ 0
power_positive n e = omega (arith, one-le-pow n 2)

pub sar-ShiftedRight : (x n : ℕ) → IsWord x → ShiftedRight true x n (sar64 x n)
sar-ShiftedRight x n hx =
    let p = 2 ^ n in
    elim (Bool-cases (negative x)) [
      | inr pos ↦ rw pos (inr (refl, (x % p, div-Divides x p (power_positive n))))
      | inl neg ↦
          let z = not64 x in
          let (e, lt) = div-Divides z p (power_positive n) in
          let le : z / p ≤ z = div-le_self z p in
          let v : 2 ^ 64 - not64 (z / p) ≡ suc (z / p) = omega arith in
          rw neg (
            inl (
              refl,
              (
                p - 1 - z % p,
                ap (λ u. u * p) v ∙ rest p (z / p) (z % p) z e lt (2 ^ 64 - x) (omega arith),
                omega arith,
              ),
            ))
    ]
  where
    rest : (p q r z : ℕ) → z ≡ p * q + r → r < p → (w : ℕ) → w ≡ z + 1 → suc q * p ≡ w + (p - 1 - r)
    rest p q r z e lt w h = omega arith

pub shr-ShiftedRight :
    (s : Bool) (x n : ℕ) → IsWord x → ShiftedRight s x n (if s then sar64 x n else shr64 x n)
shr-ShiftedRight true x n hx = sar-ShiftedRight x n hx
shr-ShiftedRight false x n hx = (x % 2 ^ n, div-Divides x (2 ^ n) (power_positive n))
