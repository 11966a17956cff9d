-- ===== src/Passes/BitwiseOptimization/Values.antt =====
-- Absorption on binary words.
use jules.Prelude.{ℕ, zero, suc, ◌/◌, ◌≡◌, ap, ◌∙◌, arith, bit_and, bit_or}
use jules.Prelude.Bits.{Fits, and_low, or_low, zero-and, zero-or, half-Fits}

or-half : (a b : ℕ) → bit_or a b / 2 ≡ bit_or (a / 2) (b / 2)
or-half a b = omega (arith, or_low a b)

and-half : (a b : ℕ) → bit_and a b / 2 ≡ bit_and (a / 2) (b / 2)
and-half a b = omega (arith, and_low a b)

pub and-or_absorb : (k a b : ℕ) → Fits k a → bit_and a (bit_or a b) ≡ a
and-or_absorb zero zero b h = zero-and (bit_or 0 b)
and-or_absorb zero (suc a) b h = absurd (omega arith)
and-or_absorb (suc k) a b h =
    let low = and_low a (bit_or a b) in
    let halves : bit_and (a / 2) (bit_or a b / 2) ≡ a / 2 =
      ap (λ x. bit_and (a / 2) x) (or-half a b)
      ∙ and-or_absorb k (a / 2) (b / 2) (half-Fits k a h) in
    omega (arith, low, halves, or_low a b)

pub or-and_absorb : (k a b : ℕ) → Fits k a → bit_or a (bit_and a b) ≡ a
or-and_absorb zero zero b h = zero-or (bit_and 0 b) ∙ zero-and b
or-and_absorb zero (suc a) b h = absurd (omega arith)
or-and_absorb (suc k) a b h =
    let low = or_low a (bit_and a b) in
    let halves : bit_or (a / 2) (bit_and a b / 2) ≡ a / 2 =
      ap (λ x. bit_or (a / 2) x) (and-half a b)
      ∙ or-and_absorb k (a / 2) (b / 2) (half-Fits k a h) in
    omega (arith, low, halves, and_low a b)
