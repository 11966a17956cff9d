-- ===== src/Passes/ConstEval/Arithmetic/Bitwise.antt =====
-- The digits of words.
use jules.Prelude.{
  ℕ, zero, suc, ◌+◌, ◌-◌, ◌*◌, ◌/◌, ◌%◌, ◌<◌, ◌≡◌, ◌∙◌, arith, bit_and, bit_or, bit_xor, ap,
}
use jules.Prelude.Bits.{Fits, and_low, or_low, xor_low, and-zero, zero-and, half-Fits, ones}
use jules.Prelude.Words.{IsWord}
use Prim.Native.Nat.{min}
use native.Mathlib.Nat.{pow-suc}
use jules.Passes.ConstEval.Arithmetic.{bit}

-- Two digits.
min-product : (p q : ℕ) → p < 2 → q < 2 → min p q ≡ p * q
min-product zero q hp hq = omega arith
min-product (suc zero) q hp hq = omega arith
min-product (suc (suc p)) q hp hq = absurd (omega arith)

pub bit-and : (i x y : ℕ) → bit i (bit_and x y) ≡ bit i x * bit i y
bit-and zero x y =
    let d : min (x % 2) (y % 2) < 2 = omega arith in
    omega (arith, and_low x y) ∙ min-product (x % 2) (y % 2) (omega arith) (omega arith)
bit-and (suc i) x y =
    let half : bit_and x y / 2 ≡ bit_and (x / 2) (y / 2) = omega (arith, and_low x y) in
    ap (bit i) half ∙ bit-and i (x / 2) (y / 2)

pub bit-or : (i x y : ℕ) → bit i (bit_or x y) + bit i x * bit i y ≡ bit i x + bit i y
bit-or zero x y = omega (arith, or_low x y, min-product (x % 2) (y % 2) (omega arith) (omega arith))
bit-or (suc i) x y =
    let half : bit_or x y / 2 ≡ bit_or (x / 2) (y / 2) = omega (arith, or_low x y) in
    ap (λ v. bit i v + bit i (x / 2) * bit i (y / 2)) half ∙ bit-or i (x / 2) (y / 2)

pub bit-xor : (i x y : ℕ) → bit i (bit_xor x y) ≡ (bit i x + bit i y) % 2
bit-xor zero x y = omega (arith, xor_low x y)
bit-xor (suc i) x y =
    let half : bit_xor x y / 2 ≡ bit_xor (x / 2) (y / 2) = omega (arith, xor_low x y) in
    ap (bit i) half ∙ bit-xor i (x / 2) (y / 2)

pub and_not-and : (k x y : ℕ) → Fits k x → Fits k y → bit_and (ones k - x) y + bit_and x y ≡ y
and_not-and zero zero zero hx hy = omega (arith, zero-and 0)
and_not-and zero zero (suc y) hx hy = absurd (omega arith)
and_not-and zero (suc x) y hx hy = absurd (omega arith)
and_not-and (suc k) x y hx hy =
    let half : (ones (suc k) - x) / 2 ≡ ones k - x / 2 = omega (arith, pow-suc 2 k) in
    let rest = and_not-and k (x / 2) (y / 2) (half-Fits k x hx) (half-Fits k y hy) in
    let low = and_low (ones (suc k) - x) y in
    let low' : bit_and (ones (suc k) - x) y
        ≡ bit_and (ones k - x / 2) (y / 2) * 2 + min ((ones (suc k) - x) % 2) (y % 2) =
      low ∙ ap (λ h. bit_and h (y / 2) * 2 + min ((ones (suc k) - x) % 2) (y % 2)) half in
    omega (arith, low', and_low x y, rest, pow-suc 2 k)

pub shift_count : (y : ℕ) → IsWord y → bit_and y 63 ≡ y % 64
shift_count y h = omega (
  arith,
  and_low y 63,
  and_low (y / 2) 31,
  and_low (y / 2 / 2) 15,
  and_low (y / 2 / 2 / 2) 7,
  and_low (y / 2 / 2 / 2 / 2) 3,
  and_low (y / 2 / 2 / 2 / 2 / 2) 1,
  and-zero 64 (y / 2 / 2 / 2 / 2 / 2 / 2) (omega arith),
)
