-- ===== src/Prelude/Bits.antt =====
-- Laws of `&`, `|` and `^` on binary words, for every width, by induction on the width.
use Prim.Native.Nat.{
  ℕ, zero, suc, ◌+◌, ◌-◌, ◌*◌, ◌/◌, ◌%◌, ◌^◌, ◌≤◌, ◌<◌, min, max, bit_and, bit_or, bit_xor, digits,
  bitwise, differ,
}
use Prim.Native.Nat.{bit_and-bitwise, bit_or-bitwise, bit_xor-bitwise}
use mathlib.Core.Path.{◌≡◌, refl}
use native.Mathlib.Nat.{pow-suc, one-le-pow}
use native.Mathlib.Omega.{arith}

-- The count of digits to go may be any bound on the first number.
digits_bound :
    (z : ℕ → ℕ) (f : ℕ → ℕ → ℕ) (k l a b : ℕ) → a ≤ k → a ≤ l → digits z f k a b ≡ digits z f l a b
digits_bound z f zero zero a b p q = refl
digits_bound z f zero (suc l) zero b p q = refl
digits_bound z f zero (suc l) (suc a) b p q = absurd (omega arith)
digits_bound z f (suc k) zero zero b p q = refl
digits_bound z f (suc k) zero (suc a) b p q = absurd (omega arith)
digits_bound z f (suc k) (suc l) zero b p q = refl
digits_bound z f (suc k) (suc l) (suc a) b p q =
    rw (digits_bound z f k l (suc a / 2) (b / 2) (omega arith) (omega arith))

-- Splitting off the lowest digit.
bitwise_low :
    (z : ℕ → ℕ) (f : ℕ → ℕ → ℕ) (a b : ℕ)
    → bitwise z f (suc a) b ≡ bitwise z f (suc a / 2) (b / 2) * 2 + f (suc a % 2) (b % 2)
bitwise_low z f a b =
    omega (arith, digits_bound z f a (suc a / 2) (suc a / 2) (b / 2) (omega arith) (omega arith))

pub and_low : (a b : ℕ) → bit_and a b ≡ bit_and (a / 2) (b / 2) * 2 + min (a % 2) (b % 2)
and_low zero b = simp bit_and-bitwise (omega arith)
and_low (suc a) b = simp bit_and-bitwise (bitwise_low (λ _. 0) min a b)

pub or_low : (a b : ℕ) → bit_or a b ≡ bit_or (a / 2) (b / 2) * 2 + max (a % 2) (b % 2)
or_low zero b = simp bit_or-bitwise (omega arith)
or_low (suc a) b = simp bit_or-bitwise (bitwise_low (λ d. d) max a b)

differ_digit : (x y : ℕ) → x < 2 → y < 2 → differ x y ≡ (x + y) % 2
differ_digit zero y p q = omega arith
differ_digit (suc zero) zero p q = refl
differ_digit (suc zero) (suc zero) p q = refl
differ_digit (suc zero) (suc (suc y)) p q = absurd (omega arith)
differ_digit (suc (suc x)) y p q = absurd (omega arith)

pub xor_low : (a b : ℕ) → bit_xor a b ≡ bit_xor (a / 2) (b / 2) * 2 + (a + b) % 2
xor_low zero b = simp bit_xor-bitwise (omega arith)
xor_low (suc a) b = simp bit_xor-bitwise (
    omega (
      arith,
      bitwise_low (λ d. d) differ a b,
      differ_digit (suc a % 2) (b % 2) (omega arith) (omega arith),
    ))

abbrev pub Fits : ℕ → ℕ → Type 0
Fits k a = a < 2 ^ k

-- Words of width `k` are closed under the three operations.
pub and-Fits : (k a b : ℕ) → Fits k a → Fits k b → Fits k (bit_and a b)
and-Fits zero zero b p q = omega (arith, and_low 0 b, bit_and-bitwise 0 b)
and-Fits zero (suc a) b p q = absurd (omega arith)
and-Fits (suc k) a b p q = omega (
  arith,
  pow-suc 2 k,
  and_low a b,
  and-Fits k (a / 2) (b / 2) (omega (arith, pow-suc 2 k)) (omega (arith, pow-suc 2 k)),
)

pub or-Fits : (k a b : ℕ) → Fits k a → Fits k b → Fits k (bit_or a b)
or-Fits zero zero b p q = omega (arith, bit_or-bitwise 0 b)
or-Fits zero (suc a) b p q = absurd (omega arith)
or-Fits (suc k) a b p q = omega (
  arith,
  pow-suc 2 k,
  or_low a b,
  or-Fits k (a / 2) (b / 2) (omega (arith, pow-suc 2 k)) (omega (arith, pow-suc 2 k)),
)

pub xor-Fits : (k a b : ℕ) → Fits k a → Fits k b → Fits k (bit_xor a b)
xor-Fits zero zero b p q = omega (arith, bit_xor-bitwise 0 b)
xor-Fits zero (suc a) b p q = absurd (omega arith)
xor-Fits (suc k) a b p q = omega (
  arith,
  pow-suc 2 k,
  xor_low a b,
  xor-Fits k (a / 2) (b / 2) (omega (arith, pow-suc 2 k)) (omega (arith, pow-suc 2 k)),
)

pub half-Fits : (k a : ℕ) → Fits (suc k) a → Fits k (a / 2)
half-Fits k a h = omega (arith, pow-suc 2 k)

pub and-zero : (k a : ℕ) → Fits k a → bit_and a 0 ≡ 0
and-zero zero zero h = bit_and-bitwise 0 0
and-zero zero (suc a) h = absurd (omega arith)
and-zero (suc k) a h = omega (arith, and_low a 0, and-zero k (a / 2) (half-Fits k a h))

pub zero-and : (a : ℕ) → bit_and 0 a ≡ 0
zero-and a = bit_and-bitwise 0 a

pub or-zero : (k a : ℕ) → Fits k a → bit_or a 0 ≡ a
or-zero zero zero h = bit_or-bitwise 0 0
or-zero zero (suc a) h = absurd (omega arith)
or-zero (suc k) a h = omega (arith, or_low a 0, or-zero k (a / 2) (half-Fits k a h))

pub zero-or : (a : ℕ) → bit_or 0 a ≡ a
zero-or a = bit_or-bitwise 0 a

pub xor-zero : (k a : ℕ) → Fits k a → bit_xor a 0 ≡ a
xor-zero zero zero h = bit_xor-bitwise 0 0
xor-zero zero (suc a) h = absurd (omega arith)
xor-zero (suc k) a h = omega (arith, xor_low a 0, xor-zero k (a / 2) (half-Fits k a h))

pub zero-xor : (a : ℕ) → bit_xor 0 a ≡ a
zero-xor a = bit_xor-bitwise 0 a

-- The word of `k` ones.
abbrev pub ones : ℕ → ℕ
ones k = 2 ^ k - 1

ones-half : (k : ℕ) → (ones (suc k) / 2 ≡ ones k) × (ones (suc k) % 2 ≡ 1)
ones-half k = omega (arith, pow-suc 2 k, one-le-pow k 2)

module _ (op : ℕ → ℕ → ℕ) where
  -- Both halves of a law about `ones` by its lowest digit.
  pub half_ones : (k a : ℕ) → op (a / 2) (ones (suc k) / 2) ≡ op (a / 2) (ones k)
  half_ones k a = rw (ones-half k).0 refl

  pub ones_half : (k a : ℕ) → op (ones (suc k) / 2) (a / 2) ≡ op (ones k) (a / 2)
  ones_half k a = rw (ones-half k).0 refl

pub and-ones : (k a : ℕ) → Fits k a → bit_and a (ones k) ≡ a
and-ones zero zero h = zero-and 0
and-ones zero (suc a) h = absurd (omega arith)
and-ones (suc k) a h = omega (
  arith,
  and_low a (ones (suc k)),
  half_ones bit_and k a,
  ones-half k,
  and-ones k (a / 2) (half-Fits k a h),
)

pub ones-and : (k a : ℕ) → Fits k a → bit_and (ones k) a ≡ a
ones-and zero zero h = zero-and 0
ones-and zero (suc a) h = absurd (omega arith)
ones-and (suc k) a h = omega (
  arith,
  and_low (ones (suc k)) a,
  ones_half bit_and k a,
  ones-half k,
  ones-and k (a / 2) (half-Fits k a h),
)

pub or-ones : (k a : ℕ) → Fits k a → bit_or a (ones k) ≡ ones k
or-ones zero zero h = zero-or 0
or-ones zero (suc a) h = absurd (omega arith)
or-ones (suc k) a h = omega (
  arith,
  or_low a (ones (suc k)),
  half_ones bit_or k a,
  ones-half k,
  or-ones k (a / 2) (half-Fits k a h),
)

pub ones-or : (k a : ℕ) → Fits k a → bit_or (ones k) a ≡ ones k
ones-or zero zero h = zero-or 0
ones-or zero (suc a) h = absurd (omega arith)
ones-or (suc k) a h = omega (
  arith,
  or_low (ones (suc k)) a,
  ones_half bit_or k a,
  ones-half k,
  ones-or k (a / 2) (half-Fits k a h),
)

-- Flipping every bit of a word is subtracting it from the word of ones.
pub xor-ones : (k a : ℕ) → Fits k a → bit_xor a (ones k) ≡ ones k - a
xor-ones zero zero h = zero-xor 0
xor-ones zero (suc a) h = absurd (omega arith)
xor-ones (suc k) a h = omega (
  arith,
  xor_low a (ones (suc k)),
  half_ones bit_xor k a,
  ones-half k,
  pow-suc 2 k,
  xor-ones k (a / 2) (half-Fits k a h),
)

pub and_self : (k a : ℕ) → Fits k a → bit_and a a ≡ a
and_self zero zero h = zero-and 0
and_self zero (suc a) h = absurd (omega arith)
and_self (suc k) a h = omega (arith, and_low a a, and_self k (a / 2) (half-Fits k a h))

pub or_self : (k a : ℕ) → Fits k a → bit_or a a ≡ a
or_self zero zero h = zero-or 0
or_self zero (suc a) h = absurd (omega arith)
or_self (suc k) a h = omega (arith, or_low a a, or_self k (a / 2) (half-Fits k a h))

pub xor_self : (k a : ℕ) → Fits k a → bit_xor a a ≡ 0
xor_self zero zero h = zero-xor 0
xor_self zero (suc a) h = absurd (omega arith)
xor_self (suc k) a h = omega (arith, xor_low a a, xor_self k (a / 2) (half-Fits k a h))
