-- ===== src/Passes/ConstEval/Arithmetic.antt =====
-- What the integer operations of pass_utils.h compute, in arithmetic on 64-bit words.
pub mod Bitwise
pub mod Comparison
pub mod Division
pub mod Shift
pub mod Whole
use jules.Prelude.{
  ℕ, zero, suc, ◌+◌, ◌-◌, ◌*◌, ◌/◌, ◌%◌, ◌^◌, ◌≤◌, ◌<◌, ◌≡◌, ◌≢◌, ◌⊎◌, inl, inr, refl, sym, subst,
  ◌∙◌, arith, ◌==◌, ltb, Bool, true, false, not, ◌&&◌, if◌then◌else◌, bit_and, bit_or, bit_xor,
  Bool-cases, ap,
}
use jules.Prelude.Bits.{Fits, and_low, or_low, xor_low, and-zero, zero-and, half-Fits, ones}
use jules.Prelude.Words.{
  IsWord, magnitude, negative, sdiv, smod, neg64, not64, wrap, slt, sign_bit, sar64, shr64,
}
use jules.Son.Types.{TypeId, ty_is_signed}
use jules.Son.Node.{BinOp, CmpOp}
use jules.Passes.ConstEval.{ConstVal, Folded, int_bin}
use Prim.Native.Nat.{min}
use native.Mathlib.Nat.{pow-suc, div-add-mod, mod-lt, div-le_self, one-le-pow}

-- `q` is the quotient of `x` by `y`, and `r` the rest.
abbrev pub Divides : ℕ → ℕ → ℕ → ℕ → Type 0
Divides x y q r = (x ≡ y * q + r) × (r < y)

-- The digit of weight 2 ^ i.
abbrev pub bit : ℕ → ℕ → ℕ
bit zero a = a % 2
bit (suc i) a = bit i (a / 2)

-- u is at most w, as i64 or as u64.
abbrev pub AtMost : Bool → ℕ → ℕ → Type 0
AtMost true u w =
    ((negative u ≡ true) × (negative w ≡ false)) ⊎ ((negative u ≡ negative w) × (u ≤ w))
AtMost false u w = u ≤ w

-- The quotient and the rest of i64 by their distances from 0: the quotient is negative where one of
-- the two numbers is, and the rest where the dividend is.
abbrev pub Quotient : Bool → ℕ → ℕ → ℕ → Type 0
Quotient true x y v =
    (r : ℕ) × Divides (magnitude x) (magnitude y) (magnitude v) r
    × ((v ≡ 0) ⊎ (negative v ≡ (if negative x then not (negative y) else negative y)))
Quotient false x y v = (r : ℕ) × Divides x y v r

abbrev pub Rest : Bool → ℕ → ℕ → ℕ → Type 0
Rest true x y v =
    (q : ℕ) × Divides (magnitude x) (magnitude y) q (magnitude v)
    × ((v ≡ 0) ⊎ (negative v ≡ negative x))
Rest false x y v = (q : ℕ) × Divides x y q v

-- x is shifted right by s, and rounded down.
abbrev pub ShiftedRight : Bool → ℕ → ℕ → ℕ → Type 0
ShiftedRight true x s v =
    ((negative x ≡ true) × ((r : ℕ) × ((2 ^ 64 - v) * 2 ^ s ≡ (2 ^ 64 - x) + r) × (r < 2 ^ s)))
    ⊎ ((negative x ≡ false) × ((r : ℕ) × Divides x (2 ^ s) v r))
ShiftedRight false x s v = (r : ℕ) × Divides x (2 ^ s) v r

-- What `v` is to the words `x` and `y`, for the operation and a signed or unsigned type.
abbrev pub Computes : BinOp → Bool → ℕ → ℕ → ℕ → Type 0
Computes BinOp.add s x y v = (k : ℕ) × (x + y ≡ k * 2 ^ 64 + v)
Computes BinOp.sub s x y v = (k : ℕ) × (x + k * 2 ^ 64 ≡ y + v)
Computes BinOp.mul s x y v = (k : ℕ) × (x * y ≡ k * 2 ^ 64 + v)
Computes BinOp.div s x y v = Quotient s x y v
Computes BinOp.mod_op s x y v = Rest s x y v
Computes BinOp.and s x y v = (i : ℕ) → bit i v ≡ bit i x * bit i y
Computes BinOp.or s x y v = (i : ℕ) → bit i v + bit i x * bit i y ≡ bit i x + bit i y
Computes BinOp.xor s x y v = (i : ℕ) → bit i v ≡ (bit i x + bit i y) % 2
Computes BinOp.and_not s x y v = v + bit_and x y ≡ y
Computes BinOp.shl s x y v = (n k q : ℕ) × Divides y 64 q n × (x * 2 ^ n ≡ k * 2 ^ 64 + v)
Computes BinOp.shr s x y v = (n q : ℕ) × Divides y 64 q n × ShiftedRight s x n v
Computes BinOp.min s x y v = ((v ≡ x) ⊎ (v ≡ y)) × AtMost s v x × AtMost s v y
Computes BinOp.max s x y v = ((v ≡ x) ⊎ (v ≡ y)) × AtMost s x v × AtMost s y v

-- u is less than w, as i64 or as u64.
abbrev pub Less : Bool → ℕ → ℕ → Type 0
Less s u w = AtMost s u w × (u ≢ w)

-- The answer `b` to a comparison: yes where `P` holds, and no where `Q` does.
abbrev pub Answers : Bool → Type 0 → Type 0 → Type 0
Answers b P Q = ((b ≡ true) × P) ⊎ ((b ≡ false) × Q)

abbrev pub Compares : CmpOp → Bool → ℕ → ℕ → Bool → Type 0
Compares CmpOp.eq s x y b = Answers b (x ≡ y) (x ≢ y)
Compares CmpOp.ne s x y b = Answers b (x ≢ y) (x ≡ y)
Compares CmpOp.lt s x y b = Answers b (Less s x y) (AtMost s y x)
Compares CmpOp.le s x y b = Answers b (AtMost s x y) (Less s y x)
Compares CmpOp.gt s x y b = Answers b (Less s y x) (AtMost s x y)
Compares CmpOp.ge s x y b = Answers b (AtMost s y x) (Less s x y)
