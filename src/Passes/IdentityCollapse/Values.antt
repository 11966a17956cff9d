-- ===== src/Passes/IdentityCollapse/Values.antt =====
-- The identities of p02 at the values that pass_utils.h computes.
use jules.Prelude.{false, ℕ, ◌^◌, ◌<◌, ◌≡◌, refl, arith, true, bit_and}
use jules.Prelude.Bits.{
  and-zero, zero-and, or-zero, zero-or, xor-zero, zero-xor, and-ones, ones-and, or-ones, ones-or,
  xor-ones,
}
use jules.Prelude.Words.{not64, sdiv, smod, shl64, shr64, sar64}
use jules.Son.Types.{ty_i1, ty_is_float, TypeId}
use jules.Son.Node.{BinOp, UnOp, CastOp}
use jules.Passes.ConstEval.{
  FloatOps, ConstVal, Folded, eval_bin_const, eval_un_const, eval_cast_const, int_bin,
}
use jules.Passes.Meaning.{HasType, IsExtended}
use jules.Passes.IdentityCollapse.{int_zero, int_one, int_all_ones, zero_of}

sdiv-one : (x y : ℕ) → y ≡ 1 → x < 2 ^ 64 → sdiv x y ≡ x
sdiv-one x y e h = rw e (ground arith)

smod-one : (x y : ℕ) → y ≡ 1 → x < 2 ^ 64 → smod x y ≡ 0
smod-one x y e h = rw e (ground arith)

shl_zero_word : (x y : ℕ) → y ≡ 0 → x < 2 ^ 64 → shl64 x (bit_and y 63) ≡ x
shl_zero_word x y e h = rw e (ground arith)

shr_zero_word :
    (x y : ℕ) → y ≡ 0 → x < 2 ^ 64 → (shr64 x (bit_and y 63) ≡ x) × (sar64 x (bit_and y 63) ≡ x)
shr_zero_word x y e h = rw e (ground arith)

-- ~a
abbrev pub not_of : TypeId → ConstVal → ConstVal
not_of t a = record { is_fp = false; ty = t; iv = not64 a.iv; fv = 0 }

module _ (F : FloatOps) (t : TypeId) (a b : ConstVal) (ha : HasType t a) (hb : HasType t b) where
  pub add-zero : int_zero b ≡ true → eval_bin_const F BinOp.add a b ≡ Folded.value a
  unfolding int_zero eval_bin_const
  add-zero h = ground arith

  pub zero-add : int_zero a ≡ true → eval_bin_const F BinOp.add a b ≡ Folded.value b
  unfolding int_zero eval_bin_const
  zero-add h = ground arith

  pub sub-zero : int_zero b ≡ true → eval_bin_const F BinOp.sub a b ≡ Folded.value a
  unfolding int_zero eval_bin_const
  sub-zero h = ground arith

  pub mul-one : int_one b ≡ true → eval_bin_const F BinOp.mul a b ≡ Folded.value a
  unfolding int_one eval_bin_const
  mul-one h = ground arith

  pub one-mul : int_one a ≡ true → eval_bin_const F BinOp.mul a b ≡ Folded.value b
  unfolding int_one eval_bin_const
  one-mul h = ground arith

  pub mul-zero : int_zero b ≡ true → eval_bin_const F BinOp.mul a b ≡ Folded.value (zero_of t)
  unfolding int_zero eval_bin_const
  mul-zero h = ground arith

  pub zero-mul : int_zero a ≡ true → eval_bin_const F BinOp.mul a b ≡ Folded.value (zero_of t)
  unfolding int_zero eval_bin_const
  zero-mul h = ground arith

  pub div-one : int_one b ≡ true → eval_bin_const F BinOp.div a b ≡ Folded.value a
  unfolding int_one eval_bin_const int_bin
  div-one h = ground (arith, sdiv-one a.iv b.iv)

  pub mod-one : int_one b ≡ true → eval_bin_const F BinOp.mod_op a b ≡ Folded.value (zero_of t)
  unfolding int_one eval_bin_const int_bin
  mod-one h = ground (arith, smod-one a.iv b.iv)

  pub and-ones_value : int_all_ones b ≡ true → eval_bin_const F BinOp.and a b ≡ Folded.value a
  unfolding int_all_ones eval_bin_const
  and-ones_value h = ground (arith, and-ones 64 a.iv)

  pub ones-and_value : int_all_ones a ≡ true → eval_bin_const F BinOp.and a b ≡ Folded.value b
  unfolding int_all_ones eval_bin_const
  ones-and_value h = ground (arith, ones-and 64 b.iv)

  pub and-zero_value : int_zero b ≡ true → eval_bin_const F BinOp.and a b ≡ Folded.value (zero_of t)
  unfolding int_zero eval_bin_const
  and-zero_value h = ground (arith, and-zero 64 a.iv)

  pub zero-and_value : int_zero a ≡ true → eval_bin_const F BinOp.and a b ≡ Folded.value (zero_of t)
  unfolding int_zero eval_bin_const
  zero-and_value h = ground (arith, zero-and b.iv)

  pub or-zero_value : int_zero b ≡ true → eval_bin_const F BinOp.or a b ≡ Folded.value a
  unfolding int_zero eval_bin_const
  or-zero_value h = ground (arith, or-zero 64 a.iv)

  pub zero-or_value : int_zero a ≡ true → eval_bin_const F BinOp.or a b ≡ Folded.value b
  unfolding int_zero eval_bin_const
  zero-or_value h = ground (arith, zero-or b.iv)

  pub or-ones_value : int_all_ones b ≡ true → eval_bin_const F BinOp.or a b ≡ Folded.value b
  unfolding int_all_ones eval_bin_const
  or-ones_value h = ground (arith, or-ones 64 a.iv)

  pub ones-or_value : int_all_ones a ≡ true → eval_bin_const F BinOp.or a b ≡ Folded.value a
  unfolding int_all_ones eval_bin_const
  ones-or_value h = ground (arith, ones-or 64 b.iv)

  pub xor-zero_value : int_zero b ≡ true → eval_bin_const F BinOp.xor a b ≡ Folded.value a
  unfolding int_zero eval_bin_const
  xor-zero_value h = ground (arith, xor-zero 64 a.iv)

  pub zero-xor_value : int_zero a ≡ true → eval_bin_const F BinOp.xor a b ≡ Folded.value b
  unfolding int_zero eval_bin_const
  zero-xor_value h = ground (arith, zero-xor b.iv)

  -- x ^ ~0 is ~x, and is met at integers only.
  pub xor-ones_value :
      int_all_ones b ≡ true
      → (eval_bin_const F BinOp.xor a b ≡ Folded.value (not_of t a)) × (ty_is_float t ≡ false)
  unfolding int_all_ones eval_bin_const
  xor-ones_value h = ground (arith, xor-ones 64 a.iv)

  pub shl-zero : int_zero b ≡ true → eval_bin_const F BinOp.shl a b ≡ Folded.value a
  unfolding int_zero eval_bin_const
  shl-zero h = ground (arith, shl_zero_word a.iv b.iv)

  pub shr-zero : int_zero b ≡ true → eval_bin_const F BinOp.shr a b ≡ Folded.value a
  unfolding int_zero eval_bin_const int_bin
  shr-zero h = ground (arith, shr_zero_word a.iv b.iv)

  pub min_self : eval_bin_const F BinOp.min a a ≡ Folded.value a
  unfolding eval_bin_const int_bin
  min_self = ground arith

  pub max_self : eval_bin_const F BinOp.max a a ≡ Folded.value a
  unfolding eval_bin_const int_bin
  max_self = ground arith

bool_not_float : ty_is_float ty_i1 ≡ false
unfolding ty_is_float
bool_not_float = refl

module _ (F : FloatOps) (neg_twice : (x : ℕ) → F.fneg (F.fneg x) ≡ x) (t r : TypeId)
    (a b c : ConstVal) (ha : HasType t a) (hc : HasType r c) where
  not_twice :
      eval_un_const F UnOp.not c ≡ Folded.value b
      → eval_un_const F UnOp.not b ≡ Folded.value a
      → a ≡ c
  unfolding eval_un_const
  not_twice p q = ground (arith, bool_not_float)

  bnot_twice :
      eval_un_const F UnOp.bnot c ≡ Folded.value b
      → eval_un_const F UnOp.bnot b ≡ Folded.value a
      → a ≡ c
  unfolding eval_un_const
  bnot_twice p q = ground arith

  neg_twice_value :
      eval_un_const F UnOp.neg c ≡ Folded.value b
      → eval_un_const F UnOp.neg b ≡ Folded.value a
      → a ≡ c
  unfolding eval_un_const
  neg_twice_value p q = ground (arith, neg_twice c.fv)

  -- Negating twice, in any of the three ways, gives back the value.
  pub un_twice :
      (op : UnOp)
      → eval_un_const F op c ≡ Folded.value b
      → eval_un_const F op b ≡ Folded.value a
      → a ≡ c
  un_twice UnOp.not = not_twice
  un_twice UnOp.bnot = bnot_twice
  un_twice UnOp.neg = neg_twice_value

-- A cast that copies has its operand's value.
pub cast_copies :
    (F : FloatOps) (t : TypeId) (a : ConstVal)
    → HasType t a
    → (ty_is_float t ≡ false → eval_cast_const F CastOp.ptr a t ≡ Folded.value a)
      × (ty_is_float t ≡ true → eval_cast_const F CastOp.fp_ext a t ≡ Folded.value a)
      × (ty_is_float t ≡ false
          → IsExtended t a
          → eval_cast_const F CastOp.trunc a t ≡ Folded.value a)
unfolding eval_cast_const
cast_copies F t a h = (λ e. ground arith, λ e. ground arith, λ e x. ground arith)

pub bnot_value :
    (F : FloatOps) (t : TypeId) (a : ConstVal)
    → HasType t a
    → ty_is_float t ≡ false
    → eval_un_const F UnOp.bnot a ≡ Folded.value (not_of t a)
unfolding eval_un_const
bnot_value F t a h int = ground arith
