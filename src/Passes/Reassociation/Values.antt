-- ===== src/Passes/Reassociation/Values.antt =====
-- The operations that p13 reorders commute on the values that pass_utils.h computes.
use jules.Prelude.{
  ℕ, zero, suc, ◌/◌, ◌^◌, ◌<◌, ◌≡◌, refl, sym, ap, ◌∙◌, arith, bit_and, bit_or, bit_xor, true,
  false, some, Bool-cases, inl, inr,
}
use jules.Prelude.Bits.{Fits, and_low, or_low, xor_low, half-Fits}
use jules.Son.Types.{TypeId, ty_is_float}
use jules.Son.Node.{BinOp}
use jules.Passes.ConstEval.{FloatOps, ConstVal, Folded, int_bin, fp_bin, eval_bin_const}
use jules.Passes.Meaning.{HasType}
use jules.Passes.Reassociation.{is_commutative}

pub and_comm : (k a b : ℕ) → Fits k a → Fits k b → bit_and a b ≡ bit_and b a
and_comm zero a b h h' =
    let e : a ≡ b = omega arith in ap (λ x. bit_and x b) e ∙ ap (λ x. bit_and b x) (sym e)
and_comm (suc k) a b h h' =
    let halves = and_comm k (a / 2) (b / 2) (half-Fits k a h) (half-Fits k b h') in
    omega (arith, and_low a b, and_low b a, halves)

pub or_comm : (k a b : ℕ) → Fits k a → Fits k b → bit_or a b ≡ bit_or b a
or_comm zero a b h h' =
    let e : a ≡ b = omega arith in ap (λ x. bit_or x b) e ∙ ap (λ x. bit_or b x) (sym e)
or_comm (suc k) a b h h' =
    let halves = or_comm k (a / 2) (b / 2) (half-Fits k a h) (half-Fits k b h') in
    omega (arith, or_low a b, or_low b a, halves)

pub xor_comm : (k a b : ℕ) → Fits k a → Fits k b → bit_xor a b ≡ bit_xor b a
xor_comm zero a b h h' =
    let e : a ≡ b = omega arith in ap (λ x. bit_xor x b) e ∙ ap (λ x. bit_xor b x) (sym e)
xor_comm (suc k) a b h h' =
    let halves = xor_comm k (a / 2) (b / 2) (half-Fits k a h) (half-Fits k b h') in
    omega (arith, xor_low a b, xor_low b a, halves)

int_bin_comm :
    (o : BinOp) (t : TypeId) (x y : ℕ)
    → is_commutative (some o) ≡ true
    → x < 2 ^ 64
    → y < 2 ^ 64
    → int_bin o t x y ≡ int_bin o t y x
unfolding int_bin is_commutative
int_bin_comm BinOp.add t x y c h k =
    ap (λ v. Folded.value (record { is_fp = false; ty = t; iv = v; fv = 0 })) (omega arith)
int_bin_comm BinOp.mul t x y c h k =
    ap (λ v. Folded.value (record { is_fp = false; ty = t; iv = v; fv = 0 })) (omega arith)
int_bin_comm BinOp.and t x y c h k =
    ap (λ v. Folded.value (record { is_fp = false; ty = t; iv = v; fv = 0 })) (and_comm 64 x y h k)
int_bin_comm BinOp.or t x y c h k =
    ap (λ v. Folded.value (record { is_fp = false; ty = t; iv = v; fv = 0 })) (or_comm 64 x y h k)
int_bin_comm BinOp.xor t x y c h k =
    ap (λ v. Folded.value (record { is_fp = false; ty = t; iv = v; fv = 0 })) (xor_comm 64 x y h k)
int_bin_comm _ t x y c h k = absurd (cc)

-- IEEE 754: sums and products do not depend on the order of the operands.
pub record Commutes (F : FloatOps) : Type 0 where
  pub fadd_comm : (x y : ℕ) → F.fadd x y ≡ F.fadd y x
  pub fmul_comm : (x y : ℕ) → F.fmul x y ≡ F.fmul y x

fp_bin_comm :
    (F : FloatOps) (o : BinOp) (t : TypeId) (x y : ℕ)
    → Commutes F
    → is_commutative (some o) ≡ true
    → fp_bin F o t x y ≡ fp_bin F o t y x
unfolding fp_bin is_commutative
fp_bin_comm F BinOp.add t x y f c =
    ap (λ v. Folded.value (record { is_fp = true; ty = t; iv = 0; fv = v })) (f.fadd_comm x y)
fp_bin_comm F BinOp.mul t x y f c =
    ap (λ v. Folded.value (record { is_fp = true; ty = t; iv = 0; fv = v })) (f.fmul_comm x y)
fp_bin_comm F BinOp.and t x y f c = refl
fp_bin_comm F BinOp.or t x y f c = refl
fp_bin_comm F BinOp.xor t x y f c = refl
fp_bin_comm F _ t x y f c = absurd (cc)

pub eval_bin_const_comm :
    (F : FloatOps) (o : BinOp) (t : TypeId) (a b : ConstVal)
    → HasType t a
    → HasType t b
    → (ty_is_float t ≡ true → Commutes F)
    → is_commutative (some o) ≡ true
    → eval_bin_const F o a b ≡ eval_bin_const F o b a
unfolding eval_bin_const
eval_bin_const_comm F o t a b ha hb f c = elim (Bool-cases (ty_is_float t)) [
  | inl fl ↦
      let ea : a.is_fp ≡ true = ha.is_fp_eq ∙ fl in
      let eb : b.is_fp ≡ true = hb.is_fp_eq ∙ fl in
      rw (ea, eb, ha.ty_eq, hb.ty_eq) (fp_bin_comm F o t a.fv b.fv (f fl) c)
  | inr fl ↦
      let ea : a.is_fp ≡ false = ha.is_fp_eq ∙ fl in
      let eb : b.is_fp ≡ false = hb.is_fp_eq ∙ fl in
      rw (ea, eb, ha.ty_eq, hb.ty_eq) (int_bin_comm o t a.iv b.iv c ha.word hb.word)
]
