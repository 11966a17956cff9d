-- ===== src/Passes/AlgebraicSimplification/Values.antt =====
-- The rewrites of p12 against the values that pass_utils.h computes.
use jules.Prelude.{
  ℕ, zero, suc, ◌+◌, ◌^◌, ◌≤◌, ◌<◌, ◌≡◌, refl, ap, subst, ◌∙◌, arith, ◌==◌, false, some, Bool-cases,
  inl, inr, bit_and, eq_of_==, ==_of_ne,
}
use jules.Prelude.Bits.{and-ones}
use native.Mathlib.Nat.{one-le-pow}
use jules.Son.Types.{TypeId, ty_is_signed}
use jules.Son.Node.{BinOp, CmpOp}
use jules.Passes.ConstEval.{FloatOps, ConstVal, int_bin, int_cmp, fp_cmp, eval_cmp_const}
use jules.Passes.AlgebraicSimplification.{flip, power_from}

module _ (F : FloatOps) (a b : ConstVal) (e : a.ty ≡ b.ty) where
  swap_lt : eval_cmp_const F CmpOp.gt b a ≡ eval_cmp_const F CmpOp.lt a b
  unfolding eval_cmp_const int_cmp fp_cmp
  swap_lt = rw e (elim (Bool-cases a.is_fp) [
    | inl p ↦ rw p (elim (Bool-cases b.is_fp) [ inl q ↦ rw q refl | inr q ↦ rw q refl ])
    | inr p ↦ rw p (elim (Bool-cases b.is_fp) [ inl q ↦ rw q refl | inr q ↦ rw q refl ])
  ])

  swap_le : eval_cmp_const F CmpOp.ge b a ≡ eval_cmp_const F CmpOp.le a b
  unfolding eval_cmp_const int_cmp fp_cmp
  swap_le = rw e (elim (Bool-cases a.is_fp) [
    | inl p ↦ rw p (elim (Bool-cases b.is_fp) [ inl q ↦ rw q refl | inr q ↦ rw q refl ])
    | inr p ↦ rw p (elim (Bool-cases b.is_fp) [ inl q ↦ rw q refl | inr q ↦ rw q refl ])
  ])

  swap_gt : eval_cmp_const F CmpOp.lt b a ≡ eval_cmp_const F CmpOp.gt a b
  unfolding eval_cmp_const int_cmp fp_cmp
  swap_gt = rw e (elim (Bool-cases a.is_fp) [
    | inl p ↦ rw p (elim (Bool-cases b.is_fp) [ inl q ↦ rw q refl | inr q ↦ rw q refl ])
    | inr p ↦ rw p (elim (Bool-cases b.is_fp) [ inl q ↦ rw q refl | inr q ↦ rw q refl ])
  ])

  swap_ge : eval_cmp_const F CmpOp.le b a ≡ eval_cmp_const F CmpOp.ge a b
  unfolding eval_cmp_const int_cmp fp_cmp
  swap_ge = rw e (elim (Bool-cases a.is_fp) [
    | inl p ↦ rw p (elim (Bool-cases b.is_fp) [ inl q ↦ rw q refl | inr q ↦ rw q refl ])
    | inr p ↦ rw p (elim (Bool-cases b.is_fp) [ inl q ↦ rw q refl | inr q ↦ rw q refl ])
  ])

-- A comparison that p12 flips has its value on the swapped operands, when the operands have one
-- type.
pub eval_cmp_const-flip :
    (F : FloatOps) (op op' : CmpOp) (a b : ConstVal)
    → flip op ≡ some op'
    → a.ty ≡ b.ty
    → eval_cmp_const F op' b a ≡ eval_cmp_const F op a b
unfolding flip eval_cmp_const int_cmp fp_cmp
eval_cmp_const-flip F CmpOp.lt op' a b h e =
    let q : CmpOp.gt ≡ op' = cc in
    subst (λ o. eval_cmp_const F o b a ≡ eval_cmp_const F CmpOp.lt a b) q (swap_lt F a b e)
eval_cmp_const-flip F CmpOp.le op' a b h e =
    let q : CmpOp.ge ≡ op' = cc in
    subst (λ o. eval_cmp_const F o b a ≡ eval_cmp_const F CmpOp.le a b) q (swap_le F a b e)
eval_cmp_const-flip F CmpOp.gt op' a b h e =
    let q : CmpOp.lt ≡ op' = cc in
    subst (λ o. eval_cmp_const F o b a ≡ eval_cmp_const F CmpOp.gt a b) q (swap_gt F a b e)
eval_cmp_const-flip F CmpOp.ge op' a b h e =
    let q : CmpOp.le ≡ op' = cc in
    subst (λ o. eval_cmp_const F o b a ≡ eval_cmp_const F CmpOp.ge a b) q (swap_ge F a b e)
eval_cmp_const-flip F CmpOp.eq op' a b h e = absurd (cc)
eval_cmp_const-flip F CmpOp.ne op' a b h e = absurd (cc)

-- The search finds a power of two, in its range.
power_from-power :
    (left k c j : ℕ) → power_from left k c ≡ some j → (c ≡ 2 ^ j) × (k ≤ j) × (j < k + left)
unfolding power_from
power_from-power zero k c j h = absurd (cc)
power_from-power (suc left) k c j h = elim (Bool-cases (c == 2 ^ k)) [
  | inl e ↦
      let h' : some k ≡ some j = rw e at h in
      let same : k ≡ j = cc in
      (eq_of_== c (2 ^ k) e ∙ ap (λ x. 2 ^ x) same, omega arith, omega arith)
  | inr e ↦
      let h' : power_from left (k + 1) c ≡ some j = rw e at h in
      let (a, b, d) = power_from-power left (k + 1) c j h' in (a, omega arith, omega arith)
]

-- A shift count below 64 is not masked.
count : (k : ℕ) → k < 64 → bit_and k 63 ≡ k
count k h = and-ones 6 k h

-- The left shift that p12 puts for a product with a constant, where its search finds the power of
-- two, has the value of the product, in every integer type.
pub int_bin-shl :
    (t : TypeId) (x c k : ℕ)
    → power_from 6 1 c ≡ some k
    → int_bin BinOp.shl t x k ≡ int_bin BinOp.mul t x c
unfolding int_bin
int_bin-shl t x c k h =
    let (e, lo, hi) = power_from-power 6 1 c k h in rw (count k (omega arith), e) refl

-- The right shift that p12 puts for a quotient by a constant of an unsigned type, where its
-- search finds the power of two, has the value of the quotient.
pub int_bin-shr :
    (t : TypeId) (x c k : ℕ)
    → ty_is_signed t ≡ false
    → power_from 63 1 c ≡ some k
    → int_bin BinOp.shr t x k ≡ int_bin BinOp.div t x c
unfolding int_bin
int_bin-shr t x c k u h =
    let (e, lo, hi) = power_from-power 63 1 c k h in
    let pos : (c == 0) ≡ false = ==_of_ne c 0 (λ q. omega (arith, one-le-pow k 2, q, e)) in
    rw (u, count k (omega arith), pos) (rw e refl)
