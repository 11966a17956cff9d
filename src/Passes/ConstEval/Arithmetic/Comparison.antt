-- ===== src/Passes/ConstEval/Arithmetic/Comparison.antt =====
-- The integer comparisons of pass_utils.h.
use jules.Prelude.{
  ℕ, ◌≡◌, ◌≢◌, inl, inr, refl, arith, ◌==◌, ltb, Bool, true, false, not, if◌then◌else◌, Bool-cases,
  eq_of_==,
}
use jules.Prelude.Words.{IsWord, slt}
use jules.Son.Node.{CmpOp}
use jules.Passes.ConstEval.Arithmetic.{AtMost, Less, Answers, Compares}
use jules.Passes.ConstEval.{int_cmp}

ordered :
    (s : Bool) (x y : ℕ)
    → IsWord x
    → IsWord y
    → Answers (if s then slt x y else ltb x y) (Less s x y) (AtMost s y x)
ordered true x y hx hy = elim (Bool-cases (slt x y)) [
  | inl h ↦ inl (h, (ground arith, λ e. ground arith))
  | inr h ↦ inr (h, ground arith)
]
ordered false x y hx hy = elim (Bool-cases (ltb x y)) [
  | inl h ↦ inl (h, (ground arith, λ e. ground arith))
  | inr h ↦ inr (h, ground arith)
]

opposite : (b : Bool) (P Q : Type 0) → Answers b P Q → Answers (not b) Q P
opposite b P Q (inl (h, p)) = inr (rw h refl, p)
opposite b P Q (inr (h, q)) = inl (rw h refl, q)

same_words : (x y : ℕ) → Answers (x == y) (x ≡ y) (x ≢ y)
same_words x y = elim (Bool-cases (x == y)) [
  | inl h ↦ inl (h, eq_of_== x y h)
  | inr h ↦ inr (h, λ e. ground arith)
]

-- The comparison of two words, in the order of a signed or unsigned type, is answered right.
pub int_cmp-Compares :
    (op : CmpOp) (s : Bool) (x y : ℕ)
    → IsWord x
    → IsWord y
    → Compares op s x y (int_cmp (λ p q. if s then slt p q else ltb p q) op x y)
unfolding int_cmp
int_cmp-Compares CmpOp.eq s x y hx hy = same_words x y
int_cmp-Compares CmpOp.ne s x y hx hy = opposite (x == y) (x ≡ y) (x ≢ y) (same_words x y)
int_cmp-Compares CmpOp.lt s x y hx hy = ordered s x y hx hy
int_cmp-Compares CmpOp.le s x y hx hy = opposite _ _ _ (ordered s y x hy hx)
int_cmp-Compares CmpOp.gt s x y hx hy = ordered s y x hy hx
int_cmp-Compares CmpOp.ge s x y hx hy = opposite _ _ _ (ordered s x y hx hy)
