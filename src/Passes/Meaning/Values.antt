-- ===== src/Passes/Meaning/Values.antt =====
-- What a node that holds has for its value, by its operation.
use jules.Prelude.{ℕ, ◌≡◌, refl, ◌⊎◌, inl, inr, none, some, ◌==◌, if◌then◌else◌}
use jules.Son.Types.{TypeId}
use jules.Son.Node.{Op, BinOp, CmpOp, UnOp, CastOp, to_bin, to_cmp, to_un, to_cast}
use jules.Passes.ConstEval.{
  FloatOps, ConstVal, Folded, eval_bin_const, eval_cmp_const, eval_un_const, eval_cast_const,
}
use jules.Passes.Meaning.{Holds, op_value, folded_value}

module _ (F : FloatOps) {v : ConstVal} {op : Op} {sub : ℕ} {t : TypeId} {own a b c : ConstVal}
    (h : Holds F v op sub t own a b c) (w : ConstVal) where
  pub bin_value :
      (o : BinOp)
      → op ≡ Op.bin
      → to_bin sub ≡ some o
      → eval_bin_const F o a b ≡ Folded.value w
      → v ≡ w
  bin_value o e s q = h.computed w (unfold op_value in rw (e, s, q) refl)

  pub cmp_value :
      (o : CmpOp)
      → op ≡ Op.cmp
      → to_cmp sub ≡ some o
      → eval_cmp_const F o a b ≡ Folded.value w
      → v ≡ w
  cmp_value o e s q = h.computed w (unfold op_value in rw (e, s, q) refl)

  pub un_value :
      (o : UnOp) → op ≡ Op.un → to_un sub ≡ some o → eval_un_const F o a ≡ Folded.value w → v ≡ w
  un_value o e s q = h.computed w (unfold op_value in rw (e, s, q) refl)

  pub cast_value :
      (o : CastOp)
      → op ≡ Op.cast
      → to_cast sub ≡ some o
      → eval_cast_const F o a t ≡ Folded.value w
      → v ≡ w
  cast_value o e s q = h.computed w (unfold op_value in rw (e, s, q) refl)

Folded-cases : (f : Folded) → ((w : ConstVal) × (f ≡ Folded.value w)) ⊎ (folded_value f ≡ none)
Folded-cases (Folded.value w) = inl (w, refl)
Folded-cases Folded.runtime = inr refl
Folded-cases Folded.trap = inr refl

module _ (F : FloatOps) {v : ConstVal} {op : Op} {sub : ℕ} {t : TypeId} {own a b c : ConstVal}
    (h : Holds F v op sub t own a b c) where
  pub const_value : op ≡ Op.const → v ≡ own
  const_value e = h.computed own (unfold op_value in rw e refl)

  pub select_value : op ≡ Op.select → v ≡ (if a.iv == 0 then c else b)
  select_value e = h.computed (if a.iv == 0 then c else b) (unfold op_value in rw e refl)

  -- A unary node has the value of its operation.
  pub un_defined :
      (o : UnOp) → op ≡ Op.un → to_un sub ≡ some o → eval_un_const F o a ≡ Folded.value v
  un_defined o e s = elim (Folded-cases (eval_un_const F o a)) [
    | inl (w, q) ↦ rw (un_value F h w o e s q) q
    | inr q ↦ absurd (h.unary e (unfold op_value in rw (e, s) q))
  ]
