-- ===== src/Passes/ConstEval/Arithmetic/Whole.antt =====
-- The integer operations of pass_utils.h compute what arithmetic says.
use jules.Prelude.{
  ℕ, ◌+◌, ◌-◌, ◌*◌, ◌/◌, ◌%◌, ◌^◌, ◌≡◌, sym, subst, arith, ltb, Bool, true, false, if◌then◌else◌,
  bit_and, bit_or, bit_xor, ap,
}
use jules.Prelude.Words.{IsWord, not64, slt, sar64, shr64}
use jules.Son.Types.{TypeId, ty_is_signed}
use jules.Son.Node.{BinOp}
use jules.Passes.ConstEval.{ConstVal, Folded, int_bin}
use jules.Passes.ConstEval.Arithmetic.{ShiftedRight, Computes}
use jules.Passes.ConstEval.Arithmetic.Division.{payload_of, div-Computes, mod-Computes}
use jules.Passes.ConstEval.Arithmetic.Bitwise.{bit-and, bit-or, bit-xor, and_not-and, shift_count}
use jules.Passes.ConstEval.Arithmetic.Shift.{shr-ShiftedRight}

min-Computes :
    (s : Bool) (x y : ℕ)
    → IsWord x
    → IsWord y
    → Computes BinOp.min s x y (if (if s then slt x y else ltb x y) then x else y)
min-Computes true x y hx hy = ground arith
min-Computes false x y hx hy = ground arith

max-Computes :
    (s : Bool) (x y : ℕ)
    → IsWord x
    → IsWord y
    → Computes BinOp.max s x y (if (if s then slt x y else ltb x y) then y else x)
max-Computes true x y hx hy = ground arith
max-Computes false x y hx hy = ground arith

-- Where two words are evaluated to a value, it is what the operation computes of them.
pub int_bin-Computes :
    (op : BinOp) (t : TypeId) (x y : ℕ) (w : ConstVal)
    → IsWord x
    → IsWord y
    → int_bin op t x y ≡ Folded.value w
    → Computes op (ty_is_signed t) x y w.iv
unfolding int_bin
int_bin-Computes BinOp.add t x y w hx hy h =
    let e : (x + y) % 2 ^ 64 ≡ w.iv = ap payload_of h in ((x + y) / 2 ^ 64, omega arith)
int_bin-Computes BinOp.sub t x y w hx hy h =
    let e : (x + 2 ^ 64 - y) % 2 ^ 64 ≡ w.iv = ap payload_of h in
    (1 - (x + 2 ^ 64 - y) / 2 ^ 64, omega arith)
int_bin-Computes BinOp.mul t x y w hx hy h =
    let e : (x * y) % 2 ^ 64 ≡ w.iv = ap payload_of h in ((x * y) / 2 ^ 64, omega arith)
int_bin-Computes BinOp.div t x y w hx hy h = div-Computes t x y w hx hy h
int_bin-Computes BinOp.mod_op t x y w hx hy h = mod-Computes t x y w hx hy h
int_bin-Computes BinOp.and t x y w hx hy h =
    let e : bit_and x y ≡ w.iv = ap payload_of h in rw (sym e) (λ i. bit-and i x y)
int_bin-Computes BinOp.or t x y w hx hy h =
    let e : bit_or x y ≡ w.iv = ap payload_of h in rw (sym e) (λ i. bit-or i x y)
int_bin-Computes BinOp.xor t x y w hx hy h =
    let e : bit_xor x y ≡ w.iv = ap payload_of h in rw (sym e) (λ i. bit-xor i x y)
int_bin-Computes BinOp.and_not t x y w hx hy h =
    let e : bit_and (not64 x) y ≡ w.iv = ap payload_of h in rw (sym e) (and_not-and 64 x y hx hy)
int_bin-Computes BinOp.shl t x y w hx hy h =
    let n = y % 64 in
    let e : (x * 2 ^ bit_and y 63) % 2 ^ 64 ≡ w.iv = ap payload_of h in
    let e' : (x * 2 ^ n) % 2 ^ 64 ≡ w.iv = rw (sym (shift_count y hy)) e in
    (n, (x * 2 ^ n) / 2 ^ 64, y / 64, (omega arith, omega arith), omega arith)
int_bin-Computes BinOp.shr t x y w hx hy h =
    let n = y % 64 in
    let s = ty_is_signed t in
    let e : (if s then sar64 x (bit_and y 63) else shr64 x (bit_and y 63)) ≡ w.iv =
      ap payload_of h in
    let e' : (if s then sar64 x n else shr64 x n) ≡ w.iv = rw (sym (shift_count y hy)) e in
    (
      n,
      y / 64,
      (omega arith, omega arith),
      subst (ShiftedRight s x n) e' (shr-ShiftedRight s x n hx),
    )
int_bin-Computes BinOp.min t x y w hx hy h =
    subst (Computes BinOp.min (ty_is_signed t) x y) (ap payload_of h)
      (min-Computes (ty_is_signed t) x y hx hy)
int_bin-Computes BinOp.max t x y w hx hy h =
    subst (Computes BinOp.max (ty_is_signed t) x y) (ap payload_of h)
      (max-Computes (ty_is_signed t) x y hx hy)
