-- ===== src/Passes/ConstEval.antt =====
-- jules/src/core/son/passes/pass_utils.h: constants, and the evaluation of operations on them.
pub mod Arithmetic
use jules.Prelude.{
  ℕ, ◌%◌, ◌/◌, ◌==◌, ltb, Bool, true, false, not, ◌&&◌, ◌||◌, Option, none, some, [], ◌∷◌,
  if◌then◌else◌, bit_and, bit_or, bit_xor,
}
use jules.Prelude.Words.{
  add64, sub64, mul64, neg64, not64, slt, sdiv, smod, shl64, shr64, sar64, sext32, sext8, sign_bit,
}
use jules.Son.Types.{TypeId, ty_i1, ty_f32, ty_is_float, ty_is_signed, ty_bits}
use jules.Son.Node.{NodeId, Node, Op, BinOp, CmpOp, UnOp, CastOp, no_node, ◌is◌}
use jules.Son.Graph.{Graph, node, make, put}

-- What the compiler takes from C++'s double, on bit patterns.
pub record FloatOps : Type 0 where
  pub fadd : ℕ → ℕ → ℕ
  pub fsub : ℕ → ℕ → ℕ
  pub fmul : ℕ → ℕ → ℕ
  pub fdiv : ℕ → ℕ → ℕ
  pub fneg : ℕ → ℕ
  pub feq : ℕ → ℕ → Bool
  pub flt : ℕ → ℕ → Bool
  pub fle : ℕ → ℕ → Bool
  -- static_cast<f64>(i64), static_cast<i64>(f64), and rounding to f32
  pub of_i64 : ℕ → ℕ
  pub to_i64 : ℕ → ℕ
  pub to_f32 : ℕ → ℕ

pub record ConstVal : Type 0 where
  pub is_fp : Bool
  pub ty : TypeId
  pub iv : ℕ
  pub fv : ℕ

-- The result of an evaluation: a value; "stays runtime", where the code returns false; or the trap
-- that the processor raises for INT64_MIN / -1, which ends the compiler.
pub data Folded : Type 0 where
  value : ConstVal → Folded
  runtime : Folded
  trap : Folded

unfoldable pub node_is_const : Graph → NodeId → Bool
node_is_const g n = not (n == no_node) && (node g n).op is Op.const

-- The payload of a constant node.
abbrev pub payload : Node → ConstVal
payload n = record { is_fp = ty_is_float n.ty; ty = n.ty; iv = n.ival; fv = n.fval }

unfoldable pub const_of : Graph → NodeId → Option ConstVal
const_of g n =
    if n == no_node
    then none
    else if (node g n).op is Op.const
    then some (payload (node g n))
    else none

unfoldable pub make_const_node : Graph → NodeId → ConstVal → Graph × NodeId
unfolding make
make_const_node g pin v =
    let (g', n) = make g Op.const v.ty (pin ∷ []) 0 0 in
    (put g' n (record (node g' n) { ival = v.iv; fval = v.fv }), n)

abbrev int_value : TypeId → ℕ → Folded
int_value t v = value (record { is_fp = false; ty = t; iv = v; fv = 0 })

abbrev fp_value : TypeId → ℕ → Folded
fp_value t v = value (record { is_fp = true; ty = t; iv = 0; fv = v })

abbrev bool_value : Bool → Folded
bool_value b = int_value ty_i1 (if b then 1 else 0)

unfoldable pub int_bin : BinOp → TypeId → ℕ → ℕ → Folded
int_bin BinOp.add t x y = int_value t (add64 x y)
int_bin BinOp.sub t x y = int_value t (sub64 x y)
int_bin BinOp.mul t x y = int_value t (mul64 x y)
int_bin BinOp.div t x y =
    if y == 0
    then runtime
    else if ty_is_signed t
    then (if x == sign_bit && y == not64 0 then trap else int_value t (sdiv x y))
    else int_value t (x / y)
int_bin BinOp.mod_op t x y =
    if y == 0
    then runtime
    else if ty_is_signed t
    then (if x == sign_bit && y == not64 0 then trap else int_value t (smod x y))
    else int_value t (x % y)
int_bin BinOp.and t x y = int_value t (bit_and x y)
int_bin BinOp.or t x y = int_value t (bit_or x y)
int_bin BinOp.xor t x y = int_value t (bit_xor x y)
int_bin BinOp.and_not t x y = int_value t (bit_and (not64 x) y)
int_bin BinOp.shl t x y = int_value t (shl64 x (bit_and y 63))
int_bin BinOp.shr t x y =
    int_value t (if ty_is_signed t then sar64 x (bit_and y 63) else shr64 x (bit_and y 63))
int_bin BinOp.min t x y =
    int_value t (if (if ty_is_signed t then slt x y else ltb x y) then x else y)
int_bin BinOp.max t x y =
    int_value t (if (if ty_is_signed t then slt x y else ltb x y) then y else x)

-- `lt` is the order of the operands' type.
unfoldable pub int_cmp : (ℕ → ℕ → Bool) → CmpOp → ℕ → ℕ → Bool
int_cmp lt CmpOp.eq x y = x == y
int_cmp lt CmpOp.ne x y = not (x == y)
int_cmp lt CmpOp.lt x y = lt x y
int_cmp lt CmpOp.le x y = not (lt y x)
int_cmp lt CmpOp.gt x y = lt y x
int_cmp lt CmpOp.ge x y = not (lt x y)

module _ (F : FloatOps) where
  open F use {fadd, fsub, fmul, fdiv, fneg, feq, flt, fle, of_i64, to_i64, to_f32}

  -- `a.is_fp ? a.fv : static_cast<f64>(a.iv)`
  abbrev as_float : ConstVal → ℕ
  as_float a = if a.is_fp then a.fv else of_i64 a.iv

  unfoldable pub fp_bin : BinOp → TypeId → ℕ → ℕ → Folded
  fp_bin BinOp.add t x y = fp_value t (fadd x y)
  fp_bin BinOp.sub t x y = fp_value t (fsub x y)
  fp_bin BinOp.mul t x y = fp_value t (fmul x y)
  fp_bin BinOp.div t x y = if feq y 0 then runtime else fp_value t (fdiv x y)
  fp_bin BinOp.min t x y = fp_value t (if flt x y then x else y)
  fp_bin BinOp.max t x y = fp_value t (if flt x y then y else x)
  fp_bin _ t x y = runtime

  unfoldable pub eval_bin_const : BinOp → ConstVal → ConstVal → Folded
  unfolding fp_bin int_bin
  eval_bin_const op a b =
      if a.is_fp || b.is_fp
      then fp_bin op a.ty (as_float a) (as_float b)
      else int_bin op a.ty a.iv b.iv

  unfoldable pub fp_cmp : CmpOp → ℕ → ℕ → Bool
  fp_cmp CmpOp.eq x y = feq x y
  fp_cmp CmpOp.ne x y = not (feq x y)
  fp_cmp CmpOp.lt x y = flt x y
  fp_cmp CmpOp.le x y = fle x y
  fp_cmp CmpOp.gt x y = flt y x
  fp_cmp CmpOp.ge x y = fle y x

  unfoldable pub eval_cmp_const : CmpOp → ConstVal → ConstVal → Folded
  unfolding fp_cmp int_cmp
  eval_cmp_const op a b =
      if a.is_fp || b.is_fp
      then bool_value (fp_cmp op (as_float a) (as_float b))
      else bool_value (int_cmp (λ p q. if ty_is_signed a.ty then slt p q else ltb p q) op a.iv b.iv)

  unfoldable pub eval_un_const : UnOp → ConstVal → Folded
  eval_un_const UnOp.neg a =
      if a.is_fp
      then value (record { is_fp = a.is_fp; ty = a.ty; iv = 0; fv = fneg a.fv })
      else value (record { is_fp = a.is_fp; ty = a.ty; iv = neg64 a.iv; fv = 0 })
  eval_un_const UnOp.not a =
      if a.ty == ty_i1
      then value (record { is_fp = a.is_fp; ty = a.ty; iv = if a.iv == 0 then 1 else 0; fv = 0 })
      else runtime
  eval_un_const UnOp.bnot a =
      if a.is_fp
      then runtime
      else value (record { is_fp = a.is_fp; ty = a.ty; iv = not64 a.iv; fv = 0 })

  abbrev cast_int : TypeId → ℕ → Folded
  cast_int t v = value (record { is_fp = ty_is_float t; ty = t; iv = v; fv = 0 })

  abbrev cast_fp : TypeId → ℕ → Folded
  cast_fp t v = value (record { is_fp = ty_is_float t; ty = t; iv = 0; fv = v })

  unfoldable pub eval_cast_const : CastOp → ConstVal → TypeId → Folded
  eval_cast_const CastOp.broadcast a t = runtime
  eval_cast_const CastOp.extract a t = runtime
  eval_cast_const CastOp.zext a t =
      cast_int t (bit_and a.iv (if ty_bits a.ty == 32 then 0xFFFFFFFF else 0xFF))
  eval_cast_const CastOp.sext a t =
      cast_int t (if ty_bits a.ty == 8 then sext8 a.iv else sext32 a.iv)
  eval_cast_const CastOp.trunc a t =
      cast_int t
        (if ty_bits t == 32 then sext32 a.iv else if ty_bits t == 8 then sext8 a.iv else a.iv)
  eval_cast_const CastOp.si_to_fp a t =
      cast_fp t (if t == ty_f32 then to_f32 (of_i64 a.iv) else of_i64 a.iv)
  eval_cast_const CastOp.fp_to_si a t = cast_int t (to_i64 a.fv)
  eval_cast_const CastOp.fp_ext a t = cast_fp t a.fv
  eval_cast_const CastOp.fp_trunc a t = cast_fp t (to_f32 a.fv)
  eval_cast_const CastOp.ptr a t = cast_int t a.iv
