-- ===== src/Passes/BitwiseOptimization.antt =====
-- jules/src/core/son/passes/p16_bitwise_optimization.cpp: complement pairs, absorption, and the
-- extraction of bit fields.
pub mod Sound
pub mod Values
use jules.Passes.Driver.{Outcome, Visit}
use jules.Passes.Driver
use jules.Prelude.{
  ℕ, ◌-◌, ◌^◌, ◌==◌, ltb, Bool, true, false, not, ◌&&◌, ◌||◌, Option, none, some, [], ◌∷◌, bit_and,
  if◌then◌else◌,
}
use jules.Son.Types.{TypeId, ty_is_float, ty_is_bool, ty_is_signed, ty_bits}
use jules.Son.Node.{NodeId, Node, Op, BinOp, UnOp, input, ◌is◌, to_bin, bin_code, un_code}
use jules.Son.Graph.{Graph, node, size, make}
use jules.Passes.ConstEval.{ConstVal, const_of, make_const_node}
use jules.Passes.AlgebraicSimplification.{replace, pushing}

unfoldable pub fold_const : Graph → NodeId → ℕ → Graph
unfolding make_const_node replace
fold_const g id v =
    let n = node g id in
    let (g', c) =
      make_const_node g (input n 0) (record { is_fp = false; ty = n.ty; iv = v; fv = 0 }) in
    replace g' id c

pub data Action : Type 0 where
  keep : Action
  to_const : ℕ → Action
  use_node : NodeId → Action
  -- a mask of the given node
  mask_with : NodeId → ℕ → Action

-- `bn.op == Op::Un && bn.sub == BNot && bn.in[1] == a`
abbrev pub is_complement : Node → NodeId → Bool
is_complement bn a = bn.op is Op.un && bn.sub == un_code UnOp.bnot && input bn 1 == a

-- `bn.op == Op::Bin && bn.sub == op && (bn.in[1] == a || bn.in[2] == a)`
abbrev pub absorbs : Node → BinOp → NodeId → Bool
absorbs bn op a = bn.op is Op.bin && bn.sub == bin_code op && (input bn 1 == a || input bn 2 == a)

abbrev pub all_ones : TypeId → ℕ
all_ones t = if ty_bits t == 32 then 0xFFFFFFFF else 2 ^ 64 - 1

-- The right shift of a left shift, whose shifted value is compared with the right operand.
unfoldable pub extract_field : Node → Node → BinOp → Option ConstVal → Action
extract_field n an op none = keep
extract_field n an op (some k) =
    let shift = bit_and k.iv 63 in
    let w = ty_bits n.ty in
    if bin_code op == bin_code BinOp.shr
      && an.op is Op.bin
      && an.sub == bin_code BinOp.shl
      && input an 1 == input n 2
      && not (ty_is_signed n.ty)
      && ltb 0 shift
      && ltb shift w
    then mask_with (input an 1) (2 ^ (w - shift) - 1)
    else keep

unfoldable pub choose : Graph → Node → BinOp → Action
unfolding extract_field
choose g n op =
    let a = input n 1 in
    let b = input n 2 in
    let an = node g a in
    let bn = node g b in
    let is_op = λ (o : BinOp). bin_code op == bin_code o in
    let pair = is_complement bn a || is_complement an b in
    if pair && is_op BinOp.and
    then to_const 0
    else if pair && (is_op BinOp.or || is_op BinOp.xor)
    then to_const (all_ones n.ty)
    else if is_op BinOp.and && absorbs bn BinOp.or a
    then use_node a
    else if is_op BinOp.or && absorbs bn BinOp.and a
    then use_node a
    else if is_op BinOp.and && absorbs an BinOp.or b
    then use_node b
    else if is_op BinOp.or && absorbs an BinOp.and b
    then use_node b
    else extract_field n an op (const_of g b)

-- The node of the mask is made after its constant, with the type that the reference `n` still gives.
unfoldable pub mask : (ℕ → Bool) → Graph → NodeId → NodeId → ℕ → Option (Graph × Bool)
unfolding make_const_node make replace
mask grows g id x m =
    let n = node g id in
    pushing grows g
      (make_const_node g (input n 0) (record { is_fp = false; ty = n.ty; iv = m; fv = 0 }))
      (λ g1 c.
        let (g2, r) = make g1 Op.bin n.ty (input n 0 ∷ x ∷ c ∷ []) (bin_code BinOp.and) 0 in
        some (replace g2 id r, true))

unfoldable pub perform : (ℕ → Bool) → Graph → NodeId → Action → Option (Graph × Bool)
unfolding fold_const replace mask
perform grows g id keep = some (g, false)
perform grows g id (to_const v) = some (fold_const g id v, true)
perform grows g id (use_node c) = some (replace g id c, true)
perform grows g id (mask_with x m) = mask grows g id x m

abbrev action : Graph → Node → Option BinOp → Action
action g n none = keep
action g n (some op) = choose g n op

unfoldable pub visit : (ℕ → Bool) → Graph → NodeId → Option (Graph × Bool)
unfolding choose perform
visit grows g id =
    let n = node g id in
    if not (n.op is Op.bin) || ty_is_float n.ty || ty_is_bool n.ty
    then some (g, false)
    else perform grows g id (action g n (to_bin n.sub))

-- `run`: six rounds, each with the given fuel.
unfoldable pub run_bitwise : (ℕ → ℕ) → (ℕ → Bool) → Graph → Outcome
unfolding Driver.run visit
run_bitwise fuel grows g = Driver.run (visit grows) (λ h. fuel (size h)) 6 g
