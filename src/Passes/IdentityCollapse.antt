-- ===== src/Passes/IdentityCollapse.antt =====
-- jules/src/core/son/passes/p02_identity_collapse.cpp: x + 0, x * 1, double negation and the like.
pub mod Values
pub mod Sound
pub mod Meaning
use jules.Passes.Driver.{Outcome, Visit}
use jules.Passes.Driver
use jules.Prelude.{
  ℕ, ◌+◌, ◌*◌, Bool, true, false, not, ◌&&◌, ◌||◌, Option, none, some, [], ◌∷◌, ◌==◌, if◌then◌else◌,
}
use jules.Prelude.Words.{not64}
use jules.Son.Types.{TypeId, ty_is_float}
use jules.Son.Node.{
  NodeId, Node, Op, BinOp, UnOp, no_node, input, op_code, ◌is◌, to_bin, to_un, un_code,
}
use jules.Son.Graph.{Graph, node, size, make, replace_all_uses, kill}
use jules.Passes.ConstEval.{ConstVal, const_of, make_const_node}

unfoldable pub int_all_ones : ConstVal → Bool
int_all_ones c = not c.is_fp && c.iv == not64 0

unfoldable pub int_zero : ConstVal → Bool
int_zero c = not c.is_fp && c.iv == 0

unfoldable pub int_one : ConstVal → Bool
int_one c = not c.is_fp && c.iv == 1

-- `bb && test(cb)`
abbrev pub constant_with : (ConstVal → Bool) → Option ConstVal → Bool
constant_with test none = false
constant_with test (some c) = test c

unfoldable pub replace : Graph → NodeId → NodeId → Graph × Bool
replace g from to =
    if from == to || to == no_node
    then (g, false)
    else (kill (replace_all_uses g from to) from, true)

abbrev pub zero_of : TypeId → ConstVal
zero_of t = record { is_fp = ty_is_float t; ty = t; iv = 0; fv = 0 }

unfoldable pub fold_to_zero : Graph → NodeId → Graph × Bool
unfolding make_const_node replace
fold_to_zero g id =
    let n = node g id in
    let (g', folded) = make_const_node g (input n 0) (zero_of n.ty) in replace g' id folded

-- The new node ~a, in the place of a ^ ~0.
unfoldable pub complement : Graph → NodeId → NodeId → Graph × Bool
unfolding make replace
complement g id a =
    let n = node g id in
    let (g', inverted) = make g Op.un n.ty (input n 0 ∷ a ∷ []) (un_code UnOp.bnot) 0 in
    replace g' id inverted

-- What `visit` does to a node: nothing, or one of the three calls above.
pub data Action : Type 0 where
  keep : Action
  use_node : NodeId → Action
  use_zero : Action
  use_complement : NodeId → Action

-- The cases of Op::Bin, for the node's inputs `a` and `b` and what is known of them.
unfoldable pub collapse_bin :
    BinOp → Bool → NodeId → NodeId → Option ConstVal → Option ConstVal → Action
unfolding int_zero int_one int_all_ones
collapse_bin BinOp.min fp a b ca cb = if a == b then use_node a else keep
collapse_bin BinOp.max fp a b ca cb = if a == b then use_node a else keep
collapse_bin BinOp.add fp a b ca cb =
    if constant_with int_zero cb
    then use_node a
    else if constant_with int_zero ca
    then use_node b
    else keep
collapse_bin BinOp.sub fp a b ca cb = if constant_with int_zero cb then use_node a else keep
collapse_bin BinOp.mul fp a b ca cb =
    if constant_with int_one cb
    then use_node a
    else if constant_with int_one ca
    then use_node b
    else if not fp && constant_with int_zero cb
    then use_zero
    else if not fp && constant_with int_zero ca
    then use_zero
    else keep
collapse_bin BinOp.div fp a b ca cb = if constant_with int_one cb then use_node a else keep
collapse_bin BinOp.mod_op fp a b ca cb =
    if constant_with int_one cb && not fp then use_zero else keep
collapse_bin BinOp.and fp a b ca cb =
    if constant_with int_all_ones cb
    then use_node a
    else if constant_with int_all_ones ca
    then use_node b
    else if constant_with int_zero cb
    then use_zero
    else if constant_with int_zero ca
    then use_zero
    else keep
collapse_bin BinOp.or fp a b ca cb =
    if constant_with int_zero cb
    then use_node a
    else if constant_with int_zero ca
    then use_node b
    else if constant_with int_all_ones cb
    then use_node b
    else if constant_with int_all_ones ca
    then use_node a
    else keep
collapse_bin BinOp.xor fp a b ca cb =
    if constant_with int_zero cb
    then use_node a
    else if constant_with int_zero ca
    then use_node b
    else if constant_with int_all_ones cb
    then use_complement a
    else keep
collapse_bin BinOp.shl fp a b ca cb = if constant_with int_zero cb then use_node a else keep
collapse_bin BinOp.shr fp a b ca cb = if constant_with int_zero cb then use_node a else keep
collapse_bin BinOp.and_not fp a b ca cb = keep

-- The case of Op::Un: `op` is the node's, `x` its input.
unfoldable pub collapse_un : UnOp → Node → Node → Action
collapse_un op n x =
    if x.op is Op.un
      && x.sub == n.sub
      && (un_code op == un_code UnOp.not || un_code op == un_code UnOp.bnot)
    then use_node (input x 1)
    else if x.op is Op.un && x.sub == un_code UnOp.neg && un_code op == un_code UnOp.neg
    then use_node (input x 1)
    else keep

abbrev pub on_bin : Graph → Node → Option BinOp → Action
on_bin g n none = keep
on_bin g n (some op) =
    collapse_bin op (ty_is_float n.ty) (input n 1) (input n 2) (const_of g (input n 1))
      (const_of g (input n 2))

abbrev pub on_un : Graph → Node → Option UnOp → Action
on_un g n none = keep
on_un g n (some op) = collapse_un op n (node g (input n 1))

-- The switch of `visit`.
unfoldable pub choose : Graph → Node → Op → Action
choose g n Op.bin = on_bin g n (to_bin n.sub)
choose g n Op.cast = if (node g (input n 1)).ty == n.ty then use_node (input n 1) else keep
choose g n Op.select = if input n 2 == input n 3 then use_node (input n 2) else keep
choose g n Op.un = on_un g n (to_un n.sub)
choose g n _ = keep

unfoldable pub perform : Graph → NodeId → Action → Graph × Bool
unfolding replace fold_to_zero complement
perform g id keep = (g, false)
perform g id (use_node a) = replace g id a
perform g id use_zero = fold_to_zero g id
perform g id (use_complement a) = complement g id a

unfoldable pub visit : Graph → NodeId → Graph × Bool
unfolding perform choose
visit g id =
    let n = node g id in if n.op is Op.dead then (g, false) else perform g id (choose g n n.op)

abbrev pub total_visit : Visit
total_visit g id = some (visit g id)

-- `run`: eight rounds.
unfoldable pub run_collapse : Graph → Outcome
unfolding Driver.run visit
run_collapse g = Driver.run total_visit (λ h. 2 * size h + 1) 8 g
