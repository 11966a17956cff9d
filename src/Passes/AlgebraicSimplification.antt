-- ===== src/Passes/AlgebraicSimplification.antt =====
-- jules/src/core/son/passes/p12_algebraic_simplification.cpp: cancellation, comparisons in their
-- canonical form, and multiplication and division by powers of two.
pub mod Values
use jules.Passes.Driver.{Outcome, Visit}
use jules.Passes.Driver
use jules.Prelude.{
  ℕ, zero, suc, ◌+◌, ◌-◌, ◌^◌, ◌==◌, Bool, true, false, not, ◌&&◌, ◌||◌, Option, none, some, [],
  ◌∷◌, if◌then◌else◌, set,
}
use jules.Prelude.Words.{sub64, negative}
use jules.Son.Types.{TypeId, ty_is_float, ty_is_signed, ty_is_vector, ty_bits}
use jules.Son.Node.{NodeId, Node, Op, BinOp, CmpOp, input, ◌is◌, to_bin, to_cmp, bin_code, cmp_code}
use jules.Son.Graph.{Graph, node, size, make, set_input, replace_all_uses, kill}
use jules.Passes.ConstEval.{ConstVal, const_of, make_const_node}

unfoldable pub replace : Graph → NodeId → NodeId → Graph
replace g from to = kill (replace_all_uses g from to) from

abbrev pub zero_of : TypeId → ConstVal
zero_of t = record { is_fp = ty_is_float t; ty = t; iv = 0; fv = 0 }

unfoldable pub fold_zero : Graph → NodeId → Graph
unfolding make_const_node replace
fold_zero g id =
    let (g', z) = make_const_node g (input (node g id) 0) (zero_of (node g id).ty) in
    replace g' id z

-- The operation of a comparison with its operands swapped; `eq` and `ne` have none here.
unfoldable pub flip : CmpOp → Option CmpOp
flip CmpOp.lt = some CmpOp.gt
flip CmpOp.le = some CmpOp.ge
flip CmpOp.gt = some CmpOp.lt
flip CmpOp.ge = some CmpOp.le
flip CmpOp.eq = none
flip CmpOp.ne = none

-- `n.sub = code`
abbrev set_sub : Graph → NodeId → ℕ → Graph
set_sub g id code = record g { nodes = set g.nodes id (record (node g id) { sub = code }) }

unfoldable pub swap_operands : Graph → NodeId → CmpOp → Graph
unfolding set_input
swap_operands g id op =
    let n = node g id in
    let g' = set_input (set_input g id 1 (input n 2)) id 2 (input n 1) in
    set_sub g' id (cmp_code op)

abbrev flipped : Graph → NodeId → Option CmpOp → Graph × Bool
flipped g id none = (g, false)
flipped g id (some op) = (swap_operands g id op, true)

abbrev is_some {ℓ} : {A : Type ℓ} → Option A → Bool
is_some none = false
is_some (some a) = true

abbrev is_less : CmpOp → Bool
is_less CmpOp.lt = true
is_less CmpOp.le = true
is_less _ = false

-- The case of Op::Cmp; the constants are those of the operands.
unfoldable pub visit_cmp :
    Graph → NodeId → Option CmpOp → Option ConstVal → Option ConstVal → Graph × Bool
unfolding swap_operands flip
visit_cmp g id none lc rc = (g, false)
visit_cmp g id (some op) lc rc =
    if is_some lc && not (is_some rc)
    then flipped g id (flip op)
    else if is_less op
    then flipped g id (flip op)
    else (g, false)

-- `static_cast<i64>(c) > 0`
abbrev positive : ℕ → Bool
positive c = not (c == 0) && not (negative c)

-- The first `k` from `k` on, among `left` of them, with c == 1 << k.
unfoldable pub power_from : ℕ → ℕ → ℕ → Option ℕ
power_from zero k c = none
power_from (suc left) k c = if c == 2 ^ k then some k else power_from left (k + 1) c

-- What the search for a rewrite of a Bin comes to.
pub data Action : Type 0 where
  keep : Action
  to_zero : Action
  use_node : NodeId → Action
  shift_left : ℕ → Action
  -- division or remainder by 2^k
  divide : BinOp → ℕ → Action

abbrev op_is : Node → BinOp → Bool
op_is n op = n.op is Op.bin && n.sub == bin_code op

abbrev same_const : Option ConstVal → ConstVal → Bool
same_const none c = false
same_const (some d) c = d.iv == c.iv && not (d.iv == 0)

abbrev power_action : (ℕ → Action) → Option ℕ → Action
power_action act none = keep
power_action act (some k) = act k

-- The rewrites that want a constant on the right.
unfoldable pub by_constant : Graph → Node → BinOp → Option ConstVal → Action
unfolding power_from
by_constant g n op none = keep
by_constant g n op (some c) =
    let an = node g (input n 1) in
    let mul_of =
      not (ty_is_signed n.ty)
      && bin_code op == bin_code BinOp.div
      && not (c.iv == 0)
      && op_is an BinOp.mul in
    let bits = ty_bits n.ty in
    let kmax = sub64 bits (if ty_is_signed n.ty then 2 else 1) in
    if mul_of && same_const (const_of g (input an 2)) c
    then use_node (input an 1)
    else if mul_of && same_const (const_of g (input an 1)) c
    then use_node (input an 2)
    else if bin_code op == bin_code BinOp.mul && positive c.iv
    then power_action shift_left (power_from 6 1 c.iv)
    else if not (ty_is_vector n.ty)
        && (bin_code op == bin_code BinOp.div || bin_code op == bin_code BinOp.mod_op)
        && positive c.iv
    then power_action (divide op) (power_from kmax 1 c.iv)
    else keep

unfoldable pub choose_bin : Graph → Node → BinOp → Action
unfolding by_constant
choose_bin g n op =
    let a = input n 1 in
    let b = input n 2 in
    let an = node g a in
    let is_op = λ (o : BinOp). bin_code op == bin_code o in
    if ty_is_float n.ty
    then keep
    else if a == b && (is_op BinOp.sub || is_op BinOp.xor || is_op BinOp.mod_op)
    then to_zero
    else if a == b && (is_op BinOp.and || is_op BinOp.or)
    then use_node a
    else if op_is an BinOp.add && is_op BinOp.sub && input an 1 == b
    then use_node (input an 2)
    else if op_is an BinOp.add && is_op BinOp.sub && input an 2 == b
    then use_node (input an 1)
    else if op_is an BinOp.sub && is_op BinOp.add && input an 1 == b
    then use_node (input an 2)
    else by_constant g n op (const_of g b)

-- A step that pushes a node, while the reference `n` is still to be used: `none` is the undefined
-- behaviour where std::vector moves its nodes, which it does at the sizes that `grows` says.
abbrev pub pushing :
    (ℕ → Bool)
    → Graph
    → Graph × NodeId
    → (Graph → NodeId → Option (Graph × Bool))
    → Option (Graph × Bool)
pushing grows g pushed next = if grows (size g) then none else next pushed.0 pushed.1

module _ (grows : ℕ → Bool) (id : NodeId) where
  -- mkc and mkb
  abbrev mkc : Graph → ℕ → Graph × NodeId
  mkc g v =
      let n = node g id in
      make_const_node g (input n 0) (record { is_fp = false; ty = n.ty; iv = v; fv = 0 })

  abbrev mkb : Graph → BinOp → NodeId → NodeId → Graph × NodeId
  mkb g o x y = let n = node g id in make g Op.bin n.ty (input n 0 ∷ x ∷ y ∷ []) (bin_code o) 0

  -- The right operand becomes the constant `c`, and the operation `op`.
  unfoldable pub with_constant : Graph → BinOp → ℕ → Option (Graph × Bool)
  unfolding make_const_node set_input
  with_constant g op c =
      pushing grows g (mkc g c)
        (λ g1 k. some (set_sub (set_input g1 id 2 k) id (bin_code op), true))

  -- The four nodes that the signed cases share: the last is x + ((x >> bits - 1) & (2^k - 1)).
  unfoldable pub biased :
      Graph → ℕ → (Graph → NodeId → Option (Graph × Bool)) → Option (Graph × Bool)
  unfolding make_const_node make
  biased g k next =
      let x = input (node g id) 1 in
      pushing grows g (mkc g (ty_bits (node g id).ty - 1)) (λ g1 c1.
        pushing grows g1 (mkb g1 BinOp.shr x c1) (λ g2 sign.
          pushing grows g2 (mkc g2 (2 ^ k - 1)) (λ g3 c2.
            pushing grows g3 (mkb g3 BinOp.and sign c2)
              (λ g4 msk. pushing grows g4 (mkb g4 BinOp.add x msk) next))))

  unfoldable pub signed_divide : Graph → ℕ → Option (Graph × Bool)
  unfolding biased make_const_node set_input
  signed_divide g k = biased g k (λ g1 b.
      let g2 = set_input g1 id 1 b in
      pushing grows g2 (mkc g2 k)
        (λ g3 c. some (set_sub (set_input g3 id 2 c) id (bin_code BinOp.shr), true)))

  unfoldable pub signed_remainder : Graph → ℕ → Option (Graph × Bool)
  unfolding biased make_const_node make replace
  signed_remainder g k = biased g k (λ g1 b. pushing grows g1 (mkc g1 k) (λ g2 c1.
      pushing grows g2 (mkb g2 BinOp.shr b c1) (λ g3 q. pushing grows g3 (mkc g3 k) (λ g4 c2.
        pushing grows g4 (mkb g4 BinOp.shl q c2) (λ g5 qk.
          let (g6, r) = mkb g5 BinOp.sub (input (node g5 id) 1) qk in
          some (replace g6 id r, true))))))

  unfoldable pub divide_by : Graph → BinOp → ℕ → Option (Graph × Bool)
  unfolding with_constant signed_divide signed_remainder
  divide_by g op k =
      let is_div = bin_code op == bin_code BinOp.div in
      if ty_is_signed (node g id).ty
      then (if is_div then signed_divide g k else signed_remainder g k)
      else if is_div
      then with_constant g BinOp.shr k
      else with_constant g BinOp.and (2 ^ k - 1)

  unfoldable pub perform : Graph → Action → Option (Graph × Bool)
  unfolding replace fold_zero with_constant divide_by
  perform g keep = some (g, false)
  perform g to_zero = some (fold_zero g id, true)
  perform g (use_node c) = some (replace g id c, true)
  perform g (shift_left k) = with_constant g BinOp.shl k
  perform g (divide op k) = divide_by g op k

abbrev bin_action : Graph → Node → Option BinOp → Action
bin_action g n none = keep
bin_action g n (some op) = choose_bin g n op

unfoldable pub visit : (ℕ → Bool) → Graph → NodeId → Option (Graph × Bool)
unfolding visit_cmp choose_bin perform
visit grows g id =
    let n = node g id in
    if n.op is Op.cmp
    then some (visit_cmp g id (to_cmp n.sub) (const_of g (input n 1)) (const_of g (input n 2)))
    else if n.op is Op.bin
    then perform grows id g (bin_action g n (to_bin n.sub))
    else some (g, false)

-- `run`: six rounds. A visit adds at most nine nodes; the nodes that it adds may be visited in turn.
unfoldable pub run_algebraic : (ℕ → ℕ) → (ℕ → Bool) → Graph → Outcome
unfolding Driver.run visit
run_algebraic fuel grows g = Driver.run (visit grows) (λ h. fuel (size h)) 6 g
