-- ===== src/Passes/Reassociation.antt =====
-- jules/src/core/son/passes/p13_reassociation.cpp: the canonical order of the operands of commutative
-- operations.
pub mod Values
pub mod Sound
use jules.Passes.Driver.{Outcome, Visit}
use jules.Passes.Driver
use jules.Prelude.{ℕ, ◌+◌, Bool, true, false, not, ◌&&◌, Option, none, some, ltb, if◌then◌else◌}
use jules.Son.Types.{ty_is_float}
use jules.Son.Node.{NodeId, Node, Op, BinOp, input, ◌is◌, to_bin}
use jules.Son.Graph.{Graph, node, size, set_input}
use jules.Passes.ConstEval.{const_of}

unfoldable pub is_commutative : Option BinOp → Bool
is_commutative (some BinOp.add) = true
is_commutative (some BinOp.mul) = true
is_commutative (some BinOp.and) = true
is_commutative (some BinOp.or) = true
is_commutative (some BinOp.xor) = true
is_commutative _ = false

abbrev pub is_some {ℓ} : {A : Type ℓ} → Option A → Bool
is_some none = false
is_some (some a) = true

-- A constant goes to the right, and of two others the lower id to the left.
unfoldable pub out_of_order : Graph → NodeId → NodeId → Bool
unfolding const_of
out_of_order g a b =
    let ac = is_some (const_of g a) in
    let bc = is_some (const_of g b) in if ac && not bc then true else not ac && not bc && ltb b a

unfoldable pub swap_operands : Graph → NodeId → NodeId → NodeId → Graph
unfolding set_input
swap_operands g id a b = set_input (set_input g id 1 b) id 2 a

unfoldable pub visit : Bool → Graph → NodeId → Graph × Bool
unfolding is_commutative out_of_order swap_operands
visit fp_fast g id =
    let n = node g id in
    if not (n.op is Op.bin)
    then (g, false)
    else if ty_is_float n.ty && not fp_fast
    then (g, false)
    else if not (is_commutative (to_bin n.sub))
    then (g, false)
    else if out_of_order g (input n 1) (input n 2)
    then (swap_operands g id (input n 1) (input n 2), true)
    else (g, false)

abbrev pub total_visit : Bool → Visit
total_visit fp_fast g id = some (visit fp_fast g id)

-- `run`: four rounds, which add no nodes.
unfoldable pub run_reassociation : Bool → Graph → Outcome
unfolding Driver.run visit
run_reassociation fp_fast g = Driver.run (total_visit fp_fast) (λ h. size h + 1) 4 g
