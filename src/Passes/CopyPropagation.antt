-- ===== src/Passes/CopyPropagation.antt =====
-- jules/src/core/son/passes/p11_copy_propagation.cpp: casts that copy, and phis that pass one value on.
pub mod Sound
use jules.Passes.Driver.{Outcome, Visit}
use jules.Passes.Driver
use jules.Passes.Phis.{common_input, phi_values, strip_self}
use jules.Prelude.{
  ℕ, ◌+◌, ◌==◌, Bool, true, false, not, ◌&&◌, ◌||◌, Option, none, some, if◌then◌else◌,
}
use jules.Son.Types.{TypeId, ty_bits}
use jules.Son.Node.{NodeId, Node, Op, CastOp, no_node, input, ◌is◌, to_cast}
use jules.Son.Graph.{Graph, node, size, replace_all_uses, kill}

-- `is_copy`, for the kind of the cast, the type of its source and its own.
abbrev pub is_copy : Option CastOp → TypeId → TypeId → Bool
is_copy (some CastOp.ptr) s t = true
is_copy (some CastOp.trunc) s t = ty_bits s == ty_bits t
is_copy _ s t = false

unfoldable pub visit_cast : Graph → NodeId → Graph × Bool
visit_cast g id =
    let n = node g id in
    let s = node g (input n 1) in
    if s.op is Op.dead
    then (g, false)
    else if is_copy (to_cast n.sub) s.ty n.ty && s.ty == n.ty
    then (kill (replace_all_uses g id (input n 1)) id, true)
    else (g, false)

unfoldable pub visit_phi : Graph → NodeId → Graph × Bool
unfolding common_input strip_self
visit_phi g id = elim (common_input id no_node (phi_values (node g id))) [
  | none ↦ (g, false)
  | some c ↦
      if c == no_node || c == id
      then (g, false)
      else (kill (replace_all_uses (strip_self g id c) id c) id, true)
]

unfoldable pub visit : Graph → NodeId → Graph × Bool
unfolding visit_cast visit_phi
visit g id =
    let n = node g id in
    if n.op is Op.cast
    then visit_cast g id
    else if n.op is Op.phi
    then visit_phi g id
    else (g, false)

abbrev pub total_visit : Visit
total_visit g id = some (visit g id)

-- `run`: six rounds, which add no nodes.
unfoldable pub run_copies : Graph → Outcome
unfolding Driver.run visit
run_copies g = Driver.run total_visit (λ h. size h + 1) 6 g
