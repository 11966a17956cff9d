-- ===== src/Passes/CopyPropagation/Sound.antt =====
-- The casts that p11 takes away copy, and their uses go to their operands.
use jules.Prelude.{◌≡◌, ◌≢◌}
use jules.Son.Node.{NodeId, Op}
use jules.Son.Graph.{Graph, node, replace_inputs}

-- In `h` the node `id` of `g` is dead, and every other node has `to` for an input where it had `id`.
pub record Forwards (g : Graph) (id to : NodeId) (h : Graph) : Type 0 where
  pub dead : (node h id).op ≡ Op.dead
  pub others : (j : NodeId) → j ≢ id → node h j ≡ replace_inputs id to (node g j)
