-- ===== src/Passes/ConstantFolding.antt =====
-- jules/src/core/son/passes/p03_constant_folding.cpp: operations whose operands are all constants.
pub mod Folding
use jules.Passes.Driver.{Outcome, Visit}
use jules.Passes.Driver
use jules.Prelude.{ℕ, ◌*◌, ◌+◌, Bool, true, false, Option, none, some, ◌==◌, if◌then◌else◌}
use jules.Son.Types.{TypeId}
use jules.Son.Node.{
  NodeId, Node, Op, BinOp, CmpOp, UnOp, CastOp, input, to_bin, to_cmp, to_un, to_cast,
}
use jules.Son.Graph.{Graph, node, size, replace_all_uses, kill}
use jules.Passes.ConstEval.{
  FloatOps, ConstVal, Folded, const_of, make_const_node, eval_bin_const, eval_cmp_const,
  eval_un_const, eval_cast_const,
}

-- What the switch of `visit` comes to: an evaluation, or an arm of a select.
pub data Decision : Type 0 where
  fold_to : Folded → Decision
  pick : NodeId → Decision

abbrev pub with_one : Option ConstVal → (ConstVal → Folded) → Folded
with_one none f = Folded.runtime
with_one (some a) f = f a

abbrev pub with_two : Option ConstVal → Option ConstVal → (ConstVal → ConstVal → Folded) → Folded
with_two none b f = Folded.runtime
with_two (some a) none f = Folded.runtime
with_two (some a) (some b) f = f a b

-- `if (!const_of(g_, n.in[1], c)) return false; pick = c.iv != 0 ? n.in[2] : n.in[3]`
abbrev pub pick_arm : Option ConstVal → NodeId → NodeId → Decision
pick_arm none a b = fold_to Folded.runtime
pick_arm (some c) a b = pick (if c.iv == 0 then b else a)

module _ (F : FloatOps) where
  abbrev pub bin_folder : Option BinOp → ConstVal → ConstVal → Folded
  bin_folder none a b = Folded.runtime
  bin_folder (some o) a b = eval_bin_const F o a b

  abbrev pub cmp_folder : Option CmpOp → ConstVal → ConstVal → Folded
  cmp_folder none a b = Folded.runtime
  cmp_folder (some o) a b = eval_cmp_const F o a b

  abbrev pub un_folder : Option UnOp → ConstVal → Folded
  un_folder none a = Folded.runtime
  un_folder (some o) a = eval_un_const F o a

  abbrev pub cast_folder : Option CastOp → TypeId → ConstVal → Folded
  cast_folder none t a = Folded.runtime
  cast_folder (some o) t a = eval_cast_const F o a t

  unfoldable pub decide : Graph → Node → Op → Decision
  decide g n Op.bin =
      fold_to
        (with_two (const_of g (input n 1)) (const_of g (input n 2)) (bin_folder (to_bin n.sub)))
  decide g n Op.cmp =
      fold_to
        (with_two (const_of g (input n 1)) (const_of g (input n 2)) (cmp_folder (to_cmp n.sub)))
  decide g n Op.un = fold_to (with_one (const_of g (input n 1)) (un_folder (to_un n.sub)))
  decide g n Op.cast =
      fold_to (with_one (const_of g (input n 1)) (cast_folder (to_cast n.sub) n.ty))
  decide g n Op.select = pick_arm (const_of g (input n 1)) (input n 2) (input n 3)
  decide g n _ = fold_to Folded.runtime

unfoldable pub replace_by : Graph → NodeId → NodeId → Graph
replace_by g id c = kill (replace_all_uses g id c) id

-- The end of `visit`; `none` is the trap of the compiler's own division.
unfoldable pub perform : Graph → NodeId → Decision → Option (Graph × Bool)
unfolding replace_by make_const_node
perform g id (fold_to Folded.runtime) = some (g, false)
perform g id (fold_to Folded.trap) = none
perform g id (fold_to (Folded.value v)) =
    let (g', folded) = make_const_node g (input (node g id) 0) v in
    some (replace_by g' id folded, true)
perform g id (pick c) = some (replace_by g id c, true)

unfoldable pub visit : FloatOps → Graph → NodeId → Option (Graph × Bool)
unfolding perform decide
visit F g id = perform g id (decide F g (node g id) (node g id).op)

-- `run`: eight rounds. A round visits the nodes that it adds, at most one for each node it folds.
unfoldable pub run_folding : FloatOps → Graph → Outcome
unfolding Driver.run visit
run_folding F g = Driver.run (visit F) (λ h. 2 * size h + 1) 8 g
