-- ===== src/Examples/Elimination.antt =====
-- Runs of p01 and p13.
use jules.Prelude.{
  zero, suc, ◌<◌, ◌≡◌, ◌⊎◌, refl, arith, Bool, true, false, List, [], ◌∷◌, get_or, ltb, ◌||◌, ◌==◌,
}
use jules.Son.Types.{ty_none, ty_ctrl, ty_i32, ty_is_float, type_desc}
use jules.Son.Node.{NodeId, Node, Op, BinOp, no_node, input, default_node, bin_code}
use jules.Son.Graph.{Graph, node}
use jules.Son.Graph.Uses.{HasFreshUses}
use jules.Passes.ConstEval.{eval_bin_const}
use jules.Passes.Meaning.{Valuation, NodeHolds, InRange, Models, op_value}
use jules.Passes.Meaning.Edit.{Refines}
use jules.Passes.Meaning.Rewire.Run.{HasSlots}
use jules.Passes.Driver.Rule.{Ends}
use jules.Passes.DeadNodeElimination.{run_dce}
use jules.Passes.DeadNodeElimination.Sound.{Eliminates, run_dce-Eliminates}
use jules.Passes.Reassociation.{visit, run_reassociation}
use jules.Passes.Reassociation.Sound.{run_reassociation-Ends}
use jules.Examples.{no_floats, plain, val, val-HasType, all_of, get_or-all_of}

abbrev pub graph : List Node → NodeId → Graph
graph nodes stop = record {
  nodes = nodes;
  uses = [];
  start = 0;
  stop = stop;
  uses_dirty = true;
  changes = 0;
}

-- A constant that nothing uses, a returned constant, and a call that nothing uses.
abbrev wasteful : Graph
wasteful =
    graph
      (plain Op.start ty_ctrl 0 0 []
        ∷ plain Op.const ty_i32 0 5 (0 ∷ [])
        ∷ plain Op.const ty_i32 0 7 (0 ∷ [])
        ∷ plain Op.return ty_ctrl 0 0 (0 ∷ 2 ∷ [])
        ∷ plain Op.stop ty_ctrl 0 0 (3 ∷ [])
        ∷ plain Op.call ty_i32 0 0 (0 ∷ [])
        ∷ [])
      4

wasteful-fresh : HasFreshUses wasteful
wasteful-fresh = λ clean. absurd (cc)

eliminates_example : Eliminates wasteful (run_dce wasteful)
eliminates_example = run_dce-Eliminates wasteful wasteful-fresh (omega arith)

-- 5 + x, whose operands p13 swaps.
abbrev sum : Graph
sum =
    graph
      (plain Op.start ty_ctrl 0 0 []
        ∷ plain Op.const ty_i32 0 5 (0 ∷ [])
        ∷ plain Op.param ty_i32 0 0 (0 ∷ [])
        ∷ plain Op.bin ty_i32 (bin_code BinOp.add) 0 (0 ∷ 1 ∷ 2 ∷ [])
        ∷ [])
      no_node

sum-fresh : HasFreshUses sum
sum-fresh = λ clean. absurd (cc)

abbrev sum_values : Valuation
sum_values id =
    get_or (val ty_ctrl 0 ∷ val ty_i32 5 ∷ val ty_i32 7 ∷ val ty_i32 12 ∷ []) id (val ty_none 0)

sum-holds : (id : NodeId) → NodeHolds no_floats sum_values (sum_values id) (node sum id)
unfolding op_value ty_is_float type_desc eval_bin_const
sum-holds zero = record {
  typed = val-HasType ty_ctrl 0 refl (omega arith) (λ e. omega arith);
  computed = λ w e. absurd (cc);
  operands = λ e. absurd (cc);
  unary = λ e. absurd (cc);
  copies = λ e. absurd (cc);
}
sum-holds (suc zero) = record {
  typed = val-HasType ty_i32 5 refl (omega arith) (λ e. absurd (omega arith));
  computed = λ w e. cc;
  operands = λ e. absurd (cc);
  unary = λ e. absurd (cc);
  copies = λ e. absurd (cc);
}
sum-holds (suc (suc zero)) = record {
  typed = val-HasType ty_i32 7 refl (omega arith) (λ e. absurd (omega arith));
  computed = λ w e. absurd (cc);
  operands = λ e. absurd (cc);
  unary = λ e. absurd (cc);
  copies = λ e. absurd (cc);
}
sum-holds (suc (suc (suc zero))) = record {
  typed = val-HasType ty_i32 12 refl (omega arith) (λ e. absurd (omega arith));
  computed = λ w e. cc;
  operands = λ e. (refl, refl);
  unary = λ e. absurd (cc);
  copies = λ e. absurd (cc);
}
sum-holds (suc (suc (suc (suc k)))) = record {
  typed = val-HasType ty_none 0 refl (omega arith) (λ e. omega arith);
  computed = λ w e. absurd (cc);
  operands = λ e. absurd (cc);
  unary = λ e. absurd (cc);
  copies = λ e. absurd (cc);
}

abbrev named : NodeId → Bool
named c = ltb c 4 || c == no_node

sum-InRange : InRange sum
sum-InRange id i =
    let slots : all_of named (node sum id).slots ≡ true =
      get_or-all_of (λ n. all_of named n.slots) sum.nodes id default_node refl refl in
    named_sound (input (node sum id) i)
      (get_or-all_of named (node sum id).slots i no_node slots refl)
  where
    named_sound : (c : NodeId) → named c ≡ true → (c < 4) ⊎ (c ≡ no_node)
    named_sound c h = ground arith

sum-Models : Models no_floats sum sum_values
sum-Models = record { holds = sum-holds; in_range = sum-InRange }

sum-HasSlots : HasSlots sum
sum-HasSlots zero lt = refl
sum-HasSlots (suc zero) lt = refl
sum-HasSlots (suc (suc zero)) lt = refl
sum-HasSlots (suc (suc (suc zero))) lt = refl
sum-HasSlots (suc (suc (suc (suc k)))) lt = refl

reassociation_example :
    Ends (λ h. Refines no_floats sum sum_values h × HasSlots h) (run_reassociation false sum)
reassociation_example =
    run_reassociation-Ends no_floats false sum sum_values (λ e. absurd (cc)) sum-Models sum-fresh
      sum-HasSlots

-- The sum becomes x + 5.
swaps : input (node (visit false sum 3).0 3) 1 ≡ 2
unfolding visit ty_is_float
swaps = refl
