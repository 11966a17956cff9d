-- ===== src/Examples/Folding.antt =====
-- Runs of p03 and p16.
use jules.Prelude.{
  some, zero, suc, ◌<◌, ◌≡◌, ◌⊎◌, refl, arith, Bool, true, [], ◌∷◌, get_or, ltb, ◌||◌, ◌==◌,
}
use jules.Son.Types.{ty_none, ty_ctrl, ty_i32, ty_i1, ty_is_float, type_desc}
use jules.Son.Node.{NodeId, Op, BinOp, CmpOp, no_node, input, default_node, bin_code, cmp_code}
use jules.Son.Graph.{Graph, node}
use jules.Son.Graph.Uses.{HasFreshUses}
use jules.Passes.ConstEval.{const_of, eval_bin_const}
use jules.Passes.Meaning.{Valuation, NodeHolds, InRange, op_value}
use jules.Passes.Meaning.Edit.{Refines}
use jules.Passes.ConstantFolding.Folding.{FoldsCmp, fold_cmp-Compares}
use jules.Passes.BitwiseOptimization.{choose, visit}
use jules.Passes.BitwiseOptimization.Sound.{absorb_visit-Refines}
use jules.Examples.{no_floats, plain, val, val-HasType, all_of, get_or-all_of}
use jules.Examples.Elimination.{graph}

-- 5 < 7
abbrev less : Graph
less =
    graph
      (plain Op.start ty_ctrl 0 0 []
        ∷ plain Op.const ty_i32 0 5 (0 ∷ [])
        ∷ plain Op.const ty_i32 0 7 (0 ∷ [])
        ∷ plain Op.cmp ty_i1 (cmp_code CmpOp.lt) 0 (0 ∷ 1 ∷ 2 ∷ [])
        ∷ [])
      no_node

less-fresh : HasFreshUses less
less-fresh = λ clean. absurd (cc)

fold_cmp_example : FoldsCmp no_floats less 3 CmpOp.lt ty_i32 5 7
unfolding const_of ty_is_float type_desc
fold_cmp_example =
    fold_cmp-Compares no_floats less 3 CmpOp.lt (val ty_i32 5) (val ty_i32 7) less-fresh
      (omega arith) (omega arith) refl refl refl refl refl (omega arith) (omega arith)

-- x & (y | x)
abbrev mask : Graph
mask =
    graph
      (plain Op.start ty_ctrl 0 0 []
        ∷ plain Op.param ty_i32 0 0 (0 ∷ [])
        ∷ plain Op.param ty_i32 0 0 (0 ∷ [])
        ∷ plain Op.bin ty_i32 (bin_code BinOp.or) 0 (0 ∷ 2 ∷ 1 ∷ [])
        ∷ plain Op.bin ty_i32 (bin_code BinOp.and) 0 (0 ∷ 1 ∷ 3 ∷ [])
        ∷ [])
      no_node

mask-fresh : HasFreshUses mask
mask-fresh = λ clean. absurd (cc)

abbrev mask_values : Valuation
mask_values id =
    get_or (val ty_ctrl 0 ∷ val ty_i32 12 ∷ val ty_i32 10 ∷ val ty_i32 14 ∷ val ty_i32 12 ∷ []) id
      (val ty_none 0)

mask-holds : (id : NodeId) → NodeHolds no_floats mask_values (mask_values id) (node mask id)
unfolding op_value ty_is_float type_desc eval_bin_const
mask-holds zero = record {
  typed = val-HasType ty_ctrl 0 refl (omega arith) (λ e. omega arith);
  computed = λ w e. absurd (cc);
  operands = λ e. absurd (cc);
  unary = λ e. absurd (cc);
  copies = λ e. absurd (cc);
}
mask-holds (suc zero) = record {
  typed = val-HasType ty_i32 12 refl (omega arith) (λ e. absurd (omega arith));
  computed = λ w e. absurd (cc);
  operands = λ e. absurd (cc);
  unary = λ e. absurd (cc);
  copies = λ e. absurd (cc);
}
mask-holds (suc (suc zero)) = record {
  typed = val-HasType ty_i32 10 refl (omega arith) (λ e. absurd (omega arith));
  computed = λ w e. absurd (cc);
  operands = λ e. absurd (cc);
  unary = λ e. absurd (cc);
  copies = λ e. absurd (cc);
}
mask-holds (suc (suc (suc zero))) = record {
  typed = val-HasType ty_i32 14 refl (omega arith) (λ e. absurd (omega arith));
  computed = λ w e. cc;
  operands = λ e. (refl, refl);
  unary = λ e. absurd (cc);
  copies = λ e. absurd (cc);
}
mask-holds (suc (suc (suc (suc zero)))) = record {
  typed = val-HasType ty_i32 12 refl (omega arith) (λ e. absurd (omega arith));
  computed = λ w e. cc;
  operands = λ e. (refl, refl);
  unary = λ e. absurd (cc);
  copies = λ e. absurd (cc);
}
mask-holds (suc (suc (suc (suc (suc k))))) = record {
  typed = val-HasType ty_none 0 refl (omega arith) (λ e. omega arith);
  computed = λ w e. absurd (cc);
  operands = λ e. absurd (cc);
  unary = λ e. absurd (cc);
  copies = λ e. absurd (cc);
}

mask-InRange : InRange mask
mask-InRange id i =
    let slots : all_of named (node mask id).slots ≡ true =
      get_or-all_of (λ n. all_of named n.slots) mask.nodes id default_node refl refl in
    named_sound (input (node mask id) i)
      (get_or-all_of named (node mask id).slots i no_node slots refl)
  where
    named : NodeId → Bool
    named c = ltb c 5 || c == no_node

    named_sound : (c : NodeId) → named c ≡ true → (c < 5) ⊎ (c ≡ no_node)
    named_sound c h = ground arith

absorb_example :
    (g' : Graph) × (changed : Bool) × (visit (λ _. true) mask 4 ≡ some (g', changed))
    × Refines no_floats mask mask_values g'
unfolding choose
absorb_example =
    absorb_visit-Refines no_floats mask mask_values (λ _. true) 4 1 BinOp.and
      (record { holds = mask-holds; in_range = mask-InRange }) mask-fresh (omega arith)
      (omega arith) refl refl (omega arith)
