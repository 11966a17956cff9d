-- ===== src/Examples.antt =====
-- Runs of the theorems on concrete graphs, sources and types.
mod Copies
mod Elimination
mod Folding
mod Structures
use jules.Prelude.{
  ℕ, zero, suc, ◌+◌, ◌≤◌, ◌<◌, ◌^◌, ◌≡◌, ◌⊎◌, refl, arith, Bool, true, false, Option, none, some,
  List, [], ◌∷◌, ◌==◌, get_or, contains, length, ltb, ◌&&◌, ◌||◌, ◌*◌, get_elem?, eq_of_==,
}
use jules.Son.Types.{
  TypeId, ty_none, ty_ctrl, ty_i1, ty_i32, ty_is_float, ty_is_signed, type_desc, ty_u32, ty_v4i32,
  ty_ptr, ty_is_ptr, ty_pointee, ty_bits, ty_store_bytes, ty_is_vector, ty_vector_of, ty_lane_type,
  ty_lanes, ty_is_scalar,
}
use jules.Son.Node.{
  NodeId, Node, Op, BinOp, CmpOp, UnOp, ◌is◌, no_node, input, inputs, default_node, initial_slots,
  bin_code, un_code,
}
use jules.Son.Graph.{
  Graph, node, size, fill, rebuild_uses, replace_all_uses, replace_uses_as_memory, replace_memory,
}
use jules.Son.Graph.Uses.{HasFreshUses, rebuild_uses_lists}
use jules.Passes.ConstEval.{
  Folded, FloatOps, ConstVal, eval_bin_const, eval_cmp_const, eval_un_const, int_bin, const_of,
}
use jules.Passes.Meaning.{Valuation, HasType, NodeHolds, InRange, Models, op_value}
use jules.Passes.Meaning.Edit.{Refines}
use jules.Passes.Driver
use jules.Passes.Driver.{Visit}
use jules.Passes.Driver.Rule.{Ends, run_fixpoint}
use jules.Support.FlatMap.{key, lower, find, value_at}
use jules.Support.FlatMap.Search.{IsSorted, lower_splits, find-entry}
use jules.Passes.IdentityCollapse
use jules.Passes.IdentityCollapse.Meaning as IdentityMeaning
use jules.Passes.ConstantFolding
use jules.Passes.SelectOptimization
use jules.Passes.SelectOptimization.{run_select}
use jules.Passes.SelectOptimization.Run.{run_select-Ends}
use jules.Passes.Meaning.Rewire.Run.{HasSlots}
use jules.Passes.SelectOptimization.Sound.{select_visit-Refines}
use jules.Passes.AlgebraicSimplification.{flip, power_from}
use jules.Passes.AlgebraicSimplification.Values.{eval_cmp_const-flip, int_bin-shl, int_bin-shr}
use jules.Son.Verifier.{verify_graph}
use jules.Son.Verifier.Sound.{Demands, verify_graph-Demands, verify_graph_no_dead_uses}
use jules.Son.Graph.Memory.{MemoryMoved, replace_uses_as_memory-MemoryMoved}
use jules.Son.Graph.Replace.{replace_all_uses_gone}
use jules.Son.Types.Laws.{ty_pointee-ty_ptr, bits-eq-store_bytes, ty_vector_of-lanes}
use jules.Frontend.Diag.{Diagnostics, bytes}
use jules.Frontend.Lexer.Source.{lex_source}
use jules.Frontend.Lexer.Laws.{Finishes, lex_source-Finishes}

-- Floating-point operations that stand in for the processor's.
abbrev no_floats : FloatOps
no_floats = record {
  fadd = λ x y. x;
  fsub = λ x y. x;
  fmul = λ x y. x;
  fdiv = λ x y. x;
  fneg = λ x. x;
  feq = λ x y. x == y;
  flt = λ x y. false;
  fle = λ x y. x == y;
  of_i64 = λ x. x;
  to_i64 = λ x. x;
  to_f32 = λ x. x;
}

abbrev plain : Op → TypeId → ℕ → ℕ → List NodeId → Node
plain op t sub ival ins = record default_node {
  op = op;
  ty = t;
  sub = sub;
  ival = ival;
  n_in = length ins;
  slots = fill ins initial_slots;
}

-- 5 + 0, and a select on the negation of true.
abbrev sample : Graph
sample = record {
  nodes =
      plain Op.start ty_ctrl 0 0 []
      ∷ plain Op.const ty_i32 0 5 (0 ∷ [])
      ∷ plain Op.const ty_i32 0 0 (0 ∷ [])
      ∷ plain Op.bin ty_i32 (bin_code BinOp.add) 0 (0 ∷ 1 ∷ 2 ∷ [])
      ∷ plain Op.const ty_i1 0 1 (0 ∷ [])
      ∷ plain Op.un ty_i1 (un_code UnOp.not) 0 (0 ∷ 4 ∷ [])
      ∷ plain Op.select ty_i32 0 0 (0 ∷ 5 ∷ 1 ∷ 2 ∷ [])
      ∷ [];
  uses = [];
  start = 0;
  stop = no_node;
  uses_dirty = true;
  changes = 0;
}

abbrev val : TypeId → ℕ → ConstVal
val t x = record { is_fp = false; ty = t; iv = x; fv = 0 }

abbrev values : List ConstVal
values =
    val ty_ctrl 0
    ∷ val ty_i32 5
    ∷ val ty_i32 0
    ∷ val ty_i32 5
    ∷ val ty_i1 1
    ∷ val ty_i1 0
    ∷ val ty_i32 0
    ∷ []

abbrev sample_values : Valuation
sample_values id = get_or values id (val ty_none 0)

val-HasType :
    (t : TypeId) (x : ℕ)
    → ty_is_float t ≡ false
    → x < 2 ^ 64
    → (t ≡ ty_i1 → x < 2)
    → HasType t (val t x)
val-HasType t x e h k = record {
  ty_eq = refl;
  is_fp_eq = rw e refl;
  no_fv = λ q. refl;
  no_iv = λ q. absurd (cc);
  word = h;
  bool = k;
}

sample-fresh : HasFreshUses sample
sample-fresh = λ clean. absurd (cc)

sample-holds : (id : NodeId) → NodeHolds no_floats sample_values (sample_values id) (node sample id)
unfolding op_value ty_is_float type_desc eval_bin_const eval_un_const
sample-holds zero = record {
  typed = val-HasType ty_ctrl 0 refl (omega arith) (λ e. omega arith);
  computed = λ w e. absurd (cc);
  operands = λ e. absurd (cc);
  unary = λ e. absurd (cc);
  copies = λ e. absurd (cc);
}
sample-holds (suc zero) = record {
  typed = val-HasType ty_i32 5 refl (omega arith) (λ e. absurd (omega arith));
  computed = λ w e. cc;
  operands = λ e. absurd (cc);
  unary = λ e. absurd (cc);
  copies = λ e. absurd (cc);
}
sample-holds (suc (suc zero)) = record {
  typed = val-HasType ty_i32 0 refl (omega arith) (λ e. omega arith);
  computed = λ w e. cc;
  operands = λ e. absurd (cc);
  unary = λ e. absurd (cc);
  copies = λ e. absurd (cc);
}
sample-holds (suc (suc (suc zero))) = record {
  typed = val-HasType ty_i32 5 refl (omega arith) (λ e. absurd (omega arith));
  computed = λ w e. cc;
  operands = λ e. (refl, refl);
  unary = λ e. absurd (cc);
  copies = λ e. absurd (cc);
}
sample-holds (suc (suc (suc (suc zero)))) = record {
  typed = val-HasType ty_i1 1 refl (omega arith) (λ e. omega arith);
  computed = λ w e. cc;
  operands = λ e. absurd (cc);
  unary = λ e. absurd (cc);
  copies = λ e. absurd (cc);
}
sample-holds (suc (suc (suc (suc (suc zero))))) = record {
  typed = val-HasType ty_i1 0 refl (omega arith) (λ e. omega arith);
  computed = λ w e. cc;
  operands = λ e. absurd (cc);
  unary = λ e q. cc;
  copies = λ e. absurd (cc);
}
sample-holds (suc (suc (suc (suc (suc (suc zero)))))) = record {
  typed = val-HasType ty_i32 0 refl (omega arith) (λ e. omega arith);
  computed = λ w e. cc;
  operands = λ e. absurd (cc);
  unary = λ e. absurd (cc);
  copies = λ e. absurd (cc);
}
sample-holds (suc (suc (suc (suc (suc (suc (suc k))))))) = record {
  typed = val-HasType ty_none 0 refl (omega arith) (λ e. omega arith);
  computed = λ w e. absurd (cc);
  operands = λ e. absurd (cc);
  unary = λ e. absurd (cc);
  copies = λ e. absurd (cc);
}

abbrev all_of {ℓ} : {A : Type ℓ} → (A → Bool) → List A → Bool
all_of p [] = true
all_of p (x ∷ xs) = p x && all_of p xs

get_or-all_of {ℓ} :
    {A : Type ℓ} (p : A → Bool) (xs : List A) (i : ℕ) (d : A)
    → all_of p xs ≡ true
    → p d ≡ true
    → p (get_or xs i d) ≡ true
get_or-all_of p [] i d h k = k
get_or-all_of p (x ∷ xs) zero d h k = ground arith
get_or-all_of p (x ∷ xs) (suc i) d h k = get_or-all_of p xs i d (ground arith) k

abbrev named : NodeId → Bool
named c = ltb c 7 || c == no_node

sample-InRange : InRange sample
sample-InRange id i =
    let slots : all_of named (node sample id).slots ≡ true =
      get_or-all_of (λ n. all_of named n.slots) sample.nodes id default_node refl refl in
    named_sound (input (node sample id) i)
      (get_or-all_of named (node sample id).slots i no_node slots refl)
  where
    named_sound : (c : NodeId) → named c ≡ true → (c < 7) ⊎ (c ≡ no_node)
    named_sound c h = ground arith

sample-Models : Models no_floats sample sample_values
sample-Models = record { holds = sample-holds; in_range = sample-InRange }

abbrev graph_of : Option (Graph × Bool) → Graph
graph_of none = sample
graph_of (some r) = r.0

-- The visits of the three passes at a node of the sample that each rewrites.
identity_visit_example : Refines no_floats sample sample_values (IdentityCollapse.visit sample 3).0
identity_visit_example =
    IdentityMeaning.visit-Refines no_floats (λ x. refl) sample sample_values 3 sample-Models
      sample-fresh (omega arith) (omega arith)

select_visit_example : Refines no_floats sample sample_values (SelectOptimization.visit sample 6).0
select_visit_example =
    select_visit-Refines no_floats sample sample_values 6 sample-Models sample-fresh (omega arith)
      refl

-- The sample without its constant-dead nodes passes the verifier.
abbrev no_diagnostics : Diagnostics
no_diagnostics = record { diags = []; errors = 0; warnings = 0 }

verify_example :
    (contains no_node (inputs (node sample 3)) ≡ false)
    × Demands sample.nodes (node sample 3) (node sample 3).op
unfolding verify_graph ty_is_vector
verify_example = verify_graph-Demands sample no_diagnostics 3 refl (omega arith) refl

verify_uses_example : ((node sample 1).op is Op.dead) ≡ false
unfolding verify_graph ty_is_vector
verify_uses_example =
    verify_graph_no_dead_uses sample no_diagnostics 3 1 refl (omega arith) refl refl (omega arith)

gone_example : contains 1 (inputs (node (replace_all_uses sample 1 2) 3)) ≡ false
gone_example =
    replace_all_uses_gone sample 1 2 3 sample-fresh (omega arith) (omega arith) (omega arith)

memory_example : MemoryMoved 1 2 (node sample 3) (node (replace_uses_as_memory sample 1 2) 3)
memory_example =
    replace_uses_as_memory-MemoryMoved sample 1 2 3 sample-fresh (omega arith) (omega arith)
      (omega arith)

lists_example :
    contains 3 (get_or (rebuild_uses sample).uses 1 []) ≡ contains 1 (inputs (node sample 3))
lists_example = rebuild_uses_lists sample 1 3 (omega arith) (omega arith)

pointee_example : (ty_pointee (ty_ptr ty_i32) ≡ ty_i32) × (ty_is_ptr (ty_ptr ty_i32) ≡ true)
unfolding ty_ptr
pointee_example = ty_pointee-ty_ptr ty_i32 (omega arith)

store_bytes_example : ty_bits ty_i32 ≡ 8 * ty_store_bytes ty_i32
store_bytes_example = bits-eq-store_bytes ty_i32

lanes_example :
    (ty_vector_of (ty_lane_type ty_v4i32) (ty_lanes ty_v4i32) ≡ ty_v4i32)
    × (ty_bits ty_v4i32 ≡ ty_lanes ty_v4i32 * ty_bits (ty_lane_type ty_v4i32))
    × (ty_is_scalar (ty_lane_type ty_v4i32) ≡ true)
unfolding ty_is_vector
lanes_example = ty_vector_of-lanes ty_v4i32 refl

lexer_example : Finishes (lex_source (λ t. 0) (bytes "let x = 1; /* c */") no_diagnostics)
lexer_example = lex_source-Finishes (λ t. 0) (bytes "let x = 1; /* c */") no_diagnostics

flip_example :
    eval_cmp_const no_floats CmpOp.gt (val ty_i32 5) (val ty_i32 3)
    ≡ eval_cmp_const no_floats CmpOp.lt (val ty_i32 3) (val ty_i32 5)
unfolding flip
flip_example =
    eval_cmp_const-flip no_floats CmpOp.lt CmpOp.gt (val ty_i32 3) (val ty_i32 5) refl refl

shl_example : int_bin BinOp.shl ty_i32 7 3 ≡ int_bin BinOp.mul ty_i32 7 8
unfolding power_from
shl_example = int_bin-shl ty_i32 7 8 3 refl

shr_example : int_bin BinOp.shr ty_u32 100 3 ≡ int_bin BinOp.div ty_u32 100 8
unfolding power_from ty_is_signed
shr_example = int_bin-shr ty_u32 100 8 3 refl refl

-- A sorted map of three entries.
abbrev three_entries : List (ℕ × ℕ)
three_entries = (2, 20) ∷ (5, 50) ∷ (9, 90) ∷ []

three_entries-IsSorted : IsSorted three_entries
three_entries-IsSorted zero zero lt h = absurd (omega arith)
three_entries-IsSorted zero (suc zero) lt h = omega arith
three_entries-IsSorted zero (suc (suc zero)) lt h = omega arith
three_entries-IsSorted (suc zero) zero lt h = absurd (omega arith)
three_entries-IsSorted (suc zero) (suc zero) lt h = absurd (omega arith)
three_entries-IsSorted (suc zero) (suc (suc zero)) lt h = omega arith
three_entries-IsSorted (suc (suc i)) zero lt h = absurd (omega arith)
three_entries-IsSorted (suc (suc i)) (suc zero) lt h = absurd (omega arith)
three_entries-IsSorted (suc (suc i)) (suc (suc zero)) lt h = absurd (omega arith)
three_entries-IsSorted i (suc (suc (suc j))) lt h = absurd (omega arith)

lower_example : ltb (key three_entries 1) 6 ≡ ltb 1 (lower three_entries 6)
lower_example = lower_splits three_entries 6 1 three_entries-IsSorted (omega arith)

find_example : find three_entries (key three_entries 1) ≡ value_at (get_elem? three_entries 1)
find_example = find-entry three_entries 1 three_entries-IsSorted (omega arith)

-- A visit that leaves every graph alone.
abbrev idle : Visit
idle g id = some (g, false)

idle_honest : (g g' : Graph) (id : NodeId) → idle g id ≡ some (g', false) → g' ≡ g
idle_honest g g' id h = cc

run_fixpoint_example : (sample ≡ sample) × (idle sample 3 ≡ some (sample, false))
unfolding Driver.run
run_fixpoint_example =
    run_fixpoint idle idle_honest (λ g. size g + 1) 1 sample sample 3 refl (omega arith)

sample-HasSlots : HasSlots sample
sample-HasSlots j lt =
    eq_of_== (length (node sample j).slots) 16
      (get_or-all_of (λ n. length n.slots == 16) sample.nodes j default_node refl refl)

run_select-Ends_example :
    Ends (λ h. Refines no_floats sample sample_values h × HasSlots h) (run_select sample)
run_select-Ends_example =
    run_select-Ends no_floats sample sample_values sample-Models sample-fresh sample-HasSlots
