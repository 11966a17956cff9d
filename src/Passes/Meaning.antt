-- ===== src/Passes/Meaning.antt =====
-- What the pure nodes of a graph mean (the operations of node.h, at the values that pass_utils.h
-- computes): a valuation gives each node a value, and a graph holds of it if each pure node has the
-- value of its operation on its inputs. Parameters, phis, loads and calls may have any value of their
-- type, so a valuation stands for any one moment of any run. Values are the compiler's own 64-bit
-- words, also for types of 32 bits; ConstEval.Arithmetic says what the operations are on them.
pub mod Edit
pub mod Rewire
pub mod Values
use jules.Prelude.{
  ℕ, ◌≤◌, ◌<◌, ◌^◌, ◌≡◌, ◌≢◌, ◌⊎◌, Bool, true, false, Option, none, some, ◌==◌, if◌then◌else◌,
  length,
}
use jules.Prelude.Words.{sext32, sext8}
use jules.Son.Types.{TypeId, ty_i1, ty_is_float, ty_bits}
use jules.Son.Node.{
  NodeId, Node, Op, CastOp, no_node, input, to_bin, to_cmp, to_un, to_cast, default_node,
}
use jules.Son.Graph.{Graph, node, size}
use jules.Passes.ConstEval.{
  FloatOps, ConstVal, Folded, payload, eval_bin_const, eval_cmp_const, eval_un_const,
  eval_cast_const,
}

abbrev pub Valuation : Type 0
Valuation = NodeId → ConstVal

-- A value of a type uses one of the two payloads, and a bool is 0 or 1.
pub record HasType (t : TypeId) (v : ConstVal) : Type 0 where
  pub ty_eq : v.ty ≡ t
  pub is_fp_eq : v.is_fp ≡ ty_is_float t
  pub no_fv : v.is_fp ≡ false → v.fv ≡ 0
  pub no_iv : v.is_fp ≡ true → v.iv ≡ 0
  pub word : v.iv < 2 ^ 64
  pub bool : t ≡ ty_i1 → v.iv < 2

-- A value of a type of 32 or 8 bits is held as the evaluator's Trunc leaves it, with its sign.
abbrev pub IsExtended : TypeId → ConstVal → Type 0
IsExtended t a =
    ((ty_bits t ≡ 32) × (sext32 a.iv ≡ a.iv))
    ⊎ ((ty_bits t ≡ 8) × (sext8 a.iv ≡ a.iv))
    ⊎ ((ty_bits t ≢ 32) × (ty_bits t ≢ 8))

abbrev pub folded_value : Folded → Option ConstVal
folded_value (Folded.value v) = some v
folded_value Folded.runtime = none
folded_value Folded.trap = none

infixl 5 ◌>>=◌
abbrev pub ◌>>=◌ {ℓ κ} : {A : Type ℓ} {B : Type κ} → Option A → (A → Option B) → Option B
none >>= f = none
some a >>= f = f a

-- Every slot names a node of the graph, or none.
abbrev pub InRange : Graph → Type 0
InRange g = (id i : ℕ) → (input (node g id) i < size g) ⊎ (input (node g id) i ≡ no_node)

module _ (F : FloatOps) where
  -- The value of an operation on the values `a`, `b` and `c` of the inputs 1, 2 and 3; `none` if
  -- these do not determine it.
  unfoldable pub op_value :
      Op → ℕ → TypeId → ConstVal → ConstVal → ConstVal → ConstVal → Option ConstVal
  op_value Op.const sub t own a b c = some own
  op_value Op.bin sub t own a b c = to_bin sub >>= λ o. folded_value (eval_bin_const F o a b)
  op_value Op.cmp sub t own a b c = to_cmp sub >>= λ o. folded_value (eval_cmp_const F o a b)
  op_value Op.un sub t own a b c = to_un sub >>= λ o. folded_value (eval_un_const F o a)
  op_value Op.cast sub t own a b c = to_cast sub >>= λ o. folded_value (eval_cast_const F o a t)
  op_value Op.select sub t own a b c = some (if a.iv == 0 then c else b)
  op_value _ sub t own a b c = none

  -- A node with this operation, type and payload may have the value `v`.
  pub record Holds (v : ConstVal) (op : Op) (sub : ℕ) (t : TypeId) (own a b c : ConstVal)
      : Type 0 where
    pub typed : HasType t v
    pub computed : (w : ConstVal) → op_value op sub t own a b c ≡ some w → v ≡ w
    -- the verifier's rule for Bin
    pub operands : op ≡ Op.bin → (a.ty ≡ t) × (b.ty ≡ t)
    -- a unary operation is used at a type that has it
    pub unary : op ≡ Op.un → op_value op sub t own a b c ≢ none
    -- a cast to the operand's own type is one that copies
    pub copies :
        op ≡ Op.cast
        → a.ty ≡ t
        → ((to_cast sub ≡ some CastOp.ptr) × (ty_is_float t ≡ false))
          ⊎ ((to_cast sub ≡ some CastOp.fp_ext) × (ty_is_float t ≡ true))
          ⊎ ((to_cast sub ≡ some CastOp.trunc) × (ty_is_float t ≡ false) × IsExtended t a)

  abbrev pub NodeHolds : Valuation → ConstVal → Node → Type 0
  NodeHolds ρ v n =
      Holds v n.op n.sub n.ty (payload n) (ρ (input n 1)) (ρ (input n 2)) (ρ (input n 3))

  pub record Models (g : Graph) (ρ : Valuation) : Type 0 where
    pub holds : (id : NodeId) → NodeHolds ρ (ρ id) (node g id)
    pub in_range : InRange g
