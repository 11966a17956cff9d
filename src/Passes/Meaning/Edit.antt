-- ===== src/Passes/Meaning/Edit.antt =====
-- The edits that the passes make, against the meaning of the graph.
use jules.Prelude.{
  ℕ, zero, suc, ◌+◌, ◌≤◌, ◌<◌, ◌≡◌, ◌≢◌, ◌⊎◌, inl, inr, refl, sym, ap, ◌∙◌, subst, arith, Bool,
  true, false, List, [], ◌∷◌, ◌++◌, ◌==◌, if◌then◌else◌, get_or, All, All-get_or, length,
  length-append, get_or-append_end, get_or-concat, set-append_end, Bool-cases, eq_of_==, ==_of_ne,
}
use jules.Son.Node.{NodeId, Node, Op, no_node, input, default_node, initial_slots}
use jules.Son.Types.{TypeId}
use jules.Son.Graph.{
  fill, make, new_node, Graph, node, size, replace_slots, replace_inputs, replace_all_uses, kill,
}
use jules.Son.Graph.Uses.{HasFreshUses}
use jules.Son.Graph.Replace.{
  node-replace_all_uses, size-replace_all_uses, replace_all_uses-HasFreshUses, node-kill, size-kill,
  kill-HasFreshUses,
}
use jules.Passes.ConstEval.{make_const_node, FloatOps, ConstVal}
use jules.Passes.Meaning.{Valuation, HasType, NodeHolds, InRange, Models, op_value}

value-replace_slots :
    (ρ : Valuation) (from to : NodeId) (k : ℕ) (slots : List NodeId) (i : ℕ)
    → ρ from ≡ ρ to
    → ρ (get_or (replace_slots k from to slots) i no_node) ≡ ρ (get_or slots i no_node)
value-replace_slots ρ from to zero slots i e = refl
value-replace_slots ρ from to (suc k) [] i e = refl
value-replace_slots ρ from to (suc k) (v ∷ slots) zero e = elim (Bool-cases (v == from)) [
  | inl q ↦ rw q (sym e ∙ ap ρ (sym (eq_of_== v from q)))
  | inr q ↦ rw q refl
]
value-replace_slots ρ from to (suc k) (v ∷ slots) (suc i) e =
    value-replace_slots ρ from to k slots i e

slot-replace_slots :
    (from to : NodeId) (k : ℕ) (slots : List NodeId) (i : ℕ)
    → (get_or (replace_slots k from to slots) i no_node ≡ get_or slots i no_node)
      ⊎ (get_or (replace_slots k from to slots) i no_node ≡ to)
slot-replace_slots from to zero slots i = inl refl
slot-replace_slots from to (suc k) [] i = inl refl
slot-replace_slots from to (suc k) (v ∷ slots) zero = ground arith
slot-replace_slots from to (suc k) (v ∷ slots) (suc i) = slot-replace_slots from to k slots i

module _ (F : FloatOps) where
  NodeHolds-replace_inputs :
      (ρ : Valuation) (from to : NodeId) (v : ConstVal) (n : Node)
      → ρ from ≡ ρ to
      → NodeHolds F ρ v n
      → NodeHolds F ρ v (replace_inputs from to n)
  unfolding replace_inputs
  NodeHolds-replace_inputs ρ from to v n e h =
      let same = λ (i : ℕ). value-replace_slots ρ from to n.n_in n.slots i e in
      rw (same 1, same 2, same 3) h

  -- A dead node only keeps its type.
  pub NodeHolds-dead :
      (ρ : Valuation) (v : ConstVal) (n : Node)
      → NodeHolds F ρ v n
      → NodeHolds F ρ v (record n { op = Op.dead })
  unfolding op_value
  NodeHolds-dead ρ v n h = record {
    typed = h.typed;
    computed = λ w e. cc;
    operands = λ e. cc;
    unary = λ e. cc;
    copies = λ e. cc;
  }

abbrev pub killed : Node → Node
killed n = record n { op = Op.dead }

-- `replace(from, to)` of the passes: each node after replacing all uses and killing.
pub node-replace-kill :
    (g : Graph) (from to : NodeId) (j : NodeId)
    → HasFreshUses g
    → from < size g
    → size g ≤ no_node
    → from ≢ to
    → node (kill (replace_all_uses g from to) from) j ≡ (
        if j == from
        then killed (replace_inputs from to (node g j))
        else replace_inputs from to (node g j))
node-replace-kill g from to j fresh hf room ne =
    node-kill (replace_all_uses g from to) from j (rw (size-replace_all_uses g from to) hf)
    ∙ rw (node-replace_all_uses g from to j fresh hf (omega arith) ne) refl

pub size-replace-kill :
    (g : Graph) (from to : NodeId) → size (kill (replace_all_uses g from to) from) ≡ size g
size-replace-kill g from to =
    size-kill (replace_all_uses g from to) from ∙ size-replace_all_uses g from to

input-replace-kill :
    (from to : NodeId) (n : Node) (b : Bool) (i : ℕ)
    → (input (if b then killed (replace_inputs from to n) else replace_inputs from to n) i
        ≡ input n i)
      ⊎ (input (if b then killed (replace_inputs from to n) else replace_inputs from to n) i ≡ to)
unfolding replace_inputs
input-replace-kill from to n true i = slot-replace_slots from to n.n_in n.slots i
input-replace-kill from to n false i = slot-replace_slots from to n.n_in n.slots i

module _ (g : Graph) (from to : NodeId) (fresh : HasFreshUses g) (hf : from < size g)
    (ht : (to < size g) ⊎ (to ≡ no_node)) (room : size g ≤ no_node) (ne : from ≢ to) where
  InRange-replace-kill : InRange g → InRange (kill (replace_all_uses g from to) from)
  InRange-replace-kill h j i =
      rw (node-replace-kill g from to j fresh hf room ne, size-replace-kill g from to)
        (ground (arith, h j i, input-replace-kill from to (node g j) (j == from) i))

  -- Replacing a node by one of the same value, and killing it, leaves every valuation as it is.
  pub Models-replace-kill :
      (F : FloatOps) (ρ : Valuation)
      → Models F g ρ
      → ρ from ≡ ρ to
      → Models F (kill (replace_all_uses g from to) from) ρ
  Models-replace-kill F ρ m e = record {
    holds = λ j.
        let kept = NodeHolds-replace_inputs F ρ from to (ρ j) (node g j) e (m.holds j) in
        subst (NodeHolds F ρ (ρ j)) (sym (node-replace-kill g from to j fresh hf room ne))
          (elim (Bool-cases (j == from)) [
            | inl q ↦ rw q (NodeHolds-dead F ρ (ρ j) (replace_inputs from to (node g j)) kept)
            | inr q ↦ rw q kept
          ]);
    in_range = InRange-replace-kill m.in_range;
  }

pub replace-kill-HasFreshUses :
    (g : Graph) (from to : NodeId)
    → HasFreshUses g
    → HasFreshUses (kill (replace_all_uses g from to) from)
replace-kill-HasFreshUses g from to fresh =
    kill-HasFreshUses (replace_all_uses g from to) from
      (replace_all_uses-HasFreshUses g from to fresh)

-- The valuation that also gives the next node of the graph a value.
abbrev pub extend : Valuation → NodeId → ConstVal → Valuation
extend ρ id v j = if j == id then v else ρ j

-- A slot in range has its old value under the extended valuation.
value-extend :
    (g : Graph) (ρ : Valuation) (v : ConstVal) (i : NodeId)
    → size g < no_node
    → (i < size g) ⊎ (i ≡ no_node)
    → extend ρ (size g) v i ≡ ρ i
value-extend g ρ v i room h = rw (==_of_ne i (size g) (omega arith)) refl

module _ (F : FloatOps) (g g' : Graph) (n : Node)
    (pushed : (j : NodeId) → node g' j ≡ (if j == size g then n else node g j))
    (grown : size g' ≡ size g + 1) (room : size g < no_node)
    (n_range : (i : ℕ) → (input n i < size g) ⊎ (input n i ≡ no_node)) where
  extend-NodeHolds :
      (ρ : Valuation) (u v : ConstVal) (k : Node)
      → ((i : ℕ) → (input k i < size g) ⊎ (input k i ≡ no_node))
      → NodeHolds F ρ v k
      → NodeHolds F (extend ρ (size g) u) v k
  extend-NodeHolds ρ u v k range h =
      let same = λ (i : ℕ). value-extend g ρ u (input k i) room (range i) in
      rw (same 1, same 2, same 3) h

  in_range-push :
      (k : Node) (b : Bool) (i : ℕ)
      → ((input k i < size g) ⊎ (input k i ≡ no_node))
      → (input (if b then n else k) i < size g + 1) ⊎ (input (if b then n else k) i ≡ no_node)
  in_range-push k true i h = ground (arith, n_range i)
  in_range-push k false i h = ground arith

  -- A graph grown by one node holds of the valuation that gives that node a value it may have.
  pub Models-push :
      (ρ : Valuation) (v : ConstVal)
      → Models F g ρ
      → NodeHolds F ρ v n
      → Models F g' (extend ρ (size g) v)
  Models-push ρ v m h = record {
    holds = λ j.
        subst (NodeHolds F (extend ρ (size g) v) (extend ρ (size g) v j)) (sym (pushed j))
          (elim (Bool-cases (j == size g)) [
            | inl q ↦ rw q (extend-NodeHolds ρ v v n n_range h)
            | inr q ↦ rw q (extend-NodeHolds ρ v (ρ j) (node g j) (m.in_range j) (m.holds j))
          ]);
    in_range =
        λ j i. rw (pushed j, grown) (in_range-push (node g j) (j == size g) i (m.in_range j i));
  }

-- What a pass may do to a graph: the nodes that were there keep their values, and those that it adds
-- have some.
abbrev pub Refines : FloatOps → Graph → Valuation → Graph → Type 0
Refines F g ρ g' =
    (ρ' : Valuation) × ((j : NodeId) → j < size g → ρ' j ≡ ρ j)
    × Models F g' ρ'
    × HasFreshUses g'
    × (size g ≤ size g')

-- The node that `make_const_node` makes.
abbrev pub const_node : NodeId → ConstVal → Node
const_node pin v = record (new_node Op.const v.ty (pin ∷ []) 0 0) { ival = v.iv; fval = v.fv }

nodes-make_const_node :
    (g : Graph) (pin : NodeId) (v : ConstVal)
    → (make_const_node g pin v).0.nodes ≡ g.nodes ++ const_node pin v ∷ []
unfolding make_const_node
nodes-make_const_node g pin v =
    let fresh = new_node Op.const v.ty (pin ∷ []) 0 0 in
    set-append_end g.nodes fresh _
    ∙ ap (λ n. g.nodes ++ (record n { ival = v.iv; fval = v.fv }) ∷ [])
        (get_or-append_end g.nodes fresh default_node)

pub node-make_const_node :
    (g : Graph) (pin : NodeId) (v : ConstVal) (j : NodeId)
    → node (make_const_node g pin v).0 j ≡ (if j == size g then const_node pin v else node g j)
node-make_const_node g pin v j =
    ap (λ ns. get_or ns j default_node) (nodes-make_const_node g pin v)
    ∙ get_or-concat g.nodes (const_node pin v) default_node j

pub size-make_const_node :
    (g : Graph) (pin : NodeId) (v : ConstVal) → size (make_const_node g pin v).0 ≡ size g + 1
size-make_const_node g pin v =
    ap length (nodes-make_const_node g pin v) ∙ length-append g.nodes (const_node pin v ∷ [])

-- A constant of a type's own payload holds.
pub const_node-Holds :
    (F : FloatOps) (ρ : Valuation) (pin : NodeId) (v : ConstVal)
    → HasType v.ty v
    → NodeHolds F ρ v (const_node pin v)
unfolding new_node op_value
const_node-Holds F ρ pin v h = record {
  typed = h;
  computed = λ w e. ground arith;
  operands = λ e. cc;
  unary = λ e. cc;
  copies = λ e. cc;
}

All-fill :
    (P : NodeId → Type 0) (ins slots : List NodeId)
    → All P ins
    → All P slots
    → All P (fill ins slots)
All-fill P [] slots h k = k
All-fill P (v ∷ vs) [] h k = tt
All-fill P (v ∷ vs) (s ∷ slots) h k = (h.0, All-fill P vs slots h.1 k.1)

-- The slots of a new node name its inputs, the start node, or no node.
pub new_node-in_range :
    (g : Graph) (op : Op) (ty : TypeId) (ins : List NodeId) (sub aux i : ℕ)
    → 0 < size g
    → All (λ c. (c < size g) ⊎ (c ≡ no_node)) ins
    → (input (new_node op ty ins sub aux) i < size g)
      ⊎ (input (new_node op ty ins sub aux) i ≡ no_node)
unfolding new_node
new_node-in_range g op ty ins sub aux i pos h =
    All-get_or (λ c. (c < size g) ⊎ (c ≡ no_node)) (fill ins initial_slots) i no_node
      (All-fill _ ins initial_slots h (
        inr refl,
        (
          inr refl,
          (
            inr refl,
            (
              inr refl,
              (
                inr refl,
                (
                  inr refl,
                  (
                    inr refl,
                    (
                      inr refl,
                      (
                        inr refl,
                        (
                          inr refl,
                          (inr refl, (inr refl, (inl pos, (inl pos, (inl pos, (inl pos, tt)))))),
                        ),
                      ),
                    ),
                  ),
                ),
              ),
            ),
          ),
        ),
      ))
      (inr refl)

pub make-HasFreshUses :
    (g : Graph) (op : Op) (ty : TypeId) (ins : List NodeId) (sub aux : ℕ)
    → HasFreshUses (make g op ty ins sub aux).0
unfolding make
make-HasFreshUses g op ty ins sub aux = λ clean. cc

pub size-make :
    (g : Graph) (op : Op) (ty : TypeId) (ins : List NodeId) (sub aux : ℕ)
    → size (make g op ty ins sub aux).0 ≡ size g + 1
unfolding make
size-make g op ty ins sub aux = length-append g.nodes (new_node op ty ins sub aux ∷ [])

pub make_const_node-HasFreshUses :
    (g : Graph) (pin : NodeId) (v : ConstVal) → HasFreshUses (make_const_node g pin v).0
unfolding make_const_node
make_const_node-HasFreshUses g pin v = λ clean. cc

pub Refines-trans :
    (F : FloatOps) (g h k : Graph) (ρ : Valuation)
    → Refines F g ρ h
    → ((σ : Valuation) → Models F h σ → HasFreshUses h → Refines F h σ k)
    → Refines F g ρ k
Refines-trans F g h k ρ (σ, same, m, fresh, le) step =
    let (τ, same', m', fresh', le') = step σ m fresh in
    (τ, λ j lt. same' j (omega arith) ∙ same j lt, m', fresh', omega arith)
