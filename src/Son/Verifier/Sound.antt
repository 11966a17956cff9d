-- ===== src/Son/Verifier/Sound.antt =====
-- What a graph that the verifier passes is known to satisfy.
use jules.Prelude.{
  ℕ, zero, suc, ◌+◌, ◌≤◌, ◌<◌, ◌≡◌, ◌≢◌, ◌⊎◌, eq_of_==, refl, sym, ◌∙◌, subst, arith, ◌==◌, Bool,
  true, false, not, ◌&&◌, List, [], ◌∷◌, ◌++◌, get_or, contains, All, if◌then◌else◌, Bool-cases,
  inl, inr, ℕ_discrete,
}
use jules.Frontend.Diag.{Text, bytes, Diagnostics}
use jules.Son.Types.{ty_i1, ty_mem, ty_is_ptr, ty_is_vector, ty_lanes}
use jules.Son.Node.{
  NodeId, Node, Op, no_node, default_node, input, inputs, ◌is◌, eq_of_is, is_block_head,
  is_mem_version,
}
use jules.Son.Graph.{Graph, node, size, uses_of, rebuild_uses}
use jules.Son.Verifier.{
  Failure, fail_if, fail_or, none_of, to_string, is_live, check_slots, check_preds, check_stop,
  check_op, check_region, check_node, check_nodes, check_dead_slots, check_no_dead_uses,
  verify_graph,
}

pub none_of-append : (a b : List Failure) → none_of (a ++ b) ≡ (none_of a && none_of b)
none_of-append [] b = refl
none_of-append (f ∷ a) b = refl

pub none_of-fail_if : (t : Bool) (n : NodeId) (m : Text) → none_of (fail_if t n m) ≡ not t
none_of-fail_if true n m = refl
none_of-fail_if false n m = refl

pub none_of-fail_or :
    (t : Bool) (n : NodeId) (m : Text) (rest : List Failure)
    → none_of (fail_or t n m rest) ≡ (not t && none_of rest)
none_of-fail_or true n m rest = refl
none_of-fail_or false n m rest = refl

pub no_failures-append :
    (a b : List Failure) → none_of (a ++ b) ≡ true → (none_of a ≡ true) × (none_of b ≡ true)
no_failures-append a b h = ground (arith, none_of-append a b)

pub ruleset failures = (arith, none_of-append, none_of-fail_if, none_of-fail_or)

none_of-check_slots :
    (id i : ℕ) (vs : List NodeId)
    → none_of (check_slots id i vs) ≡ true
    → contains no_node vs ≡ false
unfolding check_slots
none_of-check_slots id i [] h = refl
none_of-check_slots id i (v ∷ vs) h =
    let m = bytes "input slot " ++ to_string i ++ bytes " is unconnected" in
    let (here, there) = no_failures-append (fail_if (v == no_node) id m) _ h in
    ground (arith, none_of-fail_if (v == no_node) id m, none_of-check_slots id (i + 1) vs there)

none_of-check_preds :
    (g : Graph) (id : NodeId) (ps : List NodeId)
    → none_of (check_preds g id ps) ≡ true
    → All (λ p. is_block_head (node g p).op ≡ true) ps
unfolding check_preds
none_of-check_preds g id [] h = tt
none_of-check_preds g id (p ∷ ps) h =
    let m = bytes "predecessor is not a block head" in
    let head = is_block_head (node g p).op in
    elim (Bool-cases (is_live g p)) [
      | inr dead ↦ absurd (let r = rw dead at h in cc)
      | inl live ↦
          let (here, there) =
            no_failures-append (fail_if (not head) id m) (check_preds g id ps) (rw live at h) in
          (ground (arith, none_of-fail_if (not head) id m), none_of-check_preds g id ps there)
    ]

none_of-check_stop :
    (g : Graph) (id : NodeId) (vs : List NodeId)
    → none_of (check_stop g id vs) ≡ true
    → All (λ v. (node g v).op ≡ Op.return) vs
unfolding check_stop
none_of-check_stop g id [] h = tt
none_of-check_stop g id (v ∷ vs) h =
    let m = bytes "Stop input is not a Return" in
    let t = not ((node g v).op is Op.return) in
    let (here, there) = no_failures-append (fail_if t id m) (check_stop g id vs) h in
    (
      eq_of_is (node g v).op Op.return (ground (arith, none_of-fail_if t id m)),
      none_of-check_stop g id vs there,
    )

none_of-check_dead_slots :
    (g : Graph) (id v : NodeId) (vs : List NodeId)
    → none_of (check_dead_slots g id vs) ≡ true
    → contains v vs ≡ true
    → id ≢ v
    → v ≢ no_node
    → ((node g v).op is Op.dead) ≡ false
unfolding check_dead_slots
none_of-check_dead_slots g id v [] h c ne k = absurd (cc)
none_of-check_dead_slots g id v (w ∷ vs) h c ne k =
    let t = not (id == w) && not (w == no_node) && (node g w).op is Op.dead in
    let m = bytes "uses a killed node" in
    let (here, there) = no_failures-append (fail_if t id m) (check_dead_slots g id vs) h in
    elim (ℕ_discrete w v) [
      | yes e ↦
          subst (λ x. ((node g x).op is Op.dead) ≡ false) e
            (let id_ne : id ≢ w = λ q. ne (q ∙ e) in
              let w_ne : w ≢ no_node = λ q. k (sym e ∙ q) in ground (arith, none_of-fail_if t id m))
      | no e ↦ none_of-check_dead_slots g id v vs there (ground arith) ne k
    ]

abbrev pub at_slot : List Node → Node → ℕ → Node
at_slot ns n i = get_or ns (input n i) default_node

abbrev pub HeadAt : List Node → Node → Type 0
HeadAt ns n = is_block_head (at_slot ns n 0).op ≡ true

abbrev pub MemoryAt : List Node → Node → Type 0
MemoryAt ns n = is_mem_version (at_slot ns n 1).op (at_slot ns n 1).ty ≡ true

-- A comparison of vectors, lane by lane, has the type of its operands.
abbrev pub PackedCmp : List Node → Node → Type 0
PackedCmp ns n =
    (ty_is_vector n.ty ≡ true) × ((at_slot ns n 1).ty ≡ n.ty) × ((at_slot ns n 2).ty ≡ n.ty)

-- A select of vectors takes a mask of as many lanes, and both arms have its type.
abbrev pub PackedSelect : List Node → Node → Type 0
PackedSelect ns n =
    (ty_is_vector (at_slot ns n 1).ty ≡ true)
    × (ty_lanes (at_slot ns n 1).ty ≡ ty_lanes n.ty)
    × ((at_slot ns n 2).ty ≡ n.ty)
    × ((at_slot ns n 3).ty ≡ n.ty)

-- What a node of the graph `ns` has to have by its operation, as the IR's rules put it.
abbrev pub Demands : List Node → Node → Op → Type 0
Demands ns n Op.start = n.n_in ≡ 0
Demands ns n Op.region =
    (n.n_in ≢ 0) × All (λ p. is_block_head (get_or ns p default_node).op ≡ true) (inputs n)
Demands ns n Op.if_op = (n.n_in ≡ 2) × HeadAt ns n × ((at_slot ns n 1).ty ≡ ty_i1)
Demands ns n Op.if_true = (n.n_in ≡ 1) × ((at_slot ns n 0).op ≡ Op.if_op)
Demands ns n Op.if_false = (n.n_in ≡ 1) × ((at_slot ns n 0).op ≡ Op.if_op)
Demands ns n Op.jump = (n.n_in ≡ 1) × HeadAt ns n
Demands ns n Op.return = (2 ≤ n.n_in) × (n.n_in ≤ 3) × HeadAt ns n × MemoryAt ns n
Demands ns n Op.stop = All (λ v. (get_or ns v default_node).op ≡ Op.return) (inputs n)
Demands ns n Op.const = Unit
Demands ns n Op.param = (n.n_in ≡ 1) × ((at_slot ns n 0).op ≡ Op.start)
Demands ns n Op.phi = ((at_slot ns n 0).op ≡ Op.region) × (n.n_in ≡ (at_slot ns n 0).n_in + 1)
Demands ns n Op.bin = (n.n_in ≡ 3) × ((at_slot ns n 1).ty ≡ n.ty) × ((at_slot ns n 2).ty ≡ n.ty)
Demands ns n Op.cmp = (n.n_in ≡ 3) × ((n.ty ≡ ty_i1) ⊎ PackedCmp ns n)
Demands ns n Op.un = n.n_in ≡ 2
Demands ns n Op.cast = n.n_in ≡ 2
Demands ns n Op.select = (n.n_in ≡ 4) × ((ty_is_vector n.ty ≡ false) ⊎ PackedSelect ns n)
Demands ns n Op.load =
    (n.n_in ≡ 3) × HeadAt ns n × MemoryAt ns n × (ty_is_ptr (at_slot ns n 2).ty ≡ true)
Demands ns n Op.store =
    (n.n_in ≡ 4) × (n.ty ≡ ty_mem) × MemoryAt ns n × (ty_is_ptr (at_slot ns n 2).ty ≡ true)
Demands ns n Op.alloc = (n.n_in ≡ 3) × (ty_is_ptr n.ty ≡ true)
Demands ns n Op.call = (2 ≤ n.n_in) × HeadAt ns n × MemoryAt ns n
Demands ns n Op.dead = Unit

passed_cmp :
    (g : Graph) (id : NodeId) (n : Node)
    → none_of (check_op g id n Op.cmp) ≡ true
    → (n.ty ≡ ty_i1) ⊎ PackedCmp g.nodes n
unfolding check_op
passed_cmp g id n h = elim (Bool-cases (n.ty == ty_i1)) [
  | inl e ↦ inl (eq_of_== n.ty ty_i1 e)
  | inr e ↦ inr (grind failures, eq_of_== _ _ (grind failures), eq_of_== _ _ (grind failures))
]

passed_select :
    (g : Graph) (id : NodeId) (n : Node)
    → none_of (check_op g id n Op.select) ≡ true
    → (ty_is_vector n.ty ≡ false) ⊎ PackedSelect g.nodes n
unfolding check_op
passed_select g id n h = elim (Bool-cases (ty_is_vector n.ty)) [
  | inr e ↦ inl e
  | inl e ↦ inr (
    grind failures,
    eq_of_== _ _ (grind failures),
    eq_of_== _ _ (grind failures),
    eq_of_== _ _ (grind failures),
  )
]

passed_check :
    (g : Graph) (id : NodeId) (n : Node) (op : Op)
    → (op is Op.region) ≡ false
    → none_of (check_op g id n op) ≡ true
    → Demands g.nodes n op
unfolding check_op
passed_check g id n Op.start q h = grind failures
passed_check g id n Op.region q h = absurd (cc)
passed_check g id n Op.if_op q h = grind failures
passed_check g id n Op.if_true q h =
    (grind failures, eq_of_is (node g (input n 0)).op Op.if_op (grind failures))
passed_check g id n Op.if_false q h =
    (grind failures, eq_of_is (node g (input n 0)).op Op.if_op (grind failures))
passed_check g id n Op.jump q h = grind failures
passed_check g id n Op.return q h = grind failures
passed_check g id n Op.stop q h = none_of-check_stop g id (inputs n) h
passed_check g id n Op.const q h = tt
passed_check g id n Op.param q h =
    (grind failures, eq_of_is (node g (input n 0)).op Op.start (grind failures))
passed_check g id n Op.phi q h =
    (eq_of_is (node g (input n 0)).op Op.region (grind failures), grind failures)
passed_check g id n Op.bin q h = grind failures
passed_check g id n Op.cmp q h = (grind failures, passed_cmp g id n h)
passed_check g id n Op.un q h = grind failures
passed_check g id n Op.cast q h = grind failures
passed_check g id n Op.select q h = (grind failures, passed_select g id n h)
passed_check g id n Op.load q h = grind failures
passed_check g id n Op.store q h = grind failures
passed_check g id n Op.alloc q h = grind failures
passed_check g id n Op.call q h = grind failures
passed_check g id n Op.dead q h = tt

passed_region :
    (g : Graph) (id : NodeId) (n : Node)
    → none_of (check_region g id n).1 ≡ true
    → Demands g.nodes n Op.region
unfolding check_region
passed_region g id n h = elim (Bool-cases (n.n_in == 0)) [
  | inl e ↦ absurd (let r = rw e at h in cc)
  | inr e ↦
      let (a, b) = no_failures-append (check_preds g id (inputs n)) _ (rw e at h) in
      (ground arith, none_of-check_preds g id (inputs n) a)
]

-- The checks of a node that is not dead, where none fails.
passed_node :
    (g : Graph) (id : NodeId)
    → ((node g id).op is Op.dead) ≡ false
    → none_of (check_node g id).1 ≡ true
    → (contains no_node (inputs (node g id)) ≡ false) × Demands g.nodes (node g id) (node g id).op
unfolding check_node
passed_node g id live h =
    let n = node g id in
    let slots = check_slots id 0 (inputs n) in
    elim (Bool-cases (n.op is Op.region)) [
      | inl r ↦
          let both : none_of (slots ++ (check_region g id n).1) ≡ true = rw (live, r) at h in
          let (a, b) = no_failures-append slots (check_region g id n).1 both in
          (
            none_of-check_slots id 0 (inputs n) a,
            subst (λ o. Demands g.nodes n o) (sym (eq_of_is n.op Op.region r))
                (passed_region g id n b),
          )
      | inr r ↦
          let both : none_of (slots ++ check_op g id n n.op) ≡ true = rw (live, r) at h in
          let (a, b) = no_failures-append slots (check_op g id n n.op) both in
          (none_of-check_slots id 0 (inputs n) a, passed_check g id n n.op r b)
    ]

abbrev Passed : List Node → NodeId → Type 0
Passed ns j =
    let n = get_or ns j default_node in (contains no_node (inputs n) ≡ false) × Demands ns n n.op

pub nodes-check_node : (g : Graph) (id : NodeId) → (check_node g id).0.nodes ≡ g.nodes
unfolding check_node check_region uses_of rebuild_uses
nodes-check_node g id = ground arith

Passed-nodes :
    (k id : ℕ) (g : Graph) (j : NodeId)
    → none_of (check_nodes k id g).1 ≡ true
    → id ≤ j
    → j < id + k
    → (get_or g.nodes j default_node).op is Op.dead ≡ false
    → Passed g.nodes j
unfolding check_nodes
Passed-nodes zero id g j h le lt live = absurd (omega arith)
Passed-nodes (suc k) id g j h le lt live =
    let g1 = (check_node g id).0 in
    let same = nodes-check_node g id in
    let (here, there) = no_failures-append (check_node g id).1 (check_nodes k (id + 1) g1).1 h in
    elim (ℕ_discrete id j) [
      | yes e ↦ subst (Passed g.nodes) e (passed_node g id (rw e live) here)
      | no e ↦
          subst (λ ns. Passed ns j) same
            (Passed-nodes k (id + 1) g1 j there (omega arith) (omega arith) (rw same live))
    ]

passed_dead_uses :
    (k id : ℕ) (g : Graph) (j v : NodeId)
    → none_of (check_no_dead_uses k id g) ≡ true
    → id ≤ j
    → j < id + k
    → (node g j).op is Op.dead ≡ false
    → contains v (inputs (node g j)) ≡ true
    → j ≢ v
    → v ≢ no_node
    → ((node g v).op is Op.dead) ≡ false
unfolding check_no_dead_uses
passed_dead_uses zero id g j v h le lt live c ne k = absurd (omega arith)
passed_dead_uses (suc k) id g j v h le lt live c ne named =
    let (here, there) =
      no_failures-append
        (if (node g id).op is Op.dead then [] else check_dead_slots g id (inputs (node g id)))
        (check_no_dead_uses k (id + 1) g) h in
    elim (ℕ_discrete j id) [
      | yes e ↦
          none_of-check_dead_slots g j v (inputs (node g j)) (rw (sym e, live) at here) c ne named
      | no e ↦ passed_dead_uses k (id + 1) g j v there (omega arith) (omega arith) live c ne named
    ]

-- In a graph that the verifier passes, each node that is not dead has no unconnected input, and
-- what the IR's rules demand of its operation.
pub verify_graph-Demands :
    (g : Graph) (d : Diagnostics) (j : NodeId)
    → (verify_graph g d).1 ≡ true
    → j < size g
    → (node g j).op is Op.dead ≡ false
    → (contains no_node (inputs (node g j)) ≡ false) × Demands g.nodes (node g j) (node g j).op
unfolding verify_graph
verify_graph-Demands g d j h lt live =
    let (a, b) =
      no_failures-append (check_nodes (size g) 0 g).1 (check_no_dead_uses (size g) 0 g) h in
    Passed-nodes (size g) 0 g j a (omega arith) (omega arith) live

-- In a graph that the verifier passes, no input of a node that is not dead is a dead node, but
-- for the node itself.
pub verify_graph_no_dead_uses :
    (g : Graph) (d : Diagnostics) (j v : NodeId)
    → (verify_graph g d).1 ≡ true
    → j < size g
    → (node g j).op is Op.dead ≡ false
    → contains v (inputs (node g j)) ≡ true
    → j ≢ v
    → ((node g v).op is Op.dead) ≡ false
unfolding verify_graph
verify_graph_no_dead_uses g d j v h lt live c ne =
    let (a, b) =
      no_failures-append (check_nodes (size g) 0 g).1 (check_no_dead_uses (size g) 0 g) h in
    let connected = (verify_graph-Demands g d j h lt live).0 in
    passed_dead_uses (size g) 0 g j v b (omega arith) (omega arith) live c ne
      (λ e. (let k = rw e at c in cc))
