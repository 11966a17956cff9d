-- ===== src/Son/Verifier.antt =====
-- jules/src/core/son/verifier.cpp: the structural checks of a graph, each with its failures in the
-- order in which the code reports them.
pub mod Phis
pub mod Sound
use jules.Prelude.{
  ℕ, zero, suc, ◌+◌, ◌/◌, ◌%◌, ◌==◌, ltb, Bool, true, false, not, ◌&&◌, ◌||◌, List, [], ◌∷◌, ◌++◌,
  get_or, if◌then◌else◌,
}
use jules.Frontend.Diag.{Text, bytes, first_pos, Diagnostics, add_error}
use jules.Son.Types.{ty_i1, ty_mem, ty_is_vector, ty_is_ptr, ty_lanes}
use jules.Son.Node.{NodeId, Node, Op, no_node, input, inputs, ◌is◌, is_block_head, is_mem_version}
use jules.Son.Graph.{Graph, node, size, uses_of}
use jules.Son.Names.{op_name}

-- `fail(n, msg)`
pub record Failure : Type 0 where
  pub at : NodeId
  pub msg : Text

abbrev pub fail : NodeId → Text → List Failure
fail n m = record { at = n; msg = m } ∷ []

-- `if (test) fail(n, msg);`
abbrev pub fail_if : Bool → NodeId → Text → List Failure
fail_if true n m = fail n m
fail_if false n m = []

-- std::to_string; a u32 has at most ten digits.
abbrev decimal : ℕ → ℕ → Text → Text
decimal zero v digits = digits
decimal (suc fuel) v digits =
    let shown = (b'0' + v % 10) ∷ digits in
    let rest = decimal fuel (v / 10) shown in if v / 10 == 0 then shown else rest

abbrev pub to_string : ℕ → Text
to_string v = decimal 10 v []

unfoldable pub is_live : Graph → NodeId → Bool
is_live g n = not (n == no_node) && not ((node g n).op is Op.dead)

-- The loop over the slots, which starts at the slot `i`.
unfoldable pub check_slots : NodeId → ℕ → List NodeId → List Failure
check_slots id i [] = []
check_slots id i (v ∷ vs) =
    fail_if (v == no_node) id (bytes "input slot " ++ to_string i ++ bytes " is unconnected")
    ++ check_slots id (i + 1) vs

unfoldable pub check_preds : Graph → NodeId → List NodeId → List Failure
unfolding is_live is_block_head
check_preds g id [] = []
check_preds g id (p ∷ ps) =
    if not (is_live g p)
    then fail id (bytes "dead predecessor")
    else fail_if (not (is_block_head (node g p).op)) id (bytes "predecessor is not a block head")
      ++ check_preds g id ps

unfoldable pub check_phis : Graph → NodeId → List NodeId → List Failure
check_phis g id [] = []
check_phis g id (u ∷ us) =
    let phi = node g u in
    (if phi.op is Op.phi
      then fail_if (not (phi.n_in == (node g id).n_in + 1)) u
          (bytes "phi input count does not match region predecessors")
        ++ fail_if (not (input phi 0 == id)) u (bytes "phi input 0 must be its region")
      else [])
    ++ check_phis g id us

unfoldable pub check_stop : Graph → NodeId → List NodeId → List Failure
check_stop g id [] = []
check_stop g id (v ∷ vs) =
    fail_if (not ((node g v).op is Op.return)) id (bytes "Stop input is not a Return")
    ++ check_stop g id vs

abbrev is_memory : Graph → NodeId → Bool
is_memory g v = is_mem_version (node g v).op (node g v).ty

abbrev head_at : Graph → Node → Bool
head_at g n = is_block_head (node g (input n 0)).op

-- `if (test) { fail(id, msg); break; }`
abbrev pub fail_or : Bool → NodeId → Text → List Failure → List Failure
fail_or true id m rest = fail id m
fail_or false id m rest = rest

-- The cases of the switch other than Region.
unfoldable pub check_op : Graph → NodeId → Node → Op → List Failure
unfolding check_stop is_block_head is_mem_version
check_op g id n Op.start = fail_if (not (n.n_in == 0)) id (bytes "Start must have no inputs")
check_op g id n Op.if_op = fail_or (not (n.n_in == 2)) id (bytes "If must have {ctrl, cond}") (
    fail_if (not (head_at g n)) id (bytes "If ctrl is not a block head")
    ++ fail_if (not ((node g (input n 1)).ty == ty_i1)) id (bytes "If condition must be bool"))
check_op g id n Op.if_true =
    fail_if (not (n.n_in == 1) || not ((node g (input n 0)).op is Op.if_op)) id
      (bytes "projection must have exactly one If input")
check_op g id n Op.if_false =
    fail_if (not (n.n_in == 1) || not ((node g (input n 0)).op is Op.if_op)) id
      (bytes "projection must have exactly one If input")
check_op g id n Op.jump =
    fail_if (not (n.n_in == 1) || not (head_at g n)) id
      (bytes "Jump must take one block-head input")
check_op g id n Op.return =
    fail_or (ltb n.n_in 2 || ltb 3 n.n_in) id (bytes "Return must have {ctrl, mem[, value]}") (
      fail_if (not (head_at g n)) id (bytes "Return ctrl is not a block head")
      ++ fail_if (not (is_memory g (input n 1))) id
          (bytes "Return mem input is not a memory version"))
check_op g id n Op.stop = check_stop g id (inputs n)
check_op g id n Op.param =
    fail_if (not (n.n_in == 1) || not ((node g (input n 0)).op is Op.start)) id
      (bytes "Param must anchor to Start")
check_op g id n Op.phi = fail_or (ltb n.n_in 2) id (bytes "Phi needs a region + values") (
    fail_or (not ((node g (input n 0)).op is Op.region)) id (bytes "Phi input 0 must be a Region") (
      fail_if (not (n.n_in == (node g (input n 0)).n_in + 1)) id
        (bytes "Phi input count does not match region predecessors")))
check_op g id n Op.bin = fail_or (not (n.n_in == 3)) id (bytes "Bin must have {ctrl, a, b}") (
    fail_if
      (not ((node g (input n 1)).ty == (node g (input n 2)).ty)
        || not ((node g (input n 1)).ty == n.ty))
      id (bytes "Bin operand/result type mismatch"))
check_op g id n Op.cmp = fail_or (not (n.n_in == 3)) id (bytes "Cmp must have {ctrl, a, b}") (
    fail_or (not (n.ty == ty_i1) && not (ty_is_vector n.ty)) id (bytes "Cmp result must be bool") (
      fail_if
        (ty_is_vector n.ty
          && (not ((node g (input n 1)).ty == n.ty) || not ((node g (input n 2)).ty == n.ty)))
        id (bytes "packed Cmp operand/result type mismatch")))
check_op g id n Op.un = fail_if (not (n.n_in == 2)) id (bytes "Un/Cast must have {ctrl, x}")
check_op g id n Op.cast = fail_if (not (n.n_in == 2)) id (bytes "Un/Cast must have {ctrl, x}")
check_op g id n Op.select =
    let c = node g (input n 1) in
    fail_or (not (n.n_in == 4)) id (bytes "Select must have {ctrl, cond, t, f}") (
      if ty_is_vector n.ty
      then fail_if (not (ty_is_vector c.ty) || not (ty_lanes c.ty == ty_lanes n.ty)) id
          (bytes "packed Select condition is not a same-width mask")
        ++ fail_if (not ((node g (input n 2)).ty == n.ty) || not ((node g (input n 3)).ty == n.ty))
            id (bytes "packed Select operand type mismatch")
      else [])
check_op g id n Op.load =
    fail_or (not (n.n_in == 3)) id (bytes "Load must have {ctrl, mem, addr}") (
      fail_if (not (head_at g n)) id (bytes "Load ctrl is not a block head")
      ++ fail_if (not (is_memory g (input n 1))) id (bytes "Load mem input is not a memory version")
      ++ fail_if (not (ty_is_ptr (node g (input n 2)).ty)) id
          (bytes "Load address is not a pointer"))
check_op g id n Op.store =
    fail_or (not (n.n_in == 4)) id (bytes "Store must have {ctrl, mem, addr, value}") (
      fail_if (not (n.ty == ty_mem)) id (bytes "Store result must be a memory version")
      ++ fail_if (not (is_memory g (input n 1))) id
          (bytes "Store mem input is not a memory version")
      ++ fail_if (not (ty_is_ptr (node g (input n 2)).ty)) id
          (bytes "Store address is not a pointer"))
check_op g id n Op.alloc =
    fail_or (not (n.n_in == 3)) id (bytes "Alloc must have {ctrl, mem, size}")
      (fail_if (not (ty_is_ptr n.ty)) id (bytes "Alloc result must be a pointer"))
check_op g id n Op.call = fail_or (ltb n.n_in 2) id (bytes "Call must have {ctrl, mem, args...}") (
    fail_if (not (head_at g n)) id (bytes "Call ctrl is not a block head")
    ++ fail_if (not (is_memory g (input n 1))) id (bytes "Call mem input is not a memory version"))
check_op g id n Op.const = []
check_op g id n Op.region = []
check_op g id n Op.dead = []

-- The case of Region, which may rebuild the use lists.
unfoldable pub check_region : Graph → NodeId → Node → Graph × List Failure
unfolding check_preds check_phis uses_of
check_region g id n =
    if n.n_in == 0
    then (g, fail id (bytes "Region with no predecessors"))
    else (let (g', users) = uses_of g id in
        (g', check_preds g id (inputs n) ++ check_phis g' id users))

unfoldable pub check_node : Graph → NodeId → Graph × List Failure
unfolding check_slots check_op check_region
check_node g id =
    let n = node g id in
    let slots = check_slots id 0 (inputs n) in
    if n.op is Op.dead
    then (g, [])
    else if n.op is Op.region
    then (let (g', found) = check_region g id n in (g', slots ++ found))
    else (g, slots ++ check_op g id n n.op)

-- `for (id = 0; id < g.size(); ++id) v.check_node(id)`, for `k` nodes from the id `id` on.
unfoldable pub check_nodes : ℕ → NodeId → Graph → Graph × List Failure
unfolding check_node
check_nodes zero id g = (g, [])
check_nodes (suc k) id g =
    let (g1, found) = check_node g id in
    let (g2, more) = check_nodes k (id + 1) g1 in (g2, found ++ more)

unfoldable pub check_dead_slots : Graph → NodeId → List NodeId → List Failure
check_dead_slots g id [] = []
check_dead_slots g id (v ∷ vs) =
    fail_if (not (id == v) && not (v == no_node) && (node g v).op is Op.dead) id
      (bytes "uses a killed node")
    ++ check_dead_slots g id vs

unfoldable pub check_no_dead_uses : ℕ → NodeId → Graph → List Failure
unfolding check_dead_slots
check_no_dead_uses zero id g = []
check_no_dead_uses (suc k) id g =
    (if (node g id).op is Op.dead then [] else check_dead_slots g id (inputs (node g id)))
    ++ check_no_dead_uses k (id + 1) g

-- diag.error with the failure's text
abbrev report_failures : Graph → List Failure → Diagnostics → Diagnostics
report_failures g [] d = d
report_failures g (f ∷ fs) d = report_failures g fs (
    add_error first_pos
      (bytes "verifier: node n"
        ++ to_string f.at
        ++ bytes " ("
        ++ op_name (node g f.at).op
        ++ bytes "): "
        ++ f.msg)
      d)

abbrev pub none_of : List Failure → Bool
none_of [] = true
none_of (f ∷ fs) = false

-- The graph, whose use lists may have been rebuilt; the answer; and the diagnostics.
unfoldable pub verify_graph : Graph → Diagnostics → Graph × Bool × Diagnostics
unfolding check_nodes check_no_dead_uses op_name
verify_graph g d =
    let (g', found) = check_nodes (size g) 0 g in
    let all = found ++ check_no_dead_uses (size g) 0 g in (g', none_of all, report_failures g all d)
