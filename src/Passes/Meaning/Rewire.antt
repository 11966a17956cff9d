-- ===== src/Passes/Meaning/Rewire.antt =====
-- A node whose inputs change, in a graph that stays as it is in all else.
pub mod Refine
pub mod Run
use jules.Prelude.{
  ℕ, ◌+◌, ◌<◌, ◌≡◌, ◌≢◌, inl, inr, refl, ap, ◌∙◌, true, ◌==◌, if◌then◌else◌, Bool-cases, eq_of_==,
  ==_refl, ==_of_ne, set, length, get_or-set, length-set, leb,
}
use jules.Son.Node.{NodeId, Node, no_node, input, default_node}
use jules.Son.Graph.{Graph, node, size, put, set_input}
use jules.Son.Graph.Uses.{HasFreshUses}

-- The graph `g'` is `g` but for the inputs of the node `id`, which are `ins`.
pub record Rewired (g : Graph) (id : NodeId) (ins : ℕ → NodeId) (g' : Graph) : Type 0 where
  pub others : (j : NodeId) → j ≢ id → node g' j ≡ node g j
  pub same_size : size g' ≡ size g
  pub same_op : (node g' id).op ≡ (node g id).op
  pub same_sub : (node g' id).sub ≡ (node g id).sub
  pub same_ty : (node g' id).ty ≡ (node g id).ty
  pub same_ival : (node g' id).ival ≡ (node g id).ival
  pub same_fval : (node g' id).fval ≡ (node g id).fval
  pub inputs_are : (i : ℕ) → input (node g' id) i ≡ ins i
  pub slot_count : length (node g' id).slots ≡ 16
  pub fresh : HasFreshUses g'

pub Rewired-refl :
    (g : Graph) (id : NodeId)
    → length (node g id).slots ≡ 16
    → HasFreshUses g
    → Rewired g id (input (node g id)) g
Rewired-refl g id l fresh = record {
  others = λ j ne. refl;
  same_size = refl;
  same_op = refl;
  same_sub = refl;
  same_ty = refl;
  same_ival = refl;
  same_fval = refl;
  inputs_are = λ i. refl;
  slot_count = l;
  fresh = fresh;
}

module _ (g g' : Graph) (id : NodeId) (ins : ℕ → NodeId) (idx : ℕ) (v : NodeId) (hid : id < size g)
    (small : idx < 16) (r : Rewired g id ins g') where
  Rewired-same :
      (input (node g' id) idx == v) ≡ true → Rewired g id (λ i. if i == idx then v else ins i) g'
  Rewired-same e = record {
    others = r.others;
    same_size = r.same_size;
    same_op = r.same_op;
    same_sub = r.same_sub;
    same_ty = r.same_ty;
    same_ival = r.same_ival;
    same_fval = r.same_fval;
    inputs_are = λ i. elim (Bool-cases (i == idx)) [
      | inl q ↦ rw q (
          ap (λ k. input (node g' id) k) (eq_of_== i idx q) ∙ eq_of_== (input (node g' id) idx) v e)
      | inr q ↦ rw q (r.inputs_are i)
    ];
    slot_count = r.slot_count;
    fresh = r.fresh;
  }

  abbrev written : ℕ → Node
  written k = record (node g' id) { slots = set (node g' id).slots idx v; n_in = k }

  node-put :
      (k : ℕ) (j : NodeId)
      → node (put g' id (written k)) j ≡ (if j == id then written k else node g' j)
  node-put k j = get_or-set g'.nodes id j (written k) default_node (rw r.same_size hid)

  node-put_self : (k : ℕ) → node (put g' id (written k)) id ≡ written k
  node-put_self k = node-put k id ∙ rw (==_refl id) refl

  Rewired-put : (k : ℕ) → Rewired g id (λ i. if i == idx then v else ins i) (put g' id (written k))
  Rewired-put k = record {
    others = λ j ne. node-put k j ∙ rw (==_of_ne j id ne) (r.others j ne);
    same_size = length-set g'.nodes id (written k) ∙ r.same_size;
    same_op = ap (λ n. n.op) (node-put_self k) ∙ r.same_op;
    same_sub = ap (λ n. n.sub) (node-put_self k) ∙ r.same_sub;
    same_ty = ap (λ n. n.ty) (node-put_self k) ∙ r.same_ty;
    same_ival = ap (λ n. n.ival) (node-put_self k) ∙ r.same_ival;
    same_fval = ap (λ n. n.fval) (node-put_self k) ∙ r.same_fval;
    inputs_are = λ i.
        ap (λ n. input n i) (node-put_self k)
        ∙ get_or-set (node g' id).slots idx i v no_node (rw r.slot_count small)
        ∙ elim (Bool-cases (i == idx)) [ inl q ↦ rw q refl | inr q ↦ rw q (r.inputs_are i) ];
    slot_count =
        ap (λ n. length n.slots) (node-put_self k)
        ∙ length-set (node g' id).slots idx v
        ∙ r.slot_count;
    fresh = λ clean. cc;
  }

  pub set_input-Rewired : Rewired g id (λ i. if i == idx then v else ins i) (set_input g' id idx v)
  unfolding set_input
  set_input-Rewired = elim (Bool-cases (input (node g' id) idx == v)) [
    | inl e ↦ rw e (Rewired-same e)
    | inr e ↦ rw e (Rewired-put (if leb (node g' id).n_in idx then idx + 1 else (node g' id).n_in))
  ]
