-- ===== src/Passes/Meaning/Rewire/Refine.antt =====
-- A node whose inputs change, and whose value does not.
use jules.Prelude.{ℕ, ◌<◌, ◌≡◌, ◌⊎◌, refl, sym, subst, arith, ℕ_discrete}
use jules.Son.Node.{NodeId, no_node, input}
use jules.Son.Graph.{Graph, node, size}
use jules.Passes.ConstEval.{FloatOps, payload}
use jules.Passes.Meaning.{Valuation, Holds, NodeHolds, Models}
use jules.Passes.Meaning.Edit.{Refines}
use jules.Passes.Meaning.Rewire.{Rewired}

-- An id names a node of the graph, or none.
abbrev pub Named : Graph → NodeId → Type 0
Named g c = (c < size g) ⊎ (c ≡ no_node)

module _ (F : FloatOps) (g : Graph) (ρ : Valuation) (m : Models F g ρ) (id : NodeId) where
  pub Rewired-Refines :
      (ins : ℕ → NodeId) (g' : Graph)
      → Rewired g id ins g'
      → ((i : ℕ) → Named g (ins i))
      → Holds F
          (ρ id)
          (node g id).op
          (node g id).sub
          (node g id).ty
          (payload (node g id))
          (ρ (ins 1))
          (ρ (ins 2))
          (ρ (ins 3))
      → Refines F g ρ g'
  Rewired-Refines ins g' r named h = (
    ρ,
    λ j lt. refl,
    record {
      holds = λ j. elim (ℕ_discrete j id) [
        | yes e ↦
            subst (λ i. NodeHolds F ρ (ρ i) (node g' i)) (sym e)
              (rw
                (
                  r.same_op,
                  r.same_sub,
                  r.same_ty,
                  r.same_ival,
                  r.same_fval,
                  r.inputs_are 1,
                  r.inputs_are 2,
                  r.inputs_are 3,
                )
                h)
        | no ne ↦ rw (r.others j ne) (m.holds j)
      ];
      in_range = λ j i. elim (ℕ_discrete j id) [
        | yes e ↦
            subst (λ x. (input (node g' x) i < size g') ⊎ (input (node g' x) i ≡ no_node)) (sym e)
              (rw (r.inputs_are i, r.same_size) (named i))
        | no ne ↦ rw (r.others j ne, r.same_size) (m.in_range j i)
      ];
    },
    r.fresh,
    omega (arith, r.same_size),
  )
