-- ===== src/Examples/Copies.antt =====
-- Runs of p07, p10 and p11.
use jules.Prelude.{◌≡◌, ◌⊎◌, refl, arith, [], ◌∷◌}
use jules.Son.Types.{ty_ctrl, ty_i32}
use jules.Son.Node.{Op, no_node, input}
use jules.Son.Graph.{Graph, node, kill, replace_all_uses}
use jules.Son.Graph.Uses.{HasFreshUses}
use jules.Son.Verifier.{verify_graph}
use jules.Son.Verifier.Phis.{PhiFits, verify_graph-PhiFits}
use jules.Passes.Phis.{common_input}
use jules.Passes.Phis.Gone.{Gone, common_input-some}
use jules.Passes.PhiSimplification.{visit_phi}
use jules.Passes.PhiSimplification.Sound.{visit_phi-Gone}
use jules.Examples.{no_diagnostics, plain}
use jules.Examples.Elimination.{graph}

-- A loop phi whose inputs are the parameter 2 and itself.
abbrev loop : Graph
loop =
    graph
      (plain Op.start ty_ctrl 0 0 []
        ∷ plain Op.region ty_ctrl 0 0 (0 ∷ 1 ∷ [])
        ∷ plain Op.param ty_i32 0 0 (0 ∷ [])
        ∷ plain Op.phi ty_i32 0 0 (1 ∷ 2 ∷ 3 ∷ [])
        ∷ plain Op.return ty_ctrl 0 0 (1 ∷ 3 ∷ [])
        ∷ [])
      no_node

loop-fresh : HasFreshUses loop
loop-fresh = λ clean. absurd (cc)

no_phi_left_example : Gone 3 (visit_phi loop 3).0
no_phi_left_example =
    visit_phi-Gone loop 3 loop-fresh (omega arith) (omega arith) (unfold visit_phi in refl)

common_example :
    (input (node loop 3) 1 ≡ 3) ⊎ (input (node loop 3) 1 ≡ 2) ⊎ (input (node loop 3) 1 ≡ no_node)
common_example = common_input-some 3 no_node 2 (2 ∷ 3 ∷ []) 2 (unfold common_input in refl) refl

-- The return takes the parameter.
returns_param : input (node (visit_phi loop 3).0 4) 1 ≡ 2
unfolding visit_phi kill replace_all_uses
returns_param = refl

-- A parameter, and a cast of it to its own type.
abbrev copy : Graph
copy =
    graph
      (plain Op.start ty_ctrl 0 0 []
        ∷ plain Op.param ty_i32 0 0 (0 ∷ [])
        ∷ plain Op.cast ty_i32 7 0 (0 ∷ 1 ∷ [])
        ∷ [])
      no_node

-- A region that is its own predecessor, and its phi.
abbrev circle : Graph
circle =
    graph
      (plain Op.start ty_ctrl 0 0 []
        ∷ plain Op.region ty_ctrl 0 0 (0 ∷ 1 ∷ [])
        ∷ plain Op.param ty_i32 0 0 (0 ∷ [])
        ∷ plain Op.phi ty_i32 0 0 (1 ∷ 2 ∷ 3 ∷ [])
        ∷ [])
      no_node

circle-fresh : HasFreshUses circle
circle-fresh = λ clean. absurd (cc)

phi_fit_example : PhiFits circle.nodes 1 3
unfolding verify_graph
phi_fit_example =
    verify_graph-PhiFits circle no_diagnostics 1 3 circle-fresh (omega arith) refl (omega arith)
      refl refl refl
