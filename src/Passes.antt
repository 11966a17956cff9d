-- ===== src/Passes.antt =====
-- jules/src/core/son/passes: the optimisation passes over the graph.
pub mod ConstEval
pub mod Meaning
pub mod DeadNodeElimination
pub mod IdentityCollapse
pub mod Driver
pub mod ConstantFolding
pub mod AlgebraicSimplification
pub mod BitwiseOptimization
pub mod SelectOptimization
pub mod Reassociation
pub mod Phis
pub mod PhiSimplification
pub mod RedundantPhiElimination
pub mod CopyPropagation
