-- ===== src/Son.antt =====
-- jules/src/core/son: the sea-of-nodes IR.
pub mod Types
pub mod Node
pub mod Graph
pub mod Names
pub mod Verifier
