-- ===== src/Support.antt =====
-- jules/src/core/support: containers and hashing.
pub mod Hash
pub mod FlatMap
