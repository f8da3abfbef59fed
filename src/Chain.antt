-- ===== src/Chain.antt =====
-- The code under core/src/chain.
pub mod Spec
