-- ===== src/Policy.antt =====
-- The policy engine (src/sidq/policy/engine.py).
pub mod Condition
pub mod Engine
pub mod Document
pub mod Load
