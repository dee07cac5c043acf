-- ===== src/Catalog.antt =====
-- The catalog snapshot and the gate that finds its contradictions
-- (src/sidq/gates/self_contradiction.py).
pub mod Snapshot
pub mod Tags
pub mod Checks
pub mod Gate
