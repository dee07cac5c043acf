-- ===== src/Catalog/Checks.antt =====
-- The checks of `SelfContradictionGate`, one module each group.
pub mod Lineage
pub mod Columns
pub mod Pii
pub mod Consumers
