-- ===== src/Repair.antt =====
-- The repairs of the catalog (src/sidq/repair).
pub mod Closure
pub mod Proposals
pub mod Simulate
pub mod Prove
pub mod Apply
mod Tests
