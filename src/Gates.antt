-- ===== src/Gates.antt =====
-- The gates on a change (src/sidq/gates), which collect evidence from the catalog.
pub mod Graph
pub mod Schema
pub mod Reality
pub mod Governance
pub mod Blast
mod Tests
