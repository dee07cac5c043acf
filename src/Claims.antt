-- ===== src/Claims.antt =====
-- The claims that catalog documentation makes, against the live database (src/sidq/claims).
pub mod Models
pub mod Canonical
pub mod Compare
pub mod Detail
pub mod Reconcile
mod Tests
