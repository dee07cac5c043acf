-- ===== src/Receipt.antt =====
-- Receipts: what is written into the catalog, and what a reader makes of it (src/sidq/receipt).
pub mod State
pub mod Freshness
pub mod Attestation
pub mod Build
pub mod Read
pub mod Verify
pub mod Effects
pub mod Badges
pub mod Confirm
pub mod Restore
pub mod Write
pub mod RoundTrip
mod Tests
