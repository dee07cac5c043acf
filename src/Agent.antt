-- ===== src/Agent.antt =====
-- The agents that decide where to point the gate (src/sidq/agent).
pub mod Memory
pub mod Auditor
pub mod Run
pub mod Swarm
pub mod Shift
