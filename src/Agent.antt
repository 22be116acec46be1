-- ===== src/Agent.antt =====
-- The reference agent (agent/src).
pub mod Action
pub mod Worker
