-- ===== src/Agent.antt =====
-- The bounded agent runtime (packages/agent-runtime).
pub mod Budget
pub mod Snapshot
