-- ===== src/Continuity.antt =====
-- Backups, legal holds and degraded mode (packages/workflow-runtime/src/recovery-continuity.ts).
pub mod Store
pub mod Audit
pub mod Backups
pub mod Degraded
pub mod Holds
pub mod Trail
pub mod Chain
mod Examples
