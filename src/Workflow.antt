-- ===== src/Workflow.antt =====
-- The durable workflow core (packages/workflow-runtime/src/index.ts).
pub mod Store
pub mod Samples
pub mod Leases
pub mod Retry
pub mod Steps
pub mod Fencing
pub mod Failures
pub mod Inbox
pub mod Runs
pub mod Trigger
