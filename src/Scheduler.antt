-- ===== src/Scheduler.antt =====
-- The scheduling control plane (packages/scheduler/src/index.ts).
pub mod Config
pub mod Cron
pub mod Store
pub mod Validation
pub mod Service
pub mod Versions
pub mod Drafts
pub mod RunNow
pub mod Reconcile
pub mod Commands
pub mod Moves
pub mod Quiet
pub mod Transitions
pub mod Lifecycle
pub mod Retired
pub mod Race
pub mod Refused
pub mod Steps
pub mod History
pub mod Precedence
pub mod Expected
pub mod Reads
pub mod Reports
pub mod Agreement
pub mod Results
pub mod Samples
mod Examples
mod Tests
