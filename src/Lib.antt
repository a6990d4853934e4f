-- ===== src/Lib.antt =====
-- chain_sieve: a verification library for the chain-sieve repository (TypeScript).
--
-- The system discovers candidates on a chain, runs durable workflows over PostgreSQL, and sends
-- alerts. The parts that are modelled, and where:
--
--   * Base: Boolean tests, texts as lists of UTF-16 code units with `===`, `trim`, `startsWith`
--     and `replace`, lists measured by native numbers, results of code that can throw, and folds that
--     do not hang on the order of a list (Base/Reorder).
--   * Sql: tables with a key (Sql/Table), and programs over a database (Sql/Exec). An asynchronous
--     function is a run of statements: every `await database.query(…)` is one atomic step, and other
--     clients may change the database before each step. What they do is part of the run's input, a
--     list of functions, one for each statement to come. Sql/Rely has rules by which a run keeps a
--     relation that all the others keep.
--   * Workflow: packages/workflow-runtime/src/index.ts over the tables of
--     infra/migrations/0002_durable_workflow_core.sql. Workflow/Store has the rows; Workflow/Inbox is
--     insertTriggerInbox and linkTriggerToRun; Workflow/Trigger is handleTriggerInboxRequest, which uses
--     the inbox and the runs; Workflow/Runs is createWorkflowRun, createWorkflowStep,
--     ensureWorkflowSteps, resumeFromCheckpoint and completeWorkflowRun; Workflow/Leases is acquireLease
--     and renewLease; Workflow/Fencing is claimStepForExecution and commitStepWithFencing;
--     Workflow/Retry is classifyRetry and the delays; Workflow/Failures is recordStepFailure,
--     recordStepSuccess and the dead letters, which use the retry taxonomy. Workflow/Steps has the
--     statements that these share.
--   * Alerts: processOutboxEntry of packages/alerts/src/outbox.ts, with the CHECK of the table outbox
--     in infra/migrations/0001_bootstrap_foundation.sql, over any notification transport.
--   * Agent: AgentBudgetTracker of packages/agent-runtime/src/budget-tracker.ts, with its checks and
--     counters in Agent/Budget and its getSnapshot in Agent/Snapshot.
--   * Domain: the lifecycle and the risk of a candidate, packages/domain/src/state-machines.ts
--     (Domain/StateMachines), and point-in-time records and their revisions,
--     packages/domain/src/temporal.ts (Domain/Temporal).
--   * Collector: checkpoints, gaps and the idempotent store of packages/collector-core/src/index.ts.
--   * Continuity: parts of packages/workflow-runtime/src/recovery-continuity.ts over
--     infra/migrations/0005_durable_recovery_continuity.sql. Continuity/Store has the rows; Continuity/Audit is
--     appendBackupAudit, which all others use, and Continuity/Chain verifyBackupAuditChain;
--     Continuity/Backups is createLegalHold, releaseLegalHold, enforceRetentionAndDelete and
--     requestRestoreAccess; Continuity/Degraded is enterDegradedMode, exitDegradedMode,
--     isConfirmedOpportunityDisabled and getActiveDegradedTiers.
--   * Scheduler: packages/scheduler/src/index.ts over infra/migrations/0004_scheduling_control_plane.sql.
--     Scheduler/Config is resolveConfigPrecedence, Scheduler/Cron validateCron, Scheduler/Validation
--     validateScheduleVersion; Scheduler/Store has the tables and the two stores, InMemoryScheduleStore
--     and DatabaseScheduleStore, behind the record ScheduleStore, whose laws are in Scheduler/Store/Laws;
--     Scheduler/Service, Scheduler/Drafts and Scheduler/RunNow are the operations of SchedulerService,
--     with the versions that they write in Scheduler/Versions; Scheduler/Commands runs them one after
--     another; Scheduler/Reconcile is reconcileSchedules, and Scheduler/Expected its reference.
--
-- Function names are those of the source in snake case; a function of the source is a definition of
-- the module above, and the blocks of a long one are definitions that it is composed of. Modules
-- named Examples, and Scheduler/Tests, hold tests and the results at concrete inputs, for which
-- Workflow/Samples and Scheduler/Samples have the data. The other child modules that this list does not
-- name hold proofs.
--
-- What stands for code outside the repository: SHA-256 is the parameter `sha256_hex`, in
-- Continuity `sha256`, the random source is a fraction, the clock is an argument, Date.parse is a parameter where a text is parsed and
-- times are milliseconds elsewhere, ORDER BY created_at is the parameter `arrange`, of which
-- some properties suppose that it permutes its list, the row that a query with LIMIT 1 and no ORDER BY
-- gives of the degraded tiers is the parameter `choose`, and the notification transport is the parameter
-- `transport`. In Alerts what the database driver and Date.parse make of the column available_at is the
-- parameter `read_time`. The external scheduler is the parameter `external`, of what it answers after the calls
-- before; Intl, the id generator, the registries and the optional checks of the scheduler are fields of
-- its record Deps, and SHA-256 over JSON text is `hash_config`. The walk of
-- verifyBackupAuditChain has one unit of fuel more than there are rows, which is enough for a chain; all
-- other loops run over lists. Counts are natural numbers without a bound, and delays and costs are
-- exact where the source has floats.
--
-- Not modelled: pure input and output (adapters, HTTP, the dashboard), the restore drill and the
-- reconciliation after a recovery, the alert policy, the agent loop, numeric scoring, decoders of
-- third-party programs, and the development tools.
pub mod Base
pub mod Sql
pub mod Agent
pub mod Alerts
pub mod Collector
pub mod Continuity
pub mod Domain
pub mod Scheduler
pub mod Workflow
