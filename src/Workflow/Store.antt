-- ===== src/Workflow/Store.antt =====
-- The tables of the durable workflow core (infra/migrations/0002_durable_workflow_core.sql), with
-- the columns that the functions of packages/workflow-runtime/src/index.ts read or write.
-- Times are milliseconds since the epoch: what `Date.parse` gives for the ISO text.
use chain_sieve.Base.{ℕ, Bool, Option, some, List, Text, same, if◌then◌else◌}

pub data InboxStatus : Type 0 where
  received processing processed duplicate failed : InboxStatus

pub data WorkflowRunStatus : Type 0 where
  pending running waiting retrying completed partial failed cancelled timed_out dead_lettered :
      WorkflowRunStatus

pub data WorkflowStepStatus : Type 0 where
  pending running completed failed dead_lettered skipped : WorkflowStepStatus

pub data DeadLetterStatus : Type 0 where
  open_item retrying resolved cancelled : DeadLetterStatus

-- The classes that `classifyRetry` names, and any other text.
pub data ErrorClass : Type 0 where
  auth_error invalid_input rate_limit timeout http_5xx schema_drift : ErrorClass
  model_format_error budget_exceeded serialization_conflict notification_transient : ErrorClass
  other_class : Text → ErrorClass

pub record InboxRow : Type 0 where
  pub id : Text
  pub source : Text
  pub external_message_id : Text
  pub schedule_id : Option Text
  pub scheduled_for : Option ℕ
  pub payload_hash : Text
  pub received_at : ℕ
  pub verified_at : Option ℕ
  pub processed_run_id : Option Text
  pub status : InboxStatus

pub record RunRow : Type 0 where
  pub id : Text
  pub workflow_name : Text
  pub schedule_id : Option Text
  pub trigger_inbox_id : Option Text
  pub status : WorkflowRunStatus
  pub created_at : ℕ
  pub updated_at : ℕ
  pub completed_at : Option ℕ
  pub error_class : Option ErrorClass
  pub retryable : Option Bool

pub record StepRow : Type 0 where
  pub step_id : Text
  pub run_id : Text
  pub step_type : Text
  pub idempotency_key : Text
  pub attempt : ℕ
  pub input_hash : Text
  pub output_hash : Option Text
  pub status : WorkflowStepStatus
  pub lease_owner : Option Text
  pub lease_version : ℕ
  pub lease_expires_at : Option ℕ
  pub started_at : Option ℕ
  pub completed_at : Option ℕ
  pub error_class : Option ErrorClass
  pub retryable : Bool
  pub next_retry_at : Option ℕ
  pub created_at : ℕ
  pub updated_at : ℕ

pub record AttemptRow : Type 0 where
  pub id : Text
  pub step_id : Text
  pub attempt : ℕ
  pub started_at : ℕ
  pub completed_at : Option ℕ
  pub error_class : Option ErrorClass
  pub error_message : Option Text
  pub retryable : Bool
  pub output_hash : Option Text

pub record Lease : Type 0 where
  pub owner : Text
  pub version : ℕ
  pub acquired_at : ℕ
  pub expires_at : ℕ

pub record DeadLetterRow : Type 0 where
  pub id : Text
  pub run_id : Text
  pub step_id : Option Text
  pub error_class : ErrorClass
  pub retryable : Bool
  pub attempt : ℕ
  pub payload_json : Option Text
  pub error_message : Option Text
  pub status : DeadLetterStatus
  pub created_at : ℕ
  pub last_retry_at : Option ℕ
  pub resolved_at : Option ℕ

-- `workflow_leases` is read and written by its primary key alone, so it is a function of the key.
pub record Db : Type 0 where
  pub trigger_inbox : List InboxRow
  pub workflow_runs : List RunRow
  pub workflow_steps : List StepRow
  pub step_attempts : List AttemptRow
  pub workflow_leases : Text → Option Lease
  pub dead_letter_items : List DeadLetterRow

-- What the functions throw: their own errors, the database's refusals, and the `TypeError` of
-- reading a field of `rows[0]` where there is no row.
pub data Fault : Type 0 where
  external_message_id_required external_message_id_too_long trigger_inbox_consistency_error : Fault
  step_not_found dead_letter_not_found : Fault
  unique_violation foreign_key_violation type_error : Fault

abbrev pub put_lease : Text → Lease → Db → Db
put_lease k l s = record s {
  workflow_leases = λ j. if same k j then some l else s.workflow_leases j;
}
