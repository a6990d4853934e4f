-- ===== src/Workflow/Samples.antt =====
-- Rows and databases for the examples of the workflow core.
use chain_sieve.Base.{ℕ, false, none, some, [], ◌∷◌, Text}
use chain_sieve.Workflow.Store.{
  Db, StepRow, RunRow, DeadLetterRow, WorkflowStepStatus, WorkflowRunStatus, DeadLetterStatus,
  ErrorClass,
}

abbrev pub alice : Text
alice = 97 ∷ []

abbrev pub bob : Text
bob = 98 ∷ []

abbrev pub key : Text
key = 107 ∷ []

abbrev pub step_1 : Text
step_1 = 115 ∷ 49 ∷ []

abbrev pub run_1 : Text
run_1 = 114 ∷ 49 ∷ []

abbrev pub letter_1 : Text
letter_1 = 100 ∷ 49 ∷ []

abbrev pub message : Text
message = 109 ∷ 49 ∷ []

abbrev pub empty_db : Db
empty_db = record {
  trigger_inbox = [];
  workflow_runs = [];
  workflow_steps = [];
  step_attempts = [];
  workflow_leases = λ k. none;
  dead_letter_items = [];
}

abbrev pub step_row : WorkflowStepStatus → ℕ → StepRow
step_row status attempt = record {
  step_id = step_1;
  run_id = run_1;
  step_type = [];
  idempotency_key = step_1;
  attempt = attempt;
  input_hash = [];
  output_hash = none;
  status = status;
  lease_owner = none;
  lease_version = 0;
  lease_expires_at = none;
  started_at = none;
  completed_at = none;
  error_class = none;
  retryable = false;
  next_retry_at = none;
  created_at = 0;
  updated_at = 0;
}

abbrev pub run_row : RunRow
run_row = record {
  id = run_1;
  workflow_name = [];
  schedule_id = none;
  trigger_inbox_id = none;
  status = WorkflowRunStatus.running;
  created_at = 0;
  updated_at = 0;
  completed_at = none;
  error_class = none;
  retryable = none;
}

abbrev pub letter_row : DeadLetterRow
letter_row = record {
  id = letter_1;
  run_id = run_1;
  step_id = some step_1;
  error_class = ErrorClass.timeout;
  retryable = false;
  attempt = 5;
  payload_json = none;
  error_message = none;
  status = DeadLetterStatus.open_item;
  created_at = 0;
  last_retry_at = none;
  resolved_at = none;
}

-- one run with one step of this status and count of attempts
abbrev pub one_step : WorkflowStepStatus → ℕ → Db
one_step status attempt = record empty_db {
  workflow_runs = run_row ∷ [];
  workflow_steps = step_row status attempt ∷ [];
  dead_letter_items = letter_row ∷ [];
}
