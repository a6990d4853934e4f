-- ===== src/Workflow/Runs.antt =====
-- Creating runs and steps, resuming from a checkpoint and completing a run
-- (packages/workflow-runtime/src/index.ts, "Workflow Runs & Steps" and "High-level Workflow
-- Execution Helpers"). What the database does with ORDER BY created_at is the parameter `arrange`.
pub mod Completion
pub mod Creation
mod Examples
use chain_sieve.Base.{
  ℕ, suc, ◌+◌, Bool, true, false, not, ◌&&◌, ◌||◌, Option, none, some, List, [], ◌∷◌, ◌++◌, Text,
  same, codes, decimal, pad_start, ltb, if◌then◌else◌, any, every, find, select, length, replicate,
  Outcome, ok, err,
}
use chain_sieve.Sql.Table.{row}
use chain_sieve.Sql.Exec.{Exec, pure, throw, statement, fallible, continue, ◌>>=◌, ◌>>◌}
use chain_sieve.Workflow.Store.{
  Db, StepRow, RunRow, WorkflowStepStatus, WorkflowRunStatus, Fault, unique_violation,
  foreign_key_violation, type_error,
}
use chain_sieve.Workflow.Steps.{run, update_run}

pub record CreateWorkflowRunInput : Type 0 where
  pub id : Text
  pub workflow_name : Text
  pub schedule_id : Option Text
  pub trigger_inbox_id : Option Text
  pub now : ℕ

pub record CreatedRun : Type 0 where
  pub id : Text
  pub status : WorkflowRunStatus

abbrev references_inbox : Option Text → Db → Bool
references_inbox none s = true
references_inbox (some id) s = any (λ r. same r.id id) s.trigger_inbox

abbrev pub new_run : CreateWorkflowRunInput → RunRow
new_run input = record {
  id = input.id;
  workflow_name = input.workflow_name;
  schedule_id = input.schedule_id;
  trigger_inbox_id = input.trigger_inbox_id;
  status = WorkflowRunStatus.pending;
  created_at = input.now;
  updated_at = input.now;
  completed_at = none;
  error_class = none;
  retryable = none;
}

-- INSERT INTO workflow_runs … ON CONFLICT (id) DO NOTHING RETURNING id, status
pub insert_run : CreateWorkflowRunInput → Db → Outcome Fault (Option RunRow × Db)
insert_run input s = elim (run input.id s) [
  | some _ ↦ ok (none, s)
  | none ↦
      if references_inbox input.trigger_inbox_id s
      then ok
          (some (new_run input), record s { workflow_runs = s.workflow_runs ++ new_run input ∷ [] })
      else err foreign_key_violation
]

abbrev created : RunRow → CreatedRun
created r = record { id = r.id; status = r.status }

-- `existing.rows[0]!` where the INSERT met a conflict
pub existing_run : Option RunRow → Exec Db Fault CreatedRun
existing_run none = throw type_error
existing_run (some r) = pure (created r)

pub after_insert_run : CreateWorkflowRunInput → Option RunRow → Exec Db Fault CreatedRun
after_insert_run input none = do
  existing ← statement (λ s. (run input.id s, s))
  existing_run existing
after_insert_run input (some r) = pure (created r)

pub create_workflow_run : CreateWorkflowRunInput → Exec Db Fault CreatedRun
create_workflow_run input = do result ← fallible (insert_run input); after_insert_run input result

pub record CreateWorkflowStepInput : Type 0 where
  pub step_id : Text
  pub run_id : Text
  pub step_type : Text
  pub idempotency_key : Text
  pub input_hash : Text
  pub lease_owner : Option Text
  pub lease_version : ℕ
  pub lease_expires_at : Option ℕ
  pub now : ℕ

abbrev new_step : CreateWorkflowStepInput → StepRow
new_step input = record {
  step_id = input.step_id;
  run_id = input.run_id;
  step_type = input.step_type;
  idempotency_key = input.idempotency_key;
  attempt = 0;
  input_hash = input.input_hash;
  output_hash = none;
  status = WorkflowStepStatus.pending;
  lease_owner = input.lease_owner;
  lease_version = input.lease_version;
  lease_expires_at = input.lease_expires_at;
  started_at = none;
  completed_at = none;
  error_class = none;
  retryable = false;
  next_retry_at = none;
  created_at = input.now;
  updated_at = input.now;
}

-- SELECT … FROM workflow_steps WHERE idempotency_key=$1 (a UNIQUE column)
unfoldable pub by_idempotency_key : Text → Db → Option StepRow
by_idempotency_key key s = row (λ r. r.idempotency_key) key s.workflow_steps

-- INSERT INTO workflow_steps … ON CONFLICT (idempotency_key) DO NOTHING RETURNING step_id
pub insert_step : CreateWorkflowStepInput → Db → Outcome Fault (Option StepRow × Db)
insert_step input s = elim (by_idempotency_key input.idempotency_key s) [
  | some _ ↦ ok (none, s)
  | none ↦
      if any (λ r. same r.step_id input.step_id) s.workflow_steps
      then err unique_violation
      else (if any (λ r. same r.id input.run_id) s.workflow_runs
          then ok (
            some (new_step input),
            record s { workflow_steps = s.workflow_steps ++ new_step input ∷ [] },
          )
          else err foreign_key_violation)
]

pub record CreatedStep : Type 0 where
  pub step_id : Text
  pub inserted : Bool

pub existing_step : Option StepRow → Exec Db Fault CreatedStep
existing_step none = throw type_error
existing_step (some r) = pure (record { step_id = r.step_id; inserted = false })

pub after_insert_step : CreateWorkflowStepInput → Option StepRow → Exec Db Fault CreatedStep
after_insert_step input none = do
  existing ← statement (λ s. (by_idempotency_key input.idempotency_key s, s))
  existing_step existing
after_insert_step input (some r) = pure (record { step_id = r.step_id; inserted = true })

pub create_workflow_step : CreateWorkflowStepInput → Exec Db Fault CreatedStep
create_workflow_step input = do
  result ← fallible (insert_step input)
  after_insert_step input result

pub record WorkflowStepDefinition : Type 0 where
  pub step_type : Text
  pub idempotency_key : Text
  pub input_hash : Text

-- `${runId}--step-${String(index + 1).padStart(3, '0')}`
unfoldable pub step_name : Text → ℕ → Text
step_name run_id index =
    let digits = decimal (index + 1) in run_id ++ (codes "--step-" ++ (pad_start 3 digits))

-- the loop of `ensureWorkflowSteps`, from the definition of that index on
pub ensure_steps_from : ℕ → Text → List WorkflowStepDefinition → ℕ → Exec Db Fault (Unit {0})
ensure_steps_from index run_id [] now = pure tt
ensure_steps_from index run_id (d ∷ ds) now = do
  create_workflow_step (record {
    step_id = step_name run_id index;
    run_id = run_id;
    step_type = d.step_type;
    idempotency_key = d.idempotency_key;
    input_hash = d.input_hash;
    lease_owner = none;
    lease_version = 0;
    lease_expires_at = none;
    now = now;
  })
  ensure_steps_from (suc index) run_id ds now

pub ensure_workflow_steps : Text → List WorkflowStepDefinition → ℕ → Exec Db Fault (Unit {0})
ensure_workflow_steps run_id definitions now = ensure_steps_from 0 run_id definitions now

abbrev pub is_completed : WorkflowStepStatus → Bool
is_completed WorkflowStepStatus.completed = true
is_completed _ = false

abbrev pub is_dead : WorkflowStepStatus → Bool
is_dead WorkflowStepStatus.dead_lettered = true
is_dead _ = false

abbrev pub is_open : WorkflowStepStatus → Bool
is_open WorkflowStepStatus.pending = true
is_open WorkflowStepStatus.failed = true
is_open _ = false

pub record Checkpoint : Type 0 where
  pub completed : List StepRow
  pub next : Option StepRow

-- the status of `completeWorkflowRun`, of the steps of the run
abbrev pub final_status : List StepRow → WorkflowRunStatus
final_status steps =
    if any (λ r. is_dead r.status) steps
    then WorkflowRunStatus.dead_lettered
    else (if ltb 0 (length steps) && every (λ r. is_completed r.status) steps
        then WorkflowRunStatus.completed
        else WorkflowRunStatus.failed)

abbrev pub finished : WorkflowRunStatus → ℕ → RunRow → RunRow
finished status now r = record r { status = status; completed_at = some now; updated_at = now }

module _ (arrange : List StepRow → List StepRow) where
  pub get_workflow_steps : Text → Exec Db Fault (List StepRow)
  get_workflow_steps run_id =
      statement (λ s. (arrange (select (λ r. same r.run_id run_id) s.workflow_steps), s))

  pub resume_from_checkpoint : Text → Exec Db Fault Checkpoint
  resume_from_checkpoint run_id = do
    all ← get_workflow_steps run_id
    pure (record {
      completed = select (λ r. is_completed r.status) all;
      next = find (λ r. is_open r.status) all;
    })

  pub complete_workflow_run : Text → ℕ → Exec Db Fault (Unit {0})
  complete_workflow_run run_id now = do
    steps ← get_workflow_steps run_id
    statement (update_run run_id (finished (final_status steps) now))
