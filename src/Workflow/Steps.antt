-- ===== src/Workflow/Steps.antt =====
-- The statements on the tables of steps, runs and dead letters that the functions of
-- packages/workflow-runtime/src/index.ts share, and what each does to the row of a key.
pub mod Rows
use chain_sieve.Base.{
  ℕ, ◌+◌, Bool, true, false, not, ◌&&◌, ◌||◌, Option, none, some, List, [], ◌∷◌, ◌++◌, Text, same,
  codes, decimal, leb, ltb, ◌==◌, if◌then◌else◌, length, any, every, find, select, or_else, Outcome,
  ok, err,
}
use chain_sieve.Sql.Table.{update_where, row}
use chain_sieve.Sql.Exec.{Exec, pure, throw, statement, fallible, continue, ◌>>=◌, ◌>>◌}
use chain_sieve.Workflow.Store.{
  Db, StepRow, RunRow, AttemptRow, DeadLetterRow, WorkflowStepStatus, WorkflowRunStatus,
  DeadLetterStatus, ErrorClass, Fault, open_item, step_not_found, dead_letter_not_found,
  unique_violation, foreign_key_violation, type_error,
}
use chain_sieve.Workflow.Retry.{RetryDecision, classify_retry, compute_jittered_backoff}

-- SELECT … FROM workflow_steps WHERE step_id=$1
unfoldable pub step : Text → Db → Option StepRow
step id s = row (λ r. r.step_id) id s.workflow_steps

unfoldable pub run : Text → Db → Option RunRow
run id s = row (λ r. r.id) id s.workflow_runs

unfoldable pub dead_letter : Text → Db → Option DeadLetterRow
dead_letter id s = row (λ r. r.id) id s.dead_letter_items

-- UPDATE workflow_steps SET … WHERE step_id=$1 AND … RETURNING …: the rows that were updated
unfoldable pub update_steps : Text → (StepRow → Bool) → (StepRow → StepRow) → Db → List StepRow × Db
update_steps id fits change s = (
  select (λ r. same r.step_id id && fits r) s.workflow_steps,
  record s {
    workflow_steps = update_where (λ r. same r.step_id id && fits r) change s.workflow_steps;
  },
)

-- UPDATE workflow_steps SET … WHERE step_id=$1
unfoldable pub update_step : Text → (StepRow → StepRow) → Db → Unit {0} × Db
update_step id change s = (
  tt,
  record s { workflow_steps = update_where (λ r. same r.step_id id) change s.workflow_steps },
)

unfoldable pub update_run : Text → (RunRow → RunRow) → Db → Unit {0} × Db
update_run id change s =
    (tt, record s { workflow_runs = update_where (λ r. same r.id id) change s.workflow_runs })

unfoldable pub update_dead_letter : Text → (DeadLetterRow → DeadLetterRow) → Db → Unit {0} × Db
update_dead_letter id change s = (
  tt,
  record s { dead_letter_items = update_where (λ r. same r.id id) change s.dead_letter_items },
)
