-- ===== src/Workflow/Failures/Examples.antt =====
-- A step that fails, is dead-lettered and is retried (packages/workflow-runtime/src/index.ts).
use mathlib.Core.Path.{refl}
use chain_sieve.Base.{◌≡◌, some, [], ◌∷◌, same, ok, Outcome, arith}
use chain_sieve.Sql.Exec.{World, alone, turn, ◌>>=◌}
use chain_sieve.Sql.Table.{row, update_where}
use chain_sieve.Workflow.Store.{Db, StepRow, WorkflowStepStatus, ErrorClass, Fault}
use chain_sieve.Workflow.Samples.{step_1, letter_1, step_row, one_step}
use chain_sieve.Workflow.Steps.{step, update_step, update_dead_letter}
use chain_sieve.Workflow.Failures.{
  insert_attempt, insert_attempt_once, record_step_failure, record_step_success,
  retry_dead_letter_from_checkpoint, resolve_dead_letter, RetriedDeadLetter,
}
use chain_sieve.Workflow.Failures.Outcomes.{Failure, fail_all, fail_all-dead, IsDeadAfter}
use chain_sieve.Workflow.Failures.Recorded.{IsRecorded, record_step_failure-IsRecorded}

abbrev failing : Db
failing = one_step WorkflowStepStatus.running 8

abbrev dead : Db
dead = one_step WorkflowStepStatus.dead_lettered 5

abbrev conflict : Failure
conflict = record {
  error_class = ErrorClass.serialization_conflict;
  message = [];
  now = 100;
  clock = 100;
  num = 1;
  den = 2;
}

there : step step_1 failing ≡ some (step_row WorkflowStepStatus.running 8)
unfolding step row same
there = refl

fail_all-dead_example : IsDeadAfter step_1 (fail_all step_1 (conflict ∷ conflict ∷ []) failing) 10
fail_all-dead_example =
    fail_all-dead step_1 conflict (conflict ∷ []) failing (step_row WorkflowStepStatus.running 8)
      there (omega arith)

-- the ninth conflict leaves a tenth attempt
record_step_failure-IsRecorded_example :
    (after : StepRow) × (step step_1
        (record_step_failure step_1 ErrorClass.serialization_conflict [] 100 100 1 2
          (alone failing)).1.state
      ≡ some after)
    × IsRecorded ErrorClass.serialization_conflict 100 (step_row WorkflowStepStatus.running 8) after
record_step_failure-IsRecorded_example =
    record_step_failure-IsRecorded step_1 ErrorClass.serialization_conflict [] 100 100 1 2
      (alone failing) (step_row WorkflowStepStatus.running 8) (omega arith) tt there

abbrev after_retry : Outcome Fault RetriedDeadLetter × World Db
after_retry = retry_dead_letter_from_checkpoint letter_1 200 (alone dead)

-- a step that succeeds is completed
success : (record_step_success step_1 [] 100 100 (alone failing)).0 ≡ ok tt
unfolding record_step_success insert_attempt_once insert_attempt update_step update_where ◌>>=◌ turn
    same
success = refl

resolved : (resolve_dead_letter letter_1 300 (alone dead)).0 ≡ ok tt
unfolding resolve_dead_letter update_dead_letter ◌>>=◌ turn
resolved = refl
