-- ===== src/Workflow/Failures/SecondChance.antt =====
-- `retryDeadLetterFromCheckpoint` (packages/workflow-runtime/src/index.ts): what a dead-lettered step
-- is given when its dead letter is retried.
use mathlib.Core.Option
use chain_sieve.Base.{
  ℕ, ◌+◌, ◌≡◌, ◌∙◌, ap, refl, true, false, some, Text, same, same_refl, arith, ok, Outcome, [],
}
use chain_sieve.Sql.Exec.{World, alone, turn, ◌>>=◌}
use chain_sieve.Workflow.Store.{
  Db, StepRow, DeadLetterRow, DeadLetterStatus, ErrorClass, Fault, auth_error,
}
use chain_sieve.Workflow.Retry.{classify_retry, has_exhausted_retries}
use chain_sieve.Workflow.Steps.{step, dead_letter, update_step, update_run, update_dead_letter}
use chain_sieve.Workflow.Steps.Rows.{step-update_step, same_rows}
use chain_sieve.Workflow.Failures.{
  RetriedDeadLetter, reset_row, reset_step, retry_item, retry_dead_letter_from_checkpoint,
}

-- A class with no retries left after some attempts has none left after more.
pub exhausted_stays :
    (c : ErrorClass) (a b : ℕ)
    → has_exhausted_retries c a ≡ true
    → has_exhausted_retries c (a + b) ≡ true
unfolding has_exhausted_retries classify_retry
exhausted_stays auth_error a b h = ground arith
exhausted_stays _ a b h = ground arith

module _ (dead_letter_id step_id : Text) (now : ℕ) (s : Db) (d : DeadLetterRow)
    (row : StepRow) where
  abbrev pub retried : Outcome Fault RetriedDeadLetter × World Db
  retried = retry_dead_letter_from_checkpoint dead_letter_id now (alone s)

  module _ (item : dead_letter dead_letter_id s ≡ some d)
      (open_status : d.status ≡ DeadLetterStatus.open_item) (of_step : d.step_id ≡ some step_id)
      (named : same step_id [] ≡ false) (there : step step_id s ≡ some row) where
    row_reset : step step_id (update_step step_id (reset_row now) s).1 ≡ some (reset_row now row)
    row_reset =
        step-update_step step_id step_id (reset_row now) s (λ r. refl)
        ∙ rw (same_refl step_id) (ap (Option.map (reset_row now)) there)

    -- With nobody else acting, retrying the open dead letter of a step that is there makes the step
    -- pending again and keeps its count of attempts.
    pub retried-row :
        (retried.0 ≡ ok (record { retried = true; step_id = some step_id }))
        × (step step_id retried.1.state ≡ some (reset_row now row))
    unfolding retry_dead_letter_from_checkpoint retry_item reset_step ◌>>=◌ turn update_run
        update_dead_letter
    retried-row =
        rw (item, retry_item)
          (simp (open_status, of_step, named)
            (refl, same_rows step_id (update_step step_id (reset_row now) s).1 _ refl ∙ row_reset))
