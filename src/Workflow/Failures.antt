-- ===== src/Workflow/Failures.antt =====
-- `recordStepFailure`, `recordStepSuccess` and the dead letters (packages/workflow-runtime/src/index.ts,
-- "Retry Taxonomy" and "Dead Letter"). None of these functions opens a transaction: an error in the
-- middle leaves what the statements before it wrote. `Date.now()` is the argument `clock`, and
-- `Math.random()` the fraction `num / den`.
pub mod Outcomes
pub mod Recorded
pub mod SecondChance
mod Examples
use chain_sieve.Base.{
  ℕ, ◌+◌, Bool, true, false, not, ◌&&◌, ◌||◌, Option, none, some, List, [], ◌∷◌, ◌++◌, Text, same,
  codes, decimal, leb, if◌then◌else◌, any, or_else, Outcome, ok, err, select,
}
use chain_sieve.Sql.Exec.{Exec, pure, throw, statement, fallible, continue, ◌>>=◌, ◌>>◌}
use chain_sieve.Workflow.Store.{
  Db, StepRow, RunRow, AttemptRow, DeadLetterRow, WorkflowStepStatus, WorkflowRunStatus,
  DeadLetterStatus, ErrorClass, Fault, step_not_found, dead_letter_not_found, unique_violation,
  foreign_key_violation,
}
use chain_sieve.Workflow.Retry.{RetryDecision, classify_retry, compute_jittered_backoff}
use chain_sieve.Workflow.Steps.{step, run, dead_letter, update_step, update_run, update_dead_letter}

-- INSERT INTO step_attempts: refused if the id is taken or the step is missing
pub insert_attempt : AttemptRow → Db → Outcome Fault (Unit {0} × Db)
insert_attempt a s =
    if any (λ r. same r.id a.id) s.step_attempts
    then err unique_violation
    else (if any (λ r. same r.step_id a.step_id) s.workflow_steps
        then ok (tt, record s { step_attempts = s.step_attempts ++ a ∷ [] })
        else err foreign_key_violation)

-- `… ON CONFLICT (id) DO NOTHING`
pub insert_attempt_once : AttemptRow → Db → Outcome Fault (Unit {0} × Db)
insert_attempt_once a s =
    if any (λ r. same r.id a.id) s.step_attempts then ok (tt, s) else insert_attempt a s

abbrev references_step : Option Text → Db → Bool
references_step none s = true
references_step (some id) s = any (λ r. same r.step_id id) s.workflow_steps

-- INSERT INTO dead_letter_items … ON CONFLICT (id) DO NOTHING
pub create_dead_letter_item : DeadLetterRow → Exec Db Fault (Unit {0})
create_dead_letter_item d = fallible (λ s.
    if any (λ r. same r.id d.id) s.dead_letter_items
    then ok (tt, s)
    else (if any (λ r. same r.id d.run_id) s.workflow_runs && references_step d.step_id s
        then ok (tt, record s { dead_letter_items = s.dead_letter_items ++ d ∷ [] })
        else err foreign_key_violation))

-- the statuses that `recordStepFailure` returns
pub record FailureResult : Type 0 where
  pub status : WorkflowStepStatus
  pub dead_lettered : Bool
  pub next_retry_at : Option ℕ

abbrev pub dead_lettered_row : ErrorClass → ℕ → StepRow → StepRow
dead_lettered_row c now r = record r {
  status = WorkflowStepStatus.dead_lettered;
  error_class = some c;
  retryable = false;
  completed_at = some now;
  updated_at = now;
  attempt = r.attempt + 1;
}

abbrev pub failed_row : ErrorClass → ℕ → ℕ → StepRow → StepRow
failed_row c next_retry_at now r = record r {
  status = WorkflowStepStatus.failed;
  error_class = some c;
  retryable = true;
  next_retry_at = some next_retry_at;
  updated_at = now;
  attempt = r.attempt + 1;
}

-- `attempt-${stepId}-${currentAttempt}`
abbrev attempt_id : Text → ℕ → Text
attempt_id step_id attempt = codes "attempt-" ++ (step_id ++ (codes "-" ++ decimal attempt))

abbrev failed_attempt : Text → ℕ → ErrorClass → Text → Bool → ℕ → AttemptRow
failed_attempt step_id attempt c message retryable now = record {
  id = attempt_id step_id attempt;
  step_id = step_id;
  attempt = attempt;
  started_at = now;
  completed_at = none;
  error_class = some c;
  error_message = some message;
  retryable = retryable;
  output_hash = none;
}

module _ (step_id : Text) (c : ErrorClass) (message : Text) (now clock num den : ℕ) where
  -- the branch of an error that is not retried
  pub give_up : StepRow → Exec Db Fault FailureResult
  give_up row = do
    statement (update_step step_id (dead_lettered_row c now))
    fallible (insert_attempt (failed_attempt step_id row.attempt c message false now))
    create_dead_letter_item (record {
      id = codes "dl-" ++ (step_id ++ (codes "-" ++ decimal clock));
      run_id = row.run_id;
      step_id = some step_id;
      error_class = c;
      retryable = false;
      attempt = row.attempt + 1;
      payload_json = none;
      error_message = some message;
      status = DeadLetterStatus.open_item;
      created_at = now;
      last_retry_at = none;
      resolved_at = none;
    })
    statement (
        update_run row.run_id (λ r. record r {
          status = WorkflowRunStatus.dead_lettered;
          error_class = some c;
          retryable = some false;
          updated_at = now;
        }))
    pure (record {
      status = WorkflowStepStatus.dead_lettered;
      dead_lettered = true;
      next_retry_at = none;
    })

  -- `backoffMs ?? 1000`, jittered or not, after `now`
  unfoldable pub retry_time : RetryDecision → ℕ
  retry_time decision =
      let backoff = or_else decision.backoff_ms 1000 in
      now + (if decision.apply_jitter then compute_jittered_backoff backoff num den else backoff)

  pub schedule_retry : RetryDecision → StepRow → Exec Db Fault FailureResult
  schedule_retry decision row = do
    let next_retry_at = retry_time decision
    statement (update_step step_id (failed_row c next_retry_at now))
    fallible (insert_attempt (failed_attempt step_id row.attempt c message true now))
    pure (record {
      status = WorkflowStepStatus.failed;
      dead_lettered = false;
      next_retry_at = some next_retry_at;
    })

  pub fail_row : Option StepRow → Exec Db Fault FailureResult
  fail_row none = throw step_not_found
  fail_row (some row) =
      let decision = classify_retry c row.attempt in
      if not decision.retryable || leb decision.max_attempts (row.attempt + 1)
      then give_up row
      else schedule_retry decision row

  pub record_step_failure : Exec Db Fault FailureResult
  record_step_failure = do found ← statement (λ s. (step step_id s, s)); fail_row found

-- `recordStepSuccess`
pub record_step_success : Text → Text → ℕ → ℕ → Exec Db Fault (Unit {0})
record_step_success step_id output_hash now clock = do
  statement (
      update_step step_id (λ r. record r {
        output_hash = some output_hash;
        status = WorkflowStepStatus.completed;
        completed_at = some now;
        updated_at = now;
        error_class = none;
        retryable = false;
      }))
  fallible (
      insert_attempt_once (record {
        id = codes "attempt-" ++ (step_id ++ (codes "-success-" ++ decimal clock));
        step_id = step_id;
        attempt = 0;
        started_at = now;
        completed_at = some now;
        error_class = none;
        error_message = none;
        retryable = false;
        output_hash = some output_hash;
      }))

pub record RetriedDeadLetter : Type 0 where
  pub retried : Bool
  pub step_id : Option Text

abbrev pub is_open : DeadLetterStatus → Bool
is_open DeadLetterStatus.open_item = true
is_open _ = false

-- the SET of `retryDeadLetterFromCheckpoint` on the step
abbrev pub reset_row : ℕ → StepRow → StepRow
reset_row now r = record r {
  status = WorkflowStepStatus.pending;
  error_class = none;
  retryable = false;
  next_retry_at = none;
  updated_at = now;
}

module _ (dead_letter_id : Text) (now : ℕ) where
  reset_step : Option Text → Exec Db Fault (Unit {0})
  reset_step none = pure tt
  reset_step (some id) = if same id [] then pure tt else statement (update_step id (reset_row now))

  pub retry_item : Option DeadLetterRow → Exec Db Fault RetriedDeadLetter
  retry_item none = throw dead_letter_not_found
  retry_item (some d) =
      if not (is_open d.status) then pure (record { retried = false; step_id = d.step_id }) else do
        reset_step d.step_id
        statement (
            update_run d.run_id
              (λ r. record r { status = WorkflowRunStatus.retrying; updated_at = now }))
        statement (
            update_dead_letter dead_letter_id
              (λ r. record r { status = DeadLetterStatus.retrying; last_retry_at = some now }))
        pure (record { retried = true; step_id = d.step_id })

  pub retry_dead_letter_from_checkpoint : Exec Db Fault RetriedDeadLetter
  retry_dead_letter_from_checkpoint = do
    found ← statement (λ s. (dead_letter dead_letter_id s, s))
    retry_item found

  pub resolve_dead_letter : Exec Db Fault (Unit {0})
  resolve_dead_letter = statement (
      update_dead_letter dead_letter_id
        (λ r. record r { status = DeadLetterStatus.resolved; resolved_at = some now }))
