-- ===== src/Workflow/Failures/Recorded.antt =====
-- What `recordStepFailure` (packages/workflow-runtime/src/index.ts) leaves in the row of a step, against
-- a table of the attempts and the delays of each class of errors.
use chain_sieve.Base.{
  ℕ, ◌+◌, ◌*◌, ◌^◌, ◌≤◌, ◌<◌, ◌≡◌, ◌∙◌, ◌⊎◌, refl, min, true, false, some, Text, arith, Bool-cases,
  inl, inr, leb,
}
use chain_sieve.Sql.Exec.{World}
use chain_sieve.Sql.Rely.{Obeys}
use chain_sieve.Workflow.Store.{
  Db, StepRow, WorkflowStepStatus, ErrorClass, auth_error, invalid_input, rate_limit, timeout,
  http_5xx, schema_drift, model_format_error, budget_exceeded, serialization_conflict,
  notification_transient, other_class,
}
use chain_sieve.Workflow.Retry.{classify_retry, has_exhausted_retries, compute_exponential_backoff}
use chain_sieve.Workflow.Retry.Bounds.{jitter_bounds}
use chain_sieve.Workflow.Steps.{step}
use chain_sieve.Workflow.Failures.{retry_time, record_step_failure}
use chain_sieve.Workflow.Failures.Outcomes.{steps_stay, record_step_failure-row}

-- the attempts that each class of errors has
abbrev pub attempts_of : ErrorClass → ℕ
attempts_of auth_error = 1
attempts_of invalid_input = 1
attempts_of budget_exceeded = 1
attempts_of schema_drift = 1
attempts_of model_format_error = 2
attempts_of (other_class name) = 3
attempts_of rate_limit = 5
attempts_of timeout = 5
attempts_of http_5xx = 5
attempts_of notification_transient = 8
attempts_of serialization_conflict = 10

-- a delay that is another one, up to a fifth of it and the rounding to a whole number
abbrev pub IsAbout : ℕ → ℕ → Type 0
IsAbout exact delay = (4 * exact ≤ 5 * delay + 2) × (5 * delay ≤ 6 * exact + 2)

-- the delay in milliseconds after a number of attempts, by the class
abbrev pub IsDelay : ErrorClass → ℕ → ℕ → Type 0
IsDelay auth_error attempt delay = ⊥
IsDelay invalid_input attempt delay = ⊥
IsDelay budget_exceeded attempt delay = ⊥
IsDelay schema_drift attempt delay = ⊥
IsDelay model_format_error attempt delay = delay ≡ 500
IsDelay (other_class name) attempt delay = IsAbout (min (1000 * 2 ^ attempt) 10000) delay
IsDelay rate_limit attempt delay = IsAbout (min (1000 * 2 ^ attempt) 30000) delay
IsDelay timeout attempt delay = IsAbout (min (500 * 2 ^ attempt) 30000) delay
IsDelay http_5xx attempt delay = IsAbout (min (500 * 2 ^ attempt) 30000) delay
IsDelay notification_transient attempt delay = IsAbout (min (1000 * 2 ^ attempt) 60000) delay
IsDelay serialization_conflict attempt delay = IsAbout 50 delay

-- the row of a step that is given up after one more failure
abbrev pub given_up : ErrorClass → ℕ → StepRow → StepRow
given_up c now row = record row {
  attempt = row.attempt + 1;
  status = WorkflowStepStatus.dead_lettered;
  error_class = some c;
  retryable = false;
  completed_at = some now;
  updated_at = now;
}

-- the row of a step that is to be retried at a time
abbrev pub retried_at : ErrorClass → ℕ → ℕ → StepRow → StepRow
retried_at c now time row = record row {
  attempt = row.attempt + 1;
  status = WorkflowStepStatus.failed;
  error_class = some c;
  retryable = true;
  next_retry_at = some time;
  updated_at = now;
}

abbrev pub IsRecorded : ErrorClass → ℕ → StepRow → StepRow → Type 0
IsRecorded c now row after =
    ((attempts_of c ≤ row.attempt + 1) × (after ≡ given_up c now row))
    ⊎ ((row.attempt + 1 < attempts_of c)
        × (delay : ℕ) × IsDelay c row.attempt delay
        × (after ≡ retried_at c now (now + delay) row))

exhausted-attempts_of :
    (c : ErrorClass) (attempt : ℕ)
    → has_exhausted_retries c attempt ≡ leb (attempts_of c) (attempt + 1)
unfolding has_exhausted_retries classify_retry
exhausted-attempts_of auth_error attempt = ground arith
exhausted-attempts_of _ attempt = ground arith

module _ (step_id message : Text) (now clock num den : ℕ) where
  -- where an attempt is left, the retry is planned after the delay of the class
  retry_time-IsDelay :
      (c : ErrorClass) (attempt : ℕ)
      → num < den
      → has_exhausted_retries c attempt ≡ false
      → (delay : ℕ) × IsDelay c attempt delay
        × (retry_time step_id c message now clock num den (classify_retry c attempt) ≡ now + delay)
  unfolding has_exhausted_retries classify_retry retry_time compute_exponential_backoff
  retry_time-IsDelay auth_error attempt h left = ground arith
  retry_time-IsDelay invalid_input attempt h left = ground arith
  retry_time-IsDelay budget_exceeded attempt h left = ground arith
  retry_time-IsDelay schema_drift attempt h left = ground arith
  retry_time-IsDelay model_format_error attempt h left =
      (500, refl, rw (only_first attempt left) refl)
    where
      only_first :
          (attempt : ℕ) → has_exhausted_retries model_format_error attempt ≡ false → attempt ≡ 0
      only_first attempt left = ground arith
  retry_time-IsDelay (other_class name) attempt h left = (_, jitter_bounds _ num den h, refl)
  retry_time-IsDelay rate_limit attempt h left = (_, jitter_bounds _ num den h, refl)
  retry_time-IsDelay timeout attempt h left = (_, jitter_bounds _ num den h, refl)
  retry_time-IsDelay http_5xx attempt h left = (_, jitter_bounds _ num den h, refl)
  retry_time-IsDelay notification_transient attempt h left = (_, jitter_bounds _ num den h, refl)
  retry_time-IsDelay serialization_conflict attempt h left = (_, jitter_bounds _ num den h, refl)

module _ (step_id : Text) (c : ErrorClass) (message : Text) (now clock num den : ℕ) where
  -- Recording a failure for a step that is there, whether it returns or throws in the middle, leaves
  -- the row of the step with one more attempt. When the attempts are then at least those of the class
  -- of the failure (`attempts_of`), the step is dead-lettered, completed now and not retryable.
  -- Otherwise it has failed, is retryable, and its next retry is planned for the time now and the delay
  -- of the class (`IsDelay`): 500 milliseconds exactly for a format error of a model, and for the other
  -- classes their backoff up to a fifth of it and the rounding. The class and the time of the change
  -- are noted, and no other field changes. The others may do anything in the meantime but change
  -- steps, and the random fraction is under one.
  pub record_step_failure-IsRecorded :
      (w : World Db) (row : StepRow)
      → num < den
      → Obeys steps_stay w.others
      → step step_id w.state ≡ some row
      → (after : StepRow) × (step step_id
            (record_step_failure step_id c message now clock num den w).1.state
          ≡ some after)
        × IsRecorded c now row after
  record_step_failure-IsRecorded w row h o e =
      let there = record_step_failure-row step_id c message now clock num den w row o e in
      elim (Bool-cases (has_exhausted_retries c row.attempt)) [
        | inl q ↦ (
          given_up c now row,
          there ∙ rw q refl,
          inl (ground (arith, exhausted-attempts_of c row.attempt), refl),
        )
        | inr q ↦
            let (delay, d, time) =
              retry_time-IsDelay step_id message now clock num den c row.attempt h q in
            (
              retried_at c now (now + delay) row,
              there ∙ rw (q, time) refl,
              inr (ground (arith, exhausted-attempts_of c row.attempt), delay, d, refl),
            )
      ]
