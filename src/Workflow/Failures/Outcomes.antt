-- ===== src/Workflow/Failures/Outcomes.antt =====
-- What a failure does to its step (packages/workflow-runtime/src/index.ts): it is retried or given up
-- by its class and its attempts, and no step is retried for ever.
use mathlib.Core.Option
use chain_sieve.Base.{
  ℕ, ◌+◌, ◌≤◌, ◌≡◌, ap, ◌∙◌, refl, not, ◌||◌, some, List, [], ◌∷◌, Text, same_refl, leb,
  if◌then◌else◌, arith, ok, Bool-cases, inl, inr, length,
}
use chain_sieve.Sql.Exec.{World, Exec, alone, turn, statement, fallible, ◌>>=◌, ◌>>◌}
use chain_sieve.Sql.Rely.{
  Preorder, Obeys, Kept-turn, Respects, Allowed-if, Allowed, Respects-fallible, Respects-statement,
  rely_rules,
}
use chain_sieve.Workflow.Store.{
  Db, StepRow, RunRow, AttemptRow, DeadLetterRow, WorkflowStepStatus, ErrorClass, Fault,
}
use chain_sieve.Workflow.Retry.{RetryDecision, classify_retry, has_exhausted_retries}
use chain_sieve.Workflow.Retry.Bounds.{exhausted_after_nine}
use chain_sieve.Workflow.Steps.{step, update_step, update_run}
use chain_sieve.Workflow.Steps.Rows.{step-update_step, same_rows}
use chain_sieve.Workflow.Failures.{
  insert_attempt, create_dead_letter_item, dead_lettered_row, failed_row, give_up, retry_time,
  schedule_retry, fail_row, record_step_failure,
}

-- nothing happens to the rows of the steps
abbrev pub steps_stay : Preorder Db
steps_stay = record {
  R = λ s t. t.workflow_steps ≡ s.workflow_steps;
  reflexive = λ s. refl;
  transitive = λ s t u h k. k ∙ h;
}

-- what writes another table only
rows_untouched :
    (s t : Db)
    → t.workflow_steps ≡ s.workflow_steps
    → Allowed {E = Fault} {A = Unit {0}} steps_stay s (ok (tt, t))
rows_untouched s t e = Allowed.taken e

insert_attempt-Respects : (a : AttemptRow) → Respects steps_stay (fallible (insert_attempt a))
unfolding insert_attempt
insert_attempt-Respects a =
    Respects-fallible steps_stay (insert_attempt a)
      (λ s. search (Allowed-if steps_stay, rows_untouched s _ refl, Allowed.refused))

create_dead_letter_item-Respects :
    (d : DeadLetterRow) → Respects steps_stay (create_dead_letter_item d)
unfolding create_dead_letter_item
create_dead_letter_item-Respects d = Respects-fallible steps_stay _ (λ s.
    search
      (Allowed-if steps_stay, rows_untouched s s refl, rows_untouched s _ refl, Allowed.refused))

update_run-Respects :
    (id : Text) (change : RunRow → RunRow)
    → Respects steps_stay (statement {E = Fault} (update_run id change))
unfolding update_run
update_run-Respects id change = Respects-statement steps_stay _ (λ s. refl)

module _ {A : Type 0} (id : Text) (change : StepRow → StepRow) (rest : Exec Db Fault A) where
  -- an update of the step and then what leaves the steps alone
  row-after-update :
      ((r : StepRow) → (change r).step_id ≡ r.step_id)
      → Respects steps_stay rest
      → (w : World Db) (row : StepRow) → Obeys steps_stay w.others
      → step id w.state ≡ some row
      → step id ((statement (update_step id change) >> rest) w).1.state ≡ some (change row)
  unfolding ◌>>=◌
  row-after-update keeps h w row o e =
      let k = Kept-turn steps_stay w o in
      let later =
        (h.at
          (record { state = (update_step id change (turn w).state).1; others = (turn w).others })
          k.others).state in
      same_rows id _ _ later
      ∙ step-update_step id id change (turn w).state keeps
      ∙ rw (same_refl id) (ap (Option.map change) (same_rows id _ _ k.state ∙ e))

exhausted_test :
    (c : ErrorClass) (attempt : ℕ)
    → not (classify_retry c attempt).retryable
        || leb (classify_retry c attempt).max_attempts (attempt + 1)
      ≡ has_exhausted_retries c attempt
unfolding has_exhausted_retries
exhausted_test c attempt = ground arith

module _ (step_id : Text) (c : ErrorClass) (message : Text) (now clock num den : ℕ) where
  -- the row of a step after one more failure
  abbrev pub after_failure : StepRow → StepRow
  after_failure row =
      if has_exhausted_retries c row.attempt
      then dead_lettered_row c now row
      else failed_row c
          (retry_time step_id c message now clock num den (classify_retry c row.attempt)) now row

  give_up-row :
      (w : World Db) (row read : StepRow)
      → Obeys steps_stay w.others
      → step step_id w.state ≡ some row
      → step step_id (give_up step_id c message now clock num den read w).1.state
        ≡ some (dead_lettered_row c now row)
  unfolding give_up
  give_up-row w row read =
      row-after-update step_id (dead_lettered_row c now) _ (λ r. refl)
        (search (
          rely_rules, insert_attempt-Respects, create_dead_letter_item-Respects,
          update_run-Respects,
        ))
        w row

  schedule_retry-row :
      (d : RetryDecision) (w : World Db) (row read : StepRow)
      → Obeys steps_stay w.others
      → step step_id w.state ≡ some row
      → step step_id (schedule_retry step_id c message now clock num den d read w).1.state
        ≡ some (failed_row c (retry_time step_id c message now clock num den d) now row)
  unfolding schedule_retry
  schedule_retry-row d w row read =
      row-after-update step_id (failed_row c _ now) _ (λ r. refl)
        (search (rely_rules, insert_attempt-Respects)) w row

  fail_row-row :
      (w : World Db) (row : StepRow)
      → Obeys steps_stay w.others
      → step step_id w.state ≡ some row
      → step step_id (fail_row step_id c message now clock num den (some row) w).1.state
        ≡ some (after_failure row)
  unfolding fail_row
  fail_row-row w row o e =
      rw (exhausted_test c row.attempt) (elim (Bool-cases (has_exhausted_retries c row.attempt)) [
        | inl q ↦ rw q (give_up-row w row row o e)
        | inr q ↦ rw q (schedule_retry-row (classify_retry c row.attempt) w row row o e)
      ])

  -- Recording a failure, whether it returns or throws in the middle, leaves the row of the step with
  -- one more attempt: dead-lettered if its class has no retries left, and otherwise failed with the
  -- time of the next retry. The others may do anything in the meantime but change steps.
  pub record_step_failure-row :
      (w : World Db) (row : StepRow)
      → Obeys steps_stay w.others
      → step step_id w.state ≡ some row
      → step step_id (record_step_failure step_id c message now clock num den w).1.state
        ≡ some (after_failure row)
  unfolding record_step_failure ◌>>=◌
  record_step_failure-row w row o e =
      let k = Kept-turn steps_stay w o in
      let f = same_rows step_id w.state (turn w).state k.state ∙ e in
      rw f (fail_row-row (turn w) row k.others f)

-- one failure: its class, its message, and what the clock and the random source give
pub record Failure : Type 0 where
  pub error_class : ErrorClass
  pub message : Text
  pub now : ℕ
  pub clock : ℕ
  pub num : ℕ
  pub den : ℕ

-- failures of one step, recorded one after another with nobody else acting
unfoldable pub fail_all : Text → List Failure → Db → Db
fail_all step_id [] s = s
fail_all step_id (f ∷ fs) s =
    fail_all step_id fs
      (record_step_failure step_id f.error_class f.message f.now f.clock f.num f.den
        (alone s)).1.state

attempt-after_failure :
    (step_id : Text) (f : Failure) (row : StepRow)
    → (after_failure step_id f.error_class f.message f.now f.clock f.num f.den row).attempt
      ≡ row.attempt + 1
attempt-after_failure step_id f row = ground arith

-- the state after one failure, and the row of the step in it
module _ (step_id : Text) (f : Failure) (s : Db) (row : StepRow) where
  abbrev failed_once : Db
  failed_once =
      (record_step_failure step_id f.error_class f.message f.now f.clock f.num f.den
        (alone s)).1.state

  abbrev row_after : StepRow
  row_after = after_failure step_id f.error_class f.message f.now f.clock f.num f.den row

  row-failed_once : step step_id s ≡ some row → step step_id failed_once ≡ some row_after
  row-failed_once e =
      record_step_failure-row step_id f.error_class f.message f.now f.clock f.num f.den (alone s)
        row tt e

  row_after-dead : 9 ≤ row.attempt → row_after ≡ dead_lettered_row f.error_class f.now row
  row_after-dead h = rw (exhausted_after_nine f.error_class row.attempt h)

abbrev pub IsDeadAfter : Text → Db → ℕ → Type 0
IsDeadAfter step_id s attempt =
    (last : StepRow) × (step step_id s ≡ some last)
    × (last.status ≡ WorkflowStepStatus.dead_lettered)
    × (last.attempt ≡ attempt)

-- No step is retried for ever: when failures that are recorded one after another, with nobody else
-- acting, bring a step to ten attempts or more, of whatever classes they are, the step ends
-- dead-lettered, and every failure has been counted.
pub fail_all-dead :
    (step_id : Text) (f : Failure) (fs : List Failure) (s : Db) (row : StepRow)
    → step step_id s ≡ some row
    → 10 ≤ row.attempt + length (f ∷ fs)
    → IsDeadAfter step_id (fail_all step_id (f ∷ fs) s) (row.attempt + length (f ∷ fs))
unfolding fail_all
fail_all-dead step_id f [] s row e h = (
  dead_lettered_row f.error_class f.now row,
  row-failed_once step_id f s row e ∙ rw (row_after-dead step_id f s row (omega arith)),
  refl,
  refl,
)
fail_all-dead step_id f (g ∷ fs) s row e h =
    let counted = attempt-after_failure step_id f row in
    let (last, there, dead, count) =
      fail_all-dead step_id g fs (failed_once step_id f s row) (row_after step_id f s row)
        (row-failed_once step_id f s row e) (omega (arith, counted)) in
    (last, there, dead, omega (arith, count, counted))
