-- ===== src/Workflow/Runs/Completion.antt =====
-- `completeWorkflowRun` and `resumeFromCheckpoint` (packages/workflow-runtime/src/index.ts): what
-- they make of the steps of a run, in whatever order the database lists them.
use mathlib.Core.Option
use chain_sieve.Base.{
  ℕ, ◌≡◌, ◌∙◌, refl, ◌↔◌, All, ◌<◌, Bool, true, false, none, List, [], ◌∷◌, Text, same, same_refl,
  any, every, find, select, length, any-Perm, every-Perm, length-Perm, Perm, arith, ok,
}
use chain_sieve.Sql.Exec.{World, alone, turn, ◌>>=◌}
use chain_sieve.Workflow.Store.{Db, StepRow, WorkflowRunStatus, WorkflowStepStatus}
use chain_sieve.Workflow.Steps.{run}
use chain_sieve.Workflow.Steps.Rows.{run-update_run}
use chain_sieve.Workflow.Runs.{
  is_completed, is_dead, is_open, final_status, get_workflow_steps, resume_from_checkpoint,
  complete_workflow_run, finished,
}

abbrev pub steps_of : Text → Db → List StepRow
steps_of run_id s = select (λ r. same r.run_id run_id) s.workflow_steps

final_status-Perm : {xs ys : List StepRow} → Perm xs ys → final_status xs ≡ final_status ys
final_status-Perm p =
    rw
      (any-Perm (λ r. is_dead r.status) p, every-Perm (λ r. is_completed r.status) p, length-Perm p)
      refl

completed_all :
    (xs : List StepRow)
    → final_status xs ≡ WorkflowRunStatus.completed
    → every (λ r. is_completed r.status) xs ≡ true
completed_all xs h = ground arith

is_completed_eq :
    (status : WorkflowStepStatus)
    → is_completed status ≡ true
    → status ≡ WorkflowStepStatus.completed
is_completed_eq WorkflowStepStatus.completed h = refl
is_completed_eq _ h = ground arith

every-All :
    (xs : List StepRow)
    → every (λ r. is_completed r.status) xs ≡ true
    → All (λ r. r.status ≡ WorkflowStepStatus.completed) xs
every-All [] h = tt
every-All (x ∷ xs) h = (is_completed_eq x.status (ground arith), every-All xs (ground arith))

All-every :
    (xs : List StepRow)
    → All (λ r. r.status ≡ WorkflowStepStatus.completed) xs
    → (every (λ r. is_completed r.status) xs ≡ true) × (any (λ r. is_dead r.status) xs ≡ false)
All-every [] h = (refl, refl)
All-every (x ∷ xs) h = simp (h.0) (All-every xs h.1)

-- A run gets the completed status exactly if it has steps and all of them are completed.
pub final_status-completed :
    (xs : List StepRow)
    → (final_status xs ≡ WorkflowRunStatus.completed)
      ↔ ((0 < length xs) × All (λ r. r.status ≡ WorkflowStepStatus.completed) xs)
final_status-completed xs = (
  (λ h. (ground arith, every-All xs (completed_all xs h))),
  (λ h. let e = All-every xs h.1 in rw (e.1, e.0) (ground arith)),
)

select_all :
    (xs : List StepRow)
    → every (λ r. is_completed r.status) xs ≡ true
    → select (λ r. is_completed r.status) xs ≡ xs
select_all [] h = refl
select_all (x ∷ xs) h = ground (arith, select_all xs)

find-none :
    (xs : List StepRow)
    → every (λ r. is_completed r.status) xs ≡ true
    → find (λ r. is_open r.status) xs ≡ none
find-none [] h = refl
find-none (x ∷ xs) h = ground (arith, find-none xs)

module _ (arrange : List StepRow → List StepRow)
    (permutes : (xs : List StepRow) → Perm (arrange xs) xs) where
  -- The run gets its final status, the time of completion and the time of the update, and the status
  -- does not hang on the order in which the database lists the steps, so long as that is a permutation:
  -- the dead-lettered one if a step is dead-lettered, else the completed one if there are steps and all
  -- are completed, else the failed one. The steps are those at the first statement, whatever the others
  -- do before the second one.
  pub complete_workflow_run-status :
      (run_id : Text) (now : ℕ) (w : World Db)
      → let seen = turn w in
        run run_id (complete_workflow_run arrange run_id now w).1.state
        ≡ Option.map
            (finished (final_status (steps_of run_id seen.state)) now)
            (run run_id (turn seen).state)
  unfolding complete_workflow_run get_workflow_steps ◌>>=◌
  complete_workflow_run-status run_id now w =
      run-update_run run_id run_id _ (turn (turn w)).state (λ r. refl)
      ∙ rw (same_refl run_id, final_status-Perm (permutes (steps_of run_id (turn w).state))) refl

  every-arrange :
      (p : StepRow → Bool) (xs : List StepRow) → every p xs ≡ true → every p (arrange xs) ≡ true
  every-arrange p xs h = every-Perm p (permutes xs) ∙ h

  -- With nobody else acting, and the database listing a permutation of the steps: where the final
  -- status of a run's steps is the completed one, resuming the run finds all of its steps completed and
  -- no next step.
  pub completed_run-resume :
      (run_id : Text) (now : ℕ) (s : Db)
      → final_status (steps_of run_id s) ≡ WorkflowRunStatus.completed
      → (resume_from_checkpoint arrange run_id (alone s)).0
        ≡ ok (record { completed = arrange (steps_of run_id s); next = none })
  unfolding resume_from_checkpoint get_workflow_steps ◌>>=◌ turn
  completed_run-resume run_id now s h =
      let all =
        every-arrange (λ r. is_completed r.status) (steps_of run_id s)
          (completed_all (steps_of run_id s) h) in
      rw (select_all (arrange (steps_of run_id s)) all, find-none (arrange (steps_of run_id s)) all)
        refl
