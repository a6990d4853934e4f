-- ===== src/Workflow/Fencing/Examples.antt =====
-- One step and two workers (packages/workflow-runtime/src/index.ts).
use mathlib.Core.Path.{refl}
use chain_sieve.Base.{ℕ, ◌≡◌, true, false, some, same, ok, arith, List, [], ◌∷◌}
use chain_sieve.Sql.Table.{row}
use chain_sieve.Sql.Exec.{alone}
use chain_sieve.Workflow.Store.{Db, WorkflowStepStatus}
use chain_sieve.Workflow.Samples.{alice, bob, step_1, step_row, one_step}
use chain_sieve.Workflow.Steps.{step}
use chain_sieve.Workflow.Fencing.{
  claimed, committed_row, claim_step_for_execution, commit_step_with_fencing,
}
use chain_sieve.Workflow.Fencing.Exclusive.{Attempt, after_rivals, only_claimer_commits}

abbrev ready : Db
ready = one_step WorkflowStepStatus.pending 0

-- alice claims the step until 60; then bob claims it at 70 and commits at 80
abbrev bobs : List Attempt
bobs = Attempt.claim bob 2 90 70 ∷ Attempt.commit bob 2 [] 80 ∷ []

abbrev contended : Db
contended =
    after_rivals step_1 alice bob 1 2 60 50 bobs ready (step_row WorkflowStepStatus.pending 0)

bob_is_not_alice : (bob ≡ alice × ◌≡◌ {A = ℕ} 2 1) → ⊥
bob_is_not_alice h = omega (arith, h.1)

there : step step_1 ready ≡ some (step_row WorkflowStepStatus.pending 0)
unfolding step row same
there = refl

-- bob tries again at 110 and 120, and alice commits at 130
only_claimer_commits_example :
    (step step_1 contended ≡ some (claimed alice 1 60 50 (step_row WorkflowStepStatus.pending 0)))
    × ((claim_step_for_execution step_1 bob 2 140 110 (alone contended)).0 ≡ ok false)
    × ((commit_step_with_fencing step_1 bob 2 [] 120 (alone contended)).0
        ≡ ok (record { committed = false; stale = true }))
    × (step step_1 (commit_step_with_fencing step_1 bob 2 [] 120 (alone contended)).1.state
        ≡ step step_1 contended)
    × ((commit_step_with_fencing step_1 alice 1 (7 ∷ []) 130 (alone contended)).0
        ≡ ok (record { committed = true; stale = false }))
    × (step step_1 (commit_step_with_fencing step_1 alice 1 (7 ∷ []) 130 (alone contended)).1.state
        ≡ some (
            committed_row
              (7 ∷ [])
              130
              (claimed alice 1 60 50 (step_row WorkflowStepStatus.pending 0))))
only_claimer_commits_example =
    only_claimer_commits step_1 alice bob 1 2 60 50 bobs ready
      (step_row WorkflowStepStatus.pending 0) (tt, tt) there refl
      (bob_is_not_alice, (bob_is_not_alice, tt)) bob_is_not_alice 140 110 120 130 [] (7 ∷ [])
