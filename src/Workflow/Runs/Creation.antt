-- ===== src/Workflow/Runs/Creation.antt =====
-- `createWorkflowRun` with nobody else acting (packages/workflow-runtime/src/index.ts).
use chain_sieve.Base.{◌≡◌, refl, true, none, some, [], ◌∷◌, ◌++◌, Text, same, any, ok}
use chain_sieve.Sql.Exec.{alone, turn, ◌>>=◌, fallible, bind-ok, fallible-ok}
use chain_sieve.Workflow.Store.{Db, WorkflowRunStatus}
use chain_sieve.Workflow.Steps.{run}
use chain_sieve.Workflow.Runs.{
  CreateWorkflowRunInput, references_inbox, insert_run, after_insert_run, create_workflow_run,
  new_run,
}

insert_run-new :
    (input : CreateWorkflowRunInput) (s : Db)
    → run input.id s ≡ none
    → references_inbox input.trigger_inbox_id s ≡ true
    → insert_run input s
      ≡ ok
          (some (new_run input), record s { workflow_runs = s.workflow_runs ++ new_run input ∷ [] })
unfolding insert_run
insert_run-new input s fresh there = rw (fresh, insert_run) (rw there refl)

pub create_workflow_run-new :
    (input : CreateWorkflowRunInput) (id : Text) (s : Db)
    → input.trigger_inbox_id ≡ some id
    → run input.id s ≡ none
    → any (λ r. same r.id id) s.trigger_inbox ≡ true
    → create_workflow_run input (alone s) ≡ (
      ok (record { id = input.id; status = WorkflowRunStatus.pending }),
      alone (record s { workflow_runs = s.workflow_runs ++ new_run input ∷ [] }),
    )
unfolding create_workflow_run after_insert_run ◌>>=◌ turn
create_workflow_run-new input id s e fresh there =
    bind-ok (fallible (insert_run input)) (after_insert_run input) (alone s) _ _
      (fallible-ok (insert_run input) (alone s) _ _ (insert_run-new input s fresh (rw e there)))
