-- ===== src/Workflow/Runs/Examples.antt =====
-- Runs at some inputs (packages/workflow-runtime/src/index.ts); the database lists the steps as they
-- were inserted.
use mathlib.Core.List.Perm
use mathlib.Core.Path.{refl}
use chain_sieve.Base.{
  ◌≡◌, none, List, [], ◌∷◌, ◌++◌, same, codes, decimal, pad_start, ok, length, Perm,
}
use chain_sieve.Sql.Exec.{alone, turn, ◌>>=◌}
use chain_sieve.Sql.Table.{row}
use chain_sieve.Workflow.Store.{Db, StepRow, WorkflowStepStatus, WorkflowRunStatus}
use chain_sieve.Workflow.Samples.{run_1, one_step, key}
use chain_sieve.Workflow.Steps.{run}
use chain_sieve.Workflow.Runs.{
  final_status, WorkflowStepDefinition, step_name, by_idempotency_key, insert_step, existing_step,
  after_insert_step, create_workflow_step, ensure_steps_from, create_workflow_run, insert_run,
  after_insert_run, existing_run, ensure_workflow_steps,
}
use chain_sieve.Workflow.Runs.Completion.{steps_of}

abbrev as_inserted : List StepRow → List StepRow
as_inserted xs = xs

as_inserted-Perm : (xs : List StepRow) → Perm (as_inserted xs) xs
as_inserted-Perm xs = Perm.refl xs

abbrev done : Db
done = one_step WorkflowStepStatus.completed 1

all_done : final_status (steps_of run_1 done) ≡ WorkflowRunStatus.completed
unfolding same
all_done = refl

-- the names of the steps that are made for a run
first_name : step_name run_1 0 ≡ run_1 ++ codes "--step-001"
unfolding step_name codes decimal pad_start
first_name = refl

abbrev definition : WorkflowStepDefinition
definition = record { step_type = []; idempotency_key = key; input_hash = [] }

-- a step that is defined twice under one key is made once
made_once :
    length
      (ensure_workflow_steps run_1
        (definition ∷ definition ∷ [])
        0
        (alone done)).1.state.workflow_steps
    ≡ 2
unfolding ensure_workflow_steps ensure_steps_from create_workflow_step after_insert_step
    existing_step insert_step by_idempotency_key step_name codes decimal pad_start row same ◌>>=◌
    turn
made_once = refl

-- a run whose id is taken is not made again
taken_run :
    (create_workflow_run
      (record {
        id = run_1;
        workflow_name = [];
        schedule_id = none;
        trigger_inbox_id = none;
        now = 9;
      })
      (alone done)).0
    ≡ ok (record { id = run_1; status = WorkflowRunStatus.running })
unfolding create_workflow_run insert_run after_insert_run existing_run run row same ◌>>=◌ turn
taken_run = refl
