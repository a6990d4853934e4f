-- ===== src/Workflow/Steps/Rows.antt =====
-- What the shared statements of packages/workflow-runtime/src/index.ts do to the row of one key.
use mathlib.Core.Option
use chain_sieve.Base.{
  ◌≡◌, refl, Bool, false, ◌==◌, length, arith, Option, none, some, [], ◌∷◌, Text, same,
  if◌then◌else◌,
}
use chain_sieve.Sql.Table.{
  IsKeyed, select-row, row-update_where, row-update_where-key, IsKeyed-update_where,
}
use chain_sieve.Workflow.Store.{Db, StepRow, RunRow}
use chain_sieve.Workflow.Steps.{step, run, update_steps, update_step, update_run}

-- the primary keys of the tables
pub record IsKeyedDb (s : Db) : Type 0 where
  pub steps : IsKeyed (λ r. r.step_id) s.workflow_steps
  pub runs : IsKeyed (λ r. r.id) s.workflow_runs

-- whether the row of a key is there and fits
abbrev pub fitting : (StepRow → Bool) → Option StepRow → Bool
fitting fits none = false
fitting fits (some r) = fits r

one_row :
    (fits : StepRow → Bool) (o : Option StepRow)
    → length (elim o [ none ↦ [] | some r ↦ if fits r then r ∷ [] else [] ]) == 1 ≡ fitting fits o
one_row fits none = refl
one_row fits (some r) = ground arith

module _ (id : Text) (fits : StepRow → Bool) (change : StepRow → StepRow) (s : Db) where
  -- RETURNING gives the one row of the key, if it fits
  pub updated-update_steps :
      IsKeyed (λ r. r.step_id) s.workflow_steps
      → (update_steps id fits change s).0
        ≡ elim (step id s) [ none ↦ [] | some r ↦ if fits r then r ∷ [] else [] ]
  unfolding update_steps step
  updated-update_steps h = select-row (λ r. r.step_id) id fits s.workflow_steps h

  -- `result.rows.length === 1`
  pub updated_one :
      IsKeyed (λ r. r.step_id) s.workflow_steps
      → length (update_steps id fits change s).0 == 1 ≡ fitting fits (step id s)
  updated_one h = rw (updated-update_steps h) (one_row fits (step id s))

  module _ (keeps : (r : StepRow) → (change r).step_id ≡ r.step_id) where
    pub step-update_steps :
        (j : Text)
        → step j (update_steps id fits change s).1 ≡ (
            if same id j
            then Option.map (λ r. if fits r then change r else r) (step j s)
            else step j s)
    unfolding update_steps step
    step-update_steps j = row-update_where (λ r. r.step_id) change keeps j id fits s.workflow_steps

    pub IsKeyed-update_steps :
        IsKeyed (λ r. r.step_id) s.workflow_steps
        → IsKeyed (λ r. r.step_id) (update_steps id fits change s).1.workflow_steps
    unfolding update_steps
    IsKeyed-update_steps h = IsKeyed-update_where (λ r. r.step_id) change keeps _ s.workflow_steps h

pub run-update_run :
    (j id : Text) (change : RunRow → RunRow) (s : Db)
    → ((r : RunRow) → (change r).id ≡ r.id)
    → run j (update_run id change s).1
      ≡ (if same id j then Option.map change (run j s) else run j s)
unfolding update_run run
run-update_run j id change s keeps =
    row-update_where-key (λ r. r.id) change keeps j id s.workflow_runs

pub step-update_step :
    (j id : Text) (change : StepRow → StepRow) (s : Db)
    → ((r : StepRow) → (change r).step_id ≡ r.step_id)
    → step j (update_step id change s).1
      ≡ (if same id j then Option.map change (step j s) else step j s)
unfolding update_step step
step-update_step j id change s keeps =
    row-update_where-key (λ r. r.step_id) change keeps j id s.workflow_steps

-- the row of a step hangs on the table of the steps alone
pub same_rows : (id : Text) (s t : Db) → t.workflow_steps ≡ s.workflow_steps → step id t ≡ step id s
unfolding step
same_rows id s t e = rw e
