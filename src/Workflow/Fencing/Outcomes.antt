-- ===== src/Workflow/Fencing/Outcomes.antt =====
-- What one claim and one commit of a step answer and write
-- (packages/workflow-runtime/src/index.ts, "Lease Fencing").
use mathlib.Core.Option
use chain_sieve.Base.{
  ℕ, ◌≡◌, ◌∙◌, refl, true, false, Option, none, some, Text, same_refl, ◌==◌, if◌then◌else◌, length,
  ok, Bool-cases, inl, inr,
}
use chain_sieve.Sql.Exec.{World, alone, turn, ◌>>=◌}
use chain_sieve.Sql.Table.{IsKeyed}
use chain_sieve.Workflow.Store.{Db, StepRow}
use chain_sieve.Workflow.Steps.{step, update_steps}
use chain_sieve.Workflow.Steps.Rows.{fitting, updated_one, step-update_steps, IsKeyed-update_steps}
use chain_sieve.Workflow.Fencing.{
  is_claimable, has_token, claimed, committed_row, claim_step_for_execution, CommitResult,
  commit_refused, commit_step_with_fencing,
}

abbrev pub StepsKeyed : Db → Type 0
StepsKeyed s = IsKeyed (λ r. r.step_id) s.workflow_steps

module _ (step_id owner : Text) (version expires_at now : ℕ) where
  -- A claim succeeds exactly if the step is there, pending or failed, when its statement runs; then
  -- the step is running under the claimer's token, and otherwise its row is as it was.
  pub claim_lem :
      (w : World Db)
      → StepsKeyed (turn w).state
      → let (r, w') = claim_step_for_execution step_id owner version expires_at now w in
        let before = step step_id (turn w).state in
        (r ≡ ok (fitting (λ row. is_claimable row.status) before))
        × (step step_id w'.state
            ≡ Option.map
                (λ row.
                  if is_claimable row.status then claimed owner version expires_at now row else row)
                before)
  unfolding claim_step_for_execution ◌>>=◌
  claim_lem w h = (
    rw (
        updated_one step_id (λ row. is_claimable row.status) (claimed owner version expires_at now)
          (turn w).state h),
    simp (
      step-update_steps step_id (λ row. is_claimable row.status)
          (claimed owner version expires_at now) (turn w).state (λ r. refl),
      same_refl,
    ),
  )

module _ (step_id owner : Text) (version : ℕ) (output_hash : Text) (now : ℕ) where
  abbrev pub commit_outcome : Option StepRow → CommitResult
  commit_outcome before =
      if fitting (has_token owner version) before
      then record { committed = true; stale = false }
      else commit_refused owner version before

  abbrev pub after_commit : Option StepRow → Option StepRow
  after_commit =
      Option.map
        (λ row. if has_token owner version row then committed_row output_hash now row else row)

  row-commit :
      (s : Db)
      → step step_id
          (update_steps step_id (has_token owner version) (committed_row output_hash now) s).1
        ≡ after_commit (step step_id s)
  row-commit s = simp (
    step-update_steps step_id (has_token owner version) (committed_row output_hash now) s
        (λ r. refl),
    same_refl,
  )

  one-commit :
      (s : Db)
      → StepsKeyed s
      → length (update_steps step_id (has_token owner version) (committed_row output_hash now) s).0
          == 1
        ≡ fitting (has_token owner version) (step step_id s)
  one-commit s h = updated_one step_id (has_token owner version) (committed_row output_hash now) s h

  after_commit_refused :
      (o : Option StepRow) → fitting (has_token owner version) o ≡ false → after_commit o ≡ o
  after_commit_refused none h = refl
  after_commit_refused (some r) h = rw h

  -- With nobody else acting, a commit succeeds exactly if the row of the step carries the caller's
  -- token; then the row is completed with the output. Otherwise the row is as it was, and the answer
  -- is stale exactly if there is a row, under another token.
  pub commit_lem :
      (s : Db)
      → StepsKeyed s
      → let (r, w) = commit_step_with_fencing step_id owner version output_hash now (alone s) in
        (r ≡ ok (commit_outcome (step step_id s)))
        × (step step_id w.state ≡ after_commit (step step_id s))
  unfolding commit_step_with_fencing ◌>>=◌ turn
  commit_lem s h = elim (Bool-cases (fitting (has_token owner version) (step step_id s))) [
    | inl fits ↦ rw (one-commit s h, fits) (refl, row-commit s)
    | inr other ↦
        rw (one-commit s h, other)
          (rw (row-commit s, after_commit_refused (step step_id s) other) refl, row-commit s)
  ]

  pub StepsKeyed-commit :
      (s : Db)
      → StepsKeyed s
      → StepsKeyed
          (commit_step_with_fencing step_id owner version output_hash now (alone s)).1.state
  unfolding commit_step_with_fencing ◌>>=◌ turn
  StepsKeyed-commit s h =
      let kept =
        IsKeyed-update_steps step_id (has_token owner version) (committed_row output_hash now) s
          (λ r. refl) h in
      elim (Bool-cases (fitting (has_token owner version) (step step_id s))) [
        | inl fits ↦ rw (one-commit s h, fits) kept
        | inr other ↦ rw (one-commit s h, other) kept
      ]

module _ (step_id owner : Text) (version expires_at now : ℕ) where
  pub StepsKeyed-claim :
      (s : Db)
      → StepsKeyed s
      → StepsKeyed (claim_step_for_execution step_id owner version expires_at now (alone s)).1.state
  unfolding claim_step_for_execution ◌>>=◌ turn
  StepsKeyed-claim s h =
      IsKeyed-update_steps step_id (λ row. is_claimable row.status)
        (claimed owner version expires_at now) s (λ r. refl) h

  pub row-claim :
      (s : Db) (row : StepRow)
      → StepsKeyed s
      → step step_id s ≡ some row
      → is_claimable row.status ≡ true
      → step step_id
          (claim_step_for_execution step_id owner version expires_at now (alone s)).1.state
        ≡ some (claimed owner version expires_at now row)
  unfolding turn
  row-claim s row h e c =
      (claim_lem step_id owner version expires_at now (alone s) h).1 ∙ rw e (rw c)
