-- ===== src/Workflow/Fencing.antt =====
-- `claimStepForExecution` and `commitStepWithFencing` (packages/workflow-runtime/src/index.ts,
-- "Lease Fencing"): a worker takes a step under its token (lease owner, lease version), and only
-- that token commits the step's output.
pub mod Outcomes
pub mod Exclusive
mod Examples
use chain_sieve.Base.{
  ℕ, Bool, true, false, not, ◌&&◌, ◌||◌, Option, none, some, List, [], ◌∷◌, Text, same, ◌==◌,
  if◌then◌else◌, length,
}
use chain_sieve.Sql.Exec.{Exec, pure, statement, continue, ◌>>=◌}
use chain_sieve.Workflow.Store.{Db, StepRow, WorkflowStepStatus, Fault}
use chain_sieve.Workflow.Steps.{step, update_steps}

-- `status IN ('PENDING','FAILED')`
abbrev pub is_claimable : WorkflowStepStatus → Bool
is_claimable WorkflowStepStatus.pending = true
is_claimable WorkflowStepStatus.failed = true
is_claimable _ = false

-- `lease_owner=$4`: a NULL owner is equal to nothing
abbrev pub is_owner : Option Text → Text → Bool
is_owner none owner = false
is_owner (some o) owner = same o owner

abbrev pub has_token : Text → ℕ → StepRow → Bool
has_token owner version r = is_owner r.lease_owner owner && r.lease_version == version

-- the SET of `claimStepForExecution`
abbrev pub claimed : Text → ℕ → ℕ → ℕ → StepRow → StepRow
claimed owner version expires_at now r = record r {
  lease_owner = some owner;
  lease_version = version;
  lease_expires_at = some expires_at;
  status = WorkflowStepStatus.running;
  started_at = some now;
  updated_at = now;
}

-- the SET of `commitStepWithFencing`
abbrev pub committed_row : Text → ℕ → StepRow → StepRow
committed_row output_hash now r = record r {
  output_hash = some output_hash;
  status = WorkflowStepStatus.completed;
  completed_at = some now;
  updated_at = now;
}

pub claim_step_for_execution : Text → Text → ℕ → ℕ → ℕ → Exec Db Fault Bool
claim_step_for_execution step_id owner version expires_at now = do
  rows ←
      statement
        (update_steps step_id (λ r. is_claimable r.status) (claimed owner version expires_at now))
  pure (length rows == 1)

pub record CommitResult : Type 0 where
  pub committed : Bool
  pub stale : Bool

-- `current.rows[0].lease_owner !== expectedOwner || lease_version !== expectedVersion`
abbrev pub commit_refused : Text → ℕ → Option StepRow → CommitResult
commit_refused owner version none = record { committed = false; stale = false }
commit_refused owner version (some r) = record {
  committed = false;
  stale = not (is_owner r.lease_owner owner) || not (r.lease_version == version);
}

pub commit_step_with_fencing : Text → Text → ℕ → Text → ℕ → Exec Db Fault CommitResult
commit_step_with_fencing step_id owner version output_hash now = do
  rows ← statement (update_steps step_id (has_token owner version) (committed_row output_hash now))
  if length rows == 1 then pure (record { committed = true; stale = false }) else do
    current ← statement (λ s. (step step_id s, s))
    pure (commit_refused owner version current)
