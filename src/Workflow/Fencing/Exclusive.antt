-- ===== src/Workflow/Fencing/Exclusive.antt =====
-- What the workers without the token do to a step that is claimed
-- (packages/workflow-runtime/src/index.ts, "Lease Fencing").
use chain_sieve.Base.{
  ℕ, ◌≡◌, ◌∙◌, refl, true, false, ◌&&◌, some, List, [], ◌∷◌, Text, same, same_iff, same_refl, ◌==◌,
  arith, ok, Bool-cases, inl, inr, All,
}
use chain_sieve.Sql.Exec.{alone, turn}
use chain_sieve.Workflow.Store.{Db, StepRow}
use chain_sieve.Workflow.Steps.{step}
use chain_sieve.Workflow.Fencing.{
  is_claimable, claimed, committed_row, claim_step_for_execution, commit_step_with_fencing,
}
use chain_sieve.Workflow.Fencing.Outcomes.{
  StepsKeyed, StepsKeyed-claim, StepsKeyed-commit, claim_lem, commit_lem, row-claim,
}

-- what a worker tries on a step, each with its own token and times
pub data Attempt : Type 0 where
  claim : (owner : Text) (version expires_at now : ℕ) → Attempt
  commit : (owner : Text) (version : ℕ) (output_hash : Text) (now : ℕ) → Attempt

-- the token of an attempt is another one
abbrev pub IsRival : Text → ℕ → Attempt → Type 0
IsRival owner version (Attempt.claim second version' e n) = second ≡ owner × version' ≡ version → ⊥
IsRival owner version (Attempt.commit second version' o n) = second ≡ owner × version' ≡ version → ⊥

unfoldable pub attempt_step : Text → Attempt → Db → Db
attempt_step step_id (Attempt.claim owner version expires_at now) s =
    (claim_step_for_execution step_id owner version expires_at now (alone s)).1.state
attempt_step step_id (Attempt.commit owner version output_hash now) s =
    (commit_step_with_fencing step_id owner version output_hash now (alone s)).1.state

unfoldable pub attempt_all : Text → List Attempt → Db → Db
attempt_all step_id [] s = s
attempt_all step_id (a ∷ rest) s = attempt_all step_id rest (attempt_step step_id a s)

other_token :
    (first second : Text) (version version' : ℕ)
    → (second ≡ first × version' ≡ version → ⊥)
    → same first second && version == version' ≡ false
other_token first second version version' ne =
    elim (Bool-cases (same first second && version == version')) [
      | inl e ↦ absurd (ne (ground (arith, same_iff first second)))
      | inr e ↦ e
    ]

-- one rival attempt leaves the row of a step that is claimed as it is
module _ (step_id first : Text) (version expires_at now : ℕ) (row : StepRow) where
  abbrev held_row : StepRow
  held_row = claimed first version expires_at now row

  IsHeldIn : Db → Type 0
  IsHeldIn s = StepsKeyed s × (step step_id s ≡ some held_row)

  IsHeldIn-attempt_step :
      (a : Attempt) (s : Db)
      → IsRival first version a
      → IsHeldIn s
      → IsHeldIn (attempt_step step_id a s)
  unfolding attempt_step turn IsHeldIn
  IsHeldIn-attempt_step (Attempt.claim second version' e n) s ne (keyed, there) = (
    StepsKeyed-claim step_id second version' e n s keyed,
    (claim_lem step_id second version' e n (alone s) keyed).1 ∙ rw there refl,
  )
  IsHeldIn-attempt_step (Attempt.commit second version' o n) s ne (keyed, there) = (
    StepsKeyed-commit step_id second version' o n s keyed,
    (commit_lem step_id second version' o n s keyed).1
        ∙ rw there (rw (other_token first second version version' ne) refl),
  )

  IsHeldIn-attempt_all :
      (attempts : List Attempt) (s : Db)
      → All (IsRival first version) attempts
      → IsHeldIn s
      → IsHeldIn (attempt_all step_id attempts s)
  unfolding attempt_all
  IsHeldIn-attempt_all [] s rivals held = held
  IsHeldIn-attempt_all (a ∷ rest) s rivals held =
      IsHeldIn-attempt_all rest (attempt_step step_id a s) rivals.1
        (IsHeldIn-attempt_step a s rivals.0 held)

module _ (step_id first second : Text) (version version' expires_at now : ℕ) (rivals : List Attempt)
    (s : Db) (row : StepRow) where
  -- the database after the claim and after what the rivals have tried
  abbrev pub after_rivals : Db
  after_rivals =
      attempt_all step_id rivals
        (claim_step_for_execution step_id first version expires_at now (alone s)).1.state

  -- When a worker has claimed a step that was pending or failed, and since then only claims and
  -- commits of the step under other tokens have run, as many as there are and at whatever times, then
  -- the row of the step is as the claim has left it; a further claim under another token, at whatever
  -- time, is refused; a further commit under another token is refused as stale and leaves the row as
  -- it is; and a commit under the claimer's own token succeeds and completes the step with its
  -- output. The ids of the steps are distinct.
  pub only_claimer_commits :
      StepsKeyed s
      → step step_id s ≡ some row
      → is_claimable row.status ≡ true
      → All (IsRival first version) rivals
      → (second ≡ first × version' ≡ version → ⊥)
      → (rival_expires_at claim_time commit_time own_time : ℕ) (rival_output own_output : Text)
      → let (r, w) =
          commit_step_with_fencing step_id second version' rival_output commit_time
            (alone after_rivals) in
        let (own, w') =
          commit_step_with_fencing step_id first version own_output own_time (alone after_rivals) in
        (step step_id after_rivals ≡ some (claimed first version expires_at now row))
        × ((claim_step_for_execution step_id second version' rival_expires_at claim_time
              (alone after_rivals)).0
            ≡ ok false)
        × (r ≡ ok (record { committed = false; stale = true }))
        × (step step_id w.state ≡ step step_id after_rivals)
        × (own ≡ ok (record { committed = true; stale = false }))
        × (step step_id w'.state
            ≡ some (committed_row own_output own_time (claimed first version expires_at now row)))
  unfolding turn IsHeldIn
  only_claimer_commits h e c others ne rival_expires_at claim_time commit_time own_time rival_output
        own_output =
      let (keyed, there) =
        IsHeldIn-attempt_all step_id first version expires_at now row rivals
          (claim_step_for_execution step_id first version expires_at now (alone s)).1.state others
          (
            StepsKeyed-claim step_id first version expires_at now s h,
            row-claim step_id first version expires_at now s row h e c,
          ) in
      let own = commit_lem step_id first version own_output own_time after_rivals keyed in
      let refused =
        commit_lem step_id second version' rival_output commit_time after_rivals keyed in
      let q = other_token first second version version' ne in
      (
        there,
        (claim_lem step_id second version' rival_expires_at claim_time (alone after_rivals) keyed).0
            ∙ rw there refl,
        refused.0 ∙ rw there (ground arith),
        refused.1 ∙ rw there (rw q refl),
        own.0 ∙ rw there (ground (arith, same_refl first)),
        own.1 ∙ rw there (ground (arith, same_refl first)),
      )
