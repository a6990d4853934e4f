-- ===== src/Domain/StateMachines/Hysteresis.antt =====
-- `satisfiesHysteresis` (packages/domain/src/state-machines.ts).
use chain_sieve.Base.{ℕ, ◌<◌, ◌≤◌, ◌≡◌, ◌↔◌, ◌⊎◌, true, List, [], ◌∷◌, ok, arith, inl, inr}
use chain_sieve.Domain.StateMachines.{
  CandidateLifecycle, lifecycle_rank, HysteresisPolicy, satisfies_hysteresis,
}

module _ (current candidate : CandidateLifecycle) (score elapsed : ℕ)
    (policy : HysteresisPolicy) where
  -- A move satisfies the hysteresis exactly if the demotion threshold is under the promotion
  -- threshold, the dwell time is over, and either the new state has the higher rank and the score is
  -- at least the promotion threshold, or it has the lower rank and the score is at most the demotion
  -- threshold.
  pub satisfies_hysteresis_iff :
      (satisfies_hysteresis current candidate score policy elapsed ≡ ok true) ↔ (
        (policy.demotion_threshold < policy.promotion_threshold)
        × (policy.minimum_dwell_ms ≤ elapsed)
        × (((lifecycle_rank current < lifecycle_rank candidate)
              × (policy.promotion_threshold ≤ score))
            ⊎ ((lifecycle_rank candidate < lifecycle_rank current)
                × (score ≤ policy.demotion_threshold))))
  unfolding satisfies_hysteresis
  satisfies_hysteresis_iff = (λ h. ground arith, λ h. ground arith)

-- moves at one score, each with its new state and with how long the state before has lasted
abbrev pub Follows :
    HysteresisPolicy
    → ℕ
    → CandidateLifecycle
    → List (CandidateLifecycle × ℕ)
    → CandidateLifecycle
    → Type 0
Follows policy score a [] b = a ≡ b
Follows policy score a ((c, elapsed) ∷ rest) b =
    (satisfies_hysteresis a c score policy elapsed ≡ ok true) × Follows policy score c rest b

module _ (policy : HysteresisPolicy) (score : ℕ)
    (ordered : policy.demotion_threshold < policy.promotion_threshold) where
  rising :
      (a b : CandidateLifecycle) (moves : List (CandidateLifecycle × ℕ))
      → policy.promotion_threshold ≤ score
      → Follows policy score a moves b
      → lifecycle_rank a ≤ lifecycle_rank b
  rising a b [] high e = rw e (omega arith)
  rising a b ((c, elapsed) ∷ rest) high (h, t) =
      ground
        (arith, (satisfies_hysteresis_iff a c score elapsed policy).0 h, rising c b rest high t)

  falling :
      (a b : CandidateLifecycle) (moves : List (CandidateLifecycle × ℕ))
      → score ≤ policy.demotion_threshold
      → Follows policy score a moves b
      → lifecycle_rank b ≤ lifecycle_rank a
  falling a b [] low e = rw e (omega arith)
  falling a b ((c, elapsed) ∷ rest) low (h, t) =
      ground
        (arith, (satisfies_hysteresis_iff a c score elapsed policy).0 h, falling c b rest low t)

-- Moves that satisfy the hysteresis one after another at one score never come back, however long each
-- state has lasted: one or more of them all together raise the rank of the state, and then the score is
-- at least the promotion threshold, or they lower it, and then the score is at most the demotion
-- threshold, which is under the other.
pub never_back :
    (policy : HysteresisPolicy) (score elapsed : ℕ) (a b c : CandidateLifecycle)
    (moves : List (CandidateLifecycle × ℕ))
    → Follows policy score a ((c, elapsed) ∷ moves) b
    → (policy.demotion_threshold < policy.promotion_threshold)
      × (((lifecycle_rank a < lifecycle_rank b) × (policy.promotion_threshold ≤ score))
          ⊎ ((lifecycle_rank b < lifecycle_rank a) × (score ≤ policy.demotion_threshold)))
never_back policy score elapsed a b c moves (h, t) =
    let (ordered, dwelt, way) = (satisfies_hysteresis_iff a c score elapsed policy).0 h in
    (
      ordered,
      elim way [
        | inl (up, high) ↦
            inl (omega (arith, up, rising policy score ordered c b moves high t), high)
        | inr (down, low) ↦
            inr (omega (arith, down, falling policy score ordered c b moves low t), low)
      ],
    )
