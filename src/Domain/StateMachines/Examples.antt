-- ===== src/Domain/StateMachines/Examples.antt =====
-- Transitions at some inputs (packages/domain/src/state-machines.ts).
use mathlib.Core.Path.{refl}
use chain_sieve.Base.{
  ℕ, ◌<◌, ◌≤◌, ◌⊎◌, ◌≡◌, ◌≢◌, Option, some, none, [], ◌∷◌, Text, same, codes, ok, arith,
}
use chain_sieve.Domain.StateMachines.{
  CandidateLifecycle, HysteresisPolicy, StateTransition, lifecycle_rank, lifecycle_of,
  same_lifecycle, allowed_lifecycle, can_transition_lifecycle, can_transition_risk, same_risk,
  validate_rest, check_lifecycle, validate_lifecycle_transition, check_risk,
  validate_risk_transition, risk_of, allowed_risk, risk_rank, is_after, satisfies_hysteresis,
}
use chain_sieve.Domain.StateMachines.Lifecycle.{
  Reaches, IsValidated, validate-IsValidated, all_reached,
}
use chain_sieve.Domain.StateMachines.Hysteresis.{Follows, never_back}

-- dates that are given by the length of their text
abbrev parse : Text → Option ℕ
parse [] = some 0
parse (c ∷ s) = none

abbrev qualify : StateTransition
qualify = record {
  from_state = codes "DISCOVERED";
  to_state = codes "QUALIFIED";
  reason_codes = [] ∷ [];
  event_at = [];
  recorded_at = [];
}

valid : validate_lifecycle_transition parse qualify ≡ ok tt
unfolding validate_lifecycle_transition check_lifecycle validate_rest lifecycle_of
    can_transition_lifecycle allowed_lifecycle same_lifecycle lifecycle_rank codes same is_after
valid = refl

validate-IsValidated_example : IsValidated parse qualify
validate-IsValidated_example = validate-IsValidated parse qualify valid

-- a risk transition that is valid
valid_risk :
    validate_risk_transition parse
      (record qualify { from_state = codes "LOW"; to_state = codes "HIGH" })
    ≡ ok tt
unfolding validate_risk_transition check_risk validate_rest risk_of can_transition_risk allowed_risk
    same_risk risk_rank codes same is_after
valid_risk = refl

decaying_is_not_archived : CandidateLifecycle.decaying ≢ CandidateLifecycle.archived
decaying_is_not_archived e = ground arith

all_reached_example : Reaches CandidateLifecycle.decaying CandidateLifecycle.confirmed
all_reached_example =
    all_reached CandidateLifecycle.decaying CandidateLifecycle.confirmed decaying_is_not_archived

abbrev policy : HysteresisPolicy
policy = record { promotion_threshold = 70; demotion_threshold = 40; minimum_dwell_ms = 1000 }

-- LIFECYCLE_ORDER ranks REJECTED above the other two
both_rise :
    Follows policy 80 CandidateLifecycle.discovered
      ((CandidateLifecycle.emerging, 1000) ∷ (CandidateLifecycle.rejected, 2000) ∷ [])
      CandidateLifecycle.rejected
unfolding satisfies_hysteresis lifecycle_rank
both_rise = (refl, (refl, refl))

never_back_example :
    (40 < 70)
    × (((lifecycle_rank CandidateLifecycle.discovered < lifecycle_rank CandidateLifecycle.rejected)
          × (70 ≤ 80))
        ⊎ ((lifecycle_rank CandidateLifecycle.rejected
              < lifecycle_rank CandidateLifecycle.discovered)
            × (80 ≤ 40)))
never_back_example =
    never_back policy 80 1000 CandidateLifecycle.discovered CandidateLifecycle.rejected
      CandidateLifecycle.emerging ((CandidateLifecycle.rejected, 2000) ∷ []) both_rise
