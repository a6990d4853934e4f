-- ===== src/Domain/StateMachines.antt =====
-- The candidate's lifecycle and risk (packages/domain/src/state-machines.ts). `Date.parse` is the
-- parameter `parse_date`, with none for NaN; scores and thresholds are whole numbers of one unit, of
-- which only the order is used.
pub mod Lifecycle
pub mod Hysteresis
mod Examples
use chain_sieve.Base.{
  ℕ, Bool, true, false, not, ◌&&◌, ◌||◌, Option, none, some, List, [], ◌∷◌, Text, same, codes, ltb,
  leb, if◌then◌else◌, any, length, Outcome, ok, err,
}

pub data CandidateLifecycle : Type 0 where
  discovered qualified emerging confirmed monitoring decaying rejected archived : CandidateLifecycle

pub data CandidateRiskState : Type 0 where
  unknown low medium high critical conflicting : CandidateRiskState

-- LIFECYCLE_ORDER
unfoldable pub lifecycle_rank : CandidateLifecycle → ℕ
lifecycle_rank CandidateLifecycle.discovered = 0
lifecycle_rank CandidateLifecycle.qualified = 1
lifecycle_rank CandidateLifecycle.emerging = 2
lifecycle_rank CandidateLifecycle.confirmed = 3
lifecycle_rank CandidateLifecycle.monitoring = 4
lifecycle_rank CandidateLifecycle.decaying = 5
lifecycle_rank CandidateLifecycle.rejected = 6
lifecycle_rank CandidateLifecycle.archived = 7

unfoldable pub risk_rank : CandidateRiskState → ℕ
risk_rank CandidateRiskState.unknown = 0
risk_rank CandidateRiskState.low = 1
risk_rank CandidateRiskState.medium = 2
risk_rank CandidateRiskState.high = 3
risk_rank CandidateRiskState.critical = 4
risk_rank CandidateRiskState.conflicting = 5

-- `===` on states
unfoldable pub same_lifecycle : CandidateLifecycle → CandidateLifecycle → Bool
unfolding lifecycle_rank
same_lifecycle a b =
    leb (lifecycle_rank a) (lifecycle_rank b) && leb (lifecycle_rank b) (lifecycle_rank a)

unfoldable pub same_risk : CandidateRiskState → CandidateRiskState → Bool
unfolding risk_rank
same_risk a b = leb (risk_rank a) (risk_rank b) && leb (risk_rank b) (risk_rank a)

-- ALLOWED_LIFECYCLE
unfoldable pub allowed_lifecycle : CandidateLifecycle → List CandidateLifecycle
allowed_lifecycle CandidateLifecycle.discovered =
    CandidateLifecycle.qualified ∷ CandidateLifecycle.rejected ∷ CandidateLifecycle.archived ∷ []
allowed_lifecycle CandidateLifecycle.qualified =
    CandidateLifecycle.emerging ∷ CandidateLifecycle.rejected ∷ CandidateLifecycle.archived ∷ []
allowed_lifecycle CandidateLifecycle.emerging =
    CandidateLifecycle.confirmed ∷ CandidateLifecycle.monitoring ∷ CandidateLifecycle.rejected
    ∷ CandidateLifecycle.archived ∷ []
allowed_lifecycle CandidateLifecycle.confirmed =
    CandidateLifecycle.monitoring ∷ CandidateLifecycle.decaying ∷ CandidateLifecycle.rejected
    ∷ CandidateLifecycle.archived ∷ []
allowed_lifecycle CandidateLifecycle.monitoring =
    CandidateLifecycle.decaying ∷ CandidateLifecycle.confirmed ∷ CandidateLifecycle.rejected
    ∷ CandidateLifecycle.archived ∷ []
allowed_lifecycle CandidateLifecycle.decaying =
    CandidateLifecycle.monitoring ∷ CandidateLifecycle.rejected ∷ CandidateLifecycle.archived ∷ []
allowed_lifecycle CandidateLifecycle.rejected =
    CandidateLifecycle.archived ∷ CandidateLifecycle.discovered ∷ []
allowed_lifecycle CandidateLifecycle.archived = []

-- ALLOWED_RISK
unfoldable pub allowed_risk : CandidateRiskState → List CandidateRiskState
allowed_risk CandidateRiskState.unknown =
    CandidateRiskState.low ∷ CandidateRiskState.medium ∷ CandidateRiskState.high
    ∷ CandidateRiskState.critical ∷ CandidateRiskState.conflicting ∷ []
allowed_risk CandidateRiskState.low =
    CandidateRiskState.medium ∷ CandidateRiskState.high ∷ CandidateRiskState.critical
    ∷ CandidateRiskState.conflicting ∷ CandidateRiskState.unknown ∷ []
allowed_risk CandidateRiskState.medium =
    CandidateRiskState.low ∷ CandidateRiskState.high ∷ CandidateRiskState.critical
    ∷ CandidateRiskState.conflicting ∷ CandidateRiskState.unknown ∷ []
allowed_risk CandidateRiskState.high =
    CandidateRiskState.medium ∷ CandidateRiskState.critical ∷ CandidateRiskState.conflicting
    ∷ CandidateRiskState.low ∷ CandidateRiskState.unknown ∷ []
allowed_risk CandidateRiskState.critical =
    CandidateRiskState.high ∷ CandidateRiskState.conflicting ∷ CandidateRiskState.medium
    ∷ CandidateRiskState.low ∷ CandidateRiskState.unknown ∷ []
allowed_risk CandidateRiskState.conflicting =
    CandidateRiskState.unknown ∷ CandidateRiskState.low ∷ CandidateRiskState.medium
    ∷ CandidateRiskState.high ∷ CandidateRiskState.critical ∷ []

unfoldable pub can_transition_lifecycle : CandidateLifecycle → CandidateLifecycle → Bool
can_transition_lifecycle from to = any (λ s. same_lifecycle s to) (allowed_lifecycle from)

unfoldable pub can_transition_risk : CandidateRiskState → CandidateRiskState → Bool
can_transition_risk from to = any (λ s. same_risk s to) (allowed_risk from)

-- `isCandidateLifecycle`, and the state of that name
unfoldable pub lifecycle_of : Text → Option CandidateLifecycle
lifecycle_of t =
    if same t (codes "DISCOVERED")
    then some CandidateLifecycle.discovered
    else if same t (codes "QUALIFIED")
    then some CandidateLifecycle.qualified
    else if same t (codes "EMERGING")
    then some CandidateLifecycle.emerging
    else if same t (codes "CONFIRMED")
    then some CandidateLifecycle.confirmed
    else if same t (codes "MONITORING")
    then some CandidateLifecycle.monitoring
    else if same t (codes "DECAYING")
    then some CandidateLifecycle.decaying
    else if same t (codes "REJECTED")
    then some CandidateLifecycle.rejected
    else if same t (codes "ARCHIVED")
    then some CandidateLifecycle.archived
    else none

-- `isCandidateRiskState`, and the state of that name
unfoldable pub risk_of : Text → Option CandidateRiskState
risk_of t =
    if same t (codes "UNKNOWN")
    then some CandidateRiskState.unknown
    else if same t (codes "LOW")
    then some CandidateRiskState.low
    else if same t (codes "MEDIUM")
    then some CandidateRiskState.medium
    else if same t (codes "HIGH")
    then some CandidateRiskState.high
    else if same t (codes "CRITICAL")
    then some CandidateRiskState.critical
    else if same t (codes "CONFLICTING")
    then some CandidateRiskState.conflicting
    else none

-- the fields of a transition that are validated; the states are texts at run time
pub record StateTransition : Type 0 where
  pub from_state : Text
  pub to_state : Text
  pub reason_codes : List Text
  pub event_at : Text
  pub recorded_at : Text

pub data TransitionError : Type 0 where
  invalid_lifecycle_state lifecycle_transition_not_allowed invalid_risk_state
        risk_transition_not_allowed :
      TransitionError
  reason_codes_required event_after_recorded : TransitionError

-- `a > b` on two numbers of which either may be NaN
unfoldable pub is_after : Option ℕ → Option ℕ → Bool
is_after (some a) (some b) = ltb b a
is_after _ _ = false

module _ (parse_date : Text → Option ℕ) where
  -- the checks that both validations end with
  unfoldable pub validate_rest : StateTransition → Outcome TransitionError (Unit {0})
  unfolding is_after
  validate_rest t =
      if leb (length t.reason_codes) 0
      then err TransitionError.reason_codes_required
      else if is_after (parse_date t.event_at) (parse_date t.recorded_at)
      then err TransitionError.event_after_recorded
      else ok tt

  -- the checks of a transition between two states, where the texts name states
  unfoldable pub check_lifecycle :
      Option CandidateLifecycle
      → Option CandidateLifecycle
      → StateTransition
      → Outcome TransitionError (Unit {0})
  check_lifecycle (some from) (some to) t =
      if not (can_transition_lifecycle from to)
      then err TransitionError.lifecycle_transition_not_allowed
      else validate_rest t
  check_lifecycle _ _ t = err TransitionError.invalid_lifecycle_state

  unfoldable pub validate_lifecycle_transition :
      StateTransition → Outcome TransitionError (Unit {0})
  validate_lifecycle_transition t =
      check_lifecycle (lifecycle_of t.from_state) (lifecycle_of t.to_state) t

  -- the checks of a transition between two states, where the texts name states
  unfoldable pub check_risk :
      Option CandidateRiskState
      → Option CandidateRiskState
      → StateTransition
      → Outcome TransitionError (Unit {0})
  check_risk (some from) (some to) t =
      if not (can_transition_risk from to)
      then err TransitionError.risk_transition_not_allowed
      else validate_rest t
  check_risk _ _ t = err TransitionError.invalid_risk_state

  unfoldable pub validate_risk_transition : StateTransition → Outcome TransitionError (Unit {0})
  validate_risk_transition t = check_risk (risk_of t.from_state) (risk_of t.to_state) t

pub record HysteresisPolicy : Type 0 where
  pub promotion_threshold : ℕ
  pub demotion_threshold : ℕ
  pub minimum_dwell_ms : ℕ

pub data HysteresisError : Type 0 where
  hysteresis_thresholds_invalid : HysteresisError

unfoldable pub satisfies_hysteresis :
    CandidateLifecycle
    → CandidateLifecycle
    → ℕ
    → HysteresisPolicy
    → ℕ
    → Outcome HysteresisError Bool
unfolding lifecycle_rank
satisfies_hysteresis current candidate score policy elapsed =
    if leb policy.promotion_threshold policy.demotion_threshold
    then err hysteresis_thresholds_invalid
    else if ltb elapsed policy.minimum_dwell_ms
    then ok false
    else if ltb (lifecycle_rank current) (lifecycle_rank candidate)
    then ok (leb policy.promotion_threshold score)
    else if ltb (lifecycle_rank candidate) (lifecycle_rank current)
    then ok (leb score policy.demotion_threshold)
    else ok false
