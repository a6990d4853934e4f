-- ===== src/Domain/StateMachines/Lifecycle.antt =====
-- Histories of validated transitions (packages/domain/src/state-machines.ts).
use chain_sieve.Base.{
  ℕ, ◌<◌, ◌≡◌, ◌≢◌, refl, true, false, not, Option, none, some, List, [], ◌∷◌, Text, length, ok,
  Bool-cases, inl, inr, arith,
}
use chain_sieve.Domain.StateMachines.{
  CandidateLifecycle, CandidateRiskState, lifecycle_rank, same_lifecycle, allowed_lifecycle,
  can_transition_lifecycle, lifecycle_of, risk_rank, same_risk, allowed_risk, can_transition_risk,
  StateTransition, is_after, validate_rest, check_lifecycle, validate_lifecycle_transition,
}

-- steps along ALLOWED_LIFECYCLE
pub data Reaches : CandidateLifecycle → CandidateLifecycle → Type 0 where
  stay : {s : CandidateLifecycle} → Reaches s s
  onward :
      {a b c : CandidateLifecycle} → can_transition_lifecycle a b ≡ true → Reaches b c → Reaches a c

pub Reaches-trans : {a b c : CandidateLifecycle} → Reaches a b → Reaches b c → Reaches a c
Reaches-trans Reaches.stay q = q
Reaches-trans (Reaches.onward e p) q = Reaches.onward e (Reaches-trans p q)

-- the first and the last state of a history are the texts `from` and `to`, and every transition in it
-- is validated and starts where the one before it ends
abbrev pub IsHistory : (Text → Option ℕ) → Text → List StateTransition → Text → Type 0
IsHistory parse_date from [] to = from ≡ to
IsHistory parse_date from (t ∷ ts) to =
    (t.from_state ≡ from)
    × (validate_lifecycle_transition parse_date t ≡ ok tt)
    × IsHistory parse_date t.to_state ts to

-- what a validated transition has
pub record IsValidated (parse_date : Text → Option ℕ) (t : StateTransition) : Type 0 where
  pub from : CandidateLifecycle
  pub to : CandidateLifecycle
  pub from_named : lifecycle_of t.from_state ≡ some from
  pub to_named : lifecycle_of t.to_state ≡ some to
  pub allowed : can_transition_lifecycle from to ≡ true
  pub has_reason : 0 < length t.reason_codes
  pub in_order : is_after (parse_date t.event_at) (parse_date t.recorded_at) ≡ false

module _ (parse_date : Text → Option ℕ) where
  rest-ok :
      (t : StateTransition)
      → validate_rest parse_date t ≡ ok tt
      → (0 < length t.reason_codes)
        × (is_after (parse_date t.event_at) (parse_date t.recorded_at) ≡ false)
  unfolding validate_rest
  rest-ok t e = ground arith

  passed :
      (t : StateTransition) (a b : CandidateLifecycle)
      → can_transition_lifecycle a b ≡ true
      → check_lifecycle parse_date (some a) (some b) t ≡ ok tt
      → validate_rest parse_date t ≡ ok tt
  unfolding check_lifecycle
  passed t a b q h = ground arith

  refused :
      (t : StateTransition) (a b : CandidateLifecycle)
      → can_transition_lifecycle a b ≡ false
      → check_lifecycle parse_date (some a) (some b) t ≡ ok tt
      → ⊥
  unfolding check_lifecycle
  refused t a b q h = ground arith

  validated :
      (t : StateTransition) (o o' : Option CandidateLifecycle)
      → lifecycle_of t.from_state ≡ o
      → lifecycle_of t.to_state ≡ o'
      → check_lifecycle parse_date o o' t ≡ ok tt
      → IsValidated parse_date t
  unfolding check_lifecycle
  validated t none o' e e' h = ground arith
  validated t (some a) none e e' h = ground arith
  validated t (some a) (some b) e e' h = elim (Bool-cases (can_transition_lifecycle a b)) [
    | inr q ↦ absurd (refused t a b q h)
    | inl q ↦
        let rest = rest-ok t (passed t a b q h) in
        record {
          from = a;
          to = b;
          from_named = e;
          to_named = e';
          allowed = q;
          has_reason = rest.0;
          in_order = rest.1;
        }
  ]

  -- A lifecycle transition passes its validation only if both states are known, the table allows it,
  -- it has a reason code, and its event is not after its record where both times can be read.
  pub validate-IsValidated :
      (t : StateTransition)
      → validate_lifecycle_transition parse_date t ≡ ok tt
      → IsValidated parse_date t
  unfolding validate_lifecycle_transition
  validate-IsValidated t e = validated t _ _ refl refl e

no_move :
    (b : CandidateLifecycle) → can_transition_lifecycle CandidateLifecycle.archived b ≡ true → ⊥
unfolding can_transition_lifecycle allowed_lifecycle
no_move b e = ground arith

-- Nothing leaves the archived state.
pub archived_for_good :
    (s : CandidateLifecycle)
    → Reaches CandidateLifecycle.archived s
    → s ≡ CandidateLifecycle.archived
archived_for_good _ Reaches.stay = refl
archived_for_good s (Reaches.onward {b = b} e p) = absurd (no_move b e)

-- from the first state along the stages
discovered-Reaches : (b : CandidateLifecycle) → Reaches CandidateLifecycle.discovered b
unfolding can_transition_lifecycle allowed_lifecycle same_lifecycle lifecycle_rank
discovered-Reaches CandidateLifecycle.discovered = Reaches.stay
discovered-Reaches CandidateLifecycle.qualified =
    Reaches.onward {b = CandidateLifecycle.qualified} refl (Reaches.stay)
discovered-Reaches CandidateLifecycle.emerging =
    Reaches.onward {b = CandidateLifecycle.qualified} refl
      (Reaches.onward {b = CandidateLifecycle.emerging} refl (Reaches.stay))
discovered-Reaches CandidateLifecycle.confirmed =
    Reaches.onward {b = CandidateLifecycle.qualified} refl (
      Reaches.onward {b = CandidateLifecycle.emerging} refl
        (Reaches.onward {b = CandidateLifecycle.confirmed} refl (Reaches.stay)))
discovered-Reaches CandidateLifecycle.monitoring =
    Reaches.onward {b = CandidateLifecycle.qualified} refl (
      Reaches.onward {b = CandidateLifecycle.emerging} refl (
        Reaches.onward {b = CandidateLifecycle.confirmed} refl
          (Reaches.onward {b = CandidateLifecycle.monitoring} refl (Reaches.stay))))
discovered-Reaches CandidateLifecycle.decaying =
    Reaches.onward {b = CandidateLifecycle.qualified} refl (
      Reaches.onward {b = CandidateLifecycle.emerging} refl (
        Reaches.onward {b = CandidateLifecycle.confirmed} refl (
          Reaches.onward {b = CandidateLifecycle.monitoring} refl
            (Reaches.onward {b = CandidateLifecycle.decaying} refl (Reaches.stay)))))
discovered-Reaches CandidateLifecycle.rejected =
    Reaches.onward {b = CandidateLifecycle.qualified} refl (
      Reaches.onward {b = CandidateLifecycle.emerging} refl (
        Reaches.onward {b = CandidateLifecycle.confirmed} refl (
          Reaches.onward {b = CandidateLifecycle.monitoring} refl (
            Reaches.onward {b = CandidateLifecycle.decaying} refl
              (Reaches.onward {b = CandidateLifecycle.rejected} refl (Reaches.stay))))))
discovered-Reaches CandidateLifecycle.archived =
    Reaches.onward {b = CandidateLifecycle.qualified} refl (
      Reaches.onward {b = CandidateLifecycle.emerging} refl (
        Reaches.onward {b = CandidateLifecycle.confirmed} refl (
          Reaches.onward {b = CandidateLifecycle.monitoring} refl (
            Reaches.onward {b = CandidateLifecycle.decaying} refl (
              Reaches.onward {b = CandidateLifecycle.rejected} refl
                (Reaches.onward {b = CandidateLifecycle.archived} refl (Reaches.stay)))))))

rejected_to_discovered : Reaches CandidateLifecycle.rejected CandidateLifecycle.discovered
unfolding can_transition_lifecycle allowed_lifecycle same_lifecycle lifecycle_rank
rejected_to_discovered = Reaches.onward {b = CandidateLifecycle.discovered} refl Reaches.stay

-- from the rejected state, through the first one, to every state
rejected-Reaches : (b : CandidateLifecycle) → Reaches CandidateLifecycle.rejected b
unfolding can_transition_lifecycle allowed_lifecycle same_lifecycle lifecycle_rank
rejected-Reaches CandidateLifecycle.rejected = Reaches.stay
rejected-Reaches CandidateLifecycle.archived =
    Reaches.onward {b = CandidateLifecycle.archived} refl Reaches.stay
rejected-Reaches CandidateLifecycle.discovered =
    Reaches-trans (rejected_to_discovered) (discovered-Reaches CandidateLifecycle.discovered)
rejected-Reaches CandidateLifecycle.qualified =
    Reaches-trans (rejected_to_discovered) (discovered-Reaches CandidateLifecycle.qualified)
rejected-Reaches CandidateLifecycle.emerging =
    Reaches-trans (rejected_to_discovered) (discovered-Reaches CandidateLifecycle.emerging)
rejected-Reaches CandidateLifecycle.confirmed =
    Reaches-trans (rejected_to_discovered) (discovered-Reaches CandidateLifecycle.confirmed)
rejected-Reaches CandidateLifecycle.monitoring =
    Reaches-trans (rejected_to_discovered) (discovered-Reaches CandidateLifecycle.monitoring)
rejected-Reaches CandidateLifecycle.decaying =
    Reaches-trans (rejected_to_discovered) (discovered-Reaches CandidateLifecycle.decaying)

to_rejected :
    (a : CandidateLifecycle)
    → a ≢ CandidateLifecycle.archived
    → Reaches a CandidateLifecycle.rejected
unfolding can_transition_lifecycle allowed_lifecycle same_lifecycle lifecycle_rank
to_rejected CandidateLifecycle.rejected h = Reaches.stay
to_rejected CandidateLifecycle.archived h = absurd (h refl)
to_rejected _ h = Reaches.onward {b = CandidateLifecycle.rejected} refl Reaches.stay

-- Every state is still to be reached from every state but the archived one.
pub all_reached : (a b : CandidateLifecycle) → a ≢ CandidateLifecycle.archived → Reaches a b
all_reached a b h = Reaches-trans (to_rejected a h) (rejected-Reaches b)

-- Every move of the risk state to another risk state is allowed, and no move to itself.
pub can_transition_risk_lem :
    (a b : CandidateRiskState) → can_transition_risk a b ≡ not (same_risk a b)
unfolding can_transition_risk allowed_risk same_risk risk_rank
can_transition_risk_lem a b = ground arith
