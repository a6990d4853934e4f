-- ===== src/Agent/Budget/Bounds.antt =====
-- The counters of `AgentBudgetTracker` never pass their limits
-- (packages/agent-runtime/src/budget-tracker.ts).
use chain_sieve.Base.{
  ℕ, ◌+◌, ◌≤◌, ◌≡◌, refl, Option, none, some, List, [], ◌∷◌, Text, same, Outcome, ok, err,
  Bool-cases, inl, inr, arith,
}
use chain_sieve.Agent.Budget.{
  AgentBudget, Usage, BudgetType, BudgetExceededError, no_usage, also, check_limit, check_optional,
  named, check_deadline, check_step, record_step, check_candidate, check_tool_call, count_candidate,
  record_tool_call, check_provider_call, record_provider_call, check_tokens, record_tokens,
  check_provider_cost_units, record_provider_cost_units,
}

-- a record operation of the tracker
pub data Call : Type 0 where
  step : ℕ → Call
  tool_call : Option Text → ℕ → Call
  provider_call : ℕ → Call
  tokens : ℕ → ℕ → ℕ → Call
  cost_units : ℕ → Call

unfoldable pub perform : AgentBudget → ℕ → Call → Usage → Outcome BudgetExceededError Usage
perform b clock (Call.step n) u = record_step b clock n u
perform b clock (Call.tool_call c n) u = record_tool_call b clock c n u
perform b clock (Call.provider_call n) u = record_provider_call b clock n u
perform b clock (Call.tokens i o c) u = record_tokens b clock i o c u
perform b clock (Call.cost_units n) u = record_provider_cost_units b clock n u

-- a call that throws leaves the counters as they are
abbrev pub kept : Usage → Outcome BudgetExceededError Usage → Usage
kept u (ok u') = u'
kept u (err e) = u

-- calls in a row, each with the time at which it is made
unfoldable pub perform_all : AgentBudget → List (ℕ × Call) → Usage → Usage
perform_all b [] u = u
perform_all b ((clock, call) ∷ calls) u = perform_all b calls (kept u (perform b clock call u))

abbrev pub Under : Option ℕ → ℕ → Type 0
Under none n = Unit
Under (some limit) n = n ≤ limit

-- every counter is within its limit
pub record IsWithin (b : AgentBudget) (u : Usage) : Type 0 where
  pub steps : u.steps ≤ b.max_steps
  pub tool_calls : u.tool_calls ≤ b.max_tool_calls
  pub by_candidate : (c : Text) → Under b.max_tool_calls_per_candidate (u.tool_calls_by_candidate c)
  pub provider_calls : Under b.max_provider_calls u.provider_calls
  pub input_tokens : Under b.max_input_tokens u.input_tokens
  pub output_tokens : Under b.max_output_tokens u.output_tokens
  pub model_cost_usd : Under b.max_model_cost_usd u.model_cost_usd
  pub provider_cost_units : Under b.max_provider_cost_units u.provider_cost_units

check_limit-Passes :
    (t : BudgetType) (current limit requested : ℕ)
    → check_limit t current limit requested ≡ ok tt
    → current + requested ≤ limit
unfolding check_limit
check_limit-Passes t current limit requested e = ground arith

check_optional-Under :
    (t : BudgetType) (current : ℕ) (limit : Option ℕ) (requested : ℕ)
    → check_optional t current limit requested ≡ ok tt
    → Under limit (current + requested)
unfolding check_optional
check_optional-Under t current none requested e = tt
check_optional-Under t current (some limit) requested e =
    check_limit-Passes t current limit requested e

also-ok :
    (a b : Outcome BudgetExceededError (Unit {0})) → also a b ≡ ok tt → (a ≡ ok tt) × (b ≡ ok tt)
also-ok (ok _) b e = (refl, e)
also-ok (err x) b e = ground arith

module _ (b : AgentBudget) (clock : ℕ) (u : Usage) (h : IsWithin b u) where
  IsWithin-kept :
      (checked : Outcome BudgetExceededError (Unit {0})) (u' : Usage)
      → (checked ≡ ok tt → IsWithin b u')
      → IsWithin b (kept u (elim checked [ err e ↦ err e | ok _ ↦ ok u' ]))
  IsWithin-kept (ok _) u' f = f refl
  IsWithin-kept (err e) u' f = h

  IsWithin-step : (n : ℕ) → IsWithin b (kept u (record_step b clock n u))
  unfolding record_step check_step
  IsWithin-step n = IsWithin-kept (check_step b clock n u) _ (λ e. record {
    steps =
        check_limit-Passes BudgetType.steps u.steps b.max_steps n
          (also-ok (check_deadline b clock) _ e).1;
    tool_calls = h.tool_calls;
    by_candidate = h.by_candidate;
    provider_calls = h.provider_calls;
    input_tokens = h.input_tokens;
    output_tokens = h.output_tokens;
    model_cost_usd = h.model_cost_usd;
    provider_cost_units = h.provider_cost_units;
  })

  Under-candidate :
      (candidate : Option Text) (n : ℕ) (c : Text)
      → check_candidate b candidate n u ≡ ok tt
      → Under b.max_tool_calls_per_candidate
          ((count_candidate candidate n u).tool_calls_by_candidate c)
  unfolding count_candidate check_candidate
  Under-candidate none n c e = h.by_candidate c
  Under-candidate (some k) n c e = elim (Bool-cases (same k c)) [
    | inl q ↦ rw q (check_optional-Under _ _ b.max_tool_calls_per_candidate n e)
    | inr q ↦ rw q (h.by_candidate c)
  ]

  IsWithin-counted :
      (candidate : Option Text) (n : ℕ)
      → u.tool_calls + n ≤ b.max_tool_calls
      → check_candidate b candidate n u ≡ ok tt
      → IsWithin b (count_candidate candidate n (record u { tool_calls = u.tool_calls + n }))
  unfolding count_candidate
  IsWithin-counted none n le e = record {
    steps = h.steps;
    tool_calls = le;
    by_candidate = h.by_candidate;
    provider_calls = h.provider_calls;
    input_tokens = h.input_tokens;
    output_tokens = h.output_tokens;
    model_cost_usd = h.model_cost_usd;
    provider_cost_units = h.provider_cost_units;
  }
  IsWithin-counted (some k) n le e = record {
    steps = h.steps;
    tool_calls = le;
    by_candidate = λ c. Under-candidate (some k) n c e;
    provider_calls = h.provider_calls;
    input_tokens = h.input_tokens;
    output_tokens = h.output_tokens;
    model_cost_usd = h.model_cost_usd;
    provider_cost_units = h.provider_cost_units;
  }

  IsWithin-tool_call :
      (candidate : Option Text) (n : ℕ)
      → IsWithin b (kept u (record_tool_call b clock candidate n u))
  unfolding record_tool_call check_tool_call
  IsWithin-tool_call candidate n = IsWithin-kept (check_tool_call b clock candidate n u) _ (λ e.
      let checks =
        also-ok (check_limit BudgetType.tool_calls u.tool_calls b.max_tool_calls n) _
          (also-ok (check_deadline b clock) _ e).1 in
      IsWithin-counted (named candidate) n
        (check_limit-Passes BudgetType.tool_calls u.tool_calls b.max_tool_calls n checks.0)
        checks.1)

  IsWithin-provider_call : (n : ℕ) → IsWithin b (kept u (record_provider_call b clock n u))
  unfolding record_provider_call check_provider_call
  IsWithin-provider_call n = IsWithin-kept (check_provider_call b clock n u) _ (λ e. record {
    steps = h.steps;
    tool_calls = h.tool_calls;
    by_candidate = h.by_candidate;
    provider_calls =
        check_optional-Under _ u.provider_calls b.max_provider_calls n
          (also-ok (check_deadline b clock) _ e).1;
    input_tokens = h.input_tokens;
    output_tokens = h.output_tokens;
    model_cost_usd = h.model_cost_usd;
    provider_cost_units = h.provider_cost_units;
  })

  IsWithin-tokens : (i o c : ℕ) → IsWithin b (kept u (record_tokens b clock i o c u))
  unfolding record_tokens check_tokens
  IsWithin-tokens i o c = IsWithin-kept (check_tokens b clock i o c u) _ (λ e.
      let first =
        also-ok (check_optional BudgetType.input_tokens u.input_tokens b.max_input_tokens i) _
          (also-ok (check_deadline b clock) _ e).1 in
      let second =
        also-ok (check_optional BudgetType.output_tokens u.output_tokens b.max_output_tokens o) _
          first.1 in
      record {
        steps = h.steps;
        tool_calls = h.tool_calls;
        by_candidate = h.by_candidate;
        provider_calls = h.provider_calls;
        input_tokens = check_optional-Under _ u.input_tokens b.max_input_tokens i first.0;
        output_tokens = check_optional-Under _ u.output_tokens b.max_output_tokens o second.0;
        model_cost_usd = check_optional-Under _ u.model_cost_usd b.max_model_cost_usd c second.1;
        provider_cost_units = h.provider_cost_units;
      })

  IsWithin-cost_units : (n : ℕ) → IsWithin b (kept u (record_provider_cost_units b clock n u))
  unfolding record_provider_cost_units check_provider_cost_units
  IsWithin-cost_units n = IsWithin-kept (check_provider_cost_units b clock n u) _ (λ e. record {
    steps = h.steps;
    tool_calls = h.tool_calls;
    by_candidate = h.by_candidate;
    provider_calls = h.provider_calls;
    input_tokens = h.input_tokens;
    output_tokens = h.output_tokens;
    model_cost_usd = h.model_cost_usd;
    provider_cost_units =
        check_optional-Under _ u.provider_cost_units b.max_provider_cost_units n
          (also-ok (check_deadline b clock) _ e).1;
  })

  IsWithin-perform : (call : Call) → IsWithin b (kept u (perform b clock call u))
  unfolding perform
  IsWithin-perform (Call.step n) = IsWithin-step n
  IsWithin-perform (Call.tool_call c n) = IsWithin-tool_call c n
  IsWithin-perform (Call.provider_call n) = IsWithin-provider_call n
  IsWithin-perform (Call.tokens i o c) = IsWithin-tokens i o c
  IsWithin-perform (Call.cost_units n) = IsWithin-cost_units n

-- From counters within their limits, whatever is recorded in whatever order and at whatever times,
-- every counter stays within its limit, the count of each candidate included; a call that throws
-- changes nothing.
pub perform_all-IsWithin :
    (b : AgentBudget) (calls : List (ℕ × Call)) (u : Usage)
    → IsWithin b u
    → IsWithin b (perform_all b calls u)
unfolding perform_all
perform_all-IsWithin b [] u h = h
perform_all-IsWithin b ((clock, call) ∷ calls) u h =
    perform_all-IsWithin b calls _ (IsWithin-perform b clock u h call)

Under-zero : (limit : Option ℕ) → Under limit 0
Under-zero none = tt
Under-zero (some l) = omega arith

-- the counters of a new tracker
pub no_usage-IsWithin : (b : AgentBudget) → IsWithin b no_usage
no_usage-IsWithin b = record {
  steps = omega arith;
  tool_calls = omega arith;
  by_candidate = λ c. Under-zero b.max_tool_calls_per_candidate;
  provider_calls = Under-zero b.max_provider_calls;
  input_tokens = Under-zero b.max_input_tokens;
  output_tokens = Under-zero b.max_output_tokens;
  model_cost_usd = Under-zero b.max_model_cost_usd;
  provider_cost_units = Under-zero b.max_provider_cost_units;
}
