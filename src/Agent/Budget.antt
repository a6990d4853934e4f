-- ===== src/Agent/Budget.antt =====
-- `AgentBudgetTracker` (packages/agent-runtime/src/budget-tracker.ts). The counts and limits are those
-- of `AgentBudgetSchema` (non-negative whole numbers); model costs are whole numbers of one unit, where
-- the source has floats. `Date.now()` is the argument `clock`, and times are milliseconds.
pub mod Bounds
pub mod Deadline
mod Examples
use chain_sieve.Base.{
  ℕ, zero, suc, ◌+◌, ◌-◌, Bool, true, false, not, ◌&&◌, Option, none, some, List, [], ◌∷◌, Text,
  same, ltb, leb, if◌then◌else◌, or_else, Outcome, ok, err,
}

pub record AgentBudget : Type 0 where
  pub max_steps : ℕ
  pub max_tool_calls : ℕ
  pub max_tool_calls_per_candidate : Option ℕ
  pub max_provider_calls : Option ℕ
  pub max_input_tokens : Option ℕ
  pub max_output_tokens : Option ℕ
  pub max_model_cost_usd : Option ℕ
  pub max_provider_cost_units : Option ℕ
  pub deadline_at : Option ℕ

-- the counters of the tracker; `tool_calls_by_candidate` is the map, with 0 for a missing key
pub record Usage : Type 0 where
  pub steps : ℕ
  pub tool_calls : ℕ
  pub tool_calls_by_candidate : Text → ℕ
  pub provider_calls : ℕ
  pub input_tokens : ℕ
  pub output_tokens : ℕ
  pub model_cost_usd : ℕ
  pub provider_cost_units : ℕ

pub data BudgetType : Type 0 where
  deadline steps tool_calls tool_calls_per_candidate provider_calls input_tokens output_tokens :
      BudgetType
  model_cost_usd provider_cost_units : BudgetType

pub record BudgetExceededError : Type 0 where
  pub budget_type : BudgetType
  pub current : ℕ
  pub limit : ℕ
  pub requested : ℕ

abbrev pub no_usage : Usage
no_usage = record {
  steps = 0;
  tool_calls = 0;
  tool_calls_by_candidate = λ c. 0;
  provider_calls = 0;
  input_tokens = 0;
  output_tokens = 0;
  model_cost_usd = 0;
  provider_cost_units = 0;
}

-- the first error of two checks
abbrev pub also :
    Outcome BudgetExceededError (Unit {0})
    → Outcome BudgetExceededError (Unit {0})
    → Outcome BudgetExceededError (Unit {0})
also (ok _) r = r
also (err e) r = err e

-- `if (current + requested > limit) throw …`
unfoldable pub check_limit : BudgetType → ℕ → ℕ → ℕ → Outcome BudgetExceededError (Unit {0})
check_limit t current limit requested =
    if ltb limit (current + requested)
    then err (record { budget_type = t; current = current; limit = limit; requested = requested })
    else ok tt

-- the same with a limit that may be undefined
unfoldable pub check_optional :
    BudgetType → ℕ → Option ℕ → ℕ → Outcome BudgetExceededError (Unit {0})
unfolding check_limit
check_optional t current none requested = ok tt
check_optional t current (some limit) requested = check_limit t current limit requested

-- `if (candidateId)`: absent or empty counts as no candidate
unfoldable pub named : Option Text → Option Text
named none = none
named (some c) = if same c [] then none else some c

unfoldable pub count_candidate : Option Text → ℕ → Usage → Usage
count_candidate none count u = u
count_candidate (some c) count u = record u {
  tool_calls_by_candidate =
      λ k. if same c k then u.tool_calls_by_candidate c + count else u.tool_calls_by_candidate k;
}

module _ (budget : AgentBudget) where
  unfoldable pub check_deadline : ℕ → Outcome BudgetExceededError (Unit {0})
  check_deadline clock = elim budget.deadline_at [
    | none ↦ ok tt
    | some d ↦
        if leb d clock
        then err (record {
          budget_type = BudgetType.deadline;
          current = clock;
          limit = d;
          requested = 0;
        })
        else ok tt
  ]

  unfoldable pub check_step : ℕ → ℕ → Usage → Outcome BudgetExceededError (Unit {0})
  check_step clock requested u =
      also (check_deadline clock) (check_limit BudgetType.steps u.steps budget.max_steps requested)

  unfoldable pub record_step : ℕ → ℕ → Usage → Outcome BudgetExceededError Usage
  record_step clock count u = elim (check_step clock count u) [
    | err e ↦ err e
    | ok _ ↦ ok (record u { steps = u.steps + count })
  ]

  unfoldable pub check_candidate : Option Text → ℕ → Usage → Outcome BudgetExceededError (Unit {0})
  check_candidate none requested u = ok tt
  check_candidate (some c) requested u =
      check_optional BudgetType.tool_calls_per_candidate (u.tool_calls_by_candidate c)
        budget.max_tool_calls_per_candidate requested

  unfoldable pub check_tool_call :
      ℕ → Option Text → ℕ → Usage → Outcome BudgetExceededError (Unit {0})
  check_tool_call clock candidate requested u = also (check_deadline clock) (
      also (check_limit BudgetType.tool_calls u.tool_calls budget.max_tool_calls requested)
        (check_candidate (named candidate) requested u))

  unfoldable pub record_tool_call : ℕ → Option Text → ℕ → Usage → Outcome BudgetExceededError Usage
  record_tool_call clock candidate count u = elim (check_tool_call clock candidate count u) [
    | err e ↦ err e
    | ok _ ↦
        ok
          (count_candidate (named candidate) count (record u { tool_calls = u.tool_calls + count }))
  ]

  unfoldable pub check_provider_call : ℕ → ℕ → Usage → Outcome BudgetExceededError (Unit {0})
  check_provider_call clock requested u = also (check_deadline clock) (
      check_optional BudgetType.provider_calls u.provider_calls budget.max_provider_calls requested)

  unfoldable pub record_provider_call : ℕ → ℕ → Usage → Outcome BudgetExceededError Usage
  record_provider_call clock count u = elim (check_provider_call clock count u) [
    | err e ↦ err e
    | ok _ ↦ ok (record u { provider_calls = u.provider_calls + count })
  ]

  unfoldable pub check_tokens : ℕ → ℕ → ℕ → ℕ → Usage → Outcome BudgetExceededError (Unit {0})
  check_tokens clock input output cost u = also (check_deadline clock) (
      also (check_optional BudgetType.input_tokens u.input_tokens budget.max_input_tokens input) (
        also
          (check_optional BudgetType.output_tokens u.output_tokens budget.max_output_tokens output)
          (check_optional BudgetType.model_cost_usd u.model_cost_usd budget.max_model_cost_usd
            cost)))

  unfoldable pub record_tokens : ℕ → ℕ → ℕ → ℕ → Usage → Outcome BudgetExceededError Usage
  record_tokens clock input output cost u = elim (check_tokens clock input output cost u) [
    | err e ↦ err e
    | ok _ ↦ ok (record u {
      input_tokens = u.input_tokens + input;
      output_tokens = u.output_tokens + output;
      model_cost_usd = u.model_cost_usd + cost;
    })
  ]

  unfoldable pub check_provider_cost_units : ℕ → ℕ → Usage → Outcome BudgetExceededError (Unit {0})
  check_provider_cost_units clock requested u = also (check_deadline clock) (
      check_optional BudgetType.provider_cost_units u.provider_cost_units
        budget.max_provider_cost_units requested)

  unfoldable pub record_provider_cost_units : ℕ → ℕ → Usage → Outcome BudgetExceededError Usage
  record_provider_cost_units clock units u = elim (check_provider_cost_units clock units u) [
    | err e ↦ err e
    | ok _ ↦ ok (record u { provider_cost_units = u.provider_cost_units + units })
  ]
