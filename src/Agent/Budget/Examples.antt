-- ===== src/Agent/Budget/Examples.antt =====
-- A small budget (packages/agent-runtime/src/budget-tracker.ts).

use chain_sieve.Base.{ℕ, some, none, List, [], ◌∷◌}
use chain_sieve.Agent.Budget.{AgentBudget, no_usage}
use chain_sieve.Agent.Budget.Bounds.{
  Call, perform_all, IsWithin, perform_all-IsWithin, no_usage-IsWithin,
}

abbrev budget : AgentBudget
budget = record {
  max_steps = 2;
  max_tool_calls = 3;
  max_tool_calls_per_candidate = some 1;
  max_provider_calls = none;
  max_input_tokens = some 100;
  max_output_tokens = none;
  max_model_cost_usd = none;
  max_provider_cost_units = none;
  deadline_at = some 1000;
}

abbrev calls : List (ℕ × Call)
calls = (10, Call.step 2) ∷ (20, Call.tool_call (some (99 ∷ [])) 1) ∷ (30, Call.step 1) ∷ []

perform_all-IsWithin_example : IsWithin budget (perform_all budget calls no_usage)
perform_all-IsWithin_example = perform_all-IsWithin budget calls no_usage (no_usage-IsWithin budget)
