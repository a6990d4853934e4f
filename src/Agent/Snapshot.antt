-- ===== src/Agent/Snapshot.antt =====
-- `AgentBudgetTracker.getSnapshot` (packages/agent-runtime/src/budget-tracker.ts).
pub mod Remaining
use chain_sieve.Base.{ℕ, ◌-◌, Bool, false, Option, none, some, Text, leb}
use chain_sieve.Agent.Budget.{AgentBudget, Usage}

-- one counter of a snapshot; a limit that is undefined leaves `remaining` undefined
pub record UsageLine : Type 0 where
  pub current : ℕ
  pub limit : Option ℕ
  pub remaining : Option ℕ

pub record BudgetUsageSnapshot : Type 0 where
  pub steps : UsageLine
  pub tool_calls : UsageLine
  pub tool_calls_by_candidate : Text → ℕ
  pub provider_calls : UsageLine
  pub input_tokens : UsageLine
  pub output_tokens : UsageLine
  pub model_cost_usd : UsageLine
  pub provider_cost_units : UsageLine
  pub deadline_at : Option ℕ
  pub is_expired : Bool

-- `Math.max(0, limit - current)`
unfoldable pub usage_line : ℕ → Option ℕ → UsageLine
usage_line current none = record { current = current; limit = none; remaining = none }
usage_line current (some limit) = record {
  current = current;
  limit = some limit;
  remaining = some (limit - current);
}

unfoldable pub has_expired : Option ℕ → ℕ → Bool
has_expired none clock = false
has_expired (some d) clock = leb d clock

unfoldable pub get_snapshot : AgentBudget → ℕ → Usage → BudgetUsageSnapshot
unfolding usage_line has_expired
get_snapshot budget clock u = record {
  steps = usage_line u.steps (some budget.max_steps);
  tool_calls = usage_line u.tool_calls (some budget.max_tool_calls);
  tool_calls_by_candidate = u.tool_calls_by_candidate;
  provider_calls = usage_line u.provider_calls budget.max_provider_calls;
  input_tokens = usage_line u.input_tokens budget.max_input_tokens;
  output_tokens = usage_line u.output_tokens budget.max_output_tokens;
  model_cost_usd = usage_line u.model_cost_usd budget.max_model_cost_usd;
  provider_cost_units = usage_line u.provider_cost_units budget.max_provider_cost_units;
  deadline_at = budget.deadline_at;
  is_expired = has_expired budget.deadline_at clock;
}
