-- ===== src/Agent/Budget/Deadline.antt =====
-- The deadline of `AgentBudgetTracker` (packages/agent-runtime/src/budget-tracker.ts).
use chain_sieve.Base.{ℕ, ◌≤◌, ◌≡◌, refl, some, err, arith}
use chain_sieve.Agent.Budget.{
  AgentBudget, Usage, BudgetType, check_deadline, check_step, record_step, check_tool_call,
  record_tool_call, check_provider_call, record_provider_call, check_tokens, record_tokens,
  check_provider_cost_units, record_provider_cost_units,
}
use chain_sieve.Agent.Budget.Bounds.{Call, perform}

expired :
    (b : AgentBudget) (deadline clock : ℕ)
    → b.deadline_at ≡ some deadline
    → deadline ≤ clock
    → check_deadline b clock
      ≡ err (record {
        budget_type = BudgetType.deadline;
        current = clock;
        limit = deadline;
        requested = 0;
      })
unfolding check_deadline
expired b deadline clock e late = rw (e, check_deadline) (ground arith)

-- From the deadline on, every record operation throws the deadline's error, whatever is left.
pub deadline_stops_all :
    (b : AgentBudget) (deadline clock : ℕ) (call : Call) (u : Usage)
    → b.deadline_at ≡ some deadline
    → deadline ≤ clock
    → perform b clock call u
      ≡ err (record {
        budget_type = BudgetType.deadline;
        current = clock;
        limit = deadline;
        requested = 0;
      })
unfolding perform record_step check_step record_tool_call check_tool_call record_provider_call
    check_provider_call record_tokens check_tokens record_provider_cost_units
    check_provider_cost_units
deadline_stops_all b deadline clock (Call.step n) u e late =
    rw (expired b deadline clock e late, record_step, check_step) refl
deadline_stops_all b deadline clock (Call.tool_call c n) u e late =
    rw (expired b deadline clock e late, record_tool_call, check_tool_call) refl
deadline_stops_all b deadline clock (Call.provider_call n) u e late =
    rw (expired b deadline clock e late, record_provider_call, check_provider_call) refl
deadline_stops_all b deadline clock (Call.tokens i o c) u e late =
    rw (expired b deadline clock e late, record_tokens, check_tokens) refl
deadline_stops_all b deadline clock (Call.cost_units n) u e late =
    rw (expired b deadline clock e late, record_provider_cost_units, check_provider_cost_units) refl
