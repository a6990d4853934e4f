-- ===== src/Agent/Snapshot/Remaining.antt =====
-- What `getSnapshot` (packages/agent-runtime/src/budget-tracker.ts) says remains.
use chain_sieve.Base.{ℕ, ◌+◌, ◌≡◌, Option, none, some, arith}
use chain_sieve.Agent.Budget.{AgentBudget, Usage}
use chain_sieve.Agent.Budget.Bounds.{IsWithin, Under}
use chain_sieve.Agent.Snapshot.{UsageLine, usage_line, get_snapshot}

-- a counter and what a snapshot says remains
pub IsCounted : UsageLine → Type 0
IsCounted line = elim line.remaining [
  | none ↦ Unit
  | some r ↦ elim line.limit [ none ↦ ⊥ | some l ↦ line.current + r ≡ l ]
]

usage_line-IsCounted :
    (current : ℕ) (limit : Option ℕ) → Under limit current → IsCounted (usage_line current limit)
unfolding usage_line IsCounted
usage_line-IsCounted current none h = tt
usage_line-IsCounted current (some l) h = omega arith

-- While the counters are within their limits, in every line of a snapshot that has a limit, what has
-- been used and what remains make up that limit.
pub get_snapshot-IsCounted :
    (b : AgentBudget) (clock : ℕ) (u : Usage)
    → IsWithin b u
    → let s = get_snapshot b clock u in
      IsCounted s.steps
      × IsCounted s.tool_calls
      × IsCounted s.provider_calls
      × IsCounted s.input_tokens
      × IsCounted s.output_tokens
      × IsCounted s.model_cost_usd
      × IsCounted s.provider_cost_units
unfolding get_snapshot
get_snapshot-IsCounted b clock u h = (
  usage_line-IsCounted u.steps (some b.max_steps) h.steps,
  usage_line-IsCounted u.tool_calls (some b.max_tool_calls) h.tool_calls,
  usage_line-IsCounted u.provider_calls b.max_provider_calls h.provider_calls,
  usage_line-IsCounted u.input_tokens b.max_input_tokens h.input_tokens,
  usage_line-IsCounted u.output_tokens b.max_output_tokens h.output_tokens,
  usage_line-IsCounted u.model_cost_usd b.max_model_cost_usd h.model_cost_usd,
  usage_line-IsCounted u.provider_cost_units b.max_provider_cost_units h.provider_cost_units,
)
