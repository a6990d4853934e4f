-- ===== src/Workflow/Retry.antt =====
-- The retry taxonomy (packages/workflow-runtime/src/index.ts, "Retry Taxonomy"). `Math.random()` is
-- the fraction `num / den` with `num < den`, and the arithmetic is exact where the source has floats.
pub mod Bounds
mod Examples
use chain_sieve.Base.{
  ℕ, ◌+◌, ◌-◌, ◌*◌, ◌/◌, ◌^◌, Bool, true, false, not, ◌||◌, Option, none, some, min, ltb, leb, ◌==◌,
  if◌then◌else◌,
}
use chain_sieve.Workflow.Store.{
  ErrorClass, auth_error, invalid_input, rate_limit, timeout, http_5xx, schema_drift,
  model_format_error, budget_exceeded, serialization_conflict, notification_transient, other_class,
}

pub record RetryDecision : Type 0 where
  pub retryable : Bool
  pub max_attempts : ℕ
  pub backoff_ms : Option ℕ
  pub apply_jitter : Bool

unfoldable pub compute_exponential_backoff : ℕ → ℕ → ℕ → ℕ
compute_exponential_backoff attempt base_ms cap_ms = min (base_ms * 2 ^ attempt) cap_ms

abbrev no_retry : RetryDecision
no_retry = record { retryable = false; max_attempts = 1; backoff_ms = none; apply_jitter = false }

abbrev retry_up_to : ℕ → ℕ → RetryDecision
retry_up_to max backoff = record {
  retryable = true;
  max_attempts = max;
  backoff_ms = some backoff;
  apply_jitter = true;
}

unfoldable pub classify_retry : ErrorClass → ℕ → RetryDecision
classify_retry auth_error attempt = no_retry
classify_retry invalid_input attempt = no_retry
classify_retry budget_exceeded attempt = no_retry
classify_retry schema_drift attempt = no_retry
classify_retry model_format_error attempt = record {
  retryable = ltb attempt 1;
  max_attempts = 2;
  backoff_ms = if attempt == 0 then some 500 else none;
  apply_jitter = false;
}
classify_retry rate_limit attempt = retry_up_to 5 (compute_exponential_backoff attempt 1000 30000)
classify_retry timeout attempt = retry_up_to 5 (compute_exponential_backoff attempt 500 30000)
classify_retry http_5xx attempt = retry_up_to 5 (compute_exponential_backoff attempt 500 30000)
classify_retry serialization_conflict attempt = retry_up_to 10 50
classify_retry notification_transient attempt =
    retry_up_to 8 (compute_exponential_backoff attempt 1000 60000)
classify_retry (other_class name) attempt =
    retry_up_to 3 (compute_exponential_backoff attempt 1000 10000)

-- `Math.round (backoff + (2 * random - 1) * 0.2 * backoff)`, which is never negative. With
-- random = num / den this is backoff * (4 * den + 2 * num) / (5 * den), rounded half up.
unfoldable pub compute_jittered_backoff : ℕ → ℕ → ℕ → ℕ
compute_jittered_backoff backoff_ms num den =
    (2 * (backoff_ms * (4 * den + 2 * num)) + 5 * den) / (2 * (5 * den))

unfoldable pub has_exhausted_retries : ErrorClass → ℕ → Bool
has_exhausted_retries c attempt =
    let decision = classify_retry c attempt in
    if not decision.retryable then true else leb decision.max_attempts (attempt + 1)
