-- ===== src/Workflow/Retry/Bounds.antt =====
-- Bounds on the retries and the delays of packages/workflow-runtime/src/index.ts.
use native.Mathlib.Nat.{
  mul-le-mul_left, pow-le-pow_right, lt_of_mul-lt-mul_right, le_of_mul-le-mul_right, lt-div-mul-add,
  div-mul-le_self,
}
use chain_sieve.Base.{ℕ, ◌+◌, ◌*◌, ◌≤◌, ◌<◌, ◌≡◌, true, arith}
use chain_sieve.Workflow.Store.{ErrorClass, auth_error}
use chain_sieve.Workflow.Retry.{
  compute_exponential_backoff, classify_retry, compute_jittered_backoff, has_exhausted_retries,
}

pub max_attempts-le : (c : ErrorClass) (attempt : ℕ) → (classify_retry c attempt).max_attempts ≤ 10
unfolding classify_retry
max_attempts-le auth_error a = ground arith
max_attempts-le _ a = ground arith

-- After nine failed attempts no class of error is retried.
pub exhausted_after_nine :
    (c : ErrorClass) (attempt : ℕ) → 9 ≤ attempt → has_exhausted_retries c attempt ≡ true
unfolding has_exhausted_retries
exhausted_after_nine c attempt h = ground (arith, max_attempts-le c attempt)

-- For a growing attempt the exponential delay never falls, and it never passes the cap.
pub backoff_mono :
    (a b base cap : ℕ)
    → a ≤ b
    → (compute_exponential_backoff a base cap ≤ compute_exponential_backoff b base cap)
      × (compute_exponential_backoff b base cap ≤ cap)
unfolding compute_exponential_backoff
backoff_mono a b base cap h =
    let grows = mul-le-mul_left base (pow-le-pow_right {n = 2} (omega arith) h) in omega arith

-- twice the exact delay times 5 * den, before the rounding
abbrev exact_scaled : ℕ → ℕ → ℕ → ℕ
exact_scaled backoff num den = 2 * (backoff * (4 * den + 2 * num))

round_above :
    (backoff num den q : ℕ)
    → 0 < den
    → exact_scaled backoff num den + 5 * den < q * (2 * (5 * den)) + 2 * (5 * den)
    → 4 * backoff ≤ 5 * q + 2
round_above backoff num den q pos h =
    let lt = lt_of_mul-lt-mul_right den {m = 8 * backoff} {n = 10 * q + 5} (omega arith) in
    omega arith

round_below :
    (backoff num den q : ℕ)
    → num < den
    → q * (2 * (5 * den)) ≤ exact_scaled backoff num den + 5 * den
    → 5 * q ≤ 6 * backoff + 2
round_below backoff num den q lt h =
    let small = mul-le-mul_left {m = num} {n = den} backoff (omega arith) in
    let le =
      le_of_mul-le-mul_right {m = 10 * q} {n = 12 * backoff + 5} {k = den} (omega arith)
        (omega arith) in
    omega arith

-- The jitter moves a delay by a fifth of it at most, up or down, but for the rounding to a whole
-- number of milliseconds.
pub jitter_bounds :
    (backoff num den : ℕ)
    → num < den
    → (4 * backoff ≤ 5 * compute_jittered_backoff backoff num den + 2)
      × (5 * compute_jittered_backoff backoff num den ≤ 6 * backoff + 2)
unfolding compute_jittered_backoff
jitter_bounds backoff num den h =
    let total = exact_scaled backoff num den + 5 * den in
    (
      round_above backoff num den _ (omega arith) (lt-div-mul-add {a = total} (omega arith)),
      round_below backoff num den _ h (div-mul-le_self total (2 * (5 * den))),
    )
