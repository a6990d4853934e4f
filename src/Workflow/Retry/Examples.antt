-- ===== src/Workflow/Retry/Examples.antt =====
-- The retry taxonomy at some inputs (packages/workflow-runtime/src/index.ts).
use chain_sieve.Base.{◌+◌, ◌*◌, ◌≤◌, arith}
use chain_sieve.Workflow.Retry.{compute_jittered_backoff}
use chain_sieve.Workflow.Retry.Bounds.{jitter_bounds}

jitter_bounds_example :
    (4 * 500 ≤ 5 * compute_jittered_backoff 500 1 3 + 2)
    × (5 * compute_jittered_backoff 500 1 3 ≤ 6 * 500 + 2)
jitter_bounds_example = jitter_bounds 500 1 3 (omega arith)
