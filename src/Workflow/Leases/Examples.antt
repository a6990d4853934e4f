-- ===== src/Workflow/Leases/Examples.antt =====
-- Two workers and one lease (packages/workflow-runtime/src/index.ts).
use mathlib.Core.Path.{refl}
use chain_sieve.Base.{ℕ, ◌<◌, ◌≡◌, ◌⊎◌, true, none, Text, same, ok, arith}
use chain_sieve.Sql.Exec.{alone, turn, ◌>>=◌}
use chain_sieve.Workflow.Store.{Db, Lease, put_lease}
use chain_sieve.Workflow.Samples.{alice, bob, key, empty_db}
use chain_sieve.Workflow.Leases.{
  LeaseAcquireResult, acquire_lease, renew_lease, insert_or_contend, read_lease, insert_lease,
  first_lease, granted, contend, swap_or_reread, swap_lease, taken,
}
use chain_sieve.Workflow.Leases.Grants.{fencing, LeasesGrow, acquire_lease-LeasesGrow}
use chain_sieve.Workflow.Leases.Atomic.{acquire_lease-decide, decide}
use chain_sieve.Workflow.Leases.Tokens.{tokens_differ, acquired-Holds, renew_lease-stale, Holds}

abbrev held : Text → ℕ → ℕ → Lease
held owner version expires_at = record {
  owner = owner;
  version = version;
  acquired_at = 0;
  expires_at = expires_at;
}

abbrev result : Text → ℕ → ℕ → LeaseAcquireResult
result owner version expires_at = record {
  lease_key = key;
  owner = owner;
  version = version;
  expires_at = expires_at;
  acquired = true;
}

-- alice holds version 1 until the time 10
abbrev after_alice : Db
after_alice = (acquire_lease key alice 10 0 (alone empty_db)).1.state

-- bob takes the lease when it has expired
takeover : (acquire_lease key bob 10 20 (alone after_alice)).0 ≡ ok (result bob 2 30)
unfolding acquire_lease insert_or_contend read_lease insert_lease first_lease granted contend
    swap_or_reread swap_lease taken ◌>>=◌ turn same
takeover = refl

first_grant : (acquire_lease key alice 10 0 (alone empty_db)).0 ≡ ok (result alice 1 10)
unfolding acquire_lease insert_or_contend read_lease insert_lease first_lease granted ◌>>=◌ turn
first_grant = refl

tokens_differ_example : (1 < 2) ⊎ ((◌≡◌ {A = ℕ} 1 2) × (alice ≡ bob))
tokens_differ_example =
    tokens_differ key alice bob 10 0 10 20 (alone empty_db) (alone after_alice) (result alice 1 10)
      (result bob 2 30) tt tt first_grant refl (fencing.reflexive after_alice) takeover refl

acquired-Holds_example : Holds key alice 1 after_alice
acquired-Holds_example =
    acquired-Holds key alice 10 0 (alone empty_db) (result alice 1 10) tt first_grant refl

-- bob holds version 2
abbrev bobs : Db
bobs = put_lease key (held bob 2 30) empty_db

renew_lease-stale_example : (renew_lease key alice 10 25 1 (alone bobs)).0 ≡ ok none
unfolding same
renew_lease-stale_example =
    renew_lease-stale key alice 10 25 1 (held bob 2 30) (alone bobs) tt refl (omega arith)

acquire_lease-decide_example : acquire_lease key alice 10 25 (alone bobs) ≡ (
  ok (decide key alice 10 25 (bobs.workflow_leases key) bobs).0,
  alone (decide key alice 10 25 (bobs.workflow_leases key) bobs).1,
)
acquire_lease-decide_example = acquire_lease-decide key alice 10 25 bobs

acquire_lease-LeasesGrow_example :
    LeasesGrow bobs (acquire_lease key alice 10 35 (alone bobs)).1.state
acquire_lease-LeasesGrow_example = acquire_lease-LeasesGrow key alice 10 35 (alone bobs) tt
