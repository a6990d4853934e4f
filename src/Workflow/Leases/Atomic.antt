-- ===== src/Workflow/Leases/Atomic.antt =====
-- With nobody else acting, `acquireLease` (packages/workflow-runtime/src/index.ts), a protocol of
-- several statements, is one atomic decision on the row of the lease.
use chain_sieve.Base.{
  ℕ, ◌+◌, ◌≡◌, true, false, ◌||◌, Option, none, some, Text, same, same_iff, arith, leb, ok,
  Bool-cases, Option-cases, inl, inr, if◌then◌else◌,
}
use chain_sieve.Sql.Exec.{alone, turn, ◌>>=◌}
use chain_sieve.Workflow.Store.{Db, Lease, put_lease}
use chain_sieve.Workflow.Leases.{
  LeaseAcquireResult, read_lease, swap_lease, insert_lease, granted, as_read, swap_or_reread,
  renewed, taken, first_lease, contend, insert_or_contend, acquire_lease,
}

module _ (lease_key owner : Text) (ttl_ms now : ℕ) where
  -- The next version is granted until `now + ttl_ms`, and written.
  abbrev pub grant : ℕ → Db → LeaseAcquireResult × Db
  grant version s =
      let expires_at = now + ttl_ms in
      (
        record {
          lease_key = lease_key;
          owner = owner;
          version = version;
          expires_at = expires_at;
          acquired = true;
        },
        put_lease lease_key
            (record {
              owner = owner;
              version = version;
              acquired_at = now;
              expires_at = expires_at;
            })
            s,
      )

  -- The other's lease stands.
  abbrev pub refuse : Lease → Db → LeaseAcquireResult × Db
  refuse l s = (
    record {
      lease_key = lease_key;
      owner = l.owner;
      version = l.version;
      expires_at = l.expires_at;
      acquired = false;
    },
    s,
  )

  abbrev pub decide : Option Lease → Db → LeaseAcquireResult × Db
  decide none s = grant 1 s
  decide (some l) s =
      if leb l.expires_at now || same l.owner owner then grant (l.version + 1) s else refuse l s

  swap_alone :
      (l : Lease) (change : Lease → Lease) (s : Db)
      → s.workflow_leases lease_key ≡ some l
      → swap_or_reread lease_key owner l.version change (alone s)
        ≡ (ok (granted lease_key owner (change l)), alone (put_lease lease_key (change l) s))
  unfolding ◌>>=◌ swap_or_reread swap_lease turn
  swap_alone l change s e = ground arith

  contend-decide :
      (l : Lease) (s : Db)
      → s.workflow_leases lease_key ≡ some l
      → contend lease_key owner ttl_ms now l (alone s)
        ≡ (let (r, t) = decide (some l) s in (ok r, alone t))
  unfolding ◌>>=◌ contend renewed taken granted as_read
  contend-decide l s e = elim (Bool-cases (leb l.expires_at now)) [
    | inl old ↦ rw (old, swap_alone l (taken lease_key owner ttl_ms now (l.version + 1)) s e)
    | inr valid ↦ elim (Bool-cases (same l.owner owner)) [
      | inl own ↦ rw (
        valid,
        own,
        swap_alone l (renewed lease_key owner ttl_ms now (l.version + 1)) s e,
        (same_iff _ _).0 own,
      )
      | inr other ↦ rw (valid, other)
    ]
  ]

  -- With nobody else acting, acquiring a lease returns and writes this: version 1 for a key that has
  -- no row; the row's version plus 1 if the row has expired or is the caller's own; and otherwise a
  -- refusal that shows the holder's lease and changes nothing.
  pub acquire_lease-decide :
      (s : Db)
      → acquire_lease lease_key owner ttl_ms now (alone s)
        ≡ (let (r, t) = decide (s.workflow_leases lease_key) s in (ok r, alone t))
  unfolding ◌>>=◌ acquire_lease turn read_lease insert_lease insert_or_contend first_lease granted
  acquire_lease-decide s = elim (Option-cases (s.workflow_leases lease_key)) [
    | inl e ↦ rw e (ground arith)
    | inr (l, e) ↦ rw e (contend-decide l s e)
  ]
