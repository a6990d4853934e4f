-- ===== src/Workflow/Leases.antt =====
-- `acquireLease` and `renewLease` (packages/workflow-runtime/src/index.ts, "Lease Fencing"): leases
-- with a version that is compared and swapped. `ttlMs` and `now` are milliseconds.
pub mod Atomic
pub mod Grants
pub mod Tokens
mod Examples
use chain_sieve.Base.{
  ℕ, ◌+◌, Bool, true, false, not, ◌&&◌, Option, none, some, Text, same, leb, ◌==◌, if◌then◌else◌,
}
use chain_sieve.Sql.Exec.{Exec, pure, throw, statement, continue, ◌>>=◌}
use chain_sieve.Workflow.Store.{Db, Lease, Fault, type_error, put_lease}

pub record LeaseAcquireResult : Type 0 where
  pub lease_key : Text
  pub owner : Text
  pub version : ℕ
  pub expires_at : ℕ
  pub acquired : Bool

-- SELECT owner, version, expires_at FROM workflow_leases WHERE lease_key=$1
pub read_lease : Text → Db → Option Lease × Db
read_lease k s = (s.workflow_leases k, s)

-- UPDATE workflow_leases SET … WHERE lease_key=$1 AND version=$2 RETURNING …
pub swap_lease : Text → ℕ → (Lease → Lease) → Db → Option Lease × Db
swap_lease k version change s = elim (s.workflow_leases k) [
  | none ↦ (none, s)
  | some l ↦ if l.version == version then (some (change l), put_lease k (change l) s) else (none, s)
]

-- INSERT INTO workflow_leases … ON CONFLICT (lease_key) DO NOTHING RETURNING …
pub insert_lease : Text → Lease → Db → Option Lease × Db
insert_lease k l s = elim (s.workflow_leases k) [
  | none ↦ (some l, put_lease k l s)
  | some _ ↦ (none, s)
]

module _ (lease_key owner : Text) where
  pub granted : Lease → LeaseAcquireResult
  granted l = record {
    lease_key = lease_key;
    owner = owner;
    version = l.version;
    expires_at = l.expires_at;
    acquired = true;
  }

  -- the row of somebody, and whether that counts as acquired
  pub as_read : Lease → Bool → LeaseAcquireResult
  as_read l acquired = record {
    lease_key = lease_key;
    owner = l.owner;
    version = l.version;
    expires_at = l.expires_at;
    acquired = acquired;
  }

  -- the read after an UPDATE that met no row
  pub reread : Exec Db Fault LeaseAcquireResult
  reread = do
    found ← statement (read_lease lease_key)
    elim found [ none ↦ throw type_error | some l ↦ pure (as_read l (same l.owner owner)) ]

  -- the UPDATE of the row that was read, under its version
  pub swap_or_reread : ℕ → (Lease → Lease) → Exec Db Fault LeaseAcquireResult
  swap_or_reread version change = do
    updated ← statement (swap_lease lease_key version change)
    elim updated [ none ↦ reread | some l ↦ pure (granted l) ]

  module _ (ttl_ms now : ℕ) where
    -- the UPDATE of a valid lease by its owner leaves the owner as it is
    pub renewed : ℕ → Lease → Lease
    renewed version l = record l { version = version; acquired_at = now; expires_at = now + ttl_ms }

    pub taken : ℕ → Lease → Lease
    taken version l = record {
      owner = owner;
      version = version;
      acquired_at = now;
      expires_at = now + ttl_ms;
    }

    pub first_lease : Lease
    first_lease = record {
      owner = owner;
      version = 1;
      acquired_at = now;
      expires_at = now + ttl_ms;
    }

    -- a row was there at the first read
    pub contend : Lease → Exec Db Fault LeaseAcquireResult
    contend l =
        if leb l.expires_at now
        then swap_or_reread l.version (taken (l.version + 1))
        else (if same l.owner owner
            then swap_or_reread l.version (renewed (l.version + 1))
            else pure (as_read l false))

    -- a row was there after the INSERT met a conflict
    pub contend_after_race : Lease → Exec Db Fault LeaseAcquireResult
    contend_after_race l =
        if not (leb l.expires_at now) && not (same l.owner owner)
        then pure (as_read l false)
        else swap_or_reread l.version (taken (l.version + 1))

    pub race_decision : Option Lease → Exec Db Fault LeaseAcquireResult
    race_decision none = throw type_error
    race_decision (some l) = contend_after_race l

    pub insert_or_contend : Exec Db Fault LeaseAcquireResult
    insert_or_contend = do
      inserted ← statement (insert_lease lease_key first_lease)
      elim inserted [
        | none ↦ do existing ← statement (read_lease lease_key); race_decision existing
        | some l ↦ pure (granted l)
      ]

    pub acquire_lease : Exec Db Fault LeaseAcquireResult
    acquire_lease = do
      found ← statement (read_lease lease_key)
      elim found [ none ↦ insert_or_contend | some l ↦ contend l ]

    -- UPDATE … SET version=version+1 … WHERE lease_key=$3 AND owner=$4 AND version=$5
    pub swap_own_lease : ℕ → Db → Option Lease × Db
    swap_own_lease expected s = elim (s.workflow_leases lease_key) [
      | none ↦ (none, s)
      | some l ↦
          if same l.owner owner && l.version == expected
          then (some (renewed (l.version + 1) l), put_lease lease_key (renewed (l.version + 1) l) s)
          else (none, s)
    ]

    pub renew_lease : ℕ → Exec Db Fault (Option LeaseAcquireResult)
    renew_lease expected = do
      updated ← statement (swap_own_lease expected)
      pure (elim updated [ none ↦ none | some l ↦ some (granted l) ])
