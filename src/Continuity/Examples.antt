-- ===== src/Continuity/Examples.antt =====
-- A backup under a legal hold, and two degraded tiers
-- (packages/workflow-runtime/src/recovery-continuity.ts).
use chain_sieve.Base.{
  ◌≡◌, ◌≢◌, refl, ap, arith, length, codes, ℕ, true, false, Option, none, some, List, [], ◌∷◌, Text,
  same, ok,
}
use chain_sieve.Sql.Exec.{alone, turn, statement}
use chain_sieve.Sql.Table.{row}
use chain_sieve.Continuity.Store.{
  replayable_raw, critical_config, owner, AuditAction, AuditRow, DegradedRow, BackupRecord,
  LegalHold, Db,
}
use chain_sieve.Continuity.Audit.{Deps, append_backup_audit, chain_hash, hash_of, last_record}
use chain_sieve.Continuity.Backups.{is_held, enforce_retention_and_delete}
use chain_sieve.Continuity.Chain.{intact, broken, expected_hash, verify_backup_audit_chain}
use chain_sieve.Continuity.Chain.Append.{next_row, append_backup_audit-intact}
use chain_sieve.Continuity.Chain.Fork.{racing_appends_fork}
use chain_sieve.Continuity.Chain.Intact.{IsChain}
use chain_sieve.Continuity.Degraded.{degraded_row, is_confirmed_opportunity_disabled}
use chain_sieve.Continuity.Holds.{held_backup_survives}
use chain_sieve.Continuity.Trail.{Operation, Extends, operate, operate-Extends}

-- a concrete digest: the text itself
abbrev deps : Deps
deps = record { sha256 = λ t. t; iso = λ n. n ∷ []; action_text = λ a. [] }

abbrev backup_1 : Text
backup_1 = 49 ∷ []

abbrev expired_backup : BackupRecord
expired_backup = record { id = backup_1; tier = critical_config; expires_at = 5; deleted_at = none }

abbrev held_hold : LegalHold
held_hold = record {
  id = 104 ∷ [];
  backup_record_id = backup_1;
  reason = [];
  created_at = 1;
  created_by = [];
  released_at = none;
  active = true;
}

abbrev db : Db
db = record {
  audit_log = [];
  backup_records = expired_backup ∷ [];
  legal_holds = held_hold ∷ [];
  degraded = [];
}

held_backup_survives_example :
    (is_held backup_1
        (enforce_retention_and_delete deps 9 [] owner (λ t. t) (λ t. t) (alone db)).1.state
      ≡ true)
    × (row
          (λ r. r.id)
          backup_1
          (enforce_retention_and_delete deps 9 [] owner
            (λ t. t)
            (λ t. t)
            (alone db)).1.state.backup_records
        ≡ some expired_backup)
unfolding is_held row same
held_backup_survives_example =
    held_backup_survives deps backup_1 9 [] owner (λ t. t) (λ t. t) (alone db) tt refl

operate-Extends_example :
    Extends []
      (operate deps
        (Operation.enter critical_config [] 3 (100 ∷ []) [] (97 ∷ []))
        (alone db)).1.state.audit_log
operate-Extends_example =
    operate-Extends deps (Operation.enter critical_config [] 3 (100 ∷ []) [] (97 ∷ [])) (alone db)
      tt

-- two tiers are degraded, and the answer depends on the row that the database reads
abbrev two_degraded : Db
two_degraded = record db {
  degraded =
      degraded_row replayable_raw [] 3 (114 ∷ [])
      ∷ degraded_row critical_config [] 4 (99 ∷ [])
      ∷ [];
}

abbrev oldest : List DegradedRow → Option DegradedRow
oldest [] = none
oldest (r ∷ rs) = some r

abbrev newest : List DegradedRow → Option DegradedRow
newest [] = none
newest (r ∷ []) = some r
newest (r ∷ s ∷ rs) = newest (s ∷ rs)

oldest_read : (is_confirmed_opportunity_disabled oldest (alone two_degraded)).0 ≡ ok false
unfolding is_confirmed_opportunity_disabled statement turn
oldest_read = refl

newest_read : (is_confirmed_opportunity_disabled newest (alone two_degraded)).0 ≡ ok true
unfolding is_confirmed_opportunity_disabled statement turn
newest_read = refl

-- a log with one record, under a digest that is the text itself
abbrev opening : AuditRow
opening = next_row deps [] AuditAction.legal_hold_created [] [] 1 (97 ∷ [])

abbrev logged : Db
logged = record db { audit_log = opening ∷ [] }

longer :
    opening.record_hash
    ≢ (next_row deps (opening ∷ []) AuditAction.backup_deleted [] [] 2 (98 ∷ [])).record_hash
unfolding chain_hash hash_of last_record same codes
longer e = let n : ◌≡◌ {A = ℕ} 7 14 = ap length e in ground arith

append_backup_audit-intact_example :
    verify_backup_audit_chain deps
      (append_backup_audit deps AuditAction.backup_deleted [] [] 2
        (98 ∷ [])
        (alone logged)).1.state.audit_log
    ≡ some intact
unfolding IsChain expected_hash chain_hash hash_of last_record same codes
append_backup_audit-intact_example =
    append_backup_audit-intact deps logged AuditAction.backup_deleted [] [] 2 (98 ∷ [])
      (refl, refl, tt) (tt, tt) refl (longer, tt)

-- another append between the read and the insert
abbrev appending : Db → Db
appending x =
    (append_backup_audit deps AuditAction.legal_hold_released [] [] 3 (99 ∷ []) (alone x)).1.state

racing_appends_fork_example :
    verify_backup_audit_chain deps
      (append_backup_audit deps AuditAction.backup_deleted [] [] 2
        (98 ∷ [])
        (record { state = logged; others = (λ x. x) ∷ appending ∷ [] })).1.state.audit_log
    ≡ some (broken 0)
unfolding same
racing_appends_fork_example =
    racing_appends_fork deps logged AuditAction.backup_deleted AuditAction.legal_hold_released [] []
      [] [] 2 3 (98 ∷ []) (99 ∷ []) refl refl
