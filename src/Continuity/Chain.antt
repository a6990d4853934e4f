-- ===== src/Continuity/Chain.antt =====
-- `verifyBackupAuditChain` (packages/workflow-runtime/src/recovery-continuity.ts), over the rows that it
-- reads. Its loop follows the hashes; the fuel is one more than the rows, and the walk is none past it.
pub mod Intact
pub mod Append
pub mod Fork
use chain_sieve.Base.{
  ℕ, ◌+◌, suc, zero, Bool, true, false, not, ◌||◌, Option, none, some, List, [], ◌∷◌, Text, same,
  any, find, length, ◌==◌, if◌then◌else◌,
}
use chain_sieve.Continuity.Store.{AuditRow}
use chain_sieve.Continuity.Audit.{Deps, chain_hash}

-- `{ valid, gapIndex }`, without the texts of what was expected
pub data ChainResult : Type 0 where
  intact : ChainResult
  broken : ℕ → ChainResult

unfoldable pub same_hash : Option Text → Option Text → Bool
same_hash none none = true
same_hash (some a) (some b) = same a b
same_hash _ _ = false

-- `byPrev.has(row.previous_hash)` for some row
unfoldable pub has_fork : List AuditRow → Bool
has_fork [] = false
has_fork (r ∷ rs) = any (λ q. same_hash q.previous_hash r.previous_hash) rs || has_fork rs

-- `byPrev.get(hash)`
unfoldable pub by_previous : Option Text → List AuditRow → Option AuditRow
by_previous h rows = find (λ r. same_hash r.previous_hash h) rows

module _ (deps : Deps) where
  unfoldable pub expected_hash : Option Text → AuditRow → Text
  expected_hash previous r =
      chain_hash deps previous r.action r.actor r.payload_json r.recorded_at r.id

  abbrev fits : Option Text → AuditRow → Bool
  fits previous r = same (expected_hash previous r) r.record_hash

  -- the loop, from the row `r` if there is one
  unfoldable pub walk : ℕ → List AuditRow → Option Text → Option AuditRow → ℕ → Option ChainResult
  walk zero rows previous r visited = none
  walk (suc n) rows previous none visited =
      some (if visited == length rows then intact else broken visited)
  walk (suc n) rows previous (some r) visited =
      let rest =
        walk n rows (some r.record_hash) (by_previous (some r.record_hash) rows) (visited + 1) in
      if not (fits previous r)
      then some (broken visited)
      else if not (same_hash r.previous_hash previous)
      then some (broken visited)
      else rest

  abbrev from_root : List AuditRow → Option AuditRow → Option ChainResult
  from_root rows none = some (broken 0)
  from_root rows (some r) = walk (suc (length rows)) rows none (some r) 0

  unfoldable pub verify_backup_audit_chain : List AuditRow → Option ChainResult
  verify_backup_audit_chain [] = some intact
  verify_backup_audit_chain (r ∷ rs) =
      if has_fork (r ∷ rs) then some (broken 0) else from_root (r ∷ rs) (by_previous none (r ∷ rs))
