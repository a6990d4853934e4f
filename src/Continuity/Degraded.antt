-- ===== src/Continuity/Degraded.antt =====
-- Degraded mode: `enterDegradedMode`, `exitDegradedMode`, `isConfirmedOpportunityDisabled` and
-- `getActiveDegradedTiers` (packages/workflow-runtime/src/recovery-continuity.ts), with
-- `degradedModeMatrix` (packages/shared-schemas/src/dr.ts). Which of several
-- active rows the query with LIMIT 1 and without ORDER BY gives is the parameter `choose`.
use chain_sieve.Base.{
  ℕ, Bool, true, false, ◌&&◌, Option, none, some, List, [], ◌∷◌, ◌++◌, Text, same, codes, any,
  select, length, if◌then◌else◌, Outcome, ok, err,
}
use chain_sieve.Sql.Table.{update_where}
use chain_sieve.Sql.Exec.{Exec, pure, statement, fallible, ◌>>=◌, ◌>>◌}
use chain_sieve.Continuity.Store.{
  BackupTier, critical_config, critical_observations, replayable_raw, AuditAction, DegradedRow, Db,
  Fault, unique_violation,
}
use chain_sieve.Continuity.Audit.{Deps, append_backup_audit}

-- `degradedModeMatrix[tier].disableConfirmedOpportunity`
abbrev pub disables : BackupTier → Bool
disables replayable_raw = false
disables _ = true

abbrev pub same_tier : BackupTier → BackupTier → Bool
same_tier critical_config critical_config = true
same_tier critical_observations critical_observations = true
same_tier replayable_raw replayable_raw = true
same_tier _ _ = false

abbrev pub degraded_row : BackupTier → Text → ℕ → Text → DegradedRow
degraded_row tier reason now id = record {
  id = id;
  tier = tier;
  reason = reason;
  degraded_at = now;
  restored_at = none;
  confirmed_opportunity_alerts_disabled = disables tier;
  active = true;
}

unfoldable pub insert_degraded : DegradedRow → Db → Outcome Fault (Unit {0} × Db)
insert_degraded r s =
    if any (λ q. same q.id r.id) s.degraded
    then err unique_violation
    else ok (tt, record s { degraded = s.degraded ++ r ∷ [] })

unfoldable pub restore_row : ℕ → Text → Db → Unit {0} × Db
restore_row now id s = (
  tt,
  record s {
    degraded =
        update_where (λ r. same r.id id) (λ r. record r { active = false; restored_at = some now })
          s.degraded;
  },
)

-- SELECT id … WHERE tier=$1 AND active=true
unfoldable pub active_ids : BackupTier → List DegradedRow → List Text
active_ids tier [] = []
active_ids tier (r ∷ rs) =
    let rest = active_ids tier rs in if same_tier r.tier tier && r.active then r.id ∷ rest else rest

-- … WHERE active=true
abbrev pub active_rows : List DegradedRow → List DegradedRow
active_rows rs = select (λ r. r.active) rs

abbrev pub has_disabled : Option DegradedRow → Bool
has_disabled none = false
has_disabled (some r) = r.confirmed_opportunity_alerts_disabled

-- `choose` is the row that LIMIT 1 gives of the active ones
unfoldable pub is_confirmed_opportunity_disabled :
    (List DegradedRow → Option DegradedRow) → Exec Db Fault Bool
is_confirmed_opportunity_disabled choose =
    statement (λ s. (has_disabled (choose (active_rows s.degraded)), s))

unfoldable pub get_active_degraded_tiers : Exec Db Fault (List DegradedRow)
get_active_degraded_tiers = statement (λ s. (active_rows s.degraded, s))

module _ (deps : Deps) where
  unfoldable pub enter_degraded_mode :
      BackupTier → Text → ℕ → Text → Text → Text → Exec Db Fault (Text × Bool)
  enter_degraded_mode tier reason now id payload audit_id = do
    fallible (insert_degraded (degraded_row tier reason now id))
    append_backup_audit deps AuditAction.degraded_entered (codes "system") payload now audit_id
    pure (id, disables tier)

  unfoldable pub restore_all : ℕ → List Text → Exec Db Fault (Unit {0})
  restore_all now [] = pure tt
  restore_all now (id ∷ ids) = statement (restore_row now id) >> restore_all now ids

  unfoldable pub audit_exit : Bool → Text → ℕ → Text → Exec Db Fault (Unit {0})
  audit_exit restored payload now audit_id =
      if restored
      then (append_backup_audit deps AuditAction.degraded_exited (codes "system") payload now
            audit_id
          >> pure tt)
      else pure tt

  unfoldable pub exit_degraded_mode : BackupTier → ℕ → Text → Text → Exec Db Fault ℕ
  exit_degraded_mode tier now payload audit_id = do
    ids ← statement (λ s. (active_ids tier s.degraded, s))
    restore_all now ids
    audit_exit (elim ids [ [] ↦ false | x ∷ xs ↦ true ]) payload now audit_id
    pure (length ids)
