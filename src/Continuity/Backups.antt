-- ===== src/Continuity/Backups.antt =====
-- Legal holds, the deletion of expired backups, and requests to restore
-- (packages/workflow-runtime/src/recovery-continuity.ts).
use chain_sieve.Base.{
  ℕ, Bool, true, false, not, ◌&&◌, none, some, List, [], ◌∷◌, ◌++◌, Text, same, leb, any,
  if◌then◌else◌, Outcome, ok, err,
}
use chain_sieve.Sql.Table.{update_where}
use chain_sieve.Sql.Exec.{Exec, pure, throw, statement, fallible, ◌>>=◌, ◌>>◌}
use chain_sieve.Continuity.Store.{
  BackupAccessRole, owner, operator, AuditAction, BackupRecord, LegalHold, Db, Fault,
  legal_hold_access_denied, legal_hold_release_access_denied, retention_delete_access_denied,
  backup_not_found_or_deleted, unique_violation, foreign_key_violation, check_violation,
}
use chain_sieve.Continuity.Audit.{Deps, append_backup_audit}

-- the rows of `allowedRoles` that these functions read
abbrev pub may_delete : BackupAccessRole → Bool
may_delete owner = true
may_delete _ = false

abbrev pub may_hold : BackupAccessRole → Bool
may_hold owner = true
may_hold operator = true
may_hold _ = false

-- SELECT active FROM backup_legal_holds WHERE backup_record_id=$1 AND active=true
unfoldable pub is_held : Text → Db → Bool
is_held id s = any (λ h. same h.backup_record_id id && h.active) s.legal_holds

-- INSERT INTO backup_legal_holds
unfoldable pub insert_hold : LegalHold → Db → Outcome Fault (Unit {0} × Db)
insert_hold h s =
    if any (λ q. same q.id h.id) s.legal_holds
    then err unique_violation
    else if not (any (λ b. same b.id h.backup_record_id) s.backup_records)
    then err foreign_key_violation
    else ok (tt, record s { legal_holds = s.legal_holds ++ h ∷ [] })

-- a row that is released before it was made fails the CHECK
abbrev pub released_early : ℕ → Text → LegalHold → Bool
released_early now id h = same h.id id && not (leb h.created_at now)

unfoldable pub release_hold : ℕ → Text → Db → Outcome Fault (Unit {0} × Db)
release_hold now id s =
    if any (released_early now id) s.legal_holds
    then err check_violation
    else ok (
      tt,
      record s {
        legal_holds =
            update_where (λ h. same h.id id)
              (λ h. record h { active = false; released_at = some now }) s.legal_holds;
      },
    )

abbrev pub has_expired : ℕ → BackupRecord → Bool
has_expired now b = leb b.expires_at now && elim b.deleted_at [ none ↦ true | some t ↦ false ]

unfoldable pub mark_deleted : ℕ → Text → Db → Unit {0} × Db
mark_deleted now id s = (
  tt,
  record s {
    backup_records =
        update_where (λ b. same b.id id) (λ b. record b { deleted_at = some now }) s.backup_records;
  },
)

-- SELECT id FROM backup_records WHERE expires_at <= $1 AND deleted_at IS NULL
unfoldable pub expired_ids : ℕ → List BackupRecord → List Text
expired_ids now [] = []
expired_ids now (b ∷ bs) =
    let rest = expired_ids now bs in if has_expired now b then b.id ∷ rest else rest

pub record RetentionOutcome : Type 0 where
  pub deleted : List Text
  pub held : List Text

abbrev pub with_held : Text → RetentionOutcome → RetentionOutcome
with_held id r = record r { held = r.held ++ id ∷ [] }

abbrev pub with_deleted : Text → RetentionOutcome → RetentionOutcome
with_deleted id r = record r { deleted = r.deleted ++ id ∷ [] }

abbrev pub verdict : BackupAccessRole → AuditAction
verdict role = if may_hold role then AuditAction.restore_granted else AuditAction.restore_denied

-- SELECT id FROM backup_records WHERE id=$1 AND deleted_at IS NULL
unfoldable pub is_kept : Text → Db → Bool
is_kept id s =
    any (λ b. same b.id id && elim b.deleted_at [ none ↦ true | some t ↦ false ]) s.backup_records

-- whether it is granted, and the id of the audit
module _ (deps : Deps) where
  unfoldable pub create_legal_hold :
      Text → Text → Text → BackupAccessRole → ℕ → Text → Text → Text → Exec Db Fault Text
  create_legal_hold backup_record_id reason actor role now id payload audit_id =
      if not (may_hold role) then throw legal_hold_access_denied else do
        fallible (
            insert_hold (record {
              id = id;
              backup_record_id = backup_record_id;
              reason = reason;
              created_at = now;
              created_by = actor;
              released_at = none;
              active = true;
            }))
        append_backup_audit deps AuditAction.legal_hold_created actor payload now audit_id
        pure id

  unfoldable pub release_legal_hold :
      Text → Text → BackupAccessRole → ℕ → Text → Text → Exec Db Fault (Unit {0})
  release_legal_hold legal_hold_id actor role now payload audit_id =
      if not (may_delete role) then throw legal_hold_release_access_denied else do
        fallible (release_hold now legal_hold_id)
        append_backup_audit deps AuditAction.legal_hold_released actor payload now audit_id
        pure tt

  -- the deletion of one backup that no hold keeps, with its audit
  unfoldable pub delete_backup :
      ℕ → Text → Text → (Text → Text) → (Text → Text) → Exec Db Fault (Unit {0})
  delete_backup now actor id payload audit_id = do
    statement (mark_deleted now id)
    append_backup_audit deps AuditAction.backup_deleted actor (payload id) now (audit_id id)
    pure tt

  -- one round of the loop
  unfoldable pub enforce_one :
      ℕ
      → Text
      → (Text → Text)
      → (Text → Text)
      → Text
      → RetentionOutcome
      → Exec Db Fault RetentionOutcome
  enforce_one now actor payload audit_id id r = do
    held ← statement (λ s. (is_held id s, s))
    if held
        then pure (with_held id r)
        else (delete_backup now actor id payload audit_id >> pure (with_deleted id r))

  unfoldable pub enforce_all :
      ℕ
      → Text
      → (Text → Text)
      → (Text → Text)
      → List Text
      → RetentionOutcome
      → Exec Db Fault RetentionOutcome
  enforce_all now actor payload audit_id [] r = pure r
  enforce_all now actor payload audit_id (id ∷ ids) r =
      enforce_one now actor payload audit_id id r >>= enforce_all now actor payload audit_id ids

  unfoldable pub enforce_retention_and_delete :
      ℕ → Text → BackupAccessRole → (Text → Text) → (Text → Text) → Exec Db Fault RetentionOutcome
  enforce_retention_and_delete now actor role payload audit_id =
      if not (may_delete role) then throw retention_delete_access_denied else do
        ids ← statement (λ s. (expired_ids now s.backup_records, s))
        enforce_all now actor payload audit_id ids (record { deleted = []; held = [] })

  unfoldable pub request_restore_access :
      Text → Text → BackupAccessRole → Text → ℕ → Text → Exec Db Fault (Bool × Text)
  request_restore_access id actor role payload now audit_id = do
    kept ← statement (λ s. (is_kept id s, s))
    if not kept then throw backup_not_found_or_deleted else do
      audit ← append_backup_audit deps (verdict role) actor payload now audit_id
      pure (may_hold role, audit.id)
