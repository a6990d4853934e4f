-- ===== src/Continuity/Trail.antt =====
-- The audit log of packages/workflow-runtime/src/recovery-continuity.ts: no operation removes or changes
-- a record.
use mathlib.Core.List.{append-nil, append_assoc}
use chain_sieve.Base.{◌≡◌, refl, sym, ap, ◌∙◌, ℕ, not, List, [], ◌∷◌, ◌++◌, Text}
use chain_sieve.Sql.Exec.{World, Exec, pure, statement, ◌>>=◌, ◌>>◌}
use chain_sieve.Sql.Rely.{
  Preorder, Obeys, Respects, Respects-pure, Respects-throw, Respects-bind, Respects-statement,
  Respects-fallible, Respects-if, Allowed, Allowed-if,
}
use chain_sieve.Continuity.Store.{
  BackupTier, BackupAccessRole, AuditAction, AuditRow, LegalHold, DegradedRow, Db, Fault,
}
use chain_sieve.Continuity.Audit.{Deps, append_backup_audit, insert_audit}
use chain_sieve.Continuity.Backups.{
  insert_hold, release_hold, mark_deleted, may_hold, may_delete, verdict, RetentionOutcome,
  create_legal_hold, release_legal_hold, delete_backup, enforce_one, enforce_all,
  enforce_retention_and_delete, request_restore_access,
}
use chain_sieve.Continuity.Degraded.{
  insert_degraded, restore_row, enter_degraded_mode, restore_all, audit_exit, exit_degraded_mode,
  disables,
}

-- the log is the old one with records appended
pub record Extends (old new : List AuditRow) : Type 0 where
  pub appended : List AuditRow
  pub extended : new ≡ old ++ appended

pub Extends-refl : (rs : List AuditRow) → Extends rs rs
Extends-refl rs = record { appended = []; extended = sym (append-nil rs) }

pub Extends-trans : (a b c : List AuditRow) → Extends a b → Extends b c → Extends a c
Extends-trans a b c h k = record {
  appended = h.appended ++ k.appended;
  extended =
      k.extended ∙ (ap (λ rs. rs ++ k.appended) h.extended ∙ append_assoc a h.appended k.appended);
}

abbrev pub Trail : Preorder Db
Trail = record {
  R = λ c d. Extends c.audit_log d.audit_log;
  reflexive = λ c. Extends-refl c.audit_log;
  transitive = λ c d e h k. Extends-trans c.audit_log d.audit_log e.audit_log h k;
}

Allowed-insert_hold : (h : LegalHold) (c : Db) → Allowed Trail c (insert_hold h c)
unfolding insert_hold
Allowed-insert_hold h c = search (Allowed-if Trail, Allowed.refused, Allowed.taken, Extends-refl)

Allowed-release_hold : (now : ℕ) (id : Text) (c : Db) → Allowed Trail c (release_hold now id c)
unfolding release_hold
Allowed-release_hold now id c =
    search (Allowed-if Trail, Allowed.refused, Allowed.taken, Extends-refl)

Allowed-insert_degraded : (r : DegradedRow) (c : Db) → Allowed Trail c (insert_degraded r c)
unfolding insert_degraded
Allowed-insert_degraded r c =
    search (Allowed-if Trail, Allowed.refused, Allowed.taken, Extends-refl)

-- the operations, with the times, texts and ids that they are given
pub data Operation : Type 0 where
  hold : Text → Text → Text → BackupAccessRole → ℕ → Text → Text → Text → Operation
  release : Text → Text → BackupAccessRole → ℕ → Text → Text → Operation
  enforce : ℕ → Text → BackupAccessRole → (Text → Text) → (Text → Text) → Operation
  restore : Text → Text → BackupAccessRole → Text → ℕ → Text → Operation
  enter : BackupTier → Text → ℕ → Text → Text → Text → Operation
  exit : BackupTier → ℕ → Text → Text → Operation

module _ (deps : Deps) where
  unfoldable pub operate : Operation → Exec Db Fault (Unit {0})
  operate (hold b reason actor role now id payload audit_id) =
      create_legal_hold deps b reason actor role now id payload audit_id >> pure tt
  operate (release id actor role now payload audit_id) =
      release_legal_hold deps id actor role now payload audit_id >> pure tt
  operate (enforce now actor role payload audit_id) =
      enforce_retention_and_delete deps now actor role payload audit_id >> pure tt
  operate (restore id actor role payload now audit_id) =
      request_restore_access deps id actor role payload now audit_id >> pure tt
  operate (enter tier reason now id payload audit_id) =
      enter_degraded_mode deps tier reason now id payload audit_id >> pure tt
  operate (exit tier now payload audit_id) =
      exit_degraded_mode deps tier now payload audit_id >> pure tt

  kept :
      {A : Type 0} (f : Db → A × Db)
      → ((s : Db) → (f s).1.audit_log ≡ s.audit_log)
      → Respects {E = Fault} Trail (statement f)
  kept f h =
      Respects-statement Trail f
        (λ s. record { appended = []; extended = h s ∙ sym (append-nil s.audit_log) })

  audit-Trail :
      (action : AuditAction) (actor payload : Text) (now : ℕ) (id : Text)
      → Respects Trail (append_backup_audit deps action actor payload now id)
  unfolding append_backup_audit insert_audit
  audit-Trail action actor payload now id = Respects-bind Trail _ _ (kept _ (λ s. refl)) (λ last.
      Respects-bind Trail _ _
        (Respects-fallible Trail _ (λ c.
          Allowed-if Trail _ c _ _ Allowed.refused
            (Allowed.taken (record { appended = _ ∷ []; extended = refl }))))
        (λ u. Respects-pure Trail _))

  -- an operation's audit, and what it returns
  audited :
      {A : Type 0} (action : AuditAction) (actor payload : Text) (now : ℕ) (id : Text)
      (f : AuditRow → A)
      → Respects Trail (append_backup_audit deps action actor payload now id >>= λ r. pure (f r))
  audited action actor payload now id f =
      Respects-bind Trail _ _ (audit-Trail action actor payload now id)
        (λ r. Respects-pure Trail (f r))

  hold-Trail :
      (b reason actor : Text) (role : BackupAccessRole) (now : ℕ) (id payload audit_id : Text)
      → Respects Trail (create_legal_hold deps b reason actor role now id payload audit_id)
  unfolding create_legal_hold
  hold-Trail b reason actor role now id payload audit_id =
      Respects-if Trail (not (may_hold role)) _ _ (Respects-throw Trail _) (
        Respects-bind Trail _ _ (Respects-fallible Trail _ (λ c. Allowed-insert_hold _ c))
          (λ u. audited AuditAction.legal_hold_created actor payload now audit_id (λ r. id)))

  release-Trail :
      (id actor : Text) (role : BackupAccessRole) (now : ℕ) (payload audit_id : Text)
      → Respects Trail (release_legal_hold deps id actor role now payload audit_id)
  unfolding release_legal_hold
  release-Trail id actor role now payload audit_id =
      Respects-if Trail (not (may_delete role)) _ _ (Respects-throw Trail _) (
        Respects-bind Trail _ _ (Respects-fallible Trail _ (λ c. Allowed-release_hold now id c))
          (λ u. audited AuditAction.legal_hold_released actor payload now audit_id (λ r. tt)))

  delete-Trail :
      (now : ℕ) (actor id : Text) (payload audit_id : Text → Text)
      → Respects Trail (delete_backup deps now actor id payload audit_id)
  unfolding delete_backup mark_deleted
  delete-Trail now actor id payload audit_id =
      Respects-bind Trail _ _ (kept _ (λ s. refl))
        (λ u. audited AuditAction.backup_deleted actor (payload id) now (audit_id id) (λ r. tt))

  enforce_one-Trail :
      (now : ℕ) (actor : Text) (payload audit_id : Text → Text) (id : Text) (r : RetentionOutcome)
      → Respects Trail (enforce_one deps now actor payload audit_id id r)
  unfolding enforce_one
  enforce_one-Trail now actor payload audit_id id r =
      Respects-bind Trail _ _ (kept _ (λ s. refl)) (λ held.
        Respects-if Trail held _ _ (Respects-pure Trail _) (
          Respects-bind Trail _ _ (delete-Trail now actor id payload audit_id)
            (λ u. Respects-pure Trail _)))

  enforce_all-Trail :
      (now : ℕ) (actor : Text) (payload audit_id : Text → Text) (ids : List Text)
      (r : RetentionOutcome)
      → Respects Trail (enforce_all deps now actor payload audit_id ids r)
  unfolding enforce_all
  enforce_all-Trail now actor payload audit_id [] r = Respects-pure Trail r
  enforce_all-Trail now actor payload audit_id (id ∷ ids) r =
      Respects-bind Trail _ _ (enforce_one-Trail now actor payload audit_id id r)
        (λ q. enforce_all-Trail now actor payload audit_id ids q)

  enforce-Trail :
      (now : ℕ) (actor : Text) (role : BackupAccessRole) (payload audit_id : Text → Text)
      → Respects Trail (enforce_retention_and_delete deps now actor role payload audit_id)
  unfolding enforce_retention_and_delete
  enforce-Trail now actor role payload audit_id =
      Respects-if Trail (not (may_delete role)) _ _ (Respects-throw Trail _) (
        Respects-bind Trail _ _ (kept _ (λ s. refl))
          (λ ids. enforce_all-Trail now actor payload audit_id ids _))

  restore-Trail :
      (id actor : Text) (role : BackupAccessRole) (payload : Text) (now : ℕ) (audit_id : Text)
      → Respects Trail (request_restore_access deps id actor role payload now audit_id)
  unfolding request_restore_access
  restore-Trail id actor role payload now audit_id =
      Respects-bind Trail _ _ (kept _ (λ s. refl)) (λ there.
        Respects-if Trail (not there) _ _ (Respects-throw Trail _)
          (audited (verdict role) actor payload now audit_id (λ r. (may_hold role, r.id))))

  enter-Trail :
      (tier : BackupTier) (reason : Text) (now : ℕ) (id payload audit_id : Text)
      → Respects Trail (enter_degraded_mode deps tier reason now id payload audit_id)
  unfolding enter_degraded_mode
  enter-Trail tier reason now id payload audit_id =
      Respects-bind Trail _ _ (Respects-fallible Trail _ (λ c. Allowed-insert_degraded _ c)) (λ u.
        audited AuditAction.degraded_entered _ payload now audit_id (λ r. (id, disables tier)))

  restore_all-Trail : (now : ℕ) (ids : List Text) → Respects Trail (restore_all deps now ids)
  unfolding restore_all restore_row
  restore_all-Trail now [] = Respects-pure Trail tt
  restore_all-Trail now (id ∷ ids) =
      Respects-bind Trail _ _ (kept _ (λ s. refl)) (λ u. restore_all-Trail now ids)

  exit-Trail :
      (tier : BackupTier) (now : ℕ) (payload audit_id : Text)
      → Respects Trail (exit_degraded_mode deps tier now payload audit_id)
  unfolding exit_degraded_mode audit_exit
  exit-Trail tier now payload audit_id = Respects-bind Trail _ _ (kept _ (λ s. refl)) (λ ids.
      Respects-bind Trail _ _ (restore_all-Trail now ids) (λ u.
        Respects-bind Trail _ _
          (Respects-if Trail _ _ _
            (audited AuditAction.degraded_exited _ payload now audit_id (λ r. tt))
            (Respects-pure Trail tt))
          (λ v. Respects-pure Trail _)))

  ended : {A : Type 0} (m : Exec Db Fault A) → Respects Trail m → Respects Trail (m >> pure tt)
  ended m h = Respects-bind Trail _ _ h (λ u. Respects-pure Trail tt)

  operate-Trail : (op : Operation) → Respects Trail (operate op)
  unfolding operate
  operate-Trail (hold b reason actor role now id payload audit_id) =
      ended _ (hold-Trail b reason actor role now id payload audit_id)
  operate-Trail (release id actor role now payload audit_id) =
      ended _ (release-Trail id actor role now payload audit_id)
  operate-Trail (enforce now actor role payload audit_id) =
      ended _ (enforce-Trail now actor role payload audit_id)
  operate-Trail (restore id actor role payload now audit_id) =
      ended _ (restore-Trail id actor role payload now audit_id)
  operate-Trail (enter tier reason now id payload audit_id) =
      ended _ (enter-Trail tier reason now id payload audit_id)
  operate-Trail (exit tier now payload audit_id) = ended _ (exit-Trail tier now payload audit_id)

-- Whatever operation runs, however it ends, and whatever others do between its statements who only append
-- to the audit log, the log afterwards is the old one with records appended.
pub operate-Extends :
    (deps : Deps) (op : Operation) (w : World Db)
    → Obeys Trail w.others
    → Extends w.state.audit_log (operate deps op w).1.state.audit_log
operate-Extends deps op w o = ((operate-Trail deps op).at w o).state
