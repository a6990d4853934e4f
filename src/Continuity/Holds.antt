-- ===== src/Continuity/Holds.antt =====
-- What a legal hold keeps `enforceRetentionAndDelete` from
-- (packages/workflow-runtime/src/recovery-continuity.ts), whatever others do who respect holds.
use chain_sieve.Base.{
  ◌≡◌, refl, sym, ap, ◌∙◌, ℕ, Bool, true, false, not, some, List, [], ◌∷◌, Text, same, same_iff,
  if◌then◌else◌, Bool-cases, inl, inr,
}
use chain_sieve.Sql.Table.{row, row-update_where-key}
use chain_sieve.Sql.Exec.{World, turn, pure, statement, ◌>>=◌, ◌>>◌, bind-pure_state}
use chain_sieve.Sql.Rely.{
  Preorder, Obeys, Kept, Kept-turn, Kept-trans, Respects, Respects-pure, Respects-throw,
  Respects-bind, Respects-statement, Respects-fallible, Respects-if, Allowed, Allowed-if,
}
use chain_sieve.Continuity.Store.{BackupAccessRole, AuditAction, Db}
use chain_sieve.Continuity.Audit.{Deps, append_backup_audit, insert_audit}
use chain_sieve.Continuity.Backups.{
  is_held, mark_deleted, RetentionOutcome, delete_backup, enforce_one, enforce_all,
  enforce_retention_and_delete, may_delete, with_held, with_deleted,
}

-- while the backup `b` is held, it stays held and its record stays as it is
abbrev pub Holding : Text → Preorder Db
Holding b = record {
  R = λ c d.
      is_held b c ≡ true
      → (is_held b d ≡ true)
        × (row (λ r. r.id) b d.backup_records ≡ row (λ r. r.id) b c.backup_records);
  reflexive = λ c h. (h, refl);
  transitive =
      λ c d e h k held. let first = h held in let next = k first.0 in (next.0, next.1 ∙ first.1);
}

clash : {x : Bool} → x ≡ true → x ≡ false → ⊥
clash h k = cc

module _ (deps : Deps) (b : Text) where
  audit-Holding :
      (action : AuditAction) (actor payload : Text) (now : ℕ) (id : Text)
      → Respects (Holding b) (append_backup_audit deps action actor payload now id)
  unfolding append_backup_audit insert_audit is_held
  audit-Holding action actor payload now id =
      Respects-bind (Holding b) _ _
        (Respects-statement (Holding b) _ (λ c. (Holding b).reflexive c))
        (λ last.
          Respects-bind (Holding b) _ _
            (Respects-fallible (Holding b) _ (λ c.
              Allowed-if (Holding b) _ c _ _ Allowed.refused (Allowed.taken (λ h. (h, refl)))))
            (λ u. Respects-pure (Holding b) _))

  mark_other :
      (now : ℕ) (id : Text) (c : Db) → same id b ≡ false → (Holding b).R c (mark_deleted now id c).1
  unfolding mark_deleted is_held
  mark_other now id c e h = (
    h,
    row-update_where-key (λ r. r.id) (λ r. record r { deleted_at = some now }) (λ r. refl) b id
          c.backup_records
        ∙ rw (e) refl,
  )

  delete_other :
      (now : ℕ) (actor id : Text) (payload audit_id : Text → Text)
      → same id b ≡ false
      → Respects (Holding b) (delete_backup deps now actor id payload audit_id)
  unfolding delete_backup
  delete_other now actor id payload audit_id e =
      Respects-bind (Holding b) _ _ (Respects-statement (Holding b) _ (λ c. mark_other now id c e))
        (λ u.
          Respects-bind (Holding b) _ _
            (audit-Holding AuditAction.backup_deleted actor (payload id) now (audit_id id))
            (λ r. Respects-pure (Holding b) tt))

  -- after a deletion of whatever backup, the others still respect holds
  delete-Obeys :
      (now : ℕ) (actor id : Text) (payload audit_id : Text → Text) (w : World Db)
      → Obeys (Holding b) w.others
      → Obeys (Holding b) (delete_backup deps now actor id payload audit_id w).1.others
  unfolding delete_backup ◌>>=◌ statement
  delete-Obeys now actor id payload audit_id w o =
      let next : World Db = record {
        state = (mark_deleted now id (turn w).state).1;
        others = (turn w).others;
      } in
      let audited =
        Respects-bind (Holding b) _ _
          (audit-Holding AuditAction.backup_deleted actor (payload id) now (audit_id id))
          (λ r. Respects-pure (Holding b) tt) in
      (audited.at next (Kept-turn (Holding b) w o).others).others

  -- a deletion where the backup is not held, though it may be the backup itself
  delete_unheld :
      (now : ℕ) (actor id : Text) (payload audit_id : Text → Text) (r : RetentionOutcome)
      (w v : World Db)
      → Kept (Holding b) w v
      → is_held b v.state ≡ false
      → Kept (Holding b) w ((delete_backup deps now actor id payload audit_id >> pure r) v).1
  delete_unheld now actor id payload audit_id r w v k e =
      rw (bind-pure_state (delete_backup deps now actor id payload audit_id) r v) (record {
        state = λ h. absurd (clash (k.state h).0 e);
        others = delete-Obeys now actor id payload audit_id v k.others;
      })

  -- the round after its check
  after_check :
      (now : ℕ) (actor : Text) (payload audit_id : Text → Text) (id : Text) (r : RetentionOutcome)
      (w v : World Db) (held : Bool)
      → Kept (Holding b) w v
      → is_held id v.state ≡ held
      → Kept
          (Holding b)
          w
          ((if held
              then pure (with_held id r)
              else (delete_backup deps now actor id payload audit_id >> pure (with_deleted id r)))
            v).1
  unfolding pure
  after_check now actor payload audit_id id r w v true k h = k
  after_check now actor payload audit_id id r w v false k h = elim (Bool-cases (same id b)) [
    | inl e ↦
        delete_unheld now actor id payload audit_id (with_deleted id r) w v k
          (ap (λ i. is_held i v.state) (sym ((same_iff id b).0 e)) ∙ h)
    | inr e ↦
        let rest =
          Respects-bind (Holding b) _ _ (delete_other now actor id payload audit_id e)
            (λ u. Respects-pure (Holding b) (with_deleted id r)) in
        Kept-trans (Holding b) w v _ k (rest.at v k.others)
  ]

  Holding-enforce_one :
      (now : ℕ) (actor : Text) (payload audit_id : Text → Text) (id : Text) (r : RetentionOutcome)
      → Respects (Holding b) (enforce_one deps now actor payload audit_id id r)
  unfolding enforce_one ◌>>=◌ statement pure
  Holding-enforce_one now actor payload audit_id id r = record {
    at = λ w o.
        let k = Kept-turn (Holding b) w o in
        after_check now actor payload audit_id id r w (turn w) (is_held id (turn w).state) k refl;
  }

  Holding-enforce_all :
      (now : ℕ) (actor : Text) (payload audit_id : Text → Text) (ids : List Text)
      (r : RetentionOutcome)
      → Respects (Holding b) (enforce_all deps now actor payload audit_id ids r)
  unfolding enforce_all
  Holding-enforce_all now actor payload audit_id [] r = Respects-pure (Holding b) r
  Holding-enforce_all now actor payload audit_id (id ∷ ids) r =
      Respects-bind (Holding b) _ _ (Holding-enforce_one now actor payload audit_id id r)
        (λ r'. Holding-enforce_all now actor payload audit_id ids r')

-- A backup that is under an active legal hold when the retention run begins is still held when it ends, and
-- its record is the same, however the run ends and whatever others do between its statements
-- who themselves keep held backups held and unchanged.
pub held_backup_survives :
    (deps : Deps) (b : Text) (now : ℕ) (actor : Text) (role : BackupAccessRole)
    (payload audit_id : Text → Text) (w : World Db)
    → Obeys (Holding b) w.others
    → is_held b w.state ≡ true
    → (is_held b (enforce_retention_and_delete deps now actor role payload audit_id w).1.state
        ≡ true)
      × (row
            (λ r. r.id)
            b
            (enforce_retention_and_delete deps now actor role payload audit_id
              w).1.state.backup_records
          ≡ row (λ r. r.id) b w.state.backup_records)
unfolding enforce_retention_and_delete
held_backup_survives deps b now actor role payload audit_id w o h =
    let run = Respects-if (Holding b) (not (may_delete role)) _ _ (Respects-throw (Holding b) _) (
      Respects-bind (Holding b) _ _
        (Respects-statement (Holding b) _ (λ c. (Holding b).reflexive c))
        (λ ids. Holding-enforce_all deps b now actor payload audit_id ids _)) in
    (run.at w o).state h
