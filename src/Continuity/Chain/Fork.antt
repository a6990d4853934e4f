-- ===== src/Continuity/Chain/Fork.antt =====
-- Two calls of `appendBackupAudit` that overlap (packages/workflow-runtime/src/recovery-continuity.ts).
use chain_sieve.Base.{
  ◌≡◌, refl, ℕ, true, false, Option, none, some, List, [], ◌∷◌, ◌++◌, Text, same, same_refl, any,
  arith,
}
use chain_sieve.Sql.Exec.{alone, turn, statement, fallible, ◌>>=◌}
use chain_sieve.Continuity.Store.{AuditAction, AuditRow, Db}
use chain_sieve.Continuity.Audit.{Deps, insert_audit, append_backup_audit}
use chain_sieve.Continuity.Chain.{broken, same_hash, has_fork, verify_backup_audit_chain}
use chain_sieve.Continuity.Chain.Append.{next_row}

same_hash_refl : (o : Option Text) → same_hash o o ≡ true
unfolding same_hash
same_hash_refl none = refl
same_hash_refl (some t) = same_refl t

has_fork-append :
    (rs : List AuditRow) (q r : AuditRow)
    → same_hash r.previous_hash q.previous_hash ≡ true
    → has_fork (rs ++ q ∷ [] ++ r ∷ []) ≡ true
unfolding has_fork
has_fork-append [] q r h = rw (h) refl
has_fork-append (x ∷ rs) q r h = ground (arith, has_fork-append rs q r h)

forked :
    (deps : Deps) (rs : List AuditRow)
    → has_fork rs ≡ true
    → verify_backup_audit_chain deps rs ≡ some (broken 0)
unfolding verify_backup_audit_chain has_fork
forked deps [] h = cc
forked deps (r ∷ rs) h = rw (h) refl

-- When somebody else's append runs between the read and the insert of an append, with another id, and both
-- ids are new, verification finds the log broken afterwards.
pub racing_appends_fork :
    (deps : Deps) (s : Db) (action other_action : AuditAction)
    (actor other_actor payload other_payload : Text) (now other_now : ℕ) (id other_id : Text)
    → any (λ q. same q.id other_id) s.audit_log ≡ false
    → any
        (λ q. same q.id id)
        (s.audit_log
          ++ next_row deps s.audit_log other_action other_actor other_payload other_now other_id
            ∷ [])
      ≡ false
    → verify_backup_audit_chain deps
        (append_backup_audit deps action actor payload now id (record {
          state = s;
          others =
              (λ x. x)
              ∷ (λ x.
                  (append_backup_audit deps other_action other_actor other_payload other_now
                    other_id
                    (alone x)).1.state)
              ∷ [];
        })).1.state.audit_log
      ≡ some (broken 0)
unfolding append_backup_audit insert_audit ◌>>=◌ statement fallible turn
racing_appends_fork deps s action other_action actor other_actor payload other_payload now other_now
      id other_id f g =
    rw (f, g)
      (forked deps _ (
        has_fork-append s.audit_log
          (next_row deps s.audit_log other_action other_actor other_payload other_now other_id)
          (next_row deps s.audit_log action actor payload now id) (same_hash_refl _)))
