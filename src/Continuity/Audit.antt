-- ===== src/Continuity/Audit.antt =====
-- `appendBackupAudit` (packages/workflow-runtime/src/recovery-continuity.ts). SHA-256 is the parameter
-- `sha256`, `toIso` of a time `iso`, and the payload is its normalized JSON text. Each audit id that the
-- source draws at random is an argument.
use chain_sieve.Base.{
  ℕ, Bool, false, not, Option, none, some, List, [], ◌∷◌, ◌++◌, Text, same, codes, any, find,
  or_else, if◌then◌else◌, Outcome, ok, err,
}
use chain_sieve.Sql.Exec.{Exec, pure, statement, fallible, ◌>>=◌, ◌>>◌}
use chain_sieve.Continuity.Store.{AuditAction, AuditRow, Db, Fault, unique_violation}

pub record Deps : Type 0 where
  pub sha256 : Text → Text
  pub iso : ℕ → Text
  pub action_text : AuditAction → Text

abbrev pub follows : Text → AuditRow → Bool
follows h r = elim r.previous_hash [ none ↦ false | some p ↦ same p h ]

-- a record that no other record names as its previous one; LIMIT 1 takes the first of the table
unfoldable pub last_record : List AuditRow → Option AuditRow
last_record rows = find (λ r. not (any (follows r.record_hash) rows)) rows

unfoldable pub hash_of : Option AuditRow → Option Text
hash_of none = none
hash_of (some r) = some r.record_hash

-- `${previousHash ?? ''}:${action}:${actor}:${payloadStr}:${recordedAtIso}:${id}`
unfoldable pub chain_hash : Deps → Option Text → AuditAction → Text → Text → ℕ → Text → Text
chain_hash deps previous action actor payload now id = deps.sha256 (
    or_else previous []
    ++ (codes ":"
        ++ (deps.action_text action
            ++ (codes ":"
                ++ (actor
                    ++ (codes ":"
                        ++ (payload ++ (codes ":" ++ (deps.iso now ++ (codes ":" ++ id))))))))))

abbrev pub audit_row : Deps → Option Text → AuditAction → Text → Text → ℕ → Text → AuditRow
audit_row deps previous action actor payload now id = record {
  id = id;
  action = action;
  actor = actor;
  payload_json = payload;
  previous_hash = previous;
  record_hash = chain_hash deps previous action actor payload now id;
  recorded_at = now;
}

-- INSERT INTO backup_audit_log, whose id is its primary key
unfoldable pub insert_audit : AuditRow → Db → Outcome Fault (Unit {0} × Db)
insert_audit r s =
    if any (λ q. same q.id r.id) s.audit_log
    then err unique_violation
    else ok (tt, record s { audit_log = s.audit_log ++ r ∷ [] })

module _ (deps : Deps) where
  unfoldable pub append_backup_audit : AuditAction → Text → Text → ℕ → Text → Exec Db Fault AuditRow
  append_backup_audit action actor payload now id = do
    last ← statement (λ s. (last_record s.audit_log, s))
    fallible (insert_audit (audit_row deps (hash_of last) action actor payload now id))
    pure (audit_row deps (hash_of last) action actor payload now id)
