-- ===== src/Continuity/Chain/Append.antt =====
-- `appendBackupAudit` keeps the chain that `verifyBackupAuditChain` follows
-- (packages/workflow-runtime/src/recovery-continuity.ts).
use chain_sieve.Base.{
  ◌≡◌, refl, ap, ◌∙◌, ℕ, Bool, true, false, not, Option, none, some, List, [], ◌∷◌, ◌++◌, Text,
  same, any, find, arith,
}
use chain_sieve.Sql.Table.{Lacks, IsKeyed, IsKeyed-append}
use chain_sieve.Sql.Exec.{alone, turn, statement, fallible, ◌>>=◌}
use chain_sieve.Continuity.Store.{AuditAction, AuditRow, Db}
use chain_sieve.Continuity.Audit.{
  Deps, chain_hash, follows, last_record, hash_of, audit_row, insert_audit, append_backup_audit,
}
use chain_sieve.Continuity.Chain.{
  intact, same_hash, by_previous, expected_hash, verify_backup_audit_chain,
}
use chain_sieve.Continuity.Chain.Intact.{
  IsChain, Follows, Follows-same, Follows-after, after, by_previous-after,
  verify_backup_audit_chain-intact,
}

abbrev is_some : Option AuditRow → Bool
is_some none = false
is_some (some r) = true

abbrev or_row : AuditRow → Option AuditRow → Option AuditRow
or_row r none = some r
or_row r (some q) = some q

abbrev last : List AuditRow → Option AuditRow
last [] = none
last (r ∷ rs) = or_row r (last rs)

-- the hash that the next row names, after a chain that follows `p`
last_hash : Option Text → List AuditRow → Option Text
last_hash p [] = p
last_hash p (r ∷ rs) = last_hash (some r.record_hash) rs

hash_or : Option Text → Option AuditRow → Option Text
hash_or p none = p
hash_or p (some r) = some r.record_hash

hash-last : (p : Option Text) (rs : List AuditRow) → hash_or p (last rs) ≡ last_hash p rs
unfolding hash_or last_hash
hash-last p [] = refl
hash-last p (r ∷ rs) = or_this (last rs) ∙ hash-last (some r.record_hash) rs
  where
    or_this : (o : Option AuditRow) → hash_or p (or_row r o) ≡ hash_or (some r.record_hash) o
    or_this none = refl
    or_this (some q) = refl

follows-same_hash : (h : Text) (r : AuditRow) → follows h r ≡ same_hash r.previous_hash (some h)
unfolding same_hash
follows-same_hash h r = by_hash r.previous_hash
  where
    by_hash : (o : Option Text) → elim o [ none ↦ false | some p ↦ same p h ] ≡ same_hash o (some h)
    by_hash none = refl
    by_hash (some p) = refl

any-by_previous :
    (h : Text) (rs : List AuditRow) → any (follows h) rs ≡ is_some (by_previous (some h) rs)
unfolding by_previous
any-by_previous h [] = refl
any-by_previous h (r ∷ rs) = ground (arith, follows-same_hash h r, any-by_previous h rs)

-- of the rows of a chain, the one that no row follows is the last
find_last :
    (rows rest : List AuditRow)
    → Follows (λ h. by_previous (some h) rows) rest
    → find (λ r. not (any (follows r.record_hash) rows)) rest ≡ last rest
unfolding Follows
find_last rows [] f = refl
find_last rows (r ∷ []) f =
    let none_follows : any (follows r.record_hash) rows ≡ false =
      any-by_previous r.record_hash rows ∙ ap is_some f.0 in
    rw (none_follows) refl
find_last rows (r ∷ q ∷ rest) f =
    let one_follows : any (follows r.record_hash) rows ≡ true =
      any-by_previous r.record_hash rows ∙ ap is_some f.0 in
    rw (one_follows) (find_last rows (q ∷ rest) f.1 ∙ skip (last rest))
  where
    skip : (o : Option AuditRow) → or_row q o ≡ or_row r (or_row q o)
    skip none = refl
    skip (some x) = refl

module _ (deps : Deps) where
  last_record-chain :
      (rs : List AuditRow)
      → IsChain deps none rs
      → IsKeyed (λ r. r.record_hash) rs
      → last_record rs ≡ last rs
  unfolding last_record
  last_record-chain rs c k = find_last rs rs (
      Follows-same (λ h. by_previous (some h) rs) (λ h. after h rs) rs
        (λ h. by_previous-after deps h none rs c tt) (Follows-after rs k))

  IsChain-append :
      (p : Option Text) (rs : List AuditRow) (r : AuditRow)
      → IsChain deps p rs
      → r.previous_hash ≡ last_hash p rs
      → r.record_hash ≡ expected_hash deps (last_hash p rs) r
      → IsChain deps p (rs ++ r ∷ [])
  unfolding IsChain last_hash
  IsChain-append p [] r c h k = (h, k, tt)
  IsChain-append p (q ∷ rs) r c h k = (c.0, c.1, IsChain-append (some q.record_hash) rs r c.2 h k)

-- the row that an append adds to the log `rs`
abbrev pub next_row : Deps → List AuditRow → AuditAction → Text → Text → ℕ → Text → AuditRow
next_row deps rs action actor payload now id =
    audit_row deps (hash_of (last_record rs)) action actor payload now id

next_hash : (o : Option AuditRow) → hash_of o ≡ hash_or none o
unfolding hash_of hash_or
next_hash none = refl
next_hash (some r) = refl

-- Run alone on a log that is a chain with different hashes, where the id and the hash of the new record are
-- new, an append leaves a log that verification finds intact.
pub append_backup_audit-intact :
    (deps : Deps) (s : Db) (action : AuditAction) (actor payload : Text) (now : ℕ) (id : Text)
    → IsChain deps none s.audit_log
    → IsKeyed (λ r. r.record_hash) s.audit_log
    → any (λ q. same q.id id) s.audit_log ≡ false
    → Lacks
        (λ r. r.record_hash)
        (next_row deps s.audit_log action actor payload now id).record_hash
        s.audit_log
    → verify_backup_audit_chain deps
        (append_backup_audit deps action actor payload now id (alone s)).1.state.audit_log
      ≡ some intact
unfolding append_backup_audit insert_audit ◌>>=◌ statement fallible turn expected_hash
append_backup_audit-intact deps s action actor payload now id c k f l =
    let previous : hash_of (last_record s.audit_log) ≡ last_hash none s.audit_log =
      ap hash_of (last_record-chain deps s.audit_log c k)
      ∙ (next_hash (last s.audit_log) ∙ hash-last none s.audit_log) in
    let row = next_row deps s.audit_log action actor payload now id in
    let chain =
      IsChain-append deps none s.audit_log row c previous
        (ap (λ h. chain_hash deps h action actor payload now id) previous) in
    rw (f) (
      verify_backup_audit_chain-intact deps (s.audit_log ++ row ∷ []) chain
        (IsKeyed-append (λ r. r.record_hash) s.audit_log row k l))
