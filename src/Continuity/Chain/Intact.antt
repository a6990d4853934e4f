-- ===== src/Continuity/Chain/Intact.antt =====
-- A chain of audit records, each after the one before it, is found intact.
use chain_sieve.Base.{
  ◌≡◌, ◌≢◌, subst, refl, sym, ap, ◌∙◌, ℕ, ◌+◌, suc, true, false, Option, none, some, List, [], ◌∷◌,
  Text, same, same_iff, same_refl, same_of_ne, any, length, ◌==◌, ==_iff, if◌then◌else◌, arith,
  Bool-cases, inl, inr,
}
use chain_sieve.Sql.Table.{Lacks, IsKeyed}
use chain_sieve.Continuity.Store.{AuditRow}
use chain_sieve.Continuity.Audit.{Deps}
use chain_sieve.Continuity.Chain.{
  intact, same_hash, has_fork, by_previous, expected_hash, walk, verify_backup_audit_chain,
}

abbrev pub head : List AuditRow → Option AuditRow
head [] = none
head (r ∷ rs) = some r

-- the row after the one with the hash
abbrev pub after : Text → List AuditRow → Option AuditRow
after h [] = none
after h (r ∷ rs) = let rest = after h rs in if same r.record_hash h then head rs else rest

same_hash_refl : (o : Option Text) → same_hash o o ≡ true
unfolding same_hash
same_hash_refl none = refl
same_hash_refl (some t) = same_refl t

-- the previous hash is not `h`
abbrev pub Apart : Option Text → Text → Type 0
Apart none h = Unit
Apart (some t) h = t ≢ h

Apart-same_hash : (o : Option Text) (h : Text) → Apart o h → same_hash o (some h) ≡ false
unfolding same_hash
Apart-same_hash none h a = refl
Apart-same_hash (some t) h a = same_of_ne t h a

differs : (s t : Text) → same s t ≡ false → s ≢ t
differs s t e h = ground (arith, same_iff s t)

-- no row has the hash `k`
Without : Option Text → List AuditRow → Type 0
Without k [] = Unit
Without k (r ∷ rs) = (same_hash (some r.record_hash) k ≡ false) × Without k rs

Lacks-Without :
    (t : Text) (rs : List AuditRow) → Lacks (λ r. r.record_hash) t rs → Without (some t) rs
unfolding Without same_hash
Lacks-Without t [] l = tt
Lacks-Without t (r ∷ rs) l = (same_of_ne r.record_hash t l.0, Lacks-Without t rs l.1)

Without-none : (rs : List AuditRow) → Without none rs
unfolding Without same_hash
Without-none [] = tt
Without-none (r ∷ rs) = (refl, Without-none rs)

-- the rows that `f` gives after each row are those that come after it
unfoldable pub Follows : (Text → Option AuditRow) → List AuditRow → Type 0
Follows f [] = Unit
Follows f (r ∷ rs) = (f r.record_hash ≡ head rs) × Follows f rs

Follows-other :
    (f g : Text → Option AuditRow) (t : Text) (rs : List AuditRow)
    → ((h : Text) → t ≢ h → f h ≡ g h)
    → Lacks (λ r. r.record_hash) t rs
    → Follows g rs
    → Follows f rs
unfolding Follows
Follows-other f g t [] e l k = tt
Follows-other f g t (r ∷ rs) e l k =
    (e r.record_hash (λ q. l.0 (sym q)) ∙ k.0, Follows-other f g t rs e l.1 k.1)

pub Follows-same :
    (f g : Text → Option AuditRow) (rs : List AuditRow)
    → ((h : Text) → f h ≡ g h)
    → Follows g rs
    → Follows f rs
unfolding Follows
Follows-same f g [] e k = tt
Follows-same f g (r ∷ rs) e k = (e r.record_hash ∙ k.0, Follows-same f g rs e k.1)

pub Follows-after :
    (rs : List AuditRow) → IsKeyed (λ r. r.record_hash) rs → Follows (λ h. after h rs) rs
unfolding Follows
Follows-after [] k = tt
Follows-after (q ∷ rs) k = (
  rw (same_refl q.record_hash) refl,
  Follows-other (λ h. after h (q ∷ rs)) (λ h. after h rs) q.record_hash rs
      (λ h n. rw (same_of_ne q.record_hash h n) refl) k.0 (Follows-after rs k.1),
)

module _ (deps : Deps) where
  -- every row names the hash of the row before it, and its own hash is right
  unfoldable pub IsChain : Option Text → List AuditRow → Type 0
  IsChain previous [] = Unit
  IsChain previous (r ∷ rs) =
      (r.previous_hash ≡ previous)
      × (r.record_hash ≡ expected_hash deps previous r)
      × IsChain (some r.record_hash) rs

  root :
      (r : AuditRow) (rs : List AuditRow)
      → IsChain none (r ∷ rs)
      → by_previous none (r ∷ rs) ≡ some r
  unfolding by_previous IsChain same_hash
  root r rs c =
      let here : same_hash r.previous_hash none ≡ true = ap (λ o. same_hash o none) c.0 in
      rw (here) refl

  by_previous-head :
      (h : Text) (rs : List AuditRow) → IsChain (some h) rs → by_previous (some h) rs ≡ head rs
  unfolding by_previous IsChain
  by_previous-head h [] c = refl
  by_previous-head h (r ∷ rs) c = rw (c.0, same_hash_refl (some h)) refl

  pub by_previous-after :
      (h : Text) (p : Option Text) (rs : List AuditRow)
      → IsChain p rs
      → Apart p h
      → by_previous (some h) rs ≡ after h rs
  unfolding by_previous IsChain
  by_previous-after h p [] c a = refl
  by_previous-after h p (r ∷ rs) c a =
      rw (c.0, Apart-same_hash p h a)
        (elim (Bool-cases (same r.record_hash h)) [
          | inl e ↦ rw (e) (
              by_previous-head h rs
                (subst (λ t. IsChain (some t) rs) ((same_iff r.record_hash h).0 e) c.2))
          | inr e ↦
              rw (e) (by_previous-after h (some r.record_hash) rs c.2 (differs r.record_hash h e))
        ])

  walk-intact :
      (rows rest : List AuditRow) (p : Option Text) (visited : ℕ)
      → IsChain p rest
      → Follows (λ h. by_previous (some h) rows) rest
      → visited + length rest ≡ length rows
      → walk deps (suc (length rest)) rows p (head rest) visited ≡ some intact
  unfolding walk IsChain Follows
  walk-intact rows [] p visited c f n =
      let all : (visited == length rows) ≡ true = (==_iff visited (length rows)).1 (omega arith) in
      rw (all) refl
  walk-intact rows (r ∷ rest) p visited c f n =
      let fit : same (expected_hash deps p r) r.record_hash ≡ true =
        (same_iff (expected_hash deps p r) r.record_hash).1 (sym c.1) in
      let next : same_hash r.previous_hash p ≡ true =
        ap (λ o. same_hash o p) c.0 ∙ same_hash_refl p in
      rw (fit, next, f.0)
        (walk-intact rows rest (some r.record_hash) (visited + 1) c.2 f.1 (omega arith))

  -- no later row names the previous hash of an earlier one
  no_other :
      (k p : Option Text) (rs : List AuditRow)
      → IsChain p rs
      → same_hash p k ≡ false
      → Without k rs
      → any (λ q. same_hash q.previous_hash k) rs ≡ false
  unfolding IsChain Without
  no_other k p [] c n w = refl
  no_other k p (r ∷ rs) c n w =
      let here : same_hash r.previous_hash k ≡ false = ap (λ o. same_hash o k) c.0 ∙ n in
      rw (here, no_other k (some r.record_hash) rs c.2 w.0 w.1) refl

  no_fork :
      (p : Option Text) (rs : List AuditRow)
      → IsChain p rs
      → IsKeyed (λ r. r.record_hash) rs
      → Without p rs
      → has_fork rs ≡ false
  unfolding has_fork IsChain Without
  no_fork p [] c k w = refl
  no_fork p (r ∷ rs) c k w =
      let alone_here : any (λ q. same_hash q.previous_hash r.previous_hash) rs ≡ false =
        ap (λ o. any (λ q. same_hash q.previous_hash o) rs) c.0
        ∙ no_other p (some r.record_hash) rs c.2 w.0 w.1 in
      rw (alone_here, no_fork (some r.record_hash) rs c.2 k.1 (Lacks-Without r.record_hash rs k.0))
        refl

-- The rows of a chain whose hashes are all different are found intact, and the fuel suffices.
pub verify_backup_audit_chain-intact :
    (deps : Deps) (rs : List AuditRow)
    → IsChain deps none rs
    → IsKeyed (λ r. r.record_hash) rs
    → verify_backup_audit_chain deps rs ≡ some intact
unfolding verify_backup_audit_chain
verify_backup_audit_chain-intact deps [] c k = refl
verify_backup_audit_chain-intact deps (r ∷ rs) c k =
    let rows = r ∷ rs in
    let unforked = no_fork deps none rows c k (Without-none rows) in
    let following : Follows (λ h. by_previous (some h) rows) rows =
      Follows-same (λ h. by_previous (some h) rows) (λ h. after h rows) rows
        (λ h. by_previous-after deps h none rows c tt) (Follows-after rows k) in
    rw (unforked, root deps r rs c) (walk-intact deps rows rows none 0 c following (omega arith))
