-- ===== src/Domain/Temporal/Revisions.antt =====
-- `resolveLatestRevision` (packages/domain/src/temporal.ts) does not look ahead, and the fold of
-- `reduce` finds the latest of the eligible revisions.
use chain_sieve.Base.{
  ℕ, ◌<◌, ◌≤◌, ◌≡◌, ◌⊎◌, ◌∙◌, refl, true, false, Option, some, List, [], ◌∷◌, Text, All, ok,
  Bool-cases, inl, inr, arith, subst,
}
use chain_sieve.Domain.Temporal.{
  RevisionRecord, supersedes, filter_by_available_at, later_of, latest_of, latest_eligible,
  resolve_latest_revision,
}

pub some_injective : (a b : ℕ) (o : Option ℕ) → o ≡ some a → o ≡ some b → a ≡ b
some_injective a b o e f = ground arith

superseded :
    (t u v v' : ℕ) → supersedes (some u) v' (some t) v ≡ true → (t < u) ⊎ ((t ≡ u) × (v ≤ v'))
unfolding supersedes
superseded t u v v' h = ground arith

not_superseded :
    (t u v v' : ℕ) → supersedes (some u) v' (some t) v ≡ false → (u < t) ⊎ ((u ≡ t) × (v' ≤ v))
unfolding supersedes
not_superseded t u v v' h = ground arith

module _ (parse_date : Text → Option ℕ) where
  -- the time of a record can be read
  abbrev pub Timed : RevisionRecord → Type 0
  Timed r = (t : ℕ) × (parse_date r.available_at ≡ some t)

  -- the first is not after the second: by the time, and then by the version
  abbrev pub NotAfter : RevisionRecord → RevisionRecord → Type 0
  NotAfter e r =
      (a : ℕ) × (b : ℕ) × (parse_date e.available_at ≡ some a)
      × (parse_date r.available_at ≡ some b)
      × ((a < b) ⊎ ((a ≡ b) × (e.reorg_version ≤ r.reorg_version)))

  NotAfter-refl : (r : RevisionRecord) → Timed r → NotAfter r r
  NotAfter-refl r (t, e) = (t, t, e, e, inr (refl, omega arith))

  NotAfter-trans : (p q r : RevisionRecord) → NotAfter p q → NotAfter q r → NotAfter p r
  NotAfter-trans p q r (a, b, e, f, h) (b', c, f', g, k) =
      let same_time : b ≡ b' = some_injective b b' (parse_date q.available_at) f f' in
      (a, c, e, g, ground (arith, same_time))

  rewritten :
      (t u : ℕ) (l c : RevisionRecord)
      → parse_date l.available_at ≡ some t
      → parse_date c.available_at ≡ some u
      → supersedes (some u) c.reorg_version (some t) l.reorg_version
        ≡ supersedes
            (parse_date c.available_at)
            c.reorg_version
            (parse_date l.available_at)
            l.reorg_version
  rewritten t u l c e f = rw (e, f) refl

  later_of-NotAfter :
      (l c : RevisionRecord)
      → Timed l
      → Timed c
      → Timed (later_of parse_date l c)
        × NotAfter l (later_of parse_date l c)
        × NotAfter c (later_of parse_date l c)
  unfolding later_of
  later_of-NotAfter l c (t, e) (u, f) =
      elim (Bool-cases (
        supersedes (parse_date c.available_at) c.reorg_version (parse_date l.available_at)
          l.reorg_version)) [
            | inl q ↦ rw q (
              (u, f),
              (
                t,
                u,
                e,
                f,
                superseded t u l.reorg_version c.reorg_version (rewritten t u l c e f ∙ q),
              ),
              NotAfter-refl c (u, f),
            )
            | inr q ↦ rw q (
              (t, e),
              NotAfter-refl l (t, e),
              (
                u,
                t,
                f,
                e,
                not_superseded t u l.reorg_version c.reorg_version (rewritten t u l c e f ∙ q),
              ),
            )
          ]

  latest_of-NotAfter :
      (l : RevisionRecord) (rs : List RevisionRecord)
      → Timed l
      → All Timed rs
      → NotAfter l (latest_of parse_date l rs)
        × All (λ e. NotAfter e (latest_of parse_date l rs)) rs
  unfolding latest_of
  latest_of-NotAfter l [] t ts = (NotAfter-refl l t, tt)
  latest_of-NotAfter l (r ∷ rs) t ts =
      let (timed, left, right) = later_of-NotAfter l r t ts.0 in
      let (up, all) = latest_of-NotAfter (later_of parse_date l r) rs timed ts.1 in
      (
        NotAfter-trans l (later_of parse_date l r)
            (latest_of parse_date (later_of parse_date l r) rs) left up,
        (
          NotAfter-trans r (later_of parse_date l r)
              (latest_of parse_date (later_of parse_date l r) rs) right up,
          all,
        ),
      )

  pub latest_eligible-NotAfter :
      (es : List RevisionRecord) (r : RevisionRecord)
      → All Timed es
      → latest_eligible parse_date es ≡ some r
      → All (λ e. NotAfter e r) es
  unfolding latest_eligible
  latest_eligible-NotAfter [] r ts h = tt
  latest_eligible-NotAfter (e ∷ es) r ts h =
      let q : latest_of parse_date e es ≡ r = ground arith in
      subst (λ x. All (λ y. NotAfter y x) (e ∷ es)) q (latest_of-NotAfter e es ts.0 ts.1)

  pub resolve-ok :
      (revisions es : List RevisionRecord) (as_of : Text)
      → filter_by_available_at parse_date revisions as_of ≡ ok es
      → resolve_latest_revision parse_date revisions as_of ≡ ok (latest_eligible parse_date es)
  unfolding resolve_latest_revision
  resolve-ok revisions es as_of f = rw (f, resolve_latest_revision) refl
