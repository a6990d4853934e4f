-- ===== src/Domain/Temporal/Latest.antt =====
-- What `resolveLatestRevision` (packages/domain/src/temporal.ts) gives for a list of records.
use chain_sieve.Base.{
  ℕ, ◌≤◌, ◌≡◌, ◌⊎◌, ◌∙◌, ◌↔◌, ap, sym, refl, true, false, Option, some, List, [], ◌∷◌, Text, All,
  ok, leb, Bool-cases, inl, inr, arith, subst,
}
use chain_sieve.Domain.Temporal.{
  RevisionRecord, is_at_most, supersedes, keep_if, is_available_at_point_in_time,
  filter_by_available_at, later_of, latest_of, latest_eligible, resolve_latest_revision,
}
use chain_sieve.Domain.Temporal.Revisions.{
  Timed, NotAfter, some_injective, latest_eligible-NotAfter, resolve-ok,
}

-- the record stands in the list
abbrev pub Among : RevisionRecord → List RevisionRecord → Type 0
Among e [] = ⊥
Among e (r ∷ rs) = (r ≡ e) ⊎ Among e rs

All-Among :
    (P : RevisionRecord → Type 0) (e : RevisionRecord) (rs : List RevisionRecord)
    → All P rs
    → Among e rs
    → P e
All-Among P e [] h m = absurd m
All-Among P e (r ∷ rs) h (inl q) = subst P q h.0
All-Among P e (r ∷ rs) h (inr m) = All-Among P e rs h.1 m

module _ (parse_date : Text → Option ℕ) where
  -- the record was available at the time
  abbrev pub IsAvailableBy : ℕ → RevisionRecord → Type 0
  IsAvailableBy u r = (t : ℕ) × (parse_date r.available_at ≡ some t) × (t ≤ u)

  too_late :
      (t u : ℕ) (r e : RevisionRecord)
      → parse_date r.available_at ≡ some t
      → leb t u ≡ false
      → r ≡ e
      → IsAvailableBy u e
      → ⊥
  too_late t u r e h late q (t', h', le) =
      let same_time : t ≡ t' =
        some_injective t t' (parse_date e.available_at)
          (ap (λ x. parse_date x.available_at) (sym q) ∙ h) h' in
      ground (arith, same_time)

  test_of_times :
      (t u : ℕ) (r : RevisionRecord) (as_of : Text)
      → parse_date r.available_at ≡ some t
      → parse_date as_of ≡ some u
      → is_available_at_point_in_time parse_date r.available_at as_of ≡ ok (leb t u)
  unfolding is_available_at_point_in_time is_at_most
  test_of_times t u r as_of h k = rw (h, k) refl

  -- where all times can be read, the filter keeps exactly the records that were available
  filter-Among :
      (rs : List RevisionRecord) (as_of : Text) (u : ℕ)
      → All (Timed parse_date) rs
      → parse_date as_of ≡ some u
      → (es : List RevisionRecord) × (filter_by_available_at parse_date rs as_of ≡ ok es)
        × ((e : RevisionRecord) → Among e es ↔ (Among e rs × IsAvailableBy u e))
        × All (Timed parse_date) es
  unfolding filter_by_available_at keep_if
  filter-Among [] as_of u ts k = ([], refl, λ e. (λ m. absurd m, λ m. absurd m.0), tt)
  filter-Among (r ∷ rs) as_of u ((t, h), ts) k =
      let (es, f, mem, timed) = filter-Among rs as_of u ts k in
      let test = test_of_times t u r as_of h k in
      elim (Bool-cases (leb t u)) [
        | inl early ↦ (
          r ∷ es,
          rw (test, early, f) refl,
          λ e. (kept t u r e rs es h early (mem e).0, kept_back u r e rs es (mem e).1),
          ((t, h), timed),
        )
        | inr late ↦ (
          es,
          rw (test, late, f) refl,
          λ e.
              (λ m. (inr ((mem e).0 m).0, ((mem e).0 m).1), dropped t u r e rs es h late (mem e).1),
          timed,
        )
      ]
    where
      kept :
          (t u : ℕ) (r e : RevisionRecord) (rs es : List RevisionRecord)
          → parse_date r.available_at ≡ some t
          → leb t u ≡ true
          → (Among e es → Among e rs × IsAvailableBy u e)
          → Among e (r ∷ es)
          → Among e (r ∷ rs) × IsAvailableBy u e
      kept t u r e rs es h early mem (inl q) =
          (inl q, subst (IsAvailableBy u) q (t, h, ground arith))
      kept t u r e rs es h early mem (inr m) = (inr (mem m).0, (mem m).1)

      kept_back :
          (u : ℕ) (r e : RevisionRecord) (rs es : List RevisionRecord)
          → (Among e rs × IsAvailableBy u e → Among e es)
          → Among e (r ∷ rs) × IsAvailableBy u e
          → Among e (r ∷ es)
      kept_back u r e rs es mem (inl q, av) = inl q
      kept_back u r e rs es mem (inr m, av) = inr (mem (m, av))

      dropped :
          (t u : ℕ) (r e : RevisionRecord) (rs es : List RevisionRecord)
          → parse_date r.available_at ≡ some t
          → leb t u ≡ false
          → (Among e rs × IsAvailableBy u e → Among e es)
          → Among e (r ∷ rs) × IsAvailableBy u e
          → Among e es
      dropped t u r e rs es h late mem (inl q, av) = absurd (too_late t u r e h late q av)
      dropped t u r e rs es h late mem (inr m, av) = mem (m, av)

  later_of-Among :
      (l r : RevisionRecord) → (l ≡ later_of parse_date l r) ⊎ (r ≡ later_of parse_date l r)
  unfolding later_of
  later_of-Among l r =
      elim (Bool-cases (
        supersedes (parse_date r.available_at) r.reorg_version (parse_date l.available_at)
          l.reorg_version)) [ inl q ↦ rw q (inr refl) | inr q ↦ rw q (inl refl) ]

  latest_of-Among :
      (l : RevisionRecord) (rs : List RevisionRecord) → Among (latest_of parse_date l rs) (l ∷ rs)
  unfolding latest_of
  latest_of-Among l [] = inl refl
  latest_of-Among l (r ∷ rs) = elim (latest_of-Among (later_of parse_date l r) rs) [
    | inr m ↦ inr (inr m)
    | inl q ↦ elim (later_of-Among l r) [ inl p ↦ inl (p ∙ q) | inr p ↦ inr (inl (p ∙ q)) ]
  ]

  -- a list with a member has a latest one, which is a member too
  latest-Among :
      (es : List RevisionRecord) (e : RevisionRecord)
      → Among e es
      → (r : RevisionRecord) × (latest_eligible parse_date es ≡ some r) × Among r es
  unfolding latest_eligible
  latest-Among [] e m = absurd m
  latest-Among (l ∷ es) e m = (latest_of parse_date l es, refl, latest_of-Among l es)

  -- When the times of all records can be read and a record `e` of the list was available as of the
  -- given time, which includes a record that became available at that very time, then the replay
  -- finds a revision: a record of the list, available as of that time, and `e` is not after it, by
  -- the time it became available and then by its version.
  pub resolved_is_latest :
      (revisions : List RevisionRecord) (e : RevisionRecord) (as_of : Text) (t u : ℕ)
      → All (Timed parse_date) revisions
      → parse_date as_of ≡ some u
      → Among e revisions
      → parse_date e.available_at ≡ some t
      → t ≤ u
      → (r : RevisionRecord) × (resolve_latest_revision parse_date revisions as_of ≡ ok (some r))
        × Among r revisions
        × IsAvailableBy u r
        × NotAfter parse_date e r
  resolved_is_latest revisions e as_of t u ts k m h le =
      let (es, f, mem, timed) = filter-Among revisions as_of u ts k in
      let there = (mem e).1 (m, (t, h, le)) in
      let (r, latest, chosen) = latest-Among es e there in
      (
        r,
        resolve-ok parse_date revisions es as_of f ∙ ap ok latest,
        ((mem r).0 chosen).0,
        ((mem r).0 chosen).1,
        All-Among (λ x. NotAfter parse_date x r) e es
            (latest_eligible-NotAfter parse_date es r timed latest) there,
      )
