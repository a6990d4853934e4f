-- ===== src/Domain/Temporal.antt =====
-- Point-in-time records (packages/domain/src/temporal.ts). `Date.parse` is the parameter
-- `parse_date`, with none for NaN.
pub mod Revisions
pub mod Latest
mod Examples
use chain_sieve.Base.{
  ℕ, Bool, true, false, ◌&&◌, Option, none, some, List, [], ◌∷◌, Text, same, ltb, leb, ◌==◌,
  if◌then◌else◌, Outcome, ok, err,
}

pub data TemporalError : Type 0 where
  timestamp_invalid available_at_backdated available_at_before_retrieval available_at_before_fetch :
      TemporalError

-- a record of the type parameter of `resolveLatestRevision`
pub record RevisionRecord : Type 0 where
  pub id : Text
  pub available_at : Text
  pub reorg_version : ℕ

-- throw unless the first time is at least the second one
unfoldable pub not_before : TemporalError → Option ℕ → Option ℕ → Outcome TemporalError (Unit {0})
not_before e (some t) (some bound) = if ltb t bound then err e else ok tt
not_before e _ _ = err TemporalError.timestamp_invalid

unfoldable pub is_at_most : Option ℕ → Option ℕ → Outcome TemporalError Bool
is_at_most (some a) (some b) = ok (leb a b)
is_at_most _ _ = err TemporalError.timestamp_invalid

-- `currentMs > latestMs || currentMs === latestMs && …`, where NaN compares as false
unfoldable pub supersedes : Option ℕ → ℕ → Option ℕ → ℕ → Bool
supersedes (some current) version (some latest) version' =
    if ltb latest current then true else current == latest && ltb version' version
supersedes _ version _ version' = false

-- one record of `filter`, whose test may throw
unfoldable pub keep_if :
    Outcome TemporalError Bool
    → RevisionRecord
    → Outcome TemporalError (List RevisionRecord)
    → Outcome TemporalError (List RevisionRecord)
keep_if (ok true) r (ok rs) = ok (r ∷ rs)
keep_if (ok false) r rest = rest
keep_if (ok true) r (err e) = err e
keep_if (err e) r rest = err e

module _ (parse_date : Text → Option ℕ) where
  unfoldable pub assert_no_backdating : Text → Text → Outcome TemporalError (Unit {0})
  assert_no_backdating event_time available_at =
      not_before TemporalError.available_at_backdated (parse_date available_at)
        (parse_date event_time)

  unfoldable pub assert_available_at_monotonic : Text → Text → Outcome TemporalError (Unit {0})
  assert_available_at_monotonic available_at retrieved_at =
      not_before TemporalError.available_at_before_retrieval (parse_date available_at)
        (parse_date retrieved_at)

  unfoldable pub is_available_at_point_in_time : Text → Text → Outcome TemporalError Bool
  is_available_at_point_in_time available_at as_of =
      is_at_most (parse_date available_at) (parse_date as_of)

  unfoldable pub filter_by_available_at :
      List RevisionRecord → Text → Outcome TemporalError (List RevisionRecord)
  filter_by_available_at [] as_of = ok []
  filter_by_available_at (r ∷ rs) as_of =
      let rest = filter_by_available_at rs as_of in
      keep_if (is_available_at_point_in_time r.available_at as_of) r rest

  -- the step of `reduce`
  unfoldable pub later_of : RevisionRecord → RevisionRecord → RevisionRecord
  later_of latest current =
      if supersedes (parse_date current.available_at) current.reorg_version
        (parse_date latest.available_at) latest.reorg_version
      then current
      else latest

  unfoldable pub latest_of : RevisionRecord → List RevisionRecord → RevisionRecord
  latest_of latest [] = latest
  latest_of latest (r ∷ rs) = latest_of (later_of latest r) rs

  unfoldable pub latest_eligible : List RevisionRecord → Option RevisionRecord
  latest_eligible [] = none
  latest_eligible (r ∷ rs) = some (latest_of r rs)

  unfoldable pub resolve_latest_revision :
      List RevisionRecord → Text → Outcome TemporalError (Option RevisionRecord)
  resolve_latest_revision revisions as_of = elim (filter_by_available_at revisions as_of) [
    | err e ↦ err e
    | ok es ↦ ok (latest_eligible es)
  ]
