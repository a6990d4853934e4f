-- ===== src/Domain/Temporal/Examples.antt =====
-- Revisions at some inputs (packages/domain/src/temporal.ts).
use mathlib.Core.Path.{refl}
use chain_sieve.Base.{
  ℕ, ◌≡◌, Option, some, none, List, [], ◌∷◌, Text, All, ok, err, inl, inr, arith,
}
use chain_sieve.Domain.Temporal.{
  TemporalError, RevisionRecord, not_before, assert_no_backdating, assert_available_at_monotonic,
  is_at_most, is_available_at_point_in_time, supersedes, keep_if, filter_by_available_at, later_of,
  latest_of, latest_eligible, resolve_latest_revision,
}
use chain_sieve.Domain.Temporal.Revisions.{Timed, NotAfter}
use chain_sieve.Domain.Temporal.Latest.{Among, IsAvailableBy, resolved_is_latest}

-- a date is one code unit, which is its time
abbrev parse : Text → Option ℕ
parse [] = none
parse (t ∷ s) = some t

abbrev revision : ℕ → ℕ → RevisionRecord
revision time version = record { id = []; available_at = time ∷ []; reorg_version = version }

abbrev history : List RevisionRecord
history = revision 3 0 ∷ revision 9 1 ∷ revision 3 2 ∷ []

timed : All (Timed parse) history
timed = ((3, refl), ((9, refl), ((3, refl), tt)))

-- the third record became available exactly at the time of the replay
resolved_is_latest_example :
    (r : RevisionRecord) × (resolve_latest_revision parse history (3 ∷ []) ≡ ok (some r))
    × Among r history
    × IsAvailableBy parse 3 r
    × NotAfter parse (revision 3 2) r
resolved_is_latest_example =
    resolved_is_latest parse history (revision 3 2) (3 ∷ []) 3 3 timed refl (inr (inr (inl refl)))
      refl (omega arith)

resolved : resolve_latest_revision parse history (3 ∷ []) ≡ ok (some (revision 3 2))
unfolding resolve_latest_revision filter_by_available_at keep_if is_available_at_point_in_time
    is_at_most latest_eligible latest_of later_of supersedes
resolved = refl

-- a record that is available before its event is refused
backdated : assert_no_backdating parse (7 ∷ []) (5 ∷ []) ≡ err TemporalError.available_at_backdated
unfolding assert_no_backdating not_before
backdated = refl

early :
    assert_available_at_monotonic parse (5 ∷ []) (7 ∷ [])
    ≡ err TemporalError.available_at_before_retrieval
unfolding assert_available_at_monotonic not_before
early = refl
