-- ===== src/Scheduler/Reads.antt =====
-- `getActiveVersion` (packages/scheduler/src/index.ts) with nobody else acting between its two queries.
use chain_sieve.Base.{◌≡◌, refl, Option, none, some, Text, ok}
use chain_sieve.Sql.Exec.{alone, turn, statement, pure, ◌>>=◌}
use chain_sieve.Scheduler.Store.{ScheduleVersion, Tables, schedule, version}
use chain_sieve.Scheduler.Service.{
  Control, version_id_of, active_version, version_of, get_version, get_active_version,
}

abbrev named_version : Option Text → Tables → Option ScheduleVersion
named_version vid t = elim vid [ none ↦ none | some v ↦ version v t ]

version_of-alone :
    (vid : Option Text) (c : Control)
    → version_of vid (alone c) ≡ (ok (named_version vid c.tables), alone c)
unfolding version_of get_version statement pure turn
version_of-alone none c = refl
version_of-alone (some vid) c = refl

pub get_active_version-alone :
    (id : Text) (c : Control)
    → get_active_version id (alone c) ≡ (ok (active_version id c.tables), alone c)
unfolding get_active_version active_version statement ◌>>=◌ turn
get_active_version-alone id c = version_of-alone (version_id_of (schedule id c.tables)) c
