-- ===== src/Scheduler/Agreement.antt =====
-- What it means when `reconcileSchedules` (packages/scheduler/src/index.ts) reports nothing.
use chain_sieve.Base.{
  ◌≡◌, ℕ, refl, sym, ap, ◌∙◌, Bool, true, false, Option, none, some, List, [], ◌∷◌, same_iff,
  Outcome, ok, err, All, empty_left, empty_right,
}
use chain_sieve.Sql.Exec.{alone}
use chain_sieve.Scheduler.Store.{
  ScheduleVersion, Schedule, Tables, ScheduleStore, ScheduleError, Incident,
}
use chain_sieve.Scheduler.Service.{Control, active_version}
use chain_sieve.Scheduler.Reconcile.{
  ExternalSchedule, Report, external_of, is_paused, same_flag, agrees_on_id, reconcile_schedules,
}
use chain_sieve.Scheduler.Expected.{
  unless, field_incidents, version_incidents, schedule_incidents, expected, live,
}
use chain_sieve.Scheduler.Reports.{reconcile_schedules-expected}

-- an external entry with the fields of the version
pub record Mirrors (db : Schedule) (v : ScheduleVersion) (o : Option ExternalSchedule)
    : Type 0 where
  pub entry : ExternalSchedule
  pub there : o ≡ some entry
  pub cron : entry.cron ≡ v.cron
  pub timezone : entry.timezone ≡ v.timezone
  pub paused : same_flag entry.paused (is_paused db.state) ≡ true
  pub destination : entry.destination ≡ v.destination
  pub id : agrees_on_id db entry ≡ true

-- a schedule without a version is passed over
abbrev pub Agrees : List ExternalSchedule → Schedule → Option ScheduleVersion → Type 0
Agrees external db none = Unit
Agrees external db (some v) = Mirrors db v (external_of external db)

abbrev is_empty : {A : Type 0} → List A → Bool
is_empty [] = true
is_empty (x ∷ xs) = false

unless_empty : (b : Bool) (i : Incident) → unless b i ≡ [] → b ≡ true
unless_empty true i h = refl
unless_empty false i h = cc

fields_agree :
    (db : Schedule) (v : ScheduleVersion) (e : ExternalSchedule)
    → field_incidents db v e ≡ []
    → Mirrors db v (some e)
unfolding field_incidents
fields_agree db v e h =
    let h1 = empty_right _ _ h in
    let h2 = empty_right _ _ h1 in
    let h3 = empty_right _ _ h2 in
    record {
      entry = e;
      there = refl;
      cron = (same_iff e.cron v.cron).0 (unless_empty _ _ (empty_left _ _ h));
      timezone = (same_iff e.timezone v.timezone).0 (unless_empty _ _ (empty_left _ _ h1));
      paused = unless_empty _ _ (empty_left _ _ h2);
      destination = (same_iff e.destination v.destination).0 (unless_empty _ _ (empty_left _ _ h3));
      id = unless_empty _ _ (empty_right _ _ h3);
    }

entry_agrees :
    (db : Schedule) (v : ScheduleVersion) (i : Incident) (o : Option ExternalSchedule)
    → ◌≡◌ {A = List Incident} (elim o [ none ↦ i ∷ [] | some e ↦ field_incidents db v e ]) []
    → Mirrors db v o
entry_agrees db v i none h = cc
entry_agrees db v i (some e) h = fields_agree db v e h

version-Agrees :
    (external : List ExternalSchedule) (db : Schedule) (o : Option ScheduleVersion)
    → version_incidents external db o ≡ []
    → Agrees external db o
unfolding version_incidents
version-Agrees external db none h = tt
version-Agrees external db (some v) h = entry_agrees db v _ (external_of external db) h

schedules-Agrees :
    (external : List ExternalSchedule) (t : Tables) (dbs : List Schedule)
    → schedule_incidents external t dbs ≡ []
    → All (λ db. Agrees external db (active_version db.id t)) dbs
unfolding schedule_incidents
schedules-Agrees external t [] h = tt
schedules-Agrees external t (db ∷ dbs) h = (
  version-Agrees external db (active_version db.id t) (empty_left _ _ h),
  schedules-Agrees external t dbs (empty_right _ _ h),
)

abbrev reported : Outcome ScheduleError Report → List Incident
reported (ok r) = r.incidents
reported (err e) = []

-- When a reconciliation that runs alone and without repair returns no incident, every active or paused
-- schedule with a version has an external entry with its cron, time zone, destination and pause, and that
-- names the schedule's id or none.
pub reconcile_schedules-Agrees :
    (store : ScheduleStore) (now : ℕ) (external : List ExternalSchedule) (c : Control)
    → (reconcile_schedules store none now external (alone c)).0
      ≡ ok (record { incidents = []; repaired = 0 })
    → All (λ db. Agrees external db (active_version db.id c.tables)) (live store c.tables)
unfolding expected
reconcile_schedules-Agrees store now external c h =
    let said : expected store external c.tables ≡ [] =
      ap (λ r. reported r.0) (sym (reconcile_schedules-expected store now external c))
      ∙ ap reported h in
    schedules-Agrees external c.tables (live store c.tables) (empty_left _ _ said)
