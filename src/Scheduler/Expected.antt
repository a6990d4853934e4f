-- ===== src/Scheduler/Expected.antt =====
-- The incidents that a reconciliation of schedules and external entries names, without its loops
-- (packages/scheduler/src/index.ts): the reference for `reconcileSchedules`.

use chain_sieve.Base.{Bool, Option, none, some, List, [], ◌∷◌, ◌++◌, same, if◌then◌else◌, select}
use chain_sieve.Scheduler.Store.{
  ScheduleVersion, Schedule, Tables, ScheduleStore, Incident, missing_external, orphan_external,
  cron_mismatch, timezone_mismatch, paused_mismatch, destination_mismatch, external_id_mismatch,
}
use chain_sieve.Scheduler.Service.{Control, active_version}
use chain_sieve.Scheduler.Reconcile.{
  ExternalSchedule, given, external_of, linked, incident, is_live, is_paused, same_flag,
  agrees_on_id, found, is_claimed,
}

abbrev pub unless : Bool → Incident → List Incident
unless b i = if b then [] else i ∷ []

-- the incidents of a live schedule whose external entry is there
unfoldable pub field_incidents : Schedule → ScheduleVersion → ExternalSchedule → List Incident
field_incidents db v e =
    unless (same e.cron v.cron) (found cron_mismatch db e)
    ++ (unless (same e.timezone v.timezone) (found timezone_mismatch db e)
        ++ (unless (same_flag e.paused (is_paused db.state)) (found paused_mismatch db e)
            ++ (unless (same e.destination v.destination) (found destination_mismatch db e)
                ++ unless (agrees_on_id db e) (found external_id_mismatch db e))))

unfoldable pub version_incidents :
    List ExternalSchedule → Schedule → Option ScheduleVersion → List Incident
version_incidents external db none = []
version_incidents external db (some v) = elim (external_of external db) [
  | none ↦ incident missing_external (some db.id) db.external_schedule_id ∷ []
  | some e ↦ field_incidents db v e
]

unfoldable pub schedule_incidents : List ExternalSchedule → Tables → List Schedule → List Incident
schedule_incidents external t [] = []
schedule_incidents external t (db ∷ dbs) =
    version_incidents external db (active_version db.id t) ++ schedule_incidents external t dbs

-- the incident of an external entry that no live schedule owns
unfoldable pub orphan_incident : List Schedule → ExternalSchedule → List Incident
orphan_incident live e = elim (linked live e) [
  | some s ↦ []
  | none ↦ elim (given e.schedule_id) [
    | some id ↦ incident orphan_external (some id) (some e.external_id) ∷ []
    | none ↦ unless (is_claimed live e) (incident orphan_external none (some e.external_id))
  ]
]

unfoldable pub orphan_incidents : List Schedule → List ExternalSchedule → List Incident
orphan_incidents live [] = []
orphan_incidents live (e ∷ es) = orphan_incident live e ++ orphan_incidents live es

abbrev pub live : ScheduleStore → Tables → List Schedule
live store t = select is_live (store.list_schedules t)

-- all incidents, those of the schedules first
unfoldable pub expected : ScheduleStore → List ExternalSchedule → Tables → List Incident
expected store external t =
    schedule_incidents external t (live store t) ++ orphan_incidents (live store t) external

abbrev pub adds : List Incident → Control → Control
adds is c = record c { tables = record c.tables { incidents = c.tables.incidents ++ is } }
