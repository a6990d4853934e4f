-- ===== src/Scheduler/Reconcile.antt =====
-- `reconcileSchedules` (packages/scheduler/src/index.ts). What the external reader lists is the argument
-- `external`, and the writer of a repair is `writer`, none where `repair` is off or there is no writer.
use chain_sieve.Base.{
  ℕ, ◌+◌, Bool, true, false, not, Option, none, some, List, [], ◌∷◌, ◌++◌, Text, same, any, select,
  if◌then◌else◌,
}
use chain_sieve.Sql.Exec.{pure, statement, ◌>>=◌, ◌>>◌}
use chain_sieve.Scheduler.Store.{
  ScheduleState, ScheduleVersion, Schedule, ScheduleStore, Incident, IncidentType, missing_external,
  orphan_external, cron_mismatch, timezone_mismatch, paused_mismatch, destination_mismatch,
  external_id_mismatch,
}
use chain_sieve.Scheduler.Service.{
  Run, ExternalCall, put_schedule, call_external, get_active_version,
}

pub record ExternalSchedule : Type 0 where
  pub external_id : Text
  pub cron : Text
  pub timezone : Text
  pub paused : Bool
  pub destination : Text
  pub schedule_id : Option Text

-- `ReconciliationResult`
pub record Report : Type 0 where
  pub incidents : List Incident
  pub repaired : ℕ

-- the ids that are neither null nor empty
unfoldable pub given : Option Text → Option Text
given none = none
given (some t) = if same t [] then none else some t

abbrev pub is_id : Option Text → Text → Bool
is_id none t = false
is_id (some u) t = same u t

-- what a Map holds for a key: the last entry of it
unfoldable pub find_last : {A : Type 0} → (A → Bool) → List A → Option A
find_last p [] = none
find_last p (x ∷ xs) =
    let rest = find_last p xs in elim rest [ some y ↦ some y | none ↦ if p x then some x else none ]

abbrev pub same_flag : Bool → Bool → Bool
same_flag a b = if a then b else not b

abbrev pub is_live : Schedule → Bool
is_live s = elim s.state [ ScheduleState.active ↦ true | ScheduleState.paused ↦ true | _ ↦ false ]

abbrev pub is_paused : ScheduleState → Bool
is_paused ScheduleState.paused = true
is_paused _ = false

abbrev pub incident : IncidentType → Option Text → Option Text → Incident
incident k sid eid = record { incident_type = k; schedule_id = sid; external_schedule_id = eid }

-- `externalScheduleId ? extByExternal.get(…) : extBySchedule.get(…)`
unfoldable pub external_of : List ExternalSchedule → Schedule → Option ExternalSchedule
external_of external db = elim (given db.external_schedule_id) [
  | some id ↦ find_last (λ e. same e.external_id id) external
  | none ↦ find_last (λ e. is_id (given e.schedule_id) db.id) external
]

-- the schedule that an external entry belongs to
unfoldable pub linked : List Schedule → ExternalSchedule → Option Schedule
linked live e = elim (given e.schedule_id) [
  | some id ↦ find_last (λ s. same s.id id) live
  | none ↦ elim (given (some e.external_id)) [
    | none ↦ none
    | some id ↦ find_last (λ s. is_id (given s.external_schedule_id) id) live
  ]
]

-- `createIncident`, and the incident of the result
unfoldable pub note : Incident → Report → Run Report
note i r = statement (λ c. (
  record r { incidents = r.incidents ++ i ∷ [] },
  record c { tables = record c.tables { incidents = c.tables.incidents ++ i ∷ [] } },
))

abbrev pub one_more : Report → Report
one_more r = record r { repaired = r.repaired + 1 }

abbrev pub agrees_on_id : Schedule → ExternalSchedule → Bool
agrees_on_id db e = elim (given e.schedule_id) [ none ↦ true | some id ↦ same id db.id ]

abbrev pub found : IncidentType → Schedule → ExternalSchedule → Incident
found k db e = incident k (some db.id) (some e.external_id)

abbrev pub is_claimed : List Schedule → ExternalSchedule → Bool
is_claimed live e = any (λ s. is_id (given s.external_schedule_id) e.external_id) live

module _ (store : ScheduleStore) (writer : Option (ExternalCall → List ExternalCall → Option Text))
    (now : ℕ) where
  -- `if (input.repair && input.externalWriter) { await …; repaired++; }`
  unfoldable pub repair : ExternalCall → Report → Run Report
  repair q r = elim writer [
    | none ↦ pure r
    | some external ↦ (call_external external q >> pure (one_more r))
  ]

  -- a field that differs is an incident, and is set
  unfoldable pub compare : Bool → Incident → ExternalCall → Report → Run Report
  compare agrees i q r = if agrees then pure r else (note i r >>= repair q)

  unfoldable pub report_missing : Schedule → ScheduleVersion → Report → Run Report
  report_missing db v r = do
    noted ← note (incident missing_external (some db.id) db.external_schedule_id) r
    elim writer [
      | none ↦ pure noted
      | some external ↦ do
        created ←
            call_external external
              (ExternalCall.create_external db.id v.cron v.timezone v.destination)
        put_schedule store (record db { external_schedule_id = some created; updated_at = now })
        pure (one_more noted)
    ]

  unfoldable pub report_id : Schedule → ExternalSchedule → Report → Run Report
  report_id db e r = if agrees_on_id db e then pure r else note (found external_id_mismatch db e) r

  unfoldable pub compare_fields :
      Schedule → ScheduleVersion → ExternalSchedule → Report → Run Report
  compare_fields db v e r = do
    r1 ←
        compare (same e.cron v.cron) (found cron_mismatch db e)
          (ExternalCall.update_cron e.external_id v.cron) r
    r2 ←
        compare (same e.timezone v.timezone) (found timezone_mismatch db e)
          (ExternalCall.update_timezone e.external_id v.timezone) r1
    r3 ←
        compare (same_flag e.paused (is_paused db.state)) (found paused_mismatch db e)
          (ExternalCall.set_paused e.external_id (is_paused db.state)) r2
    r4 ←
        compare (same e.destination v.destination) (found destination_mismatch db e)
          (ExternalCall.update_destination e.external_id v.destination) r3
    report_id db e r4

  unfoldable pub compare_version :
      List ExternalSchedule → Schedule → Report → Option ScheduleVersion → Run Report
  compare_version external db r none = pure r
  compare_version external db r (some v) = elim (external_of external db) [
    | none ↦ report_missing db v r
    | some e ↦ compare_fields db v e r
  ]

  -- one round of the first loop
  unfoldable pub check_schedule : List ExternalSchedule → Schedule → Report → Run Report
  check_schedule external db r = get_active_version db.id >>= compare_version external db r

  unfoldable pub check_schedules : List ExternalSchedule → List Schedule → Report → Run Report
  check_schedules external [] r = pure r
  check_schedules external (db ∷ dbs) r =
      check_schedule external db r >>= check_schedules external dbs

  unfoldable pub report_orphan : Option Text → ExternalSchedule → Report → Run Report
  report_orphan sid e r =
      note (incident orphan_external sid (some e.external_id)) r
      >>= repair (ExternalCall.remove_external e.external_id)

  -- one round of the second loop; every schedule of `live` is active or paused
  unfoldable pub check_external : List Schedule → ExternalSchedule → Report → Run Report
  check_external live e r = elim (linked live e) [
    | some s ↦ pure r
    | none ↦ elim (given e.schedule_id) [
      | some id ↦ report_orphan (some id) e r
      | none ↦ if is_claimed live e then pure r else report_orphan none e r
    ]
  ]

  unfoldable pub check_externals : List Schedule → List ExternalSchedule → Report → Run Report
  check_externals live [] r = pure r
  check_externals live (e ∷ es) r = check_external live e r >>= check_externals live es

  unfoldable pub live_schedules : Run (List Schedule)
  live_schedules = statement (λ c. (select is_live (store.list_schedules c.tables), c))

  unfoldable pub reconcile_schedules : List ExternalSchedule → Run Report
  reconcile_schedules external = do
    live ← live_schedules
    first ← check_schedules external live (record { incidents = []; repaired = 0 })
    check_externals live external first
