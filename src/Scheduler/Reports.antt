-- ===== src/Scheduler/Reports.antt =====
-- What `reconcileSchedules` (packages/scheduler/src/index.ts) reports when it does not repair.
use mathlib.Core.List.{append-nil, append_assoc}
use chain_sieve.Base.{
  ◌≡◌, ℕ, refl, sym, ap, ◌∙◌, Bool, true, false, Option, none, some, List, [], ◌∷◌, ◌++◌, Text,
  if◌then◌else◌, ok,
}
use chain_sieve.Sql.Exec.{turn, alone, pure, statement, ◌>>=◌, bind-ok}
use chain_sieve.Scheduler.Store.{
  version, schedule, ScheduleVersion, Schedule, ScheduleStore, Incident, missing_external,
  orphan_external,
}
use chain_sieve.Scheduler.Reads.{get_active_version-alone}
use chain_sieve.Scheduler.Service.{Control, Run, active_version, get_active_version, ExternalCall}
use chain_sieve.Scheduler.Reconcile.{
  ExternalSchedule, Report, given, external_of, linked, incident, agrees_on_id, is_claimed, note,
  repair, compare, report_missing, report_id, compare_fields, compare_version, check_schedule,
  check_schedules, report_orphan, check_external, check_externals, live_schedules,
  reconcile_schedules,
}
use chain_sieve.Scheduler.Expected.{
  unless, field_incidents, version_incidents, schedule_incidents, orphan_incident, orphan_incidents,
  live, expected, adds,
}

abbrev plus : List Incident → Report → Report
plus is r = record r { incidents = r.incidents ++ is }

-- over the tables of `c`, `f` notes the incidents `is` and does nothing else
record Says (c : Control) (f : Report → Run Report) (is : List Incident) : Type 0 where
  run :
      (r : Report) (js : List Incident)
      → f r (alone (adds js c)) ≡ (ok (plus is r), alone (adds (js ++ is) c))

module _ (c : Control) where
  Says-pure : Says c pure []
  unfolding pure
  Says-pure = record { run = λ r js. rw (append-nil r.incidents, append-nil js) refl }

  Says-note : (i : Incident) → Says c (note i) (i ∷ [])
  unfolding note statement turn
  Says-note i = record { run = λ r js. rw (append_assoc c.tables.incidents js (i ∷ [])) refl }

  Says-bind :
      (f g : Report → Run Report) (is js : List Incident)
      → Says c f is
      → Says c g js
      → Says c (λ r. f r >>= g) (is ++ js)
  Says-bind f g is js h k = record {
    run = λ r ks.
        bind-ok (f r) g (alone (adds ks c)) (alone (adds (ks ++ is) c)) (plus is r) (h.run r ks)
        ∙ (k.run (plus is r) (ks ++ is)
            ∙ rw (append_assoc r.incidents is js, append_assoc ks is js) refl);
  }

  Says-if :
      (b : Bool) (i : Incident) (f : Report → Run Report)
      → Says c f (i ∷ [])
      → Says c (λ r. if b then pure r else f r) (unless b i)
  Says-if true i f h = record { run = Says-pure.run }
  Says-if false i f h = record { run = h.run }

  noted :
      (i : Incident) (k : Report → Run Report)
      → ((r : Report) → k r ≡ pure r)
      → (r : Report) (js : List Incident)
      → k (plus (i ∷ []) r) (alone (adds (js ++ i ∷ []) c))
        ≡ (ok (plus (i ∷ []) r), alone (adds (js ++ i ∷ []) c))
  unfolding pure
  noted i k h r js = ap (λ m. m (alone (adds (js ++ i ∷ []) c))) (h (plus (i ∷ []) r))

  -- a note and then nothing
  Says-noted :
      (i : Incident) (k : Report → Run Report)
      → ((r : Report) → k r ≡ pure r)
      → Says c (λ r. note i r >>= k) (i ∷ [])
  Says-noted i k h = record {
    run = λ r js.
        bind-ok (note i r) k (alone (adds js c)) (alone (adds (js ++ i ∷ []) c)) (plus (i ∷ []) r)
          ((Says-note i).run r js)
        ∙ noted i k h r js;
  }

  Says-option :
      {X : Type 0} (o : Option X) (f : Report → Run Report) (g : X → Report → Run Report)
      (is : List Incident) (js : X → List Incident)
      → Says c f is
      → ((x : X) → Says c (g x) (js x))
      → Says c (λ r. elim o [ none ↦ f r | some x ↦ g x r ]) (elim o [ none ↦ is | some x ↦ js x ])
  Says-option none f g is js h k = record { run = h.run }
  Says-option (some x) f g is js h k = record { run = (k x).run }

module _ (store : ScheduleStore) (now : ℕ) (c : Control) where
  Says-compare :
      (b : Bool) (i : Incident) (q : ExternalCall)
      → Says c (compare store none now b i q) (unless b i)
  unfolding compare repair
  Says-compare b i q = Says-if c b i _ (Says-noted c i _ (λ r. refl))

  Says-fields :
      (db : Schedule) (v : ScheduleVersion) (e : ExternalSchedule)
      → Says c (compare_fields store none now db v e) (field_incidents db v e)
  unfolding compare_fields field_incidents report_id
  Says-fields db v e = Says-bind c _ _ _ _ (Says-compare _ _ _) (
      Says-bind c _ _ _ _ (Says-compare _ _ _) (
        Says-bind c _ _ _ _ (Says-compare _ _ _) (
          Says-bind c _ _ _ _ (Says-compare _ _ _)
            (Says-if c (agrees_on_id db e) _ _ (Says-note c _)))))

  Says-missing :
      (db : Schedule) (v : ScheduleVersion)
      → Says c
          (report_missing store none now db v)
          (incident missing_external (some db.id) db.external_schedule_id ∷ [])
  unfolding report_missing
  Says-missing db v = Says-noted c _ _ (λ r. refl)

  Says-version :
      (external : List ExternalSchedule) (db : Schedule) (o : Option ScheduleVersion)
      → Says c
          (λ r. compare_version store none now external db r o)
          (version_incidents external db o)
  unfolding compare_version version_incidents
  Says-version external db none = Says-pure c
  Says-version external db (some v) =
      Says-option c (external_of external db) _ _ _ _ (Says-missing db v) (λ e. Says-fields db v e)

  Says-schedule :
      (external : List ExternalSchedule) (db : Schedule)
      → Says c
          (check_schedule store none now external db)
          (version_incidents external db (active_version db.id c.tables))
  unfolding check_schedule active_version version schedule
  Says-schedule external db = record {
    run = λ r js.
        bind-ok (get_active_version db.id) (compare_version store none now external db r)
          (alone (adds js c)) (alone (adds js c)) (active_version db.id c.tables)
          (get_active_version-alone db.id (adds js c))
        ∙ (Says-version external db (active_version db.id c.tables)).run r js;
  }

  Says-schedules :
      (external : List ExternalSchedule) (dbs : List Schedule)
      → Says c
          (check_schedules store none now external dbs)
          (schedule_incidents external c.tables dbs)
  unfolding check_schedules schedule_incidents
  Says-schedules external [] = Says-pure c
  Says-schedules external (db ∷ dbs) =
      Says-bind c _ _ _ _ (Says-schedule external db) (Says-schedules external dbs)

  Says-orphan :
      (sid : Option Text) (e : ExternalSchedule)
      → Says c
          (report_orphan store none now sid e)
          (incident orphan_external sid (some e.external_id) ∷ [])
  unfolding report_orphan repair
  Says-orphan sid e = Says-noted c _ _ (λ r. refl)

  Says-external :
      (live : List Schedule) (e : ExternalSchedule)
      → Says c (check_external store none now live e) (orphan_incident live e)
  unfolding check_external orphan_incident
  Says-external live e =
      Says-option c (linked live e) _ _ _ _
        (Says-option c (given e.schedule_id) _ _ _ _
          (Says-if c (is_claimed live e) _ _ (Says-orphan none e)) (λ id. Says-orphan (some id) e))
        (λ s. Says-pure c)

  Says-externals :
      (live : List Schedule) (es : List ExternalSchedule)
      → Says c (check_externals store none now live es) (orphan_incidents live es)
  unfolding check_externals orphan_incidents
  Says-externals live [] = Says-pure c
  Says-externals live (e ∷ es) = Says-bind c _ _ _ _ (Says-external live e) (Says-externals live es)

-- Run alone and without repair, a reconciliation returns exactly the incidents that the reference names, stores them in
-- that order after those that were there, repairs nothing, and changes neither the schedules nor the
-- versions nor the external scheduler.
pub reconcile_schedules-expected :
    (store : ScheduleStore) (now : ℕ) (external : List ExternalSchedule) (c : Control)
    → reconcile_schedules store none now external (alone c) ≡ (
      ok (record { incidents = expected store external c.tables; repaired = 0 }),
      alone (adds (expected store external c.tables) c),
    )
unfolding reconcile_schedules live_schedules expected ◌>>=◌ statement turn
reconcile_schedules-expected store now external c =
    let start : Report = record { incidents = []; repaired = 0 } in
    let loops : Report → Run Report = λ r.
      check_schedules store none now external (live store c.tables) r
      >>= check_externals store none now (live store c.tables) external in
    ap (λ is. loops start (alone (record c { tables = record c.tables { incidents = is } })))
      (sym (append-nil c.tables.incidents))
    ∙ (Says-bind c _ _ _ _ (Says-schedules store now c external (live store c.tables))
          (Says-externals store now c (live store c.tables) external)).run
        start []
