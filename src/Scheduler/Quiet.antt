-- ===== src/Scheduler/Quiet.antt =====
-- The parts of the operations of `SchedulerService` (packages/scheduler/src/index.ts) that write no schedule.
use chain_sieve.Base.{
  ◌≡◌, refl, ◌&&◌, Option, none, some, List, [], Text, same, arith, Outcome, ok, err,
}
use chain_sieve.Sql.Rely.{
  Respects, Allowed, rely_rules, Respects-pure, Respects-throw, Respects-bind, Respects-statement,
  Respects-fallible, Respects-option, Respects-if,
}
use chain_sieve.Scheduler.Store.{ScheduleVersion, Tables, ScheduleStore, ScheduleError}
use chain_sieve.Scheduler.Store.Laws.{StoreLaws}
use chain_sieve.Scheduler.Service.{
  Control, Deps, Run, ExternalCall, version_of, get_version, get_active_version, found_or,
  put_version, stored, call_external, call_for, deprecate, is_active_config, is_draft_config,
}
use chain_sieve.Scheduler.Drafts.{next_version_number, register, validate_found, validate}
use chain_sieve.Scheduler.Validation.{validate_schedule_version, is_valid}
use chain_sieve.Scheduler.Moves.{Quiet}

quiet_tables :
    (c : Control) (t : Tables)
    → t.schedules ≡ c.tables.schedules
    → Quiet.R c (record c { tables = t })
quiet_tables c t h = (h, omega arith)

module _ (store : ScheduleStore) (laws : StoreLaws store) where
  stored-Allowed :
      (v : ScheduleVersion) (c : Control) (o : Outcome ScheduleError Tables)
      → store.put_version v c.tables ≡ o
      → Allowed Quiet c (stored c o)
  stored-Allowed v c (ok t) e =
      Allowed.taken (quiet_tables c t (laws.schedules-put_version v c.tables t e))
  stored-Allowed v c (err e) h = Allowed.refused

  pub put_version-Quiet : (v : ScheduleVersion) → Respects Quiet (put_version store v)
  unfolding put_version
  put_version-Quiet v =
      Respects-fallible Quiet _ (λ c. stored-Allowed v c (store.put_version v c.tables) refl)

pub call_external-Quiet :
    (external : ExternalCall → List ExternalCall → Option Text) (q : ExternalCall)
    → Respects Quiet (call_external external q)
unfolding call_external
call_external-Quiet external q =
    Respects-bind Quiet _ _ (Respects-statement Quiet _ (λ c. (refl, omega arith)))
      (λ a. Respects-option Quiet a _ _ (search rely_rules) (λ id. search rely_rules))

module _ (deps : Deps) where
  pub call_for-Quiet :
      (make : Text → ExternalCall) (o : Option Text) → Respects Quiet (call_for deps make o)
  unfolding call_for
  call_for-Quiet make o = Respects-option Quiet deps.external _ _ (search rely_rules) (λ external.
      Respects-option Quiet o _ _ (search rely_rules) (λ id.
        Respects-if Quiet (same id []) _ _ (Respects-pure Quiet tt) (
          Respects-bind Quiet _ _ (call_external-Quiet external (make id))
            (λ u. Respects-pure Quiet tt))))

  version_of-Quiet : (vid : Option Text) → Respects Quiet (version_of vid)
  unfolding version_of get_version
  version_of-Quiet none = Respects-pure Quiet none
  version_of-Quiet (some vid) = Respects-statement Quiet _ (λ c. Quiet.reflexive c)

  pub get_active_version-Quiet : (id : Text) → Respects Quiet (get_active_version id)
  unfolding get_active_version
  get_active_version-Quiet id =
      Respects-bind Quiet _ _ (Respects-statement Quiet _ (λ c. Quiet.reflexive c)) version_of-Quiet

  pub next_version_number-Quiet : (id : Text) → Respects Quiet (next_version_number deps id)
  unfolding next_version_number
  next_version_number-Quiet id = Respects-statement Quiet _ (λ c. Quiet.reflexive c)

  pub register-Quiet :
      (id : Text) (v : ScheduleVersion) (o : Option Text) → Respects Quiet (register deps id v o)
  unfolding register
  register-Quiet id v o =
      Respects-option Quiet deps.external _ _ (search rely_rules)
        (λ external. search (rely_rules, call_external-Quiet))

  pub deprecate-Quiet :
      StoreLaws deps.store → (o : Option ScheduleVersion) → Respects Quiet (deprecate deps o)
  unfolding deprecate
  deprecate-Quiet laws none = search rely_rules
  deprecate-Quiet laws (some v) =
      Respects-if Quiet (is_active_config v.lifecycle) _ _ (put_version-Quiet deps.store laws _)
        (Respects-pure Quiet tt)

  found_or-Quiet :
      {A B : Type 0} (e : ScheduleError) (f : A → Run B) (o : Option A)
      → ((a : A) → Respects Quiet (f a))
      → Respects Quiet (found_or e f o)
  unfolding found_or
  found_or-Quiet e f none h = Respects-throw Quiet e
  found_or-Quiet e f (some a) h = h a

  pub validate-Quiet : StoreLaws deps.store → (id : Text) → Respects Quiet (validate deps id)
  unfolding validate validate_found
  validate-Quiet laws id = Respects-bind Quiet _ _ (get_active_version-Quiet id) (λ o.
      found_or-Quiet _ _ o (λ v.
        Respects-if Quiet
          (is_valid (validate_schedule_version deps.is_timezone deps.checks v)
            && is_draft_config v.lifecycle)
          _ _
          (Respects-bind Quiet _ _ (put_version-Quiet deps.store laws _)
            (λ u. Respects-pure Quiet _))
          (Respects-pure Quiet _)))
