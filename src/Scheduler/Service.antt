-- ===== src/Scheduler/Service.antt =====
-- `SchedulerService` (packages/scheduler/src/index.ts) over any `ScheduleStore`. The external scheduler
-- is the parameter `external`, if there is one: the id that it answers to a call, given the calls
-- before it, or none where it rejects. `idGenerator` is the function `id_of` of how many ids were
-- issued before, and the clock is the argument `now`.
use chain_sieve.Base.{
  ℕ, ◌+◌, Bool, true, false, not, Option, none, some, List, [], ◌∷◌, ◌++◌, Text, same, max,
  if◌then◌else◌, Outcome, ok, err,
}
use chain_sieve.Sql.Exec.{Exec, pure, throw, statement, fallible, ◌>>=◌, ◌>>◌}
use chain_sieve.Scheduler.Config.{Fields}
use chain_sieve.Scheduler.Store.{
  ScheduleState, ConfigLifecycle, ScheduleVersion, Schedule, Tables, ScheduleError, ScheduleStore,
  schedule, version, schedule_not_found, pause_only_from_active_or_degraded,
  resume_only_from_paused, already_disabled_or_deleted, delete_only_from_disabled,
  external_rejected,
}
use chain_sieve.Scheduler.Validation.{Checks}

pub data ExternalCall : Type 0 where
  create_external : Text → Text → Text → Text → ExternalCall
  set_paused : Text → Bool → ExternalCall
  update_cron update_timezone update_destination : Text → Text → ExternalCall
  remove_external : Text → ExternalCall

-- the store's tables, the calls of the external scheduler so far, and the ids issued so far
pub record Control : Type 0 where
  pub tables : Tables
  pub calls : List ExternalCall
  pub issued : ℕ

-- `SchedulerServiceDeps`, with the functions of other parts
pub record Deps : Type 0 where
  pub store : ScheduleStore
  pub external : Option (ExternalCall → List ExternalCall → Option Text)
  pub id_of : ℕ → Text
  pub is_timezone : Text → Bool
  pub checks : Checks
  pub hash_config : Fields → Text
  pub hash_value : Text → Text
  pub system_defaults : Fields
  pub workflow_registry : Text → Option Fields
  pub agent_profile_registry : Text → Option Fields

abbrev pub Run : Type 0 → Type 0
Run A = Exec Control ScheduleError A

abbrev pub is_draft : ScheduleState → Bool
is_draft ScheduleState.draft = true
is_draft _ = false

abbrev pub is_active_config : ConfigLifecycle → Bool
is_active_config ConfigLifecycle.active_config = true
is_active_config _ = false

-- DRAFT becomes VALIDATED
abbrev pub is_draft_config : ConfigLifecycle → Bool
is_draft_config ConfigLifecycle.draft_config = true
is_draft_config _ = false

-- the lifecycle that `enable` gives: VALIDATED, APPROVED, ACTIVE in turn
unfoldable pub enabled_lifecycle : ConfigLifecycle → ConfigLifecycle
enabled_lifecycle ConfigLifecycle.draft_config = ConfigLifecycle.active_config
enabled_lifecycle ConfigLifecycle.validated = ConfigLifecycle.active_config
enabled_lifecycle ConfigLifecycle.approved = ConfigLifecycle.active_config
enabled_lifecycle l = l

-- `!schedule?.currentVersionId`: null and the empty text name no version
abbrev pub version_id_of : Option Schedule → Option Text
version_id_of none = none
version_id_of (some s) = elim s.current_version_id [
  | none ↦ none
  | some id ↦ if same id [] then none else some id
]

unfoldable pub active_version : Text → Tables → Option ScheduleVersion
active_version id t = elim (version_id_of (schedule id t)) [
  | none ↦ none
  | some vid ↦ version vid t
]

unfoldable pub get_schedule : Text → Run (Option Schedule)
get_schedule id = statement (λ c. (schedule id c.tables, c))

-- `getVersion`
unfoldable pub get_version : Text → Run (Option ScheduleVersion)
get_version id = statement (λ c. (version id c.tables, c))

-- the version of a schedule that was read before
unfoldable pub version_of : Option Text → Run (Option ScheduleVersion)
version_of none = pure none
version_of (some vid) = get_version vid

-- the two queries of `DatabaseScheduleStore`; the store in memory reads both in one go, which is the
-- case that nobody acts between them
unfoldable pub get_active_version : Text → Run (Option ScheduleVersion)
get_active_version id = do
  vid ← statement (λ c. (version_id_of (schedule id c.tables), c))
  version_of vid

abbrev pub stored :
    Control → Outcome ScheduleError Tables → Outcome ScheduleError (Unit {0} × Control)
stored c (ok t) = ok (tt, record c { tables = t })
stored c (err e) = err e

unfoldable pub found_or : {A B : Type 0} → ScheduleError → (A → Run B) → Option A → Run B
found_or e f none = throw e
found_or e f (some a) = f a

-- `Math.max(...versions.map(v => v.version)) + 1`, or 1
unfoldable pub next_number : List ScheduleVersion → ℕ
next_number [] = 1
next_number (v ∷ vs) = max (v.version + 1) (next_number vs)

unfoldable pub put_schedule : ScheduleStore → Schedule → Run (Unit {0})
put_schedule store s = fallible (λ c. stored c (store.put_schedule s c.tables))

unfoldable pub put_version : ScheduleStore → ScheduleVersion → Run (Unit {0})
put_version store v = fallible (λ c. stored c (store.put_version v c.tables))

-- a call of an external scheduler that is there
unfoldable pub call_external :
    (ExternalCall → List ExternalCall → Option Text) → ExternalCall → Run Text
call_external external q = do
  answer ← statement (λ c. (external q c.calls, record c { calls = c.calls ++ q ∷ [] }))
  elim answer [ none ↦ throw external_rejected | some id ↦ pure id ]

-- PAUSE
abbrev pub paused_schedule : ℕ → Schedule → Schedule
paused_schedule now s = record s { state = ScheduleState.paused; paused = true; updated_at = now }

abbrev pub can_pause : ScheduleState → Bool
can_pause ScheduleState.active = true
can_pause ScheduleState.degraded = true
can_pause _ = false

-- RESUME
abbrev pub resumed_schedule : ℕ → Schedule → Schedule
resumed_schedule now s = record s { state = ScheduleState.active; paused = false; updated_at = now }

abbrev pub can_resume : ScheduleState → Bool
can_resume ScheduleState.paused = true
can_resume _ = false

-- DISABLE
abbrev pub disabled_schedule : ℕ → Schedule → Schedule
disabled_schedule now s = record s {
  state = ScheduleState.disabled;
  paused = false;
  external_schedule_id = none;
  updated_at = now;
}

-- the other states are those from which it is allowed, so the second test never holds
abbrev pub is_disabled_or_deleted : ScheduleState → Bool
is_disabled_or_deleted ScheduleState.disabled = true
is_disabled_or_deleted ScheduleState.deleted = true
is_disabled_or_deleted _ = false

-- DELETE
abbrev pub deleted_schedule : ℕ → Schedule → Schedule
deleted_schedule now s = record s { state = ScheduleState.deleted; updated_at = now }

abbrev pub can_delete : ScheduleState → Bool
can_delete ScheduleState.disabled = true
can_delete _ = false

module _ (deps : Deps) where
  unfoldable pub new_id : Run Text
  new_id = statement (λ c. (deps.id_of c.issued, record c { issued = c.issued + 1 }))

  -- `if (externalScheduler && externalScheduleId) await …`
  unfoldable pub call_for : (Text → ExternalCall) → Option Text → Run (Unit {0})
  call_for make external_id = elim deps.external [
    | none ↦ pure tt
    | some external ↦ elim external_id [
      | none ↦ pure tt
      | some id ↦ if same id [] then pure tt else (call_external external (make id) >> pure tt)
    ]
  ]

  unfoldable pub pause_found : ℕ → Schedule → Run Schedule
  pause_found now s =
      if not (can_pause s.state) then throw pause_only_from_active_or_degraded else do
        call_for (λ id. set_paused id true) s.external_schedule_id
        put_schedule deps.store (paused_schedule now s)
        pure (paused_schedule now s)

  unfoldable pub pause : Text → ℕ → Run Schedule
  pause id now = get_schedule id >>= found_or schedule_not_found (pause_found now)

  unfoldable pub resume_found : ℕ → Schedule → Run Schedule
  resume_found now s = if not (can_resume s.state) then throw resume_only_from_paused else do
    call_for (λ id. set_paused id false) s.external_schedule_id
    put_schedule deps.store (resumed_schedule now s)
    pure (resumed_schedule now s)

  unfoldable pub resume : Text → ℕ → Run Schedule
  resume id now = get_schedule id >>= found_or schedule_not_found (resume_found now)

  unfoldable pub deprecate : Option ScheduleVersion → Run (Unit {0})
  deprecate none = pure tt
  deprecate (some v) =
      if is_active_config v.lifecycle
      then put_version deps.store (record v { lifecycle = ConfigLifecycle.deprecated })
      else pure tt

  unfoldable pub disable_found : Text → ℕ → Schedule → Run Schedule
  disable_found id now s =
      if is_disabled_or_deleted s.state then throw already_disabled_or_deleted else do
        call_for remove_external s.external_schedule_id
        v ← get_active_version id
        deprecate v
        put_schedule deps.store (disabled_schedule now s)
        pure (disabled_schedule now s)

  unfoldable pub disable : Text → ℕ → Run Schedule
  disable id now = get_schedule id >>= found_or schedule_not_found (disable_found id now)

  unfoldable pub delete_found : ℕ → Schedule → Run Schedule
  delete_found now s =
      if not (can_delete s.state)
      then throw delete_only_from_disabled
      else do put_schedule deps.store (deleted_schedule now s); pure (deleted_schedule now s)

  unfoldable pub delete : Text → ℕ → Run Schedule
  delete id now = get_schedule id >>= found_or schedule_not_found (delete_found now)
