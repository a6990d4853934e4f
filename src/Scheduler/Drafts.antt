-- ===== src/Scheduler/Drafts.antt =====
-- `SchedulerService.create`, `editDraft`, `validate`, `enable` and `duplicate`
-- (packages/scheduler/src/index.ts).
use chain_sieve.Base.{
  ℕ, not, ◌&&◌, Option, none, some, [], ◌++◌, Text, same, codes, trim, if◌then◌else◌, or_else,
  select,
}
use chain_sieve.Sql.Exec.{pure, throw, statement, ◌>>=◌, ◌>>◌}
use chain_sieve.Scheduler.Cron.{validate_cron}
use chain_sieve.Scheduler.Store.{ConfigLifecycle, ScheduleVersion, Schedule, ScheduleError}
use chain_sieve.Scheduler.Validation.{
  ValidationResult, validate_timezone, validate_schedule_version, is_valid,
}
use chain_sieve.Scheduler.Service.{
  Deps, Run, ExternalCall, get_schedule, get_active_version, found_or, next_number, put_schedule,
  put_version, new_id, call_external, is_draft, is_draft_config,
}
use chain_sieve.Scheduler.Versions.{
  CreateScheduleInput, DraftPatch, first_version, new_draft, edited_version, edited_schedule,
  refuse_first, enabled_version, enabled_schedule, copied_version,
}

module _ (deps : Deps) where
  unfoldable pub create_valid : CreateScheduleInput → ℕ → Run (Schedule × ScheduleVersion)
  create_valid i now = do
    schedule_id ← new_id deps
    version_id ← new_id deps
    put_version deps.store (first_version deps.hash_config i schedule_id version_id now)
    put_schedule deps.store (new_draft i.name i.description schedule_id version_id now)
    pure (
      new_draft i.name i.description schedule_id version_id now,
      first_version deps.hash_config i schedule_id version_id now,
    )

  unfoldable pub create : CreateScheduleInput → ℕ → Run (Schedule × ScheduleVersion)
  create i now =
      if same (trim i.name) []
      then throw ScheduleError.schedule_name_required
      else elim (refuse_first (validate_cron i.cron)
          (validate_timezone deps.is_timezone i.timezone)) [
            | some e ↦ throw e
            | none ↦ create_valid i now
          ]

  -- `nextVersionNumber`
  unfoldable pub next_version_number : Text → Run ℕ
  next_version_number id =
      statement (λ c. (next_number (select (λ v. same v.schedule_id id) c.tables.versions), c))

  unfoldable pub edit_version :
      Text
      → DraftPatch
      → Option Text
      → ℕ
      → Schedule
      → ScheduleVersion
      → Run (Schedule × ScheduleVersion)
  edit_version id p actor now s v = do
    number ← next_version_number id
    version_id ← new_id deps
    put_version deps.store (edited_version deps.hash_config p actor version_id number now v)
    put_schedule deps.store (edited_schedule p version_id number now s)
    pure (
      edited_schedule p version_id number now s,
      edited_version deps.hash_config p actor version_id number now v,
    )

  unfoldable pub edit_found :
      Text → DraftPatch → Option Text → ℕ → Schedule → Run (Schedule × ScheduleVersion)
  edit_found id p actor now s =
      if not (is_draft s.state)
      then throw ScheduleError.edit_only_in_draft
      else (get_active_version id
          >>= found_or ScheduleError.version_not_found (edit_version id p actor now s))

  unfoldable pub edit_draft : Text → DraftPatch → Option Text → ℕ → Run (Schedule × ScheduleVersion)
  edit_draft id p actor now =
      get_schedule id >>= found_or ScheduleError.schedule_not_found (edit_found id p actor now)

  -- VALIDATE
  unfoldable pub validate_found : ScheduleVersion → Run ValidationResult
  validate_found v =
      let result = validate_schedule_version deps.is_timezone deps.checks v in
      if is_valid result && is_draft_config v.lifecycle
      then (put_version deps.store (record v { lifecycle = ConfigLifecycle.validated })
          >> pure result)
      else pure result

  unfoldable pub validate : Text → Run ValidationResult
  validate id = get_active_version id >>= found_or ScheduleError.version_not_found validate_found

  -- the id that the external scheduler gives, or the one that is there
  unfoldable pub register : Text → ScheduleVersion → Option Text → Run (Option Text)
  register id v present = elim deps.external [
    | none ↦ pure present
    | some external ↦ do
      created ←
          call_external external (ExternalCall.create_external id v.cron v.timezone v.destination)
      pure (some created)
  ]

  unfoldable pub enable_version :
      Text → ℕ → Schedule → ScheduleVersion → Run (Schedule × ScheduleVersion)
  enable_version id now s v =
      if not (is_valid (validate_schedule_version deps.is_timezone deps.checks v))
      then throw ScheduleError.validation_failed
      else do
        put_version deps.store (enabled_version v)
        external_id ← register id v s.external_schedule_id
        put_schedule deps.store (enabled_schedule external_id v.id now s)
        pure (enabled_schedule external_id v.id now s, enabled_version v)

  unfoldable pub enable_found : Text → ℕ → Schedule → Run (Schedule × ScheduleVersion)
  enable_found id now s =
      if not (is_draft s.state)
      then throw ScheduleError.enable_only_from_draft
      else (get_active_version id
          >>= found_or ScheduleError.version_not_found (enable_version id now s))

  unfoldable pub enable : Text → ℕ → Run (Schedule × ScheduleVersion)
  enable id now =
      get_schedule id >>= found_or ScheduleError.schedule_not_found (enable_found id now)

  unfoldable pub copy_version :
      Option Text → ℕ → Schedule → ScheduleVersion → Run (Schedule × ScheduleVersion)
  copy_version new_name now s v = do
    let name = or_else new_name (s.name ++ codes " (copy)")
    schedule_id ← new_id deps
    version_id ← new_id deps
    put_version deps.store (copied_version schedule_id version_id now v)
    put_schedule deps.store (new_draft name s.description schedule_id version_id now)
    pure (
      new_draft name s.description schedule_id version_id now,
      copied_version schedule_id version_id now v,
    )

  unfoldable pub copy_found : Text → Option Text → ℕ → Schedule → Run (Schedule × ScheduleVersion)
  copy_found id new_name now s =
      get_active_version id
      >>= found_or ScheduleError.version_not_found (copy_version new_name now s)

  unfoldable pub duplicate : Text → Option Text → ℕ → Run (Schedule × ScheduleVersion)
  duplicate id new_name now =
      get_schedule id >>= found_or ScheduleError.schedule_not_found (copy_found id new_name now)
