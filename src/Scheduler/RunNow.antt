-- ===== src/Scheduler/RunNow.antt =====
-- `SchedulerService.runNow` and `getResolvedConfig` (packages/scheduler/src/index.ts).
use chain_sieve.Base.{
  Bool, true, false, not, Option, none, some, Text, codes, ◌++◌, take, if◌then◌else◌,
}
use chain_sieve.Sql.Exec.{pure, throw, ◌>>=◌}
use chain_sieve.Scheduler.Config.{
  Fields, no_field, field, json_text, json_number, spread, ResolvedConfig,
  resolve_config_precedence,
}
use chain_sieve.Scheduler.Store.{ScheduleState, ScheduleVersion, Schedule, ScheduleError}
use chain_sieve.Scheduler.Service.{Deps, Run, get_schedule, get_active_version, found_or}

abbrev pub can_run_now : ScheduleState → Bool
can_run_now ScheduleState.active = true
can_run_now ScheduleState.paused = true
can_run_now ScheduleState.degraded = true
can_run_now _ = false

abbrev registered : Option Fields → Fields
registered none = no_field
registered (some fs) = fs

-- `{ cron, timezone, destination, budgets, concurrency, ...targetScope }`
unfoldable pub schedule_overrides : ScheduleVersion → Fields
schedule_overrides v =
    spread
      (field (codes "cron") (json_text v.cron) (
        field (codes "timezone") (json_text v.timezone) (
          field (codes "destination") (json_text v.destination) (
            field (codes "budgets") v.budgets
              (field (codes "concurrency") (json_number v.concurrency) no_field)))))
      v.target_scope

pub record RunNowResult : Type 0 where
  pub schedule : Schedule
  pub resolved_config : ResolvedConfig
  pub run_id : Text

module _ (deps : Deps) where
  unfoldable pub config_of : ScheduleVersion → Option Fields → ResolvedConfig
  config_of v overrides = resolve_config_precedence deps.hash_config (record {
    system_defaults = deps.system_defaults;
    workflow_version = registered (deps.workflow_registry v.workflow_version);
    agent_profile_version = registered (deps.agent_profile_registry v.agent_profile_version);
    schedule_version_overrides = schedule_overrides v;
    explicit_run_now_overrides = overrides;
  })

  -- `run-${hashValue(`${scheduleId}:${version.id}:${configHash}:${now}`).slice(0, 16)}`
  unfoldable pub run_now_id : Text → ScheduleVersion → ResolvedConfig → Text → Text
  run_now_id id v r now_text =
      codes "run-"
      ++ take 16 (
          deps.hash_value (
            id
            ++ (codes ":" ++ (v.id ++ (codes ":" ++ (r.config_hash ++ (codes ":" ++ now_text)))))))

  unfoldable pub run_version :
      Text → Option Fields → Text → Schedule → ScheduleVersion → Run RunNowResult
  run_version id overrides now_text s v = pure (record {
    schedule = s;
    resolved_config = config_of v overrides;
    run_id = run_now_id id v (config_of v overrides) now_text;
  })

  unfoldable pub run_found : Text → Option Fields → Text → Schedule → Run RunNowResult
  run_found id overrides now_text s =
      if not (can_run_now s.state)
      then throw ScheduleError.run_now_only_when_active_or_paused
      else (get_active_version id
          >>= found_or ScheduleError.version_not_found (run_version id overrides now_text s))

  unfoldable pub run_now : Text → Option Fields → Text → Run RunNowResult
  run_now id overrides now_text =
      get_schedule id
      >>= found_or ScheduleError.schedule_not_found (run_found id overrides now_text)

  unfoldable pub get_resolved_config : Text → Run ResolvedConfig
  get_resolved_config id =
      get_active_version id
      >>= found_or ScheduleError.version_not_found (λ v. pure (config_of v none))
