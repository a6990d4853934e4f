-- ===== src/Scheduler/Tests.antt =====
-- The writes, the configuration and the reconciliation of the scheduler at one schedule
-- (packages/scheduler/src/index.ts).
use chain_sieve.Base.{
  ◌≡◌, refl, ap, false, none, some, [], ◌∷◌, Text, codes, same, trim, trim_start, is_blank,
  after_prefix, starts_with, ◌∙◌, ok, All,
}
use chain_sieve.Sql.Exec.{alone, turn, fallible, pure, statement, throw, ◌>>=◌}
use chain_sieve.Sql.Table.{row, update_where}
use chain_sieve.Scheduler.Config.{
  no_field, field, json_number, json_object, get_field, PrecedenceInput, resolve_config_precedence,
}
use chain_sieve.Scheduler.Store.{ScheduleState, in_memory, upsert, schedule, version}
use chain_sieve.Scheduler.Service.{
  active_version, get_schedule, get_active_version, version_of, get_version, found_or,
  enabled_lifecycle, put_schedule, put_version,
}
use chain_sieve.Scheduler.Versions.{CreateScheduleInput, enabled_schedule, enabled_version}
use chain_sieve.Scheduler.Drafts.{enable, enable_found, enable_version, register}
use chain_sieve.Scheduler.Validation.{
  validate_schedule_version, budget_issues, concurrency_issues, validate_timezone, version_issues,
}
use chain_sieve.Scheduler.Cron.{
  validate_cron, split_blanks, push_char, matches_part, is_digits, is_digit, split_at, is_segment,
  parts_in_range, part_in_range, number_from,
}
use chain_sieve.Scheduler.Reconcile.{
  ExternalSchedule, external_of, given, find_last, linked, reconcile_schedules,
}
use chain_sieve.Scheduler.Precedence.{IsObject, resolve_config_precedence-first}
use chain_sieve.Scheduler.Expected.{
  expected, adds, schedule_incidents, version_incidents, field_incidents, orphan_incidents,
  orphan_incident,
}
use chain_sieve.Scheduler.Reports.{reconcile_schedules-expected}
use chain_sieve.Scheduler.Agreement.{Agrees, reconcile_schedules-Agrees}
use chain_sieve.Scheduler.Results.{IsFit, enable-IsFit}
use chain_sieve.Scheduler.Samples.{s1, v1, deps, first_draft, scan, control}

abbrev input : CreateScheduleInput
input = record {
  name = codes "scan";
  description = none;
  cron = codes "0 * * * *";
  timezone = codes "UTC";
  workflow_version = codes "wf@1";
  agent_profile_version = codes "agent@1";
  tool_profile_version = codes "tools@1";
  model_profile_version = none;
  prompt_version = none;
  outcome_profile_id = none;
  ranking_policy_id = none;
  alert_policy_id = none;
  budgets = json_object no_field;
  concurrency = 1;
  destination = codes "https://example.test/run";
  target_scope = none;
  created_by = none;
}

abbrev cron_key : Text
cron_key = 99 ∷ []

-- the schedule's cron stands before the system's
abbrev layers : PrecedenceInput
layers = record {
  system_defaults = field cron_key (json_number 1) no_field;
  workflow_version = no_field;
  agent_profile_version = no_field;
  schedule_version_overrides = field cron_key (json_number 2) no_field;
  explicit_run_now_overrides = none;
}

resolve_config_precedence-first_example :
    get_field cron_key (resolve_config_precedence (λ fs. []) layers).resolved ≡ some (json_number 2)
unfolding get_field same IsObject
resolve_config_precedence-first_example =
    resolve_config_precedence-first (λ fs. []) layers cron_key (refl, tt) tt tt (refl, tt) tt

-- an external entry with the fields of the version
abbrev entry : ExternalSchedule
entry = record {
  external_id = 101 ∷ [];
  cron = first_draft.cron;
  timezone = first_draft.timezone;
  paused = false;
  destination = first_draft.destination;
  schedule_id = some s1;
}

reconcile_schedules-expected_example :
    reconcile_schedules in_memory none 8 [] (alone (control ScheduleState.active)) ≡ (
      ok (record {
        incidents = expected in_memory [] (control ScheduleState.active).tables;
        repaired = 0;
      }),
      alone (
          adds
            (expected in_memory [] (control ScheduleState.active).tables)
            (control ScheduleState.active)),
    )
reconcile_schedules-expected_example =
    reconcile_schedules-expected in_memory 8 [] (control ScheduleState.active)

nothing_expected : expected in_memory (entry ∷ []) (control ScheduleState.active).tables ≡ []
unfolding expected in_memory schedule_incidents version_incidents field_incidents orphan_incidents
    orphan_incident active_version schedule row same version external_of given find_last linked
    codes
nothing_expected = refl

nothing_reported :
    (reconcile_schedules in_memory none 8 (entry ∷ []) (alone (control ScheduleState.active))).0
    ≡ ok (record { incidents = []; repaired = 0 })
nothing_reported =
    ap (λ r. r.0)
      (reconcile_schedules-expected in_memory 8 (entry ∷ []) (control ScheduleState.active))
    ∙ ap (λ is. ok (record { incidents = is; repaired = 0 })) nothing_expected

reconcile_schedules-Agrees_example :
    All (λ db. Agrees (entry ∷ []) db (some first_draft)) (scan ScheduleState.active ∷ [])
unfolding in_memory active_version schedule version row same
reconcile_schedules-Agrees_example =
    reconcile_schedules-Agrees in_memory 8 (entry ∷ []) (control ScheduleState.active)
      nothing_reported

enable-IsFit_example :
    IsFit deps (enabled_schedule none v1 7 (scan ScheduleState.draft), enabled_version first_draft)
unfolding enable enable_found enable_version get_schedule get_active_version version_of get_version
    found_or active_version schedule version row same validate_schedule_version validate_cron trim
    in_memory upsert update_where codes after_prefix is_blank starts_with trim_start is_digit
    is_digits is_segment matches_part number_from part_in_range parts_in_range push_char split_at
    split_blanks register enabled_lifecycle put_schedule put_version budget_issues
    concurrency_issues validate_timezone version_issues fallible pure statement throw ◌>>=◌ turn
enable-IsFit_example =
    enable-IsFit deps s1 7 (alone (control ScheduleState.draft))
      (enabled_schedule none v1 7 (scan ScheduleState.draft), enabled_version first_draft) refl
