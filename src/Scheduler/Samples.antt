-- ===== src/Scheduler/Samples.antt =====
-- A schedule with one version, for the examples of the scheduler (packages/scheduler/src/index.ts).
use chain_sieve.Base.{true, false, none, some, [], ◌∷◌, Text, codes}
use chain_sieve.Scheduler.Config.{no_field, json_object}
use chain_sieve.Scheduler.Store.{
  ScheduleState, ConfigLifecycle, ScheduleVersion, Schedule, in_memory,
}
use chain_sieve.Scheduler.Validation.{Checks}
use chain_sieve.Scheduler.Service.{Control, Deps}

abbrev pub s1 : Text
s1 = 115 ∷ 49 ∷ []

abbrev pub v1 : Text
v1 = 118 ∷ 49 ∷ []

abbrev pub checks : Checks
checks = record {
  version_exists = none;
  budget_check = none;
  concurrency_check = none;
  cost_forecast = none;
}

abbrev pub deps : Deps
deps = record {
  store = in_memory;
  external = none;
  id_of = λ n. 105 ∷ n ∷ [];
  is_timezone = λ t. true;
  checks = checks;
  hash_config = λ fs. codes "hash";
  hash_value = λ t. t;
  system_defaults = no_field;
  workflow_registry = λ t. none;
  agent_profile_registry = λ t. none;
}

abbrev pub first_draft : ScheduleVersion
first_draft = record {
  id = v1;
  schedule_id = s1;
  version = 1;
  cron = codes "*/15 * * * *";
  timezone = codes "UTC";
  workflow_version = codes "wf@1";
  agent_profile_version = codes "agent@1";
  tool_profile_version = codes "tools@1";
  model_profile_version = none;
  prompt_version = none;
  outcome_profile_id = none;
  ranking_policy_id = none;
  alert_policy_id = none;
  budgets = json_object no_field;
  concurrency = 2;
  destination = codes "https://example.test/run";
  external_id = none;
  target_scope = no_field;
  lifecycle = ConfigLifecycle.draft_config;
  config_hash = codes "hash";
  created_at = 0;
  created_by = codes "system";
}

abbrev pub scan : ScheduleState → Schedule
scan s = record {
  id = s1;
  name = codes "scan";
  description = none;
  state = s;
  current_version_id = some (v1);
  current_version_number = some 1;
  external_schedule_id = none;
  paused = false;
  created_at = 0;
  updated_at = 0;
}

abbrev pub control : ScheduleState → Control
control s = record {
  tables = record { schedules = scan s ∷ []; versions = first_draft ∷ []; incidents = [] };
  calls = [];
  issued = 0;
}
