-- ===== src/Scheduler/Versions.antt =====
-- What `create`, `editDraft`, `enable` and `duplicate` are given and write
-- (packages/scheduler/src/index.ts).
use chain_sieve.Base.{ℕ, false, Option, none, some, Text, codes, or_else}
use chain_sieve.Scheduler.Config.{
  Json, Fields, no_field, field, json_text, json_number, json_object,
}
use chain_sieve.Scheduler.Cron.{CronIssue}
use chain_sieve.Scheduler.Store.{
  ScheduleState, ConfigLifecycle, ScheduleVersion, Schedule, ScheduleError,
}
use chain_sieve.Scheduler.Validation.{IssueCode}
use chain_sieve.Scheduler.Service.{enabled_lifecycle}

pub record CreateScheduleInput : Type 0 where
  pub name : Text
  pub description : Option Text
  pub cron : Text
  pub timezone : Text
  pub workflow_version : Text
  pub agent_profile_version : Text
  pub tool_profile_version : Text
  pub model_profile_version : Option Text
  pub prompt_version : Option Text
  pub outcome_profile_id : Option Text
  pub ranking_policy_id : Option Text
  pub alert_policy_id : Option Text
  pub budgets : Json
  pub concurrency : ℕ
  pub destination : Text
  pub target_scope : Option Fields
  pub created_by : Option Text

-- a field that may be undefined
abbrev optional_field : Text → Option Fields → Fields
optional_field k none = no_field
optional_field k (some fs) = field k (json_object fs) no_field

-- what `create` hashes
unfoldable pub create_config : CreateScheduleInput → Fields
create_config i = field (codes "cron") (json_text i.cron) (
    field (codes "timezone") (json_text i.timezone) (
      field (codes "workflowVersion") (json_text i.workflow_version) (
        field (codes "agentProfileVersion") (json_text i.agent_profile_version) (
          field (codes "toolProfileVersion") (json_text i.tool_profile_version) (
            field (codes "budgets") i.budgets (
              field (codes "concurrency") (json_number i.concurrency) (
                field (codes "destination") (json_text i.destination)
                  (optional_field (codes "targetScope") i.target_scope))))))))

-- what `editDraft` hashes
unfoldable pub edit_config : ScheduleVersion → Fields
edit_config v = field (codes "cron") (json_text v.cron) (
    field (codes "timezone") (json_text v.timezone)
      (field (codes "workflowVersion") (json_text v.workflow_version) no_field))

pub record DraftPatch : Type 0 where
  pub name : Option Text
  -- none where it is undefined, and otherwise the text or null
  pub description : Option (Option Text)
  pub cron : Option Text
  pub timezone : Option Text
  pub workflow_version : Option Text
  pub agent_profile_version : Option Text
  pub tool_profile_version : Option Text
  pub budgets : Option Json
  pub concurrency : Option ℕ
  pub destination : Option Text
  pub target_scope : Option Fields

abbrev empty_object : Option Fields → Fields
empty_object none = no_field
empty_object (some fs) = fs

abbrev pub first_version : (Fields → Text) → CreateScheduleInput → Text → Text → ℕ → ScheduleVersion
first_version hash_config i schedule_id version_id now = record {
  id = version_id;
  schedule_id = schedule_id;
  version = 1;
  cron = i.cron;
  timezone = i.timezone;
  workflow_version = i.workflow_version;
  agent_profile_version = i.agent_profile_version;
  tool_profile_version = i.tool_profile_version;
  model_profile_version = i.model_profile_version;
  prompt_version = i.prompt_version;
  outcome_profile_id = i.outcome_profile_id;
  ranking_policy_id = i.ranking_policy_id;
  alert_policy_id = i.alert_policy_id;
  budgets = i.budgets;
  concurrency = i.concurrency;
  destination = i.destination;
  external_id = none;
  target_scope = empty_object i.target_scope;
  lifecycle = ConfigLifecycle.draft_config;
  config_hash = hash_config (create_config i);
  created_at = now;
  created_by = or_else i.created_by (codes "system");
}

abbrev pub new_draft : Text → Option Text → Text → Text → ℕ → Schedule
new_draft name description schedule_id version_id now = record {
  id = schedule_id;
  name = name;
  description = description;
  state = ScheduleState.draft;
  current_version_id = some version_id;
  current_version_number = some 1;
  external_schedule_id = none;
  paused = false;
  created_at = now;
  updated_at = now;
}

abbrev pub patched : DraftPatch → ScheduleVersion → ScheduleVersion
patched p v = record v {
  cron = or_else p.cron v.cron;
  timezone = or_else p.timezone v.timezone;
  workflow_version = or_else p.workflow_version v.workflow_version;
  agent_profile_version = or_else p.agent_profile_version v.agent_profile_version;
  tool_profile_version = or_else p.tool_profile_version v.tool_profile_version;
  budgets = or_else p.budgets v.budgets;
  concurrency = or_else p.concurrency v.concurrency;
  destination = or_else p.destination v.destination;
  target_scope = or_else p.target_scope v.target_scope;
}

-- the version that `editDraft` makes
abbrev pub edited_version :
    (Fields → Text) → DraftPatch → Option Text → Text → ℕ → ℕ → ScheduleVersion → ScheduleVersion
edited_version hash_config p actor version_id number now v = record (patched p v) {
  id = version_id;
  version = number;
  lifecycle = ConfigLifecycle.draft_config;
  config_hash = hash_config (edit_config (patched p v));
  created_at = now;
  created_by = or_else actor (codes "system");
}

abbrev pub edited_schedule : DraftPatch → Text → ℕ → ℕ → Schedule → Schedule
edited_schedule p version_id number now s = record s {
  name = or_else p.name s.name;
  description = or_else p.description s.description;
  current_version_id = some version_id;
  current_version_number = some number;
  updated_at = now;
}

-- the issue of a time zone as an error
abbrev zone_error : IssueCode → ScheduleError
zone_error IssueCode.timezone_required = ScheduleError.timezone_required
zone_error _ = ScheduleError.timezone_invalid

unfoldable pub refuse_first : Option CronIssue → Option IssueCode → Option ScheduleError
refuse_first (some i) z = some (ScheduleError.cron_refused i)
refuse_first none (some z) = some (zone_error z)
refuse_first none none = none

-- ENABLE
abbrev pub enabled_version : ScheduleVersion → ScheduleVersion
enabled_version v = record v { lifecycle = enabled_lifecycle v.lifecycle }

abbrev pub enabled_schedule : Option Text → Text → ℕ → Schedule → Schedule
enabled_schedule external_id version_id now s = record s {
  state = ScheduleState.active;
  external_schedule_id = external_id;
  paused = false;
  updated_at = now;
  current_version_id = some version_id;
}

-- DUPLICATE
abbrev pub copied_version : Text → Text → ℕ → ScheduleVersion → ScheduleVersion
copied_version schedule_id version_id now v = record v {
  id = version_id;
  schedule_id = schedule_id;
  version = 1;
  lifecycle = ConfigLifecycle.draft_config;
  created_at = now;
  created_by = codes "system";
}
