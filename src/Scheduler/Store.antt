-- ===== src/Scheduler/Store.antt =====
-- The schedules, their versions and the incidents (packages/scheduler/src/index.ts, `ScheduleStore` and
-- its two implementations; infra/migrations/0004_scheduling_control_plane.sql). Times are milliseconds.
pub mod Laws
use chain_sieve.Base.{
  ℕ, Bool, true, false, not, ◌&&◌, ◌||◌, Option, none, some, List, [], ◌∷◌, ◌++◌, Text, same, ltb,
  leb, ◌==◌, if◌then◌else◌, any, every, select, Outcome, ok, err,
}
use chain_sieve.Sql.Table.{row, update_where}
use chain_sieve.Scheduler.Config.{Json, Fields}
use chain_sieve.Scheduler.Cron.{CronIssue}

pub data ScheduleState : Type 0 where
  draft active paused degraded disabled deleted : ScheduleState

pub data ConfigLifecycle : Type 0 where
  draft_config validated approved active_config deprecated rolled_back : ConfigLifecycle

-- ALLOWED_SCHEDULE_TRANSITIONS
unfoldable pub can_transition_schedule : ScheduleState → ScheduleState → Bool
can_transition_schedule ScheduleState.draft ScheduleState.active = true
can_transition_schedule ScheduleState.draft ScheduleState.disabled = true
can_transition_schedule ScheduleState.active ScheduleState.paused = true
can_transition_schedule ScheduleState.active ScheduleState.degraded = true
can_transition_schedule ScheduleState.active ScheduleState.disabled = true
can_transition_schedule ScheduleState.paused ScheduleState.active = true
can_transition_schedule ScheduleState.paused ScheduleState.disabled = true
can_transition_schedule ScheduleState.degraded ScheduleState.active = true
can_transition_schedule ScheduleState.degraded ScheduleState.paused = true
can_transition_schedule ScheduleState.degraded ScheduleState.disabled = true
can_transition_schedule ScheduleState.disabled ScheduleState.deleted = true
can_transition_schedule _ _ = false

-- ALLOWED_CONFIG_TRANSITIONS
unfoldable pub can_transition_config : ConfigLifecycle → ConfigLifecycle → Bool
can_transition_config ConfigLifecycle.draft_config ConfigLifecycle.validated = true
can_transition_config ConfigLifecycle.validated ConfigLifecycle.approved = true
can_transition_config ConfigLifecycle.validated ConfigLifecycle.draft_config = true
can_transition_config ConfigLifecycle.approved ConfigLifecycle.active_config = true
can_transition_config ConfigLifecycle.approved ConfigLifecycle.draft_config = true
can_transition_config ConfigLifecycle.active_config ConfigLifecycle.deprecated = true
can_transition_config ConfigLifecycle.active_config ConfigLifecycle.rolled_back = true
can_transition_config ConfigLifecycle.deprecated ConfigLifecycle.rolled_back = true
can_transition_config _ _ = false

pub record ScheduleVersion : Type 0 where
  pub id : Text
  pub schedule_id : Text
  pub version : ℕ
  pub cron : Text
  pub timezone : Text
  pub workflow_version : Text
  pub agent_profile_version : Text
  pub tool_profile_version : Text
  pub model_profile_version : Option Text
  pub prompt_version : Option Text
  pub outcome_profile_id : Option Text
  pub ranking_policy_id : Option Text
  pub alert_policy_id : Option Text
  pub budgets : Json
  pub concurrency : ℕ
  pub destination : Text
  pub external_id : Option Text
  pub target_scope : Fields
  pub lifecycle : ConfigLifecycle
  pub config_hash : Text
  pub created_at : ℕ
  pub created_by : Text

pub record Schedule : Type 0 where
  pub id : Text
  pub name : Text
  pub description : Option Text
  pub state : ScheduleState
  pub current_version_id : Option Text
  pub current_version_number : Option ℕ
  pub external_schedule_id : Option Text
  pub paused : Bool
  pub created_at : ℕ
  pub updated_at : ℕ

pub data IncidentType : Type 0 where
  missing_external orphan_external cron_mismatch timezone_mismatch paused_mismatch : IncidentType
  destination_mismatch external_id_mismatch : IncidentType

-- an incident, without its detail text
pub record Incident : Type 0 where
  pub incident_type : IncidentType
  pub schedule_id : Option Text
  pub external_schedule_id : Option Text

pub record Tables : Type 0 where
  pub schedules : List Schedule
  pub versions : List ScheduleVersion
  pub incidents : List Incident

-- What the scheduler throws: its own errors, the database's refusals, and a rejected external call.
pub data ScheduleError : Type 0 where
  schedule_name_required schedule_not_found version_not_found edit_only_in_draft : ScheduleError
  enable_only_from_draft validation_failed pause_only_from_active_or_degraded : ScheduleError
  resume_only_from_paused run_now_only_when_active_or_paused already_disabled_or_deleted :
      ScheduleError
  disable_not_allowed_from_state delete_only_from_disabled : ScheduleError
  timezone_required timezone_invalid : ScheduleError
  cron_refused : CronIssue → ScheduleError
  foreign_key_violation unique_violation check_violation external_rejected : ScheduleError

-- a row of a key: the old one changed, or the new one appended
unfoldable pub upsert : {A : Type 0} → (A → Text) → (A → A → A) → A → List A → List A
upsert key merge a rows = elim (row key (key a) rows) [
  | none ↦ rows ++ a ∷ []
  | some _ ↦ update_where (λ b. same (key b) (key a)) (λ b. merge b a) rows
]

-- what differs between the implementations of `ScheduleStore`
pub record ScheduleStore : Type 0 where
  pub put_schedule : Schedule → Tables → Outcome ScheduleError Tables
  pub put_version : ScheduleVersion → Tables → Outcome ScheduleError Tables
  pub list_schedules : Tables → List Schedule

-- `InMemoryScheduleStore`: what is put replaces what was there under its id
unfoldable pub in_memory : ScheduleStore
in_memory = record {
  put_schedule = λ a t. ok (record t {
    schedules = upsert (λ s. s.id) (λ old new. record new { id = old.id }) a t.schedules;
  });
  put_version = λ v t. ok (record t {
    versions = upsert (λ v. v.id) (λ old new. record new { id = old.id }) v t.versions;
  });
  list_schedules = λ t. t.schedules;
}

-- the SET of `putSchedule`, which leaves created_at
abbrev pub merge_schedule : Schedule → Schedule → Schedule
merge_schedule old new = record new { id = old.id; created_at = old.created_at }

-- the SET of `putVersion`: lifecycle and config_hash alone
abbrev pub merge_version : ScheduleVersion → ScheduleVersion → ScheduleVersion
merge_version old new = record old { lifecycle = new.lifecycle; config_hash = new.config_hash }

-- UNIQUE (schedule_id, version), for a row of another id
abbrev pub clashes : ScheduleVersion → ScheduleVersion → Bool
clashes v w = same w.schedule_id v.schedule_id && w.version == v.version && not (same w.id v.id)

-- the CHECK, the REFERENCES and the UNIQUE of schedule_versions
unfoldable pub insert_version : ScheduleVersion → Tables → Outcome ScheduleError Tables
insert_version v t =
    if not (leb 1 v.concurrency && leb v.concurrency 32)
    then err check_violation
    else if any (λ w. clashes v w) t.versions
    then err unique_violation
    else if not (any (λ s. same s.id v.schedule_id) t.schedules)
    then err foreign_key_violation
    else ok (record t { versions = upsert (λ w. w.id) merge_version v t.versions })

abbrev not_deleted : ScheduleState → Bool
not_deleted ScheduleState.deleted = false
not_deleted _ = true

-- `DatabaseScheduleStore`; `arrange` is ORDER BY created_at
unfoldable pub database : (List Schedule → List Schedule) → ScheduleStore
unfolding insert_version
database arrange = record {
  put_schedule =
      λ a t. ok (record t { schedules = upsert (λ s. s.id) merge_schedule a t.schedules });
  put_version = insert_version;
  list_schedules = λ t. arrange (select (λ s. not_deleted s.state) t.schedules);
}

-- `getSchedule`, `getVersion`
unfoldable pub schedule : Text → Tables → Option Schedule
schedule id t = row (λ s. s.id) id t.schedules

unfoldable pub version : Text → Tables → Option ScheduleVersion
version id t = row (λ v. v.id) id t.versions
