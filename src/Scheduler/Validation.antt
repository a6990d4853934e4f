-- ===== src/Scheduler/Validation.antt =====
-- `validateTimezone` and `validateScheduleVersion` (packages/scheduler/src/index.ts). Whether Intl knows a
-- zone is the parameter `is_timezone`, and the checks that a caller may pass are functions or none.
-- Concurrency is a natural number, so the test of `Number.isInteger` is not needed.
use chain_sieve.Base.{
  ℕ, Bool, true, false, ◌||◌, Option, none, some, List, [], ◌∷◌, ◌++◌, Text, same, trim, ltb,
  if◌then◌else◌,
}
use chain_sieve.Scheduler.Config.{Json, json_object}
use chain_sieve.Scheduler.Cron.{CronIssue, validate_cron}
use chain_sieve.Scheduler.Store.{ScheduleVersion}

pub data IssueCode : Type 0 where
  cron_issue : CronIssue → IssueCode
  timezone_required timezone_invalid version_required version_not_found version_deprecated :
      IssueCode
  destination_required concurrency_invalid concurrency_rejected budget_rejected budget_invalid :
      IssueCode
  cost_forecast_exceeded : IssueCode

pub data VersionKind : Type 0 where
  workflow agent_profile tool_profile : VersionKind

pub data RegisteredLifecycle : Type 0 where
  deprecated_version retired_version rolled_back_version other_lifecycle : RegisteredLifecycle

pub record CostForecast : Type 0 where
  pub sustainable : Bool
  pub estimated_runs_per_day : ℕ
  pub estimated_cost_per_day : ℕ

-- the checks that a caller may pass; `versionExists` gives none where there is no such version
pub record Checks : Type 0 where
  pub version_exists : Option (VersionKind → Text → Option RegisteredLifecycle)
  pub budget_check : Option (Json → Bool)
  pub concurrency_check : Option (ℕ → Bool)
  pub cost_forecast : Option (ScheduleVersion → CostForecast)

pub record ValidationResult : Type 0 where
  pub issues : List IssueCode
  pub forecast : Option CostForecast

abbrev is_blank_text : Text → Bool
is_blank_text t = same (trim t) []

unfoldable pub validate_timezone : (Text → Bool) → Text → Option IssueCode
validate_timezone is_timezone tz =
    if is_blank_text tz
    then some timezone_required
    else if is_timezone tz
    then none
    else some timezone_invalid

abbrev pub issue_list : Option IssueCode → List IssueCode
issue_list none = []
issue_list (some i) = i ∷ []

abbrev pub cron_issues : Option CronIssue → List IssueCode
cron_issues none = []
cron_issues (some i) = cron_issue i ∷ []

abbrev lifecycle_issues : Option RegisteredLifecycle → List IssueCode
lifecycle_issues none = version_not_found ∷ []
lifecycle_issues (some other_lifecycle) = []
lifecycle_issues (some _) = version_deprecated ∷ []

-- one round of the loop over `checks`
unfoldable pub version_issues :
    Option (VersionKind → Text → Option RegisteredLifecycle) → VersionKind → Text → List IssueCode
version_issues none kind id = []
version_issues (some exists) kind id =
    if is_blank_text id then version_required ∷ [] else lifecycle_issues (exists kind id)

abbrev custom_concurrency : Option (ℕ → Bool) → ℕ → List IssueCode
custom_concurrency none n = []
custom_concurrency (some check) n = if check n then [] else concurrency_rejected ∷ []

unfoldable pub concurrency_issues : Option (ℕ → Bool) → ℕ → List IssueCode
concurrency_issues check n =
    if ltb n 1 || ltb 32 n then concurrency_invalid ∷ [] else custom_concurrency check n

abbrev default_budget : Json → List IssueCode
default_budget (json_object fs) = []
default_budget _ = budget_invalid ∷ []

unfoldable pub budget_issues : Option (Json → Bool) → Json → List IssueCode
budget_issues none b = default_budget b
budget_issues (some check) b = if check b then [] else budget_rejected ∷ []

abbrev pub destination_issues : Text → List IssueCode
destination_issues d = if is_blank_text d then destination_required ∷ [] else []

abbrev forecast_of : Option (ScheduleVersion → CostForecast) → ScheduleVersion → Option CostForecast
forecast_of none v = none
forecast_of (some f) v = some (f v)

abbrev forecast_issues : Option CostForecast → List IssueCode
forecast_issues none = []
forecast_issues (some f) = if f.sustainable then [] else cost_forecast_exceeded ∷ []

abbrev pub is_valid : ValidationResult → Bool
is_valid r = elim r.issues [ [] ↦ true | i ∷ is ↦ false ]

unfoldable pub validate_schedule_version :
    (Text → Bool) → Checks → ScheduleVersion → ValidationResult
validate_schedule_version is_timezone checks v =
    let forecast = forecast_of checks.cost_forecast v in
    record {
      issues =
          cron_issues (validate_cron v.cron)
          ++ (issue_list (validate_timezone is_timezone v.timezone)
              ++ (version_issues checks.version_exists workflow v.workflow_version
                  ++ (version_issues checks.version_exists agent_profile v.agent_profile_version
                      ++ (version_issues checks.version_exists tool_profile v.tool_profile_version
                          ++ (destination_issues v.destination
                              ++ (concurrency_issues checks.concurrency_check v.concurrency
                                  ++ (budget_issues checks.budget_check v.budgets
                                      ++ forecast_issues forecast)))))));
      forecast = forecast;
    }
