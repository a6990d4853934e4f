-- ===== src/Scheduler/Results.antt =====
-- What the operations of `SchedulerService` return when they return (packages/scheduler/src/index.ts).
use chain_sieve.Base.{
  ◌≡◌, subst, refl, ap, ℕ, ◌≤◌, Bool, true, false, not, ◌||◌, Option, none, some, List, [], ◌∷◌,
  Text, ltb, arith, if◌then◌else◌, Outcome, ok, err, empty_left, empty_right, Bool-cases, inl, inr,
}
use chain_sieve.Sql.Exec.{World, pure, throw, continue, ◌>>=◌}
use chain_sieve.Scheduler.Cron.{CronIssue, validate_cron}
use chain_sieve.Scheduler.Store.{ScheduleState, Schedule, ScheduleVersion, ScheduleError}
use chain_sieve.Scheduler.Validation.{
  IssueCode, ValidationResult, cron_issues, issue_list, validate_timezone,
  validate_schedule_version, is_valid, concurrency_issues, destination_issues, version_issues,
  workflow, agent_profile, tool_profile,
}
use chain_sieve.Scheduler.Service.{Control, Deps, Run, found_or, is_draft}
use chain_sieve.Scheduler.Versions.{enabled_version, enabled_schedule}
use chain_sieve.Scheduler.Drafts.{enable, enable_found, enable_version}

-- whatever `m` returns, in whatever world, is as `Q` says
pub record Gives {A : Type 0} (Q : A → Type 0) (m : Run A) : Type 0 where
  pub returned : (w : World Control) (a : A) → (m w).0 ≡ ok a → Q a

abbrev or_this : {A : Type 0} → A → Outcome ScheduleError A → A
or_this a (ok b) = b
or_this a (err e) = a

module _ {A : Type 0} (Q : A → Type 0) where
  pub Gives-pure : (a : A) → Q a → Gives Q (pure a)
  unfolding pure
  Gives-pure a h = record { returned = λ w b e. subst Q (ap (or_this a) e) h }

  pub Gives-throw : (e : ScheduleError) → Gives Q (throw e)
  unfolding throw
  Gives-throw e = record { returned = λ w a h. cc }

  Gives-continue :
      {B : Type 0} (r : Outcome ScheduleError B) (f : B → Run A)
      → ((b : B) → Gives Q (f b))
      → Gives Q (continue r f)
  unfolding throw
  Gives-continue (ok b) f h = h b
  Gives-continue (err e) f h = Gives-throw e

  pub Gives-bind :
      {B : Type 0} (m : Run B) (f : B → Run A) → ((b : B) → Gives Q (f b)) → Gives Q (m >>= f)
  unfolding ◌>>=◌
  Gives-bind m f h = record {
    returned = λ w a e. (Gives-continue (m w).0 f h).returned (m w).1 a e;
  }

  pub Gives-found_or :
      {B : Type 0} (e : ScheduleError) (f : B → Run A) (o : Option B)
      → ((b : B) → Gives Q (f b))
      → Gives Q (found_or e f o)
  unfolding found_or
  Gives-found_or e f none h = Gives-throw e
  Gives-found_or e f (some b) h = h b

  pub Gives-guard :
      (b : Bool) (e : ScheduleError) (m : Run A)
      → (b ≡ true → Gives Q m)
      → Gives Q (if not b then throw e else m)
  Gives-guard true e m h = h refl
  Gives-guard false e m h = Gives-throw e

-- what holds of the version that is enabled
pub record IsFit (deps : Deps) (r : Schedule × ScheduleVersion) : Type 0 where
  pub state : r.0.state ≡ ScheduleState.active
  pub current : r.0.current_version_id ≡ some r.1.id
  pub cron : validate_cron r.1.cron ≡ none
  pub timezone : validate_timezone deps.is_timezone r.1.timezone ≡ none
  pub at_least_one : 1 ≤ r.1.concurrency
  pub at_most_32 : r.1.concurrency ≤ 32

no_issue : (is : List IssueCode) → elim is [ [] ↦ true | i ∷ js ↦ false ] ≡ true → is ≡ []
no_issue [] h = refl
no_issue (i ∷ is) h = cc

valid_issues : (v : ValidationResult) → is_valid v ≡ true → v.issues ≡ []
valid_issues v h = no_issue v.issues h

cron_accepted : (o : Option CronIssue) → cron_issues o ≡ [] → o ≡ none
cron_accepted none h = refl
cron_accepted (some i) h = cc

zone_accepted : (o : Option IssueCode) → issue_list o ≡ [] → o ≡ none
zone_accepted none h = refl
zone_accepted (some i) h = cc

concurrency_bounds :
    (check : Option (ℕ → Bool)) (n : ℕ) → concurrency_issues check n ≡ [] → (1 ≤ n) × (n ≤ 32)
unfolding concurrency_issues
concurrency_bounds check n h = elim (Bool-cases (ltb n 1 || ltb 32 n)) [
  | inl e ↦ absurd (ground arith)
  | inr e ↦ (ground arith, ground arith)
]

fit :
    (deps : Deps) (v : ScheduleVersion) (s : Schedule) (x : Option Text) (now : ℕ)
    → is_valid (validate_schedule_version deps.is_timezone deps.checks v) ≡ true
    → IsFit deps (enabled_schedule x v.id now s, enabled_version v)
unfolding validate_schedule_version
fit deps v s x now h =
    let all = valid_issues (validate_schedule_version deps.is_timezone deps.checks v) h in
    let crons = cron_issues (validate_cron v.cron) in
    let zones = issue_list (validate_timezone deps.is_timezone v.timezone) in
    let after_cron = empty_right crons _ all in
    let after_zone = empty_right zones _ after_cron in
    let after_workflow =
      empty_right (version_issues deps.checks.version_exists workflow v.workflow_version) _
        after_zone in
    let after_agent =
      empty_right (version_issues deps.checks.version_exists agent_profile v.agent_profile_version)
        _ after_workflow in
    let after_tool =
      empty_right (version_issues deps.checks.version_exists tool_profile v.tool_profile_version) _
        after_agent in
    let after_destination = empty_right (destination_issues v.destination) _ after_tool in
    let bounds = concurrency_bounds deps.checks.concurrency_check v.concurrency (
      empty_left (concurrency_issues deps.checks.concurrency_check v.concurrency) _
        after_destination) in
    record {
      state = refl;
      current = refl;
      cron = cron_accepted _ (empty_left crons _ all);
      timezone = zone_accepted _ (empty_left zones _ after_cron);
      at_least_one = bounds.0;
      at_most_32 = bounds.1;
    }

-- A schedule that `enable` returns is active, with the version returned as its current one, and that
-- version has a cron and a time zone that are accepted and a concurrency from 1 to 32, whatever others do
-- meanwhile.
pub enable-IsFit :
    (deps : Deps) (id : Text) (now : ℕ) (w : World Control) (r : Schedule × ScheduleVersion)
    → (enable deps id now w).0 ≡ ok r
    → IsFit deps r
unfolding enable enable_found enable_version
enable-IsFit deps id now w r =
    (Gives-bind (IsFit deps) _ _ (λ o. Gives-found_or (IsFit deps) _ _ o (λ s.
        Gives-guard (IsFit deps) (is_draft s.state) _ _ (λ d. Gives-bind (IsFit deps) _ _ (λ o.
          Gives-found_or (IsFit deps) _ _ o (λ v.
            Gives-guard (IsFit deps)
              (is_valid (validate_schedule_version deps.is_timezone deps.checks v)) _ _
              (λ valid. Gives-bind (IsFit deps) _ _ (λ u. Gives-bind (IsFit deps) _ _ (λ x.
                Gives-bind (IsFit deps) _ _
                  (λ u. Gives-pure (IsFit deps) _ (fit deps v s x now valid))))))))))).returned
      w r
