-- ===== src/Scheduler/Steps.antt =====
-- What the writes of a store and the calls of others keep, every operation of `SchedulerService` keeps
-- (packages/scheduler/src/index.ts).
use chain_sieve.Base.{
  ℕ, ◌+◌, Bool, not, ◌&&◌, Option, none, some, List, [], ◌∷◌, ◌++◌, Text, same, trim, if◌then◌else◌,
}
use chain_sieve.Sql.Exec.{pure, throw, statement, ◌>>=◌, ◌>>◌}
use chain_sieve.Sql.Rely.{
  Preorder, Respects, Respects-pure, Respects-throw, Respects-bind, Respects-statement,
  Respects-option, Respects-if,
}
use chain_sieve.Scheduler.Config.{Fields}
use chain_sieve.Scheduler.Cron.{validate_cron}
use chain_sieve.Scheduler.Store.{Schedule, ScheduleVersion, ScheduleError}
use chain_sieve.Scheduler.Validation.{validate_timezone, validate_schedule_version, is_valid}
use chain_sieve.Scheduler.Service.{
  Control, Deps, Run, ExternalCall, get_schedule, version_of, get_version, get_active_version,
  found_or, put_version, put_schedule, new_id, call_external, call_for, deprecate, is_active_config,
  is_draft_config, is_draft, pause, pause_found, can_pause, resume, resume_found, can_resume,
  disable, disable_found, is_disabled_or_deleted, delete, delete_found, can_delete,
}
use chain_sieve.Scheduler.Versions.{CreateScheduleInput, DraftPatch, refuse_first}
use chain_sieve.Scheduler.Drafts.{
  next_version_number, register, validate_found, validate, create, create_valid, edit_draft,
  edit_found, edit_version, enable, enable_found, enable_version, duplicate, copy_found,
  copy_version,
}
use chain_sieve.Scheduler.RunNow.{can_run_now, run_now, run_found, run_version}
use chain_sieve.Scheduler.Commands.{
  Command, create_command, edit_command, validate_command, enable_command, pause_command,
  resume_command, disable_command, delete_command, run_now_command, duplicate_command, perform,
}

-- what is kept, with the reasons
pub record Keeps (deps : Deps) (P : Preorder Control) : Type 0 where
  pub versions : (v : ScheduleVersion) → Respects P (put_version deps.store v)
  pub schedules : (s : Schedule) → Respects P (put_schedule deps.store s)
  pub calls : (c : Control) (q : ExternalCall) → P.R c (record c { calls = c.calls ++ q ∷ [] })
  pub ids : (c : Control) → P.R c (record c { issued = c.issued + 1 })

module _ (deps : Deps) (P : Preorder Control) (keeps : Keeps deps P) where
  abbrev Kept : {A : Type 0} → Run A → Type 0
  Kept m = Respects P m

  look : {A : Type 0} (f : Control → A) → Kept (statement (λ c. (f c, c)))
  look f = Respects-statement P _ (λ c. P.reflexive c)

  Kept-found_or :
      {A B : Type 0} (e : ScheduleError) (f : A → Run B) (o : Option A)
      → ((a : A) → Kept (f a))
      → Kept (found_or e f o)
  unfolding found_or
  Kept-found_or e f none h = Respects-throw P e
  Kept-found_or e f (some a) h = h a

  find_schedule :
      {B : Type 0} (id : Text) (e : ScheduleError) (f : Schedule → Run B)
      → ((s : Schedule) → Kept (f s))
      → Kept (get_schedule id >>= found_or e f)
  unfolding get_schedule
  find_schedule id e f h = Respects-bind P _ _ (look _) (λ o. Kept-found_or e f o h)

  Kept-version_of : (vid : Option Text) → Kept (version_of vid)
  unfolding version_of get_version
  Kept-version_of none = Respects-pure P none
  Kept-version_of (some vid) = look _

  Kept-get_active_version : (id : Text) → Kept (get_active_version id)
  unfolding get_active_version
  Kept-get_active_version id = Respects-bind P _ _ (look _) Kept-version_of

  find_version :
      {B : Type 0} (id : Text) (e : ScheduleError) (f : ScheduleVersion → Run B)
      → ((v : ScheduleVersion) → Kept (f v))
      → Kept (get_active_version id >>= found_or e f)
  find_version id e f h =
      Respects-bind P _ _ (Kept-get_active_version id) (λ o. Kept-found_or e f o h)

  refusing :
      {A : Type 0} (b : Bool) (e : ScheduleError) (m : Run A)
      → Kept m
      → Kept (if b then throw e else m)
  refusing b e m h = Respects-if P b _ _ (Respects-throw P e) h

  refusing_first :
      {A : Type 0} (o : Option ScheduleError) (m : Run A)
      → Kept m
      → Kept (elim o [ some e ↦ throw e | none ↦ m ])
  refusing_first none m h = h
  refusing_first (some e) m h = Respects-throw P e

  -- the last write
  put_last : {A : Type 0} (s : Schedule) (a : A) → Kept (put_schedule deps.store s >> pure a)
  put_last s a = Respects-bind P _ _ (keeps.schedules s) (λ u. Respects-pure P a)

  with_id : {A : Type 0} (f : Text → Run A) → ((id : Text) → Kept (f id)) → Kept (new_id deps >>= f)
  unfolding new_id
  with_id f h = Respects-bind P _ _ (Respects-statement P _ (λ c. keeps.ids c)) h

  Kept-call_external :
      (external : ExternalCall → List ExternalCall → Option Text) (q : ExternalCall)
      → Kept (call_external external q)
  unfolding call_external
  Kept-call_external external q =
      Respects-bind P _ _ (Respects-statement P _ (λ c. keeps.calls c q))
        (λ a. Respects-option P a _ _ (Respects-throw P _) (λ id. Respects-pure P id))

  Kept-call_for : (make : Text → ExternalCall) (o : Option Text) → Kept (call_for deps make o)
  unfolding call_for
  Kept-call_for make o = Respects-option P deps.external _ _ (Respects-pure P tt) (λ external.
      Respects-option P o _ _ (Respects-pure P tt) (λ id.
        Respects-if P (same id []) _ _ (Respects-pure P tt)
          (Respects-bind P _ _ (Kept-call_external external (make id)) (λ u. Respects-pure P tt))))

  Kept-register : (id : Text) (v : ScheduleVersion) (o : Option Text) → Kept (register deps id v o)
  unfolding register
  Kept-register id v o = Respects-option P deps.external _ _ (Respects-pure P o) (λ external.
      Respects-bind P _ _ (Kept-call_external external _)
        (λ created. Respects-pure P (some created)))

  Kept-deprecate : (o : Option ScheduleVersion) → Kept (deprecate deps o)
  unfolding deprecate
  Kept-deprecate none = Respects-pure P tt
  Kept-deprecate (some v) =
      Respects-if P (is_active_config v.lifecycle) _ _ (keeps.versions _) (Respects-pure P tt)

  Kept-pause : (id : Text) (now : ℕ) → Kept (pause deps id now)
  unfolding pause pause_found
  Kept-pause id now = find_schedule id _ _ (λ s.
      refusing (not (can_pause s.state)) _ _
        (Respects-bind P _ _ (Kept-call_for _ _) (λ u. put_last _ _)))

  Kept-resume : (id : Text) (now : ℕ) → Kept (resume deps id now)
  unfolding resume resume_found
  Kept-resume id now = find_schedule id _ _ (λ s.
      refusing (not (can_resume s.state)) _ _
        (Respects-bind P _ _ (Kept-call_for _ _) (λ u. put_last _ _)))

  Kept-disable : (id : Text) (now : ℕ) → Kept (disable deps id now)
  unfolding disable disable_found
  Kept-disable id now = find_schedule id _ _ (λ s. refusing (is_disabled_or_deleted s.state) _ _ (
      Respects-bind P _ _ (Kept-call_for _ _) (λ u.
        Respects-bind P _ _ (Kept-get_active_version id)
          (λ v. Respects-bind P _ _ (Kept-deprecate v) (λ u. put_last _ _)))))

  Kept-delete : (id : Text) (now : ℕ) → Kept (delete deps id now)
  unfolding delete delete_found
  Kept-delete id now =
      find_schedule id _ _ (λ s. refusing (not (can_delete s.state)) _ _ (put_last _ _))

  Kept-edit_draft :
      (id : Text) (p : DraftPatch) (actor : Option Text) (now : ℕ)
      → Kept (edit_draft deps id p actor now)
  unfolding edit_draft edit_found edit_version next_version_number
  Kept-edit_draft id p actor now = find_schedule id _ _ (λ s.
      refusing (not (is_draft s.state)) _ _ (
        find_version id _ _ (λ v.
          Respects-bind P _ _ (look _)
            (λ n. with_id _ (λ vid. Respects-bind P _ _ (keeps.versions _) (λ u. put_last _ _))))))

  Kept-enable : (id : Text) (now : ℕ) → Kept (enable deps id now)
  unfolding enable enable_found enable_version
  Kept-enable id now = find_schedule id _ _ (λ s. refusing (not (is_draft s.state)) _ _ (
      find_version id _ _ (λ v.
        refusing (not (is_valid (validate_schedule_version deps.is_timezone deps.checks v))) _ _ (
          Respects-bind P _ _ (keeps.versions _)
            (λ u. Respects-bind P _ _ (Kept-register id v _) (λ x. put_last _ _))))))

  Kept-validate : (id : Text) → Kept (validate deps id)
  unfolding validate validate_found
  Kept-validate id = find_version id _ _ (λ v.
      Respects-if P
        (is_valid (validate_schedule_version deps.is_timezone deps.checks v)
          && is_draft_config v.lifecycle)
        _ _ (Respects-bind P _ _ (keeps.versions _) (λ u. Respects-pure P _)) (Respects-pure P _))

  two_writes :
      {A : Type 0} (v : ScheduleVersion) (s : Schedule) (a : A)
      → Kept (put_version deps.store v >> (put_schedule deps.store s >> pure a))
  two_writes v s a = Respects-bind P _ _ (keeps.versions v) (λ u. put_last s a)

  Kept-create : (i : CreateScheduleInput) (now : ℕ) → Kept (create deps i now)
  unfolding create create_valid
  Kept-create i now = refusing (same (trim i.name) []) _ _ (
      refusing_first
        (refuse_first (validate_cron i.cron) (validate_timezone deps.is_timezone i.timezone)) _
        (with_id _ (λ sid. with_id _ (λ vid. two_writes _ _ _))))

  Kept-duplicate : (id : Text) (name : Option Text) (now : ℕ) → Kept (duplicate deps id name now)
  unfolding duplicate copy_found copy_version
  Kept-duplicate id name now =
      find_schedule id _ _
        (λ s. find_version id _ _ (λ v. with_id _ (λ sid. with_id _ (λ vid. two_writes _ _ _))))

  Kept-run_now :
      (id : Text) (overrides : Option Fields) (now_text : Text)
      → Kept (run_now deps id overrides now_text)
  unfolding run_now run_found run_version
  Kept-run_now id overrides now_text =
      find_schedule id _ _ (λ s.
        refusing (not (can_run_now s.state)) _ _ (find_version id _ _ (λ v. Respects-pure P _)))

  finished : {A : Type 0} (m : Run A) → Kept m → Kept (m >> pure tt)
  finished m h = Respects-bind P _ _ h (λ u. Respects-pure P tt)

  pub perform-Respects : (k : Command) → Respects P (perform deps k)
  unfolding perform
  perform-Respects (create_command i now) = finished _ (Kept-create i now)
  perform-Respects (edit_command id p actor now) = finished _ (Kept-edit_draft id p actor now)
  perform-Respects (validate_command id) = finished _ (Kept-validate id)
  perform-Respects (enable_command id now) = finished _ (Kept-enable id now)
  perform-Respects (pause_command id now) = finished _ (Kept-pause id now)
  perform-Respects (resume_command id now) = finished _ (Kept-resume id now)
  perform-Respects (disable_command id now) = finished _ (Kept-disable id now)
  perform-Respects (delete_command id now) = finished _ (Kept-delete id now)
  perform-Respects (run_now_command id overrides now_text) =
      finished _ (Kept-run_now id overrides now_text)
  perform-Respects (duplicate_command id name now) = finished _ (Kept-duplicate id name now)
