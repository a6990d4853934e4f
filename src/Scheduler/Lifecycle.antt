-- ===== src/Scheduler/Lifecycle.antt =====
-- Each operation of `SchedulerService` (packages/scheduler/src/index.ts) follows ALLOWED_SCHEDULE_TRANSITIONS.
use mathlib.Core.Option
use chain_sieve.Base.{
  ◌≡◌, refl, sym, ap, ◌∙◌, ◌≢◌, ℕ, ◌≤◌, Bool, true, false, not, Option, none, some, [], Text, same,
  same_iff, trim, if◌then◌else◌,
}
use chain_sieve.Sql.Exec.{World, pure, throw, ◌>>◌, bind-pure_state}
use chain_sieve.Sql.Rely.{Obeys, Respects-pure}
use chain_sieve.Sql.Table.{row, row-key}
use chain_sieve.Scheduler.Store.{
  ScheduleState, Schedule, ScheduleError, can_transition_schedule, schedule,
}
use chain_sieve.Scheduler.Store.Laws.{state_of, StoreLaws}
use chain_sieve.Scheduler.Service.{
  Control, Deps, Run, pause, pause_found, can_pause, resume, resume_found, can_resume, disable,
  disable_found, is_disabled_or_deleted, delete, delete_found, can_delete, is_draft,
}
use chain_sieve.Scheduler.Drafts.{
  create, create_valid, edit_draft, edit_found, edit_version, enable, enable_found, enable_version,
  duplicate, copy_found, copy_version,
}
use chain_sieve.Scheduler.Versions.{CreateScheduleInput, DraftPatch, refuse_first}
use chain_sieve.Scheduler.Config.{Fields}
use chain_sieve.Scheduler.Cron.{validate_cron}
use chain_sieve.Scheduler.Validation.{validate_timezone, validate_schedule_version, is_valid}
use chain_sieve.Scheduler.RunNow.{can_run_now, run_now, run_found, run_version}
use chain_sieve.Scheduler.Commands.{
  Command, create_command, edit_command, validate_command, enable_command, pause_command,
  resume_command, disable_command, delete_command, run_now_command, duplicate_command, perform,
}
use chain_sieve.Scheduler.Moves.{
  Quiet, Moves, stayed, moved, Within, Within-quiet, Within-throw, Within-bind, Within-put,
  Within-found, Within-found_or, Within-new_id,
}
use chain_sieve.Scheduler.Quiet.{
  put_version-Quiet, call_for-Quiet, get_active_version-Quiet, next_version_number-Quiet,
  register-Quiet, deprecate-Quiet, validate-Quiet,
}
use chain_sieve.Scheduler.Transitions.{
  pause_moves, resume_moves, disable_moves, delete_moves, enable_moves,
}

module _ (deps : Deps) (laws : StoreLaws deps.store) (j : Text) (c : Control)
    (fresh : (n : ℕ) → c.issued ≤ n → deps.id_of n ≢ j) where
  abbrev In : {A : Type 0} → Run A → Type 0
  In m = Within deps laws j c fresh m

  -- a guard that throws where its condition fails
  guarded :
      {A : Type 0} (b : Bool) (e : ScheduleError) (m : Run A)
      → (b ≡ true → In m)
      → In (if not b then throw e else m)
  guarded true e m h = h refl
  guarded false e m h = Within-throw deps laws j c fresh e

  guarded_not :
      {A : Type 0} (b : Bool) (e : ScheduleError) (m : Run A)
      → (b ≡ false → In m)
      → In (if b then throw e else m)
  guarded_not false e m h = h refl
  guarded_not true e m h = Within-throw deps laws j c fresh e

  create_unless :
      {A : Type 0} (o : Option ScheduleError) (m : Run A)
      → In m
      → In (elim o [ some e ↦ throw e | none ↦ m ])
  create_unless none m h = h
  create_unless (some e) m h = Within-throw deps laws j c fresh e

  -- the row that was read is the one of `j`
  read_state :
      (id : Text) (s : Schedule)
      → schedule id c.tables ≡ some s
      → same s.id j ≡ true
      → state_of j c.tables ≡ some s.state
  unfolding schedule row
  read_state id s h e =
      let key : s.id ≡ id = row-key (λ s. s.id) id c.tables.schedules s h in
      let at : id ≡ j = sym key ∙ (same_iff s.id j).0 e in
      ap (λ k. state_of k c.tables) (sym at) ∙ ap (Option.map (λ s. s.state)) h

  moved_to :
      (id : Text) (s : Schedule) (t : ScheduleState)
      → schedule id c.tables ≡ some s
      → can_transition_schedule s.state t ≡ true
      → same s.id j ≡ true
      → Moves (state_of j c.tables) (some t)
  moved_to id s t h k e = rw (read_state id s h e) (moved k)

  kept_at :
      (id : Text) (s : Schedule)
      → schedule id c.tables ≡ some s
      → same s.id j ≡ true
      → Moves (state_of j c.tables) (some s.state)
  kept_at id s h e = rw (read_state id s h e) stayed

  pause-Within : (id : Text) (now : ℕ) → In (pause deps id now)
  unfolding pause pause_found
  pause-Within id now = Within-found deps laws j c fresh _ id _ (λ s h.
      guarded (can_pause s.state) _ _ (λ g.
        Within-bind deps laws j c fresh _ _ (call_for-Quiet deps _ _) (λ u.
          Within-put deps laws j c fresh _ _
            (moved_to id s ScheduleState.paused h (pause_moves s.state g)))))

  resume-Within : (id : Text) (now : ℕ) → In (resume deps id now)
  unfolding resume resume_found
  resume-Within id now = Within-found deps laws j c fresh _ id _ (λ s h.
      guarded (can_resume s.state) _ _ (λ g.
        Within-bind deps laws j c fresh _ _ (call_for-Quiet deps _ _) (λ u.
          Within-put deps laws j c fresh _ _
            (moved_to id s ScheduleState.active h (resume_moves s.state g)))))

  disable-Within : (id : Text) (now : ℕ) → In (disable deps id now)
  unfolding disable disable_found
  disable-Within id now = Within-found deps laws j c fresh _ id _ (λ s h.
      guarded_not (is_disabled_or_deleted s.state) _ _ (λ g.
        Within-bind deps laws j c fresh _ _ (call_for-Quiet deps _ _) (λ u.
          Within-bind deps laws j c fresh _ _ (get_active_version-Quiet deps id) (λ v.
            Within-bind deps laws j c fresh _ _ (deprecate-Quiet deps laws v) (λ u.
              Within-put deps laws j c fresh _ _
                (moved_to id s ScheduleState.disabled h (disable_moves s.state g)))))))

  delete-Within : (id : Text) (now : ℕ) → In (delete deps id now)
  unfolding delete delete_found
  delete-Within id now = Within-found deps laws j c fresh _ id _ (λ s h.
      guarded (can_delete s.state) _ _ (λ g.
        Within-put deps laws j c fresh _ _
          (moved_to id s ScheduleState.deleted h (delete_moves s.state g))))

  edit_draft-Within :
      (id : Text) (p : DraftPatch) (actor : Option Text) (now : ℕ)
      → In (edit_draft deps id p actor now)
  unfolding edit_draft edit_found edit_version
  edit_draft-Within id p actor now = Within-found deps laws j c fresh _ id _ (λ s h.
      guarded (is_draft s.state) _ _ (λ g.
        Within-bind deps laws j c fresh _ _ (get_active_version-Quiet deps id) (λ o.
          Within-found_or deps laws j c fresh _ _ o (λ v k.
            Within-bind deps laws j c fresh _ _ (next_version_number-Quiet deps id) (λ n.
              Within-new_id deps laws j c fresh _ (λ vid ne.
                Within-bind deps laws j c fresh _ _ (put_version-Quiet deps.store laws _)
                  (λ u. Within-put deps laws j c fresh _ _ (kept_at id s h))))))))

  enable-Within : (id : Text) (now : ℕ) → In (enable deps id now)
  unfolding enable enable_found enable_version
  enable-Within id now = Within-found deps laws j c fresh _ id _ (λ s h.
      guarded (is_draft s.state) _ _ (λ g.
        Within-bind deps laws j c fresh _ _ (get_active_version-Quiet deps id) (λ o.
          Within-found_or deps laws j c fresh _ _ o (λ v k.
            guarded (is_valid (validate_schedule_version deps.is_timezone deps.checks v)) _ _ (λ k.
              Within-bind deps laws j c fresh _ _ (put_version-Quiet deps.store laws _) (λ u.
                Within-bind deps laws j c fresh _ _ (register-Quiet deps id v _) (λ external_id.
                  Within-put deps laws j c fresh _ _
                    (moved_to id s ScheduleState.active h (enable_moves s.state g)))))))))

  -- a new schedule is another one
  apart :
      {m : Option ScheduleState} (id : Text)
      → id ≢ j
      → same id j ≡ true
      → Moves (state_of j c.tables) m
  apart id n e = absurd (n ((same_iff id j).0 e))

  create-Within : (i : CreateScheduleInput) (now : ℕ) → In (create deps i now)
  unfolding create create_valid
  create-Within i now = guarded_not (same (trim i.name) []) _ _ (λ g.
      create_unless
        (refuse_first (validate_cron i.cron) (validate_timezone deps.is_timezone i.timezone)) _
        (Within-new_id deps laws j c fresh _ (λ sid ne.
          Within-new_id deps laws j c fresh _ (λ vid ne'.
            Within-bind deps laws j c fresh _ _ (put_version-Quiet deps.store laws _)
              (λ u. Within-put deps laws j c fresh _ _ (apart sid ne))))))

  duplicate-Within : (id : Text) (name : Option Text) (now : ℕ) → In (duplicate deps id name now)
  unfolding duplicate copy_found copy_version
  duplicate-Within id name now = Within-found deps laws j c fresh _ id _ (λ s h.
      Within-bind deps laws j c fresh _ _ (get_active_version-Quiet deps id) (λ o.
        Within-found_or deps laws j c fresh _ _ o (λ v k.
          Within-new_id deps laws j c fresh _ (λ sid ne.
            Within-new_id deps laws j c fresh _ (λ vid ne'.
              Within-bind deps laws j c fresh _ _ (put_version-Quiet deps.store laws _)
                (λ u. Within-put deps laws j c fresh _ _ (apart sid ne)))))))

  run_now-Within :
      (id : Text) (overrides : Option Fields) (now_text : Text)
      → In (run_now deps id overrides now_text)
  unfolding run_now run_found run_version
  run_now-Within id overrides now_text = Within-found deps laws j c fresh _ id _ (λ s h.
      guarded (can_run_now s.state) _ _ (λ g.
        Within-bind deps laws j c fresh _ _ (get_active_version-Quiet deps id) (λ o.
          Within-found_or deps laws j c fresh _ _ o
            (λ v k. Within-quiet deps laws j c fresh _ (Respects-pure Quiet _)))))

  finished : {A : Type 0} (m : Run A) → In m → In (m >> pure tt)
  finished m h = record { at = λ w o q. rw (bind-pure_state m tt w) (h.at w o q) }

  perform-Within : (k : Command) → In (perform deps k)
  unfolding perform
  perform-Within (create_command i now) = finished _ (create-Within i now)
  perform-Within (edit_command id p actor now) = finished _ (edit_draft-Within id p actor now)
  perform-Within (validate_command id) =
      finished _ (Within-quiet deps laws j c fresh _ (validate-Quiet deps laws id))
  perform-Within (enable_command id now) = finished _ (enable-Within id now)
  perform-Within (pause_command id now) = finished _ (pause-Within id now)
  perform-Within (resume_command id now) = finished _ (resume-Within id now)
  perform-Within (disable_command id now) = finished _ (disable-Within id now)
  perform-Within (delete_command id now) = finished _ (delete-Within id now)
  perform-Within (run_now_command id overrides now_text) =
      finished _ (run_now-Within id overrides now_text)
  perform-Within (duplicate_command id name now) = finished _ (duplicate-Within id name now)

-- Whatever operation runs, over a store with the laws and while nobody else writes a schedule, a schedule
-- whose id is not still to be issued keeps its state or moves along one transition of the table, and one
-- that is not there does not appear.
pub perform-Moves :
    (deps : Deps) (k : Command) (w : World Control) (j : Text)
    → StoreLaws deps.store
    → Obeys Quiet w.others
    → ((n : ℕ) → w.state.issued ≤ n → deps.id_of n ≢ j)
    → Moves (state_of j w.state.tables) (state_of j (perform deps k w).1.state.tables)
perform-Moves deps k w j laws quiet fresh =
    ((perform-Within deps laws j w.state fresh k).at w quiet (Quiet.reflexive w.state)).0

pub perform-issued :
    (deps : Deps) (k : Command) (w : World Control) (j : Text)
    → StoreLaws deps.store
    → Obeys Quiet w.others
    → ((n : ℕ) → w.state.issued ≤ n → deps.id_of n ≢ j)
    → w.state.issued ≤ (perform deps k w).1.state.issued
perform-issued deps k w j laws quiet fresh =
    ((perform-Within deps laws j w.state fresh k).at w quiet (Quiet.reflexive w.state)).1
