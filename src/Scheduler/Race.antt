-- ===== src/Scheduler/Race.antt =====
-- An operation of `SchedulerService` (packages/scheduler/src/index.ts) that reads a schedule writes back the
-- schedule that it read: what others have written meanwhile is lost.
use chain_sieve.Base.{
  ◌≡◌, refl, sym, ap, ◌∙◌, ℕ, true, Option, none, some, [], ◌∷◌, Text, same_refl,
}
use chain_sieve.Sql.Table.{row-key}
use chain_sieve.Sql.Exec.{World, turn, statement, fallible, ◌>>=◌, bind-pure_state}
use chain_sieve.Scheduler.Store.{
  ScheduleState, Schedule, ScheduleError, in_memory, schedule, ScheduleStore,
}
use chain_sieve.Scheduler.Store.Laws.{state_of, StoreLaws-in_memory}
use chain_sieve.Scheduler.Service.{
  Control, Deps, get_schedule, found_or, put_schedule, call_for, pause, pause_found,
  paused_schedule, can_pause,
}

abbrev pub with_store : ScheduleStore → Deps → Deps
with_store store deps = record deps { store = store }

put_state :
    (s : Schedule) (w : World Control)
    → state_of s.id (put_schedule in_memory s w).1.state.tables ≡ some s.state
unfolding put_schedule in_memory fallible
put_state s w =
    StoreLaws-in_memory.state-put_schedule s (turn w).state.tables _ s.id refl
    ∙ rw (same_refl s.id) refl

pause_written :
    (deps : Deps) (s : Schedule) (now : ℕ) (w : World Control)
    → deps.external ≡ none
    → can_pause s.state ≡ true
    → state_of s.id (pause_found (with_store in_memory deps) now s w).1.state.tables
      ≡ some ScheduleState.paused
unfolding pause_found call_for ◌>>=◌
pause_written deps s now w h k =
    rw (k, h, pause_found, call_for)
      (ap (λ v. state_of s.id v.state.tables)
          (bind-pure_state (put_schedule in_memory (paused_schedule now s)) (paused_schedule now s)
            w)
        ∙ put_state (paused_schedule now s) w)

-- Over the store in memory and with no external scheduler, a pause of a schedule that is active or
-- degraded when it is read leaves it paused, whatever `g` others have done to the schedules between the
-- read and the write.
pub pause-overwrites :
    (deps : Deps) (c : Control) (s : Schedule) (g : Control → Control) (id : Text) (now : ℕ)
    → deps.external ≡ none
    → schedule id c.tables ≡ some s
    → can_pause s.state ≡ true
    → state_of id
        (pause
          (with_store in_memory deps)
          id
          now
          (record { state = c; others = (λ x. x) ∷ g ∷ [] })).1.state.tables
      ≡ some ScheduleState.paused
unfolding pause get_schedule ◌>>=◌ turn statement found_or schedule
pause-overwrites deps c s g id now h k p =
    let read : World Control = record { state = c; others = g ∷ [] } in
    let run : Option Schedule → World Control = λ o.
      (found_or ScheduleError.schedule_not_found (pause_found (with_store in_memory deps) now) o
        read).1 in
    ap (λ o. state_of id (run o).state.tables) k
    ∙ (ap (λ i. state_of i (run (some s)).state.tables)
          (sym (row-key (λ s. s.id) id c.tables.schedules s k))
        ∙ pause_written deps s now read h p)
