-- ===== src/Scheduler/Retired.antt =====
-- A schedule that is disabled stays out of use: over any operations of `SchedulerService`
-- (packages/scheduler/src/index.ts), each of them alone.
use mathlib.Core.Option
use chain_sieve.Base.{
  ◌≡◌, refl, ◌≢◌, ℕ, ◌≤◌, true, false, Option, none, some, List, [], ◌∷◌, Text, err, arith,
}
use chain_sieve.Sql.Exec.{turn, alone, throw, ◌>>=◌}
use chain_sieve.Scheduler.Config.{Fields}
use chain_sieve.Scheduler.Store.{
  ScheduleState, Schedule, ScheduleError, can_transition_schedule, schedule,
}
use chain_sieve.Scheduler.Store.Laws.{state_of, StoreLaws}
use chain_sieve.Scheduler.Service.{Control, Deps, get_schedule, found_or}
use chain_sieve.Scheduler.RunNow.{run_now, run_found, can_run_now}
use chain_sieve.Scheduler.Commands.{Command, perform, perform_all}
use chain_sieve.Scheduler.Moves.{Moves, stayed, moved}
use chain_sieve.Scheduler.Lifecycle.{perform-Moves, perform-issued}

pub data IsRetired : Option ScheduleState → Type 0 where
  is_disabled : IsRetired (some ScheduleState.disabled)
  is_deleted : IsRetired (some ScheduleState.deleted)

IsRetired-transition :
    (s t : ScheduleState)
    → IsRetired (some s)
    → can_transition_schedule s t ≡ true
    → IsRetired (some t)
unfolding can_transition_schedule
IsRetired-transition _ ScheduleState.deleted is_disabled h = is_deleted
IsRetired-transition _ ScheduleState.disabled is_disabled h = is_disabled
IsRetired-transition _ ScheduleState.draft is_disabled h = cc
IsRetired-transition _ ScheduleState.active is_disabled h = cc
IsRetired-transition _ ScheduleState.paused is_disabled h = cc
IsRetired-transition _ ScheduleState.degraded is_disabled h = cc
IsRetired-transition _ t is_deleted h = cc

IsRetired-Moves : (o p : Option ScheduleState) → IsRetired o → Moves o p → IsRetired p
IsRetired-Moves none p h k = elim h [ ]
IsRetired-Moves (some s) _ h stayed = h
IsRetired-Moves (some s) (some t) h (moved k) = IsRetired-transition s t h k

-- A schedule that is disabled or deleted, and whose id is not still to be issued, is disabled or deleted
-- after any list of operations, each alone, over a store with the laws.
pub perform_all-IsRetired :
    (deps : Deps) (ks : List Command) (c : Control) (j : Text)
    → StoreLaws deps.store
    → ((n : ℕ) → c.issued ≤ n → deps.id_of n ≢ j)
    → IsRetired (state_of j c.tables)
    → IsRetired (state_of j (perform_all deps ks c).tables)
unfolding perform_all
perform_all-IsRetired deps [] c j laws fresh h = h
perform_all-IsRetired deps (k ∷ ks) c j laws fresh h =
    let more = perform-issued deps k (alone c) j laws tt fresh in
    perform_all-IsRetired deps ks (perform deps k (alone c)).1.state j laws
      (λ n le. fresh n (omega arith))
      (IsRetired-Moves _ _ h (perform-Moves deps k (alone c) j laws tt fresh))

cannot_run : (s : ScheduleState) → IsRetired (some s) → can_run_now s ≡ false
cannot_run _ is_disabled = refl
cannot_run _ is_deleted = refl

run_retired :
    (deps : Deps) (j : Text) (overrides : Option Fields) (now_text : Text) (o : Option Schedule)
    (c : Control)
    → IsRetired (Option.map (λ s. s.state) o)
    → (found_or ScheduleError.schedule_not_found
        (run_found deps j overrides now_text)
        o
        (alone c)).0
      ≡ err ScheduleError.run_now_only_when_active_or_paused
unfolding run_found found_or throw
run_retired deps j overrides now_text none c h = elim h [ ]
run_retired deps j overrides now_text (some s) c h = rw (cannot_run s.state h, run_found) refl

-- A schedule that is disabled or deleted, and whose id is not still to be issued, starts no run any more:
-- after any list of operations, each alone, over a store with the laws, `runNow`, alone, throws.
pub retired_never_runs :
    (deps : Deps) (ks : List Command) (c : Control) (j : Text) (overrides : Option Fields)
    (now_text : Text)
    → StoreLaws deps.store
    → ((n : ℕ) → c.issued ≤ n → deps.id_of n ≢ j)
    → IsRetired (state_of j c.tables)
    → (run_now deps j overrides now_text (alone (perform_all deps ks c))).0
      ≡ err ScheduleError.run_now_only_when_active_or_paused
unfolding run_now get_schedule ◌>>=◌ turn
retired_never_runs deps ks c j overrides now_text laws fresh h =
    run_retired deps j overrides now_text (schedule j (perform_all deps ks c).tables)
      (perform_all deps ks c) (perform_all-IsRetired deps ks c j laws fresh h)
