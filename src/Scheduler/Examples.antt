-- ===== src/Scheduler/Examples.antt =====
-- The theorems of the scheduler at one schedule (packages/scheduler/src/index.ts).
use chain_sieve.Base.{◌≡◌, ◌≢◌, refl, ap, ℕ, ◌≤◌, none, some, [], ◌∷◌, Text, same, err, arith}
use chain_sieve.Sql.Exec.{alone}
use chain_sieve.Sql.Table.{row}
use chain_sieve.Scheduler.Store.{
  ScheduleState, ScheduleError, in_memory, database, schedule, version,
}
use chain_sieve.Scheduler.Store.Laws.{state_of, StoreLaws-in_memory}
use chain_sieve.Scheduler.Service.{Control, pause, disable}
use chain_sieve.Scheduler.RunNow.{run_now}
use chain_sieve.Scheduler.Commands.{
  perform, perform_all, pause_command, resume_command, enable_command,
}
use chain_sieve.Scheduler.Moves.{Moves}
use chain_sieve.Scheduler.Lifecycle.{perform-Moves}
use chain_sieve.Scheduler.Retired.{is_disabled, retired_never_runs}
use chain_sieve.Scheduler.Race.{with_store, pause-overwrites}
use chain_sieve.Scheduler.History.{IsKept, perform-VersionsKept}
use chain_sieve.Scheduler.Samples.{s1, v1, deps, first_draft, scan, control}

-- an issued id begins with another letter
abbrev letter : Text → ℕ
letter [] = 0
letter (c ∷ s) = c

fresh : (c : Control) (n : ℕ) → c.issued ≤ n → deps.id_of n ≢ s1
fresh c n h e = let one_letter : ◌≡◌ {A = ℕ} 105 115 = ap letter e in ground arith

perform-Moves_example : Moves (some ScheduleState.active) (
    state_of s1
      (perform deps (pause_command s1 5) (alone (control ScheduleState.active))).1.state.tables)
unfolding schedule row same
perform-Moves_example =
    perform-Moves deps (pause_command s1 5) (alone (control ScheduleState.active)) s1
      StoreLaws-in_memory tt (fresh (control ScheduleState.active))

retired_never_runs_example :
    (run_now deps s1 none [] (
      alone (
        perform_all deps
          (enable_command s1 1 ∷ resume_command s1 2 ∷ [])
          (control ScheduleState.disabled)))).0
    ≡ err ScheduleError.run_now_only_when_active_or_paused
unfolding schedule row same
retired_never_runs_example =
    retired_never_runs deps (enable_command s1 1 ∷ resume_command s1 2 ∷ [])
      (control ScheduleState.disabled) s1 none [] StoreLaws-in_memory
      (fresh (control ScheduleState.disabled)) is_disabled

-- what somebody else does: the schedule is disabled
abbrev disabling : Control → Control
disabling c = (disable deps s1 3 (alone c)).1.state

pause-overwrites_example :
    state_of s1
      (pause (with_store in_memory deps) s1 4 (record {
        state = control ScheduleState.active;
        others = (λ x. x) ∷ disabling ∷ [];
      })).1.state.tables
    ≡ some ScheduleState.paused
unfolding schedule row same
pause-overwrites_example =
    pause-overwrites deps (control ScheduleState.active) (scan ScheduleState.active) disabling s1 4
      refl refl refl

perform-VersionsKept_example : IsKept first_draft (
    version v1
      (perform
        (with_store (database (λ ss. ss)) deps)
        (enable_command s1 6)
        (alone (control ScheduleState.draft))).1.state.tables)
unfolding version row same
perform-VersionsKept_example =
    perform-VersionsKept deps (λ ss. ss) (enable_command s1 6) (alone (control ScheduleState.draft))
      v1 first_draft tt refl
