-- ===== src/Scheduler/Commands.antt =====
-- The operations of `SchedulerService` (packages/scheduler/src/index.ts) that change state or start a run, as
-- data, and their runs one after another.
use chain_sieve.Base.{ℕ, Option, List, [], ◌∷◌, Text}
use chain_sieve.Sql.Exec.{pure, alone, ◌>>◌}
use chain_sieve.Scheduler.Config.{Fields}
use chain_sieve.Scheduler.Service.{Control, Deps, Run, pause, resume, disable, delete}
use chain_sieve.Scheduler.Versions.{CreateScheduleInput, DraftPatch}
use chain_sieve.Scheduler.Drafts.{create, edit_draft, validate, enable, duplicate}
use chain_sieve.Scheduler.RunNow.{run_now}

pub data Command : Type 0 where
  create_command : CreateScheduleInput → ℕ → Command
  edit_command : Text → DraftPatch → Option Text → ℕ → Command
  validate_command : Text → Command
  enable_command pause_command resume_command disable_command delete_command : Text → ℕ → Command
  run_now_command : Text → Option Fields → Text → Command
  duplicate_command : Text → Option Text → ℕ → Command

module _ (deps : Deps) where
  unfoldable pub perform : Command → Run (Unit {0})
  perform (create_command i now) = create deps i now >> pure tt
  perform (edit_command id p actor now) = edit_draft deps id p actor now >> pure tt
  perform (validate_command id) = validate deps id >> pure tt
  perform (enable_command id now) = enable deps id now >> pure tt
  perform (pause_command id now) = pause deps id now >> pure tt
  perform (resume_command id now) = resume deps id now >> pure tt
  perform (disable_command id now) = disable deps id now >> pure tt
  perform (delete_command id now) = delete deps id now >> pure tt
  perform (run_now_command id overrides now_text) = run_now deps id overrides now_text >> pure tt
  perform (duplicate_command id name now) = duplicate deps id name now >> pure tt

  -- one command after another, each of them alone
  unfoldable pub perform_all : List Command → Control → Control
  perform_all [] c = c
  perform_all (k ∷ ks) c = perform_all ks (perform k (alone c)).1.state
