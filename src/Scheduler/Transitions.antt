-- ===== src/Scheduler/Transitions.antt =====
-- The guards of `SchedulerService` allow what ALLOWED_SCHEDULE_TRANSITIONS allows
-- (packages/scheduler/src/index.ts).
use chain_sieve.Base.{◌≡◌, refl, true, false}
use chain_sieve.Scheduler.Store.{ScheduleState, can_transition_schedule}
use chain_sieve.Scheduler.Service.{
  can_pause, can_resume, is_disabled_or_deleted, can_delete, is_draft,
}

pub pause_moves :
    (a : ScheduleState) → can_pause a ≡ true → can_transition_schedule a ScheduleState.paused ≡ true
unfolding can_transition_schedule
pause_moves ScheduleState.active h = refl
pause_moves ScheduleState.degraded h = refl
pause_moves ScheduleState.draft h = cc
pause_moves ScheduleState.paused h = cc
pause_moves ScheduleState.disabled h = cc
pause_moves ScheduleState.deleted h = cc

pub resume_moves :
    (a : ScheduleState)
    → can_resume a ≡ true
    → can_transition_schedule a ScheduleState.active ≡ true
unfolding can_transition_schedule
resume_moves ScheduleState.paused h = refl
resume_moves ScheduleState.draft h = cc
resume_moves ScheduleState.active h = cc
resume_moves ScheduleState.degraded h = cc
resume_moves ScheduleState.disabled h = cc
resume_moves ScheduleState.deleted h = cc

pub disable_moves :
    (a : ScheduleState)
    → is_disabled_or_deleted a ≡ false
    → can_transition_schedule a ScheduleState.disabled ≡ true
unfolding can_transition_schedule
disable_moves ScheduleState.paused h = refl
disable_moves ScheduleState.draft h = refl
disable_moves ScheduleState.active h = refl
disable_moves ScheduleState.degraded h = refl
disable_moves ScheduleState.disabled h = cc
disable_moves ScheduleState.deleted h = cc

pub delete_moves :
    (a : ScheduleState)
    → can_delete a ≡ true
    → can_transition_schedule a ScheduleState.deleted ≡ true
unfolding can_transition_schedule
delete_moves ScheduleState.disabled h = refl
delete_moves ScheduleState.draft h = cc
delete_moves ScheduleState.active h = cc
delete_moves ScheduleState.paused h = cc
delete_moves ScheduleState.degraded h = cc
delete_moves ScheduleState.deleted h = cc

pub enable_moves :
    (a : ScheduleState) → is_draft a ≡ true → can_transition_schedule a ScheduleState.active ≡ true
unfolding can_transition_schedule
enable_moves ScheduleState.draft h = refl
enable_moves ScheduleState.active h = cc
enable_moves ScheduleState.paused h = cc
enable_moves ScheduleState.degraded h = cc
enable_moves ScheduleState.disabled h = cc
enable_moves ScheduleState.deleted h = cc
