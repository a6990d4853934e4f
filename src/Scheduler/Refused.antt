-- ===== src/Scheduler/Refused.antt =====
-- `create` and `duplicate` of `SchedulerService` (packages/scheduler/src/index.ts) over `DatabaseScheduleStore`:
-- the version is inserted before the schedule that it references.
use chain_sieve.Base.{
  ◌≡◌, ◌∙◌, refl, ap, ℕ, ◌+◌, false, not, ◌&&◌, Option, none, some, List, [], ◌∷◌, Text, same, leb,
  any, arith, err, Bool-cases, inl, inr,
}
use chain_sieve.Sql.Table.{row}
use chain_sieve.Sql.Exec.{
  turn, alone, throw, statement, fallible-err, ◌>>=◌, ◌>>◌, bind-ok, bind-err,
}
use chain_sieve.Scheduler.Store.{
  Schedule, ScheduleVersion, Tables, ScheduleError, database, insert_version, schedule, clashes,
}
use chain_sieve.Scheduler.Reads.{get_active_version-alone}
use chain_sieve.Scheduler.Service.{
  Control, Deps, Run, get_schedule, get_active_version, active_version, found_or, put_version,
  new_id, stored,
}
use chain_sieve.Scheduler.Drafts.{duplicate, copy_found, copy_version}
use chain_sieve.Scheduler.Race.{with_store}

-- run alone, `m` throws and leaves the tables as they were
pub record IsRefused {A : Type 0} (c : Control) (m : Run A) : Type 0 where
  pub error : ScheduleError
  pub thrown : (m (alone c)).0 ≡ err error
  pub unchanged : (m (alone c)).1.state.tables ≡ c.tables

no_schedule :
    (k : Text) (rows : List Schedule)
    → row (λ s. s.id) k rows ≡ none
    → any (λ s. same s.id k) rows ≡ false
unfolding row
no_schedule k [] h = refl
no_schedule k (s ∷ rows) h = ground (arith, no_schedule k rows)

-- a version of a schedule that is not there
pub insert_version-orphan :
    (v : ScheduleVersion) (t : Tables)
    → schedule v.schedule_id t ≡ none
    → (e : ScheduleError) × (insert_version v t ≡ err e)
unfolding insert_version schedule
insert_version-orphan v t h =
    elim (Bool-cases (not (leb 1 v.concurrency && leb v.concurrency 32))) [
      | inl a ↦ (ScheduleError.check_violation, rw (a, insert_version) refl)
      | inr a ↦ elim (Bool-cases (any (λ w. clashes v w) t.versions)) [
        | inl b ↦ (ScheduleError.unique_violation, rw (a, b, insert_version) refl)
        | inr b ↦ (
          ScheduleError.foreign_key_violation,
          rw (a, b, no_schedule v.schedule_id t.schedules h, insert_version) refl,
        )
      ]
    ]

module _ (deps : Deps) (arrange : List Schedule → List Schedule) where
  abbrev on_database : Deps
  on_database = with_store (database arrange) deps

  orphan_put :
      {A : Type 0} (v : ScheduleVersion) (c : Control) (k : Run A)
      → schedule v.schedule_id c.tables ≡ none
      → IsRefused c (put_version (database arrange) v >> k)
  unfolding put_version database turn
  orphan_put v c k h =
      let (e, said) = insert_version-orphan v c.tables h in
      let put : put_version (database arrange) v (alone c) ≡ (err e, alone c) =
        fallible-err _ (alone c) e (ap (stored c) said) in
      let run = bind-err (put_version (database arrange) v) (λ _. k) (alone c) (alone c) e put in
      record { error = e; thrown = ap (λ r. r.0) run; unchanged = ap (λ r. r.1.state.tables) run }

  new_then :
      {A : Type 0} (f : Text → Text → Run A) (c : Control)
      → ((vid : Text)
          → IsRefused (record c { issued = c.issued + 1 + 1 }) (f (deps.id_of c.issued) vid))
      → IsRefused c (new_id on_database >>= λ sid. new_id on_database >>= f sid)
  unfolding new_id ◌>>=◌ turn statement
  new_then f c h =
      let r = h (deps.id_of (c.issued + 1)) in
      record { error = r.error; thrown = r.thrown; unchanged = r.unchanged }

  throw-IsRefused : {A : Type 0} (c : Control) (e : ScheduleError) → IsRefused {A = A} c (throw e)
  unfolding throw
  throw-IsRefused c e = record { error = e; thrown = refl; unchanged = refl }

  found-IsRefused :
      {A B : Type 0} (e : ScheduleError) (f : A → Run B) (o : Option A) (c : Control)
      → ((a : A) → IsRefused c (f a))
      → IsRefused c (found_or e f o)
  unfolding found_or
  found-IsRefused e f none c h = throw-IsRefused c e
  found-IsRefused e f (some a) c h = h a

  read-IsRefused :
      {A B : Type 0} (look : Control → A) (f : A → Run B) (c : Control)
      → IsRefused c (f (look c))
      → IsRefused c (statement (λ d. (look d, d)) >>= f)
  unfolding ◌>>=◌ statement turn
  read-IsRefused look f c h = record { error = h.error; thrown = h.thrown; unchanged = h.unchanged }

  active-IsRefused :
      {B : Type 0} (id : Text) (f : Option ScheduleVersion → Run B) (c : Control)
      → IsRefused c (f (active_version id c.tables))
      → IsRefused c (get_active_version id >>= f)
  active-IsRefused id f c h =
      let run =
        bind-ok (get_active_version id) f (alone c) (alone c) (active_version id c.tables)
          (get_active_version-alone id c) in
      record {
        error = h.error;
        thrown = ap (λ r. r.0) run ∙ h.thrown;
        unchanged = ap (λ r. r.1.state.tables) run ∙ h.unchanged;
      }

  -- So does `duplicate`.
  pub duplicate-IsRefused :
      (id : Text) (name : Option Text) (now : ℕ) (c : Control)
      → schedule (deps.id_of c.issued) c.tables ≡ none
      → IsRefused c (duplicate on_database id name now)
  unfolding duplicate copy_found copy_version get_schedule
  duplicate-IsRefused id name now c h =
      read-IsRefused (λ d. schedule id d.tables) _ c
        (found-IsRefused _ _ (schedule id c.tables) c (λ s. active-IsRefused id _ c (
          found-IsRefused _ _ (active_version id c.tables) c
            (λ v. new_then _ c (λ vid. orphan_put _ _ _ h)))))
