-- ===== src/Scheduler/Moves.antt =====
-- How the operations of `SchedulerService` (packages/scheduler/src/index.ts) move the state of a schedule, for
-- any store with the laws, when nobody else writes a schedule meanwhile.
use chain_sieve.Base.{
  ◌≡◌, refl, sym, ap, ◌∙◌, ◌≢◌, ℕ, ◌+◌, ◌≤◌, Bool, true, false, Option, none, some, Text, same,
  if◌then◌else◌, arith, Outcome, ok, err, Bool-cases, inl, inr,
}
use chain_sieve.Sql.Table.{row}
use chain_sieve.Sql.Exec.{
  World, turn, pure, throw, statement, fallible, continue, ◌>>=◌, bind-pure_state, fallible-ok,
  fallible-err,
}
use chain_sieve.Sql.Rely.{Preorder, Obeys, Kept-turn, Respects, rely_rules}
use chain_sieve.Scheduler.Store.{
  ScheduleState, Schedule, Tables, ScheduleError, can_transition_schedule, schedule,
}
use chain_sieve.Scheduler.Store.Laws.{state_of, StoreLaws}
use chain_sieve.Scheduler.Service.{
  Control, Deps, Run, get_schedule, found_or, put_schedule, new_id, stored,
}

-- the schedules are the same, and no issued id is taken back
abbrev pub Quiet : Preorder Control
Quiet = record {
  R = λ c d. (d.tables.schedules ≡ c.tables.schedules) × (c.issued ≤ d.issued);
  reflexive = λ c. (refl, omega arith);
  transitive = λ c d e h k. (k.0 ∙ h.0, omega arith);
}

-- a schedule that is not there stays away, and one that is there stays as it is or moves by the table
pub data Moves : Option ScheduleState → Option ScheduleState → Type 0 where
  absent : Moves none none
  stayed : {s : ScheduleState} → Moves (some s) (some s)
  moved : {s t : ScheduleState} → can_transition_schedule s t ≡ true → Moves (some s) (some t)

pub Moves-refl : (o : Option ScheduleState) → Moves o o
Moves-refl none = absent
Moves-refl (some s) = stayed

module _ (deps : Deps) (laws : StoreLaws deps.store) (j : Text) (c : Control)
    (fresh : (n : ℕ) → c.issued ≤ n → deps.id_of n ≢ j) where
  -- from `c` to `d` the schedule `j` has moved by the table
  abbrev pub Step : Control → Type 0
  Step d = Moves (state_of j c.tables) (state_of j d.tables) × (c.issued ≤ d.issued)

  -- begun where the schedules are those of `c`, the run of `m` is such a step
  pub record Within {A : Type 0} (m : Run A) : Type 0 where
    pub at : (w : World Control) → Obeys Quiet w.others → Quiet.R c w.state → Step (m w).1.state

  Step-quiet : (d : Control) → Quiet.R c d → Step d
  unfolding schedule
  Step-quiet d h = (rw (h.0) (Moves-refl _), h.1)

  pub Within-quiet : {A : Type 0} (m : Run A) → Respects Quiet m → Within m
  Within-quiet m h = record {
    at = λ w o q.
        Step-quiet (m w).1.state (Quiet.transitive c w.state (m w).1.state q (h.at w o).state);
  }

  pub Within-throw : {A : Type 0} (e : ScheduleError) → Within {A = A} (throw e)
  Within-throw e = Within-quiet _ (search rely_rules)

  pub Within-if :
      {A : Type 0} (b : Bool) (m n : Run A) → Within m → Within n → Within (if b then m else n)
  Within-if true m n h k = h
  Within-if false m n h k = k

  Within-continue :
      {A B : Type 0} (r : Outcome ScheduleError A) (f : A → Run B)
      → ((a : A) → Within (f a))
      → Within (continue r f)
  unfolding throw
  Within-continue (ok a) f h = h a
  Within-continue (err e) f h = Within-throw e

  -- first a part that leaves the schedules alone
  pub Within-bind :
      {A B : Type 0} (m : Run A) (f : A → Run B)
      → Respects Quiet m
      → ((a : A) → Within (f a))
      → Within (m >>= f)
  unfolding ◌>>=◌
  Within-bind m f h k = record {
    at = λ w o q.
        let first = h.at w o in
        (Within-continue (m w).0 f k).at (m w).1 first.others
          (Quiet.transitive c w.state (m w).1.state q first.state);
  }

  put_there :
      (s : Schedule) (d : Control)
      → Quiet.R c d
      → (same s.id j ≡ true → Moves (state_of j c.tables) (some s.state))
      → Moves (state_of j c.tables) (if same s.id j then some s.state else state_of j d.tables)
  put_there s d q k = elim (Bool-cases (same s.id j)) [
    | inl e ↦ rw (e) (k e)
    | inr e ↦ rw (e) (Step-quiet d q).0
  ]

  state-put :
      (s : Schedule) (w : World Control)
      → Quiet.R c w.state
      → Obeys Quiet w.others
      → (same s.id j ≡ true → Moves (state_of j c.tables) (some s.state))
      → (o : Outcome ScheduleError Tables) → deps.store.put_schedule s (turn w).state.tables ≡ o
      → Step (put_schedule deps.store s w).1.state
  unfolding put_schedule schedule
  state-put s w q o k (err e) h =
      let before = Quiet.transitive c w.state (turn w).state q (Kept-turn Quiet w o).state in
      let run : fallible (λ d. stored d (deps.store.put_schedule s d.tables)) w ≡ (err e, turn w) =
        fallible-err _ w e (ap (stored (turn w).state) h) in
      rw (ap (λ r. r.1.state) run) (Step-quiet (turn w).state before)
  state-put s w q o k (ok t) h =
      let before = Quiet.transitive c w.state (turn w).state q (Kept-turn Quiet w o).state in
      let run : fallible (λ d. stored d (deps.store.put_schedule s d.tables)) w ≡ (
        ok tt,
        record { state = record (turn w).state { tables = t }; others = (turn w).others },
      ) =
        fallible-ok _ w tt (record (turn w).state { tables = t }) (ap (stored (turn w).state) h) in
      rw (ap (λ r. r.1.state) run) (
        rw (laws.state-put_schedule s (turn w).state.tables t j h)
            (put_there s (turn w).state before k),
        before.1,
      )

  -- the write of a schedule that ends an operation
  pub Within-put :
      {B : Type 0} (s : Schedule) (b : B)
      → (same s.id j ≡ true → Moves (state_of j c.tables) (some s.state))
      → Within (put_schedule deps.store s >>= λ _. pure b)
  Within-put s b k = record {
    at = λ w o q.
        rw (bind-pure_state (put_schedule deps.store s) b w)
          (state-put s w q o k (deps.store.put_schedule s (turn w).state.tables) refl);
  }

  pub Within-found_or :
      {A B : Type 0} (e : ScheduleError) (f : A → Run B) (o : Option A)
      → ((a : A) → o ≡ some a → Within (f a))
      → Within (found_or e f o)
  unfolding found_or
  Within-found_or e f none h = Within-throw e
  Within-found_or e f (some a) h = h a refl

  -- the schedule that an operation begins with is the one of `c`
  pub Within-found :
      {B : Type 0} (e : ScheduleError) (id : Text) (f : Schedule → Run B)
      → ((s : Schedule) → schedule id c.tables ≡ some s → Within (f s))
      → Within (get_schedule id >>= found_or e f)
  unfolding get_schedule ◌>>=◌ schedule statement
  Within-found e id f h = record {
    at = λ w o q.
        let before = Kept-turn Quiet w o in
        let now = Quiet.transitive c w.state (turn w).state q before.state in
        (Within-found_or e f (schedule id (turn w).state.tables)
            (λ s n. h s (ap (row (λ s. s.id) id) (sym now.0) ∙ n))).at
          (record { state = (turn w).state; others = (turn w).others }) before.others now;
  }

  issue : {a b : ℕ} → a ≤ b → a ≤ b + 1
  issue h = omega arith

  pub Within-new_id :
      {B : Type 0} (f : Text → Run B)
      → ((id : Text) → id ≢ j → Within (f id))
      → Within (new_id deps >>= f)
  unfolding new_id ◌>>=◌ statement
  Within-new_id f h = record {
    at = λ w o q.
        let before = Kept-turn Quiet w o in
        let now = Quiet.transitive c w.state (turn w).state q before.state in
        (h (deps.id_of (turn w).state.issued) (fresh (turn w).state.issued now.1)).at
          (record {
            state = record (turn w).state { issued = (turn w).state.issued + 1 };
            others = (turn w).others;
          })
          before.others (now.0, issue now.1);
  }

pub ruleset within_rules =
    (Within-throw, Within-if, Within-bind, Within-put, Within-found_or, Within-found, Within-new_id)
