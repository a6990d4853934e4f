-- ===== src/Scheduler/Store/Laws.antt =====
-- What the service relies on of a store, and that both stores of packages/scheduler/src/index.ts have it.
use mathlib.Core.Option
use chain_sieve.Base.{
  subst, ◌≡◌, refl, sym, ap, ◌∙◌, Bool, true, false, Option, some, List, Text, same, same_iff,
  if◌then◌else◌, arith, Outcome, ok, err, Option-cases, inl, inr,
}
use chain_sieve.Sql.Table.{row, row-append, row-update_where-key}
use chain_sieve.Scheduler.Store.{
  ScheduleState, Schedule, ScheduleVersion, Tables, ScheduleError, ScheduleStore, upsert, in_memory,
  database, insert_version, schedule, merge_schedule, merge_version,
}

-- the state of the schedule with an id
abbrev pub state_of : Text → Tables → Option ScheduleState
state_of id t = Option.map (λ s. s.state) (schedule id t)

pub record StoreLaws (store : ScheduleStore) : Type 0 where
  -- what is put has its state, and no other schedule changes
  pub state-put_schedule :
      (s : Schedule) (t t' : Tables) (id : Text)
      → store.put_schedule s t ≡ ok t'
      → state_of id t' ≡ (if same s.id id then some s.state else state_of id t)
  pub schedules-put_version :
      (v : ScheduleVersion) (t t' : Tables)
      → store.put_version v t ≡ ok t'
      → t'.schedules ≡ t.schedules

abbrev or_tables : Tables → Outcome ScheduleError Tables → Tables
or_tables t (ok t') = t'
or_tables t (err e) = t

-- an upsert, seen through a function of the row that does not depend on what was there
module _ {A B : Type 0} (key : A → Text) (merge : A → A → A) (view : A → B)
    (keeps : (old new : A) → key (merge old new) ≡ key old)
    (views : (old new : A) → view (merge old new) ≡ view new) where
  pub row-upsert :
      (a : A) (rows : List A) (k : Text)
      → Option.map view (row key k (upsert key merge a rows))
        ≡ (if same (key a) k then some (view a) else Option.map view (row key k rows))
  unfolding upsert
  row-upsert a rows k = elim (Option-cases (row key (key a) rows)) [
    | inl e ↦ rw (e, upsert, row-append key k rows a) (ground (arith, same_iff (key a) k))
    | inr (r, e) ↦
        rw (e, upsert, row-update_where-key key (λ b. merge b a) (λ b. keeps b a) k (key a) rows)
          (ground (arith, same_iff (key a) k, views r a))
  ]

-- a store that upserts schedules
state-upsert :
    (merge : Schedule → Schedule → Schedule) (s : Schedule) (t t' : Tables) (id : Text)
    → ((old new : Schedule) → (merge old new).id ≡ old.id)
    → ((old new : Schedule) → (merge old new).state ≡ new.state)
    → ◌≡◌ {A = Outcome ScheduleError Tables}
        (ok (record t { schedules = upsert (λ s. s.id) merge s t.schedules }))
        (ok t')
    → state_of id t' ≡ (if same s.id id then some s.state else state_of id t)
unfolding schedule
state-upsert merge s t t' id keeps states e =
    ap (λ o. state_of id (or_tables t o)) (sym e)
    ∙ row-upsert (λ s. s.id) merge (λ s. s.state) keeps states s t.schedules id

pub StoreLaws-in_memory : StoreLaws in_memory
unfolding in_memory
StoreLaws-in_memory = record {
  state-put_schedule = λ s t t' id e.
      state-upsert (λ old new. record new { id = old.id }) s t t' id (λ old new. refl)
        (λ old new. refl) e;
  schedules-put_version = λ v t t' e. ap (λ o. (or_tables t o).schedules) (sym e);
}

-- the tables of an outcome, if any, are as `Q` says
pub data Takes (Q : Tables → Type 0) : Outcome ScheduleError Tables → Type 0 where
  refused : {e : ScheduleError} → Takes Q (err e)
  accepted : {t : Tables} → Q t → Takes Q (ok t)

Takes-if :
    (Q : Tables → Type 0) (b : Bool) (o o' : Outcome ScheduleError Tables)
    → Takes Q o
    → Takes Q o'
    → Takes Q (if b then o else o')
Takes-if Q true o o' h k = h
Takes-if Q false o o' h k = k

pub insert_version-Takes :
    (Q : Tables → Type 0) (v : ScheduleVersion) (t : Tables)
    → Q (record t { versions = upsert (λ w. w.id) merge_version v t.versions })
    → Takes Q (insert_version v t)
unfolding insert_version
insert_version-Takes Q v t h = search (Takes-if, refused, accepted)

taken :
    (Q : Tables → Type 0) (t : Tables) (o : Outcome ScheduleError Tables)
    → Takes Q o
    → o ≡ ok t
    → Q t
taken Q t (err e) refused h = cc
taken Q t (ok u) (accepted k) h = subst Q (ap (or_tables u) h) k

pub StoreLaws-database : (arrange : List Schedule → List Schedule) → StoreLaws (database arrange)
unfolding database
StoreLaws-database arrange = record {
  state-put_schedule =
      λ s t t' id e. state-upsert merge_schedule s t t' id (λ old new. refl) (λ old new. refl) e;
  schedules-put_version = λ v t t' e.
      taken (λ u. u.schedules ≡ t.schedules) t' (insert_version v t)
        (insert_version-Takes _ v t refl) e;
}
