-- ===== src/Scheduler/History.antt =====
-- The versions of a schedule over `DatabaseScheduleStore` (packages/scheduler/src/index.ts): the ON CONFLICT of
-- `putVersion` sets the lifecycle and the hash alone.
use chain_sieve.Base.{
  ◌≡◌, refl, ap, ◌∙◌, Option, some, List, Text, same, Outcome, ok, err, Option-cases, Bool-cases,
  inl, inr,
}
use chain_sieve.Sql.Table.{row, row-append, row-update_where-key}
use chain_sieve.Sql.Exec.{World}
use chain_sieve.Sql.Rely.{Preorder, Obeys, Allowed, Respects-fallible}
use chain_sieve.Scheduler.Store.{
  Schedule, ScheduleVersion, Tables, ScheduleError, database, insert_version, upsert, merge_version,
  version,
}
use chain_sieve.Scheduler.Store.Laws.{Takes, accepted, refused, insert_version-Takes}
use chain_sieve.Scheduler.Service.{Control, Deps, put_version, put_schedule, stored}
use chain_sieve.Scheduler.Commands.{Command, perform}
use chain_sieve.Scheduler.Race.{with_store}
use chain_sieve.Scheduler.Steps.{Keeps, perform-Respects}

-- `v` is still there, with the same contents but for the lifecycle and the hash
pub record IsKept (v : ScheduleVersion) (o : Option ScheduleVersion) : Type 0 where
  pub new : ScheduleVersion
  pub there : o ≡ some new
  pub contents : record v { lifecycle = new.lifecycle; config_hash = new.config_hash } ≡ new

abbrev pub VersionsKept : List ScheduleVersion → List ScheduleVersion → Type 0
VersionsKept vs us =
    (id : Text) (v : ScheduleVersion)
    → row (λ v. v.id) id vs ≡ some v
    → IsKept v (row (λ v. v.id) id us)

pub VersionsKept-refl : (vs : List ScheduleVersion) → VersionsKept vs vs
VersionsKept-refl vs id v h = record { new = v; there = h; contents = refl }

pub VersionsKept-trans :
    (a b c : List ScheduleVersion) → VersionsKept a b → VersionsKept b c → VersionsKept a c
VersionsKept-trans a b c h k id v e =
    let first = h id v e in
    let next = k id first.new first.there in
    record {
      new = next.new;
      there = next.there;
      contents =
          ap {A = ScheduleVersion}
            (λ u. record u { lifecycle = next.new.lifecycle; config_hash = next.new.config_hash })
            first.contents
          ∙ next.contents;
    }

abbrev pub History : Preorder Control
History = record {
  R = λ c d. VersionsKept c.tables.versions d.tables.versions;
  reflexive = λ c. VersionsKept-refl c.tables.versions;
  transitive =
      λ c d e h k. VersionsKept-trans c.tables.versions d.tables.versions e.tables.versions h k;
}

upserted :
    (v : ScheduleVersion) (rows : List ScheduleVersion)
    → VersionsKept rows (upsert (λ v. v.id) merge_version v rows)
unfolding upsert
upserted v rows id u h = elim (Option-cases (row (λ v. v.id) v.id rows)) [
  | inl e ↦ record {
    new = u;
    there = rw (e, upsert) (row-append (λ v. v.id) id rows v ∙ rw (h) refl);
    contents = refl;
  }
  | inr (r, e) ↦ elim (Bool-cases (same v.id id)) [
    | inl s ↦ record {
      new = merge_version u v;
      there =
          rw (e, upsert)
            (row-update_where-key (λ v. v.id) (λ b. merge_version b v) (λ b. refl) id v.id rows
              ∙ rw (s, h) refl);
      contents = refl;
    }
    | inr s ↦ record {
      new = u;
      there =
          rw (e, upsert)
            (row-update_where-key (λ v. v.id) (λ b. merge_version b v) (λ b. refl) id v.id rows
              ∙ rw (s, h) refl);
      contents = refl;
    }
  ]
]

stored-Allowed :
    (c : Control) (o : Outcome ScheduleError Tables)
    → Takes (λ t. VersionsKept c.tables.versions t.versions) o
    → Allowed History c (stored c o)
stored-Allowed c (err e) refused = Allowed.refused
stored-Allowed c (ok t) (accepted h) = Allowed.taken h

History-Keeps :
    (deps : Deps) (arrange : List Schedule → List Schedule)
    → Keeps (with_store (database arrange) deps) History
unfolding database put_version put_schedule
History-Keeps deps arrange = record {
  versions = λ v. Respects-fallible History _ (λ c.
      stored-Allowed c (insert_version v c.tables)
        (insert_version-Takes _ v c.tables (upserted v c.tables.versions)));
  schedules =
      λ s. Respects-fallible History _ (λ c. Allowed.taken (VersionsKept-refl c.tables.versions));
  calls = λ c q. VersionsKept-refl c.tables.versions;
  ids = λ c. VersionsKept-refl c.tables.versions;
}

-- Whatever operation runs over the database, and whatever others do between its statements who keep the
-- versions too, every version is still there afterwards, and only its lifecycle and hash may have changed.
pub perform-VersionsKept :
    (deps : Deps) (arrange : List Schedule → List Schedule) (k : Command) (w : World Control)
    (id : Text) (v : ScheduleVersion)
    → Obeys History w.others
    → version id w.state.tables ≡ some v
    → IsKept v (version id (perform (with_store (database arrange) deps) k w).1.state.tables)
unfolding version
perform-VersionsKept deps arrange k w id v others h =
    ((perform-Respects _ History (History-Keeps deps arrange) k).at w others).state id v h
