-- ===== src/Alerts/Outbox/Delivery.antt =====
-- What `processOutboxEntry` (packages/alerts/src/outbox.ts) sends, and what it leaves in the table,
-- with nobody else acting.
use chain_sieve.Base.{
  ℕ, ◌+◌, ◌≡◌, ◌∙◌, ap, refl, Bool, true, false, not, ◌||◌, Option, none, some, List, [], ◌∷◌, ◌++◌,
  Text, same, same_refl, ltb, leb, every, Outcome, ok, err, Bool-cases, inl, inr, arith,
}
use chain_sieve.Sql.Table.{row, update_where, row-update_where-key, every-unfit}
use chain_sieve.Sql.Exec.{
  World, alone, turn, pure, fallible, ◌>>=◌, bind-ok, bind-err, bind-pure_state, fallible-ok,
  fallible-err,
}
use chain_sieve.Alerts.Outbox.{
  OutboxEntryState, OutboxRow, Notification, OutboxDb, OutboxFault, DegradedResult, Reason,
  is_allowed, OutboxDeliveryResult, update_outbox, notification_of, delivered_row, undelivered_row,
  enqueue, is_guarded, dispatch, next_state, settle_delivered, settle_undelivered, settle, attempt,
  process_row, process_outbox_entry,
}

abbrev pub entry : Text → OutboxDb → Option OutboxRow
entry id s = row (λ r. r.id) id s.rows

-- the states in which an entry is tried
abbrev pub is_tried : OutboxEntryState → Bool
is_tried OutboxEntryState.delivered = false
is_tried OutboxEntryState.cancelled = false
is_tried OutboxEntryState.failed = false
is_tried _ = true

all_fit : (id : Text) (rows : List OutboxRow) → every (λ r. not (same r.id id) || true) rows ≡ true
all_fit id [] = refl
all_fit id (r ∷ rs) = ground (arith, all_fit id rs)

sent-update :
    (id : Text) (change : OutboxRow → OutboxRow) (s : OutboxDb)
    → (fallible {E = OutboxFault} (update_outbox id change) (alone s)).1.state.sent ≡ s.sent
unfolding update_outbox fallible turn
sent-update id change s =
    elim (Bool-cases (every (λ r. not (same r.id id) || is_allowed (change r).state) s.rows)) [
      | inl e ↦ rw (e, update_outbox) refl
      | inr e ↦ rw (e, update_outbox) refl
    ]

module _ (transport : Notification → List Notification → Option DegradedResult) (read_time : ℕ → ℕ)
    (is_shadow_adapter shadow_mode : Bool) (max_retries : ℕ) (outbox_id : Text) (now : ℕ) where
  abbrev pub run : OutboxDb → Outcome OutboxFault OutboxDeliveryResult × World OutboxDb
  run s =
      process_outbox_entry transport read_time is_shadow_adapter shadow_mode max_retries outbox_id
        now (alone s)

  abbrev pub guarded : OutboxRow → Bool
  guarded = is_guarded transport read_time is_shadow_adapter shadow_mode max_retries outbox_id now

  process_row-tried :
      (r : OutboxRow) (state : OutboxEntryState)
      → is_tried state ≡ true
      → ltb now (read_time r.available_at) ≡ false
      → process_row transport read_time is_shadow_adapter shadow_mode max_retries outbox_id now r
          state
        ≡ (dispatch transport read_time is_shadow_adapter shadow_mode max_retries outbox_id now r
            >>= settle transport read_time is_shadow_adapter shadow_mode max_retries outbox_id now
                r)
  unfolding process_row attempt
  process_row-tried r OutboxEntryState.pending t a = rw (a, attempt) refl
  process_row-tried r OutboxEntryState.retry t a = rw (a, attempt) refl
  process_row-tried r OutboxEntryState.expired t a = rw (a, attempt) refl
  process_row-tried r _ t a = ground arith

  module _ (s : OutboxDb) (r : OutboxRow) (there : entry outbox_id s ≡ some r)
      (tried : is_tried r.state ≡ true)
      (available : ltb now (read_time r.available_at) ≡ false) where
    run-tried :
        run s
        ≡ (dispatch transport read_time is_shadow_adapter shadow_mode max_retries outbox_id now r
              >>= settle transport read_time is_shadow_adapter shadow_mode max_retries outbox_id now
                  r)
            (alone s)
    unfolding process_outbox_entry turn ◌>>=◌
    run-tried =
        rw (there, process_outbox_entry)
          (ap (λ m. m (alone s)) (process_row-tried r r.state tried available))

    module _ (d : DegradedResult) (unguarded : guarded r ≡ false)
        (answer : transport (notification_of outbox_id r) s.sent ≡ some d) where
      abbrev pub asked : OutboxDb
      asked = record s { sent = s.sent ++ notification_of outbox_id r ∷ [] }

      dispatch-asked :
          dispatch transport read_time is_shadow_adapter shadow_mode max_retries outbox_id now r
            (alone s)
          ≡ (ok d, alone asked)
      unfolding dispatch enqueue ◌>>=◌ turn pure
      dispatch-asked = rw (unguarded, dispatch) (rw (answer) refl)

      run-asked :
          run s
          ≡ settle transport read_time is_shadow_adapter shadow_mode max_retries outbox_id now r d
              (alone asked)
      run-asked =
          run-tried
          ∙ bind-ok
              (dispatch transport read_time is_shadow_adapter shadow_mode max_retries outbox_id now
                r)
              (settle transport read_time is_shadow_adapter shadow_mode max_retries outbox_id now r)
              (alone s) (alone asked) d dispatch-asked

      abbrev pub settled : OutboxDb
      settled = record asked {
        rows =
            update_where (λ q. same q.id outbox_id) (delivered_row (r.attempt_count + 1) now)
              s.rows;
      }

      update-delivered :
          update_outbox outbox_id (delivered_row (r.attempt_count + 1) now) asked ≡ ok (tt, settled)
      unfolding update_outbox
      update-delivered = rw (all_fit outbox_id s.rows, update_outbox) refl

      -- When the transport takes an entry, the entry is sent by one request, is delivered, and one
      -- attempt is counted.
      pub run-delivered :
          d.is_available ≡ true
          → run s ≡ (
            ok (record {
              outbox_id = outbox_id;
              delivered = true;
              state = OutboxEntryState.delivered;
              attempt_count = r.attempt_count + 1;
              delivered_at = some now;
              reason = none;
            }),
            alone settled,
          )
      unfolding settle settle_delivered turn pure
      run-delivered e =
          run-asked
          ∙ rw (e, settle)
              (bind-ok
                (fallible (update_outbox outbox_id (delivered_row (r.attempt_count + 1) now))) _
                (alone asked) (alone settled) tt
                (fallible-ok (update_outbox outbox_id (delivered_row (r.attempt_count + 1) now))
                  (alone asked) tt settled update-delivered))

      pub entry-settled : entry outbox_id settled ≡ some (delivered_row (r.attempt_count + 1) now r)
      entry-settled =
          row-update_where-key (λ q. q.id) (delivered_row (r.attempt_count + 1) now) (λ q. refl)
            outbox_id outbox_id s.rows
          ∙ rw (same_refl outbox_id, there) refl

      update-refused :
          leb max_retries (r.attempt_count + 1) ≡ true
          → update_outbox outbox_id
              (undelivered_row
                (next_state transport read_time is_shadow_adapter shadow_mode max_retries outbox_id
                  now
                  (r.attempt_count + 1))
                (r.attempt_count + 1))
              asked
            ≡ err OutboxFault.check_violation
      unfolding update_outbox next_state
      update-refused e =
          rw (e, update_outbox) (rw (every-unfit (λ q. q.id) outbox_id s.rows r there) refl)

      -- When the transport does not take an entry on its last attempt, the request has been sent and
      -- the database refuses the FAILED state: the call fails and the table is as it was.
      pub run-refused :
          d.is_available ≡ false
          → leb max_retries (r.attempt_count + 1) ≡ true
          → run s ≡ (err OutboxFault.check_violation, alone asked)
      unfolding settle settle_undelivered turn
      run-refused e last =
          run-asked
          ∙ rw (e, settle)
              (bind-err
                (fallible (
                  update_outbox outbox_id (
                    undelivered_row
                      (next_state transport read_time is_shadow_adapter shadow_mode max_retries
                        outbox_id now (r.attempt_count + 1))
                      (r.attempt_count + 1))))
                _ (alone asked) (alone asked) OutboxFault.check_violation
                (fallible-err
                  (update_outbox outbox_id (
                    undelivered_row
                      (next_state transport read_time is_shadow_adapter shadow_mode max_retries
                        outbox_id now (r.attempt_count + 1))
                      (r.attempt_count + 1)))
                  (alone asked) OutboxFault.check_violation (update-refused last)))

  pub run-known :
      (s : OutboxDb) (r : OutboxRow)
      → entry outbox_id s ≡ some r
      → r.state ≡ OutboxEntryState.delivered
      → run s ≡ (
        ok (record {
          outbox_id = outbox_id;
          delivered = true;
          state = OutboxEntryState.delivered;
          attempt_count = r.attempt_count;
          delivered_at = r.delivered_at;
          reason = some Reason.idempotent_already_delivered;
        }),
        alone s,
      )
  unfolding process_outbox_entry process_row turn ◌>>=◌ pure
  run-known s r there e = rw (there, process_outbox_entry) (simp (e) refl)

  settle_delivered-sent :
      (s : OutboxDb) (r : OutboxRow)
      → (settle_delivered transport read_time is_shadow_adapter shadow_mode max_retries outbox_id
          now r
          (alone s)).1.state.sent
        ≡ s.sent
  unfolding settle_delivered
  settle_delivered-sent s r =
      ap (λ w. w.state.sent)
        (bind-pure_state
          (fallible (update_outbox outbox_id (delivered_row (r.attempt_count + 1) now))) _
          (alone s))
      ∙ sent-update outbox_id (delivered_row (r.attempt_count + 1) now) s

  attempt-sent :
      (s : OutboxDb) (r : OutboxRow)
      → guarded r ≡ true
      → (attempt transport read_time is_shadow_adapter shadow_mode max_retries outbox_id now r
          (alone s)).1.state.sent
        ≡ s.sent
  unfolding attempt dispatch settle ◌>>=◌ pure
  attempt-sent s r g = elim (Bool-cases (ltb now (read_time r.available_at))) [
    | inl e ↦ rw (e, attempt) refl
    | inr e ↦ rw (e, attempt) (rw (g, dispatch) (settle_delivered-sent s r))
  ]

  process_row-sent :
      (s : OutboxDb) (r : OutboxRow) (state : OutboxEntryState)
      → guarded r ≡ true
      → (process_row transport read_time is_shadow_adapter shadow_mode max_retries outbox_id now r
          state
          (alone s)).1.state.sent
        ≡ s.sent
  unfolding process_row pure
  process_row-sent s r OutboxEntryState.delivered g = refl
  process_row-sent s r OutboxEntryState.cancelled g = refl
  process_row-sent s r OutboxEntryState.failed g = refl
  process_row-sent s r _ g = attempt-sent s r g

  -- With nobody else acting, processing an entry of which the shadow guard holds sends nothing,
  -- whatever its state and whatever the transport would answer.
  pub guarded_sends_nothing :
      (s : OutboxDb) (r : OutboxRow)
      → entry outbox_id s ≡ some r
      → guarded r ≡ true
      → (run s).1.state.sent ≡ s.sent
  unfolding process_outbox_entry turn ◌>>=◌
  guarded_sends_nothing s r there g =
      rw (there, process_outbox_entry) (process_row-sent s r r.state g)
