-- ===== src/Alerts/Outbox/Repeats.antt =====
-- Outbox entries that are processed again and again (`processOutboxEntry`,
-- packages/alerts/src/outbox.ts), with nobody else acting.
use chain_sieve.Base.{
  ℕ, zero, suc, ◌+◌, ◌≡◌, ◌∙◌, refl, Bool, true, false, Option, some, List, [], ◌∷◌, ◌++◌, Text,
  ltb, leb, length, length-append, Outcome, ok, arith,
}
use chain_sieve.Sql.Exec.{World, alone}
use chain_sieve.Alerts.Outbox.{
  OutboxEntryState, OutboxRow, Notification, OutboxDb, OutboxFault, DegradedResult, Reason,
  OutboxDeliveryResult, notification_of, process_outbox_entry,
}
use chain_sieve.Alerts.Outbox.Delivery.{
  entry, is_tried, guarded, run-delivered, run-refused, run-known, entry-settled,
}

module _ (transport : Notification → List Notification → Option DegradedResult) (read_time : ℕ → ℕ)
    (is_shadow_adapter shadow_mode : Bool) (max_retries : ℕ) (outbox_id : Text) (now : ℕ)
    (s : OutboxDb) (r : OutboxRow) (d : DegradedResult) where
  abbrev after_first : Outcome OutboxFault OutboxDeliveryResult × World OutboxDb
  after_first =
      process_outbox_entry transport read_time is_shadow_adapter shadow_mode max_retries outbox_id
        now (alone s)

  -- With nobody else acting, when an entry that is due by the time read from its column, in a state
  -- that is tried and not held by the shadow guard, is taken by the transport, one request has been sent for it; and processing it once
  -- more, at any time and under any options and transport, answers that it is delivered, sends nothing
  -- and changes nothing.
  pub delivered_once :
      entry outbox_id s ≡ some r
      → is_tried r.state ≡ true
      → ltb now (read_time r.available_at) ≡ false
      → guarded transport read_time is_shadow_adapter shadow_mode max_retries outbox_id now r
        ≡ false
      → transport (notification_of outbox_id r) s.sent ≡ some d
      → d.is_available ≡ true
      → (transport' : Notification → List Notification → Option DegradedResult) (read_time' : ℕ → ℕ)
        (is_shadow_adapter' shadow_mode' : Bool) (max_retries' now' : ℕ)
      → (after_first.1.state.sent ≡ s.sent ++ notification_of outbox_id r ∷ [])
        × (process_outbox_entry transport' read_time' is_shadow_adapter' shadow_mode' max_retries'
              outbox_id now' after_first.1
            ≡ (
              ok (record {
                outbox_id = outbox_id;
                delivered = true;
                state = OutboxEntryState.delivered;
                attempt_count = r.attempt_count + 1;
                delivered_at = some now;
                reason = some Reason.idempotent_already_delivered;
              }),
              after_first.1,
            ))
  delivered_once there tried due unguarded answer taken transport' read_time' is_shadow_adapter'
        shadow_mode' max_retries' now' =
      rw
        (run-delivered transport read_time is_shadow_adapter shadow_mode max_retries outbox_id now s
          r there tried due d unguarded answer taken)
        (
          refl,
          run-known transport' read_time' is_shadow_adapter' shadow_mode' max_retries' outbox_id
              now' _ _
              (entry-settled transport read_time is_shadow_adapter shadow_mode max_retries outbox_id
                now s r there tried due d unguarded answer)
              refl,
        )

module _ (transport : Notification → List Notification → Option DegradedResult) (read_time : ℕ → ℕ)
    (is_shadow_adapter shadow_mode : Bool) (max_retries : ℕ) (outbox_id : Text) (now : ℕ) where
  unfoldable pub process_times : ℕ → OutboxDb → OutboxDb
  process_times zero s = s
  process_times (suc n) s =
      process_times n
        (process_outbox_entry transport read_time is_shadow_adapter shadow_mode max_retries
          outbox_id now (alone s)).1.state

  module _
      (refuses : (q : Notification) (sent : List Notification)
        → (d : DegradedResult) × (transport q sent ≡ some d) × (d.is_available ≡ false)) where
    -- With nobody else acting, and against a transport that answers and takes nothing: an entry that is
    -- due by the time read from its column, in a state that is tried, not held by the shadow guard and
    -- at its last attempt never leaves its state. However often it is processed, each time one more
    -- request is sent and the table is as it was, because the database refuses the FAILED state.
    pub retries_without_end :
        (n : ℕ) (s : OutboxDb) (r : OutboxRow)
        → entry outbox_id s ≡ some r
        → is_tried r.state ≡ true
        → ltb now (read_time r.available_at) ≡ false
        → guarded transport read_time is_shadow_adapter shadow_mode max_retries outbox_id now r
          ≡ false
        → leb max_retries (r.attempt_count + 1) ≡ true
        → ((process_times n s).rows ≡ s.rows)
          × (length (process_times n s).sent ≡ length s.sent + n)
    unfolding process_times
    retries_without_end zero s r there tried due unguarded last = (refl, omega arith)
    retries_without_end (suc n) s r there tried due unguarded last =
        let (d, answer, refused) = refuses (notification_of outbox_id r) s.sent in
        let ran =
          run-refused transport read_time is_shadow_adapter shadow_mode max_retries outbox_id now s
            r there tried due d unguarded answer refused last in
        let after = record s { sent = s.sent ++ notification_of outbox_id r ∷ [] } in
        let rest = retries_without_end n after r there tried due unguarded last in
        rw (ran, process_times)
          (
            rest.0,
            rest.1 ∙ rw (length-append s.sent (notification_of outbox_id r ∷ [])) (omega arith),
          )
