-- ===== src/Alerts/Outbox/Examples.antt =====
-- Outbox entries at some inputs (packages/alerts/src/outbox.ts).
use mathlib.Core.Path.{refl}
use chain_sieve.Base.{
  ℕ, ◌*◌, ◌/◌, ◌+◌, ◌≡◌, true, false, Option, some, none, List, [], ◌∷◌, ◌++◌, Text, same, codes,
  starts_with, after_prefix, ok, length, Outcome,
}
use chain_sieve.Sql.Exec.{World, alone}
use chain_sieve.Sql.Table.{row}
use chain_sieve.Alerts.Outbox.{
  OutboxEntryState, OutboxRow, Notification, OutboxDb, OutboxFault, DegradedResult, Reason,
  OutboxDeliveryResult, notification_of, process_outbox_entry, is_guarded,
}
use chain_sieve.Alerts.Outbox.Delivery.{entry, guarded_sends_nothing}
use chain_sieve.Alerts.Outbox.Repeats.{delivered_once, retries_without_end, process_times}

abbrev id : Text
id = 111 ∷ []

abbrev due : OutboxRow
due = record {
  id = id;
  topic = codes "alert.early";
  fingerprint = none;
  state = OutboxEntryState.retry;
  attempt_count = 4;
  available_at = 10;
  delivered_at = none;
  trace_id = [];
}

abbrev db : OutboxDb
db = record { rows = due ∷ []; sent = [] }

abbrev taken : DegradedResult
taken = record { is_available = true; reason = none }

abbrev not_taken : DegradedResult
not_taken = record { is_available = false; reason = none }

abbrev takes : Notification → List Notification → Option DegradedResult
takes q sent = some taken

abbrev takes_nothing : Notification → List Notification → Option DegradedResult
takes_nothing q sent = some not_taken

-- what remains of a `Date` whose text is read back
abbrev whole_seconds : ℕ → ℕ
whole_seconds t = t / 1000 * 1000

there : entry id db ≡ some due
unfolding row same
there = refl

not_shadow : is_guarded takes whole_seconds false false 5 id 20 due ≡ false
unfolding starts_with after_prefix codes
not_shadow = refl

not_shadow_either : is_guarded takes_nothing whole_seconds false false 5 id 20 due ≡ false
unfolding starts_with after_prefix codes
not_shadow_either = refl

abbrev first : Outcome OutboxFault OutboxDeliveryResult × World OutboxDb
first = process_outbox_entry takes whole_seconds false false 5 id 20 (alone db)

delivered_once_example :
    (first.1.state.sent ≡ [] ++ notification_of id due ∷ [])
    × (process_outbox_entry takes_nothing whole_seconds false false 5 id 30 first.1 ≡ (
      ok (record {
        outbox_id = id;
        delivered = true;
        state = OutboxEntryState.delivered;
        attempt_count = 5;
        delivered_at = some 20;
        reason = some Reason.idempotent_already_delivered;
      }),
      first.1,
    ))
delivered_once_example =
    delivered_once takes whole_seconds false false 5 id 20 db due taken there refl refl not_shadow
      refl refl takes_nothing whole_seconds false false 5 30

retries_without_end_example :
    ((process_times takes_nothing whole_seconds false false 5 id 20 7 db).rows ≡ db.rows)
    × (length (process_times takes_nothing whole_seconds false false 5 id 20 7 db).sent ≡ 0 + 7)
retries_without_end_example =
    retries_without_end takes_nothing whole_seconds false false 5 id 20
      (λ q sent. (not_taken, refl, refl)) 7 db due there refl refl not_shadow_either refl

guarded_sends_nothing_example :
    (process_outbox_entry takes whole_seconds false true 5 id 20 (alone db)).1.state.sent ≡ []
guarded_sends_nothing_example =
    guarded_sends_nothing takes whole_seconds false true 5 id 20 db due there refl
