-- ===== src/Alerts/Outbox.antt =====
-- The delivery of outbox entries (packages/alerts/src/outbox.ts, `processOutboxEntry`), with the CHECK
-- of the table outbox (infra/migrations/0001_bootstrap_foundation.sql). The transport is the
-- parameter `transport`: what it answers to a request, given the requests before it, or none where
-- its promise is rejected. `Date.parse(String(t))` of the column
-- available_at is the parameter `read_time`: what the driver gives for the column decides it, and a `Date`
-- loses its milliseconds there. Times are milliseconds since the epoch.
pub mod Delivery
pub mod Repeats
mod Examples
use chain_sieve.Base.{
  ℕ, ◌+◌, Bool, true, false, not, ◌&&◌, ◌||◌, Option, none, some, List, [], ◌∷◌, ◌++◌, Text, same,
  codes, ltb, leb, if◌then◌else◌, every, or_else, starts_with, remove_first, Outcome, ok, err,
}
use chain_sieve.Sql.Table.{row, update_where}
use chain_sieve.Sql.Exec.{Exec, pure, throw, statement, fallible, continue, ◌>>=◌, ◌>>◌}

pub data OutboxEntryState : Type 0 where
  pending delivered retry expired cancelled failed : OutboxEntryState

-- CHECK (state IN ('PENDING','DELIVERED','RETRY','EXPIRED'))
abbrev pub is_allowed : OutboxEntryState → Bool
is_allowed OutboxEntryState.cancelled = false
is_allowed OutboxEntryState.failed = false
is_allowed _ = true

-- a row of outbox; of the payload, its field materialEvidenceFingerprint
pub record OutboxRow : Type 0 where
  pub id : Text
  pub topic : Text
  pub fingerprint : Option Text
  pub state : OutboxEntryState
  pub attempt_count : ℕ
  pub available_at : ℕ
  pub delivered_at : Option ℕ
  pub trace_id : Text

-- what the transport is asked to enqueue
pub record Notification : Type 0 where
  pub outbox_id : Text
  pub template : Text
  pub evidence_keys : List Text

-- the table, and what the transport has been asked so far
pub record OutboxDb : Type 0 where
  pub rows : List OutboxRow
  pub sent : List Notification

pub data OutboxFault : Type 0 where
  outbox_entry_not_found check_violation transport_rejected : OutboxFault

-- the fields of a `DegradedResult` that are read: `status === 'AVAILABLE'` and `reason`
pub record DegradedResult : Type 0 where
  pub is_available : Bool
  pub reason : Option Text

pub data Reason : Type 0 where
  idempotent_already_delivered : Reason
  outbox_terminal_state : OutboxEntryState → Reason
  not_yet_available : ℕ → Reason
  transport_reason : Text → Reason

pub record OutboxDeliveryResult : Type 0 where
  pub outbox_id : Text
  pub delivered : Bool
  pub state : OutboxEntryState
  pub attempt_count : ℕ
  pub delivered_at : Option ℕ
  pub reason : Option Reason

-- UPDATE outbox SET … WHERE id=$3, refused where a new state is not allowed
pub update_outbox :
    Text → (OutboxRow → OutboxRow) → OutboxDb → Outcome OutboxFault (Unit {0} × OutboxDb)
update_outbox id change s =
    if every (λ r. not (same r.id id) || is_allowed (change r).state) s.rows
    then ok (tt, record s { rows = update_where (λ r. same r.id id) change s.rows })
    else err check_violation

-- `payloadObj.materialEvidenceFingerprint ? [payloadObj.materialEvidenceFingerprint] : []`
abbrev pub evidence_keys_of : Option Text → List Text
evidence_keys_of none = []
evidence_keys_of (some f) = if same f [] then [] else f ∷ []

abbrev pub notification_of : Text → OutboxRow → Notification
notification_of outbox_id r = record {
  outbox_id = outbox_id;
  template = remove_first (codes "alert.") r.topic;
  evidence_keys = evidence_keys_of r.fingerprint;
}

abbrev pub delivered_row : ℕ → ℕ → OutboxRow → OutboxRow
delivered_row attempts now r = record r {
  state = OutboxEntryState.delivered;
  attempt_count = attempts;
  delivered_at = some now;
}

abbrev pub undelivered_row : OutboxEntryState → ℕ → OutboxRow → OutboxRow
undelivered_row state attempts r = record r { state = state; attempt_count = attempts }

module _ (transport : Notification → List Notification → Option DegradedResult) (read_time : ℕ → ℕ)
    (is_shadow_adapter shadow_mode : Bool) (max_retries : ℕ) (outbox_id : Text) (now : ℕ) where
  pub enqueue : Notification → Exec OutboxDb OutboxFault DegradedResult
  enqueue q = do
    answer ← statement (λ s. (transport q s.sent, record s { sent = s.sent ++ q ∷ [] }))
    elim answer [ none ↦ throw transport_rejected | some d ↦ pure d ]

  -- shadow mode over a transport that is not the shadow adapter: nothing is dispatched
  abbrev pub is_guarded : OutboxRow → Bool
  is_guarded r =
      (shadow_mode || starts_with r.topic (codes "alert.shadow.")) && not is_shadow_adapter

  pub dispatch : OutboxRow → Exec OutboxDb OutboxFault DegradedResult
  dispatch r =
      if is_guarded r
      then pure (record { is_available = true; reason = none })
      else enqueue (notification_of outbox_id r)

  pub next_state : ℕ → OutboxEntryState
  next_state attempts =
      if leb max_retries attempts then OutboxEntryState.failed else OutboxEntryState.retry

  pub settle_delivered : OutboxRow → Exec OutboxDb OutboxFault OutboxDeliveryResult
  settle_delivered r = do
    fallible (update_outbox outbox_id (delivered_row (r.attempt_count + 1) now))
    pure (record {
      outbox_id = outbox_id;
      delivered = true;
      state = OutboxEntryState.delivered;
      attempt_count = r.attempt_count + 1;
      delivered_at = some now;
      reason = none;
    })

  pub settle_undelivered : OutboxRow → Option Text → Exec OutboxDb OutboxFault OutboxDeliveryResult
  settle_undelivered r reason = do
    fallible (
        update_outbox outbox_id
          (undelivered_row (next_state (r.attempt_count + 1)) (r.attempt_count + 1)))
    pure (record {
      outbox_id = outbox_id;
      delivered = false;
      state = next_state (r.attempt_count + 1);
      attempt_count = r.attempt_count + 1;
      delivered_at = none;
      reason = some (Reason.transport_reason (or_else reason (codes "TRANSPORT_NOT_AVAILABLE")));
    })

  pub settle : OutboxRow → DegradedResult → Exec OutboxDb OutboxFault OutboxDeliveryResult
  settle r delivery =
      if delivery.is_available then settle_delivered r else settle_undelivered r delivery.reason

  -- nothing is sent for the entry
  abbrev pub unsent : OutboxRow → Bool → Option ℕ → Reason → OutboxDeliveryResult
  unsent r was_delivered time reason = record {
    outbox_id = outbox_id;
    delivered = was_delivered;
    state = r.state;
    attempt_count = r.attempt_count;
    delivered_at = time;
    reason = some reason;
  }

  pub attempt : OutboxRow → Exec OutboxDb OutboxFault OutboxDeliveryResult
  attempt r =
      if ltb now (read_time r.available_at)
      then pure (unsent r false none (Reason.not_yet_available r.available_at))
      else (dispatch r >>= settle r)

  pub process_row : OutboxRow → OutboxEntryState → Exec OutboxDb OutboxFault OutboxDeliveryResult
  process_row r OutboxEntryState.delivered =
      pure (unsent r true r.delivered_at Reason.idempotent_already_delivered)
  process_row r OutboxEntryState.cancelled =
      pure (unsent r false none (Reason.outbox_terminal_state r.state))
  process_row r OutboxEntryState.failed =
      pure (unsent r false none (Reason.outbox_terminal_state r.state))
  process_row r _ = attempt r

  pub process_outbox_entry : Exec OutboxDb OutboxFault OutboxDeliveryResult
  process_outbox_entry = do
    found ← statement (λ s. (row (λ r. r.id) outbox_id s.rows, s))
    elim found [ none ↦ throw outbox_entry_not_found | some r ↦ process_row r r.state ]
