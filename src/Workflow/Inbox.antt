-- ===== src/Workflow/Inbox.antt =====
-- The trigger inbox (packages/workflow-runtime/src/index.ts, "Trigger Inbox" and the API handler):
-- a message of the queue that is delivered again starts no second run. SHA-256 in hex is the
-- parameter `sha256_hex`, and a payload is given by its JSON text.
pub mod Once
pub mod Alone
mod Examples
use chain_sieve.Base.{
  ℕ, ◌<◌, Bool, true, false, not, Option, none, some, List, [], ◌∷◌, ◌++◌, Text, same, codes, trim,
  ltb, if◌then◌else◌, any, or_else, length, take, Outcome, ok, err,
}
use chain_sieve.Sql.Table.{row, update_where}
use chain_sieve.Sql.Exec.{
  Exec, World, pure, throw, statement, fallible, catch, continue, ◌>>=◌, ◌>>◌,
}
use chain_sieve.Workflow.Store.{
  Db, InboxRow, RunRow, InboxStatus, WorkflowRunStatus, Fault, external_message_id_required,
  external_message_id_too_long, trigger_inbox_consistency_error, unique_violation,
  foreign_key_violation, type_error,
}
use chain_sieve.Workflow.Steps.{run}

unfoldable pub canonicalize_external_message_id : Text → Outcome Fault Text
canonicalize_external_message_id raw =
    let trimmed = trim raw in
    if same trimmed []
    then err external_message_id_required
    else (if ltb 512 (length trimmed) then err external_message_id_too_long else ok trimmed)

pub record InsertTriggerInboxInput : Type 0 where
  pub id : Option Text
  pub source : Text
  pub external_message_id : Text
  pub schedule_id : Option Text
  pub scheduled_for : Option ℕ
  pub payload_hash : Text
  pub received_at : ℕ
  pub verified_at : Option ℕ

pub record InsertTriggerInboxResult : Type 0 where
  pub inbox_id : Text
  pub inserted : Bool
  pub is_duplicate : Bool
  pub processed_run_id : Option Text
  pub status : InboxStatus

-- SELECT … FROM trigger_inbox WHERE external_message_id=$1 (a UNIQUE column)
unfoldable pub by_message : Text → Db → Option InboxRow
by_message message s = row (λ r. r.external_message_id) message s.trigger_inbox

-- INSERT INTO trigger_inbox … ON CONFLICT (external_message_id) DO NOTHING RETURNING …
pub insert_inbox : InboxRow → Db → Outcome Fault (Option InboxRow × Db)
insert_inbox r s = elim (by_message r.external_message_id s) [
  | some _ ↦ ok (none, s)
  | none ↦
      if any (λ q. same q.id r.id) s.trigger_inbox
      then err unique_violation
      else ok (some r, record s { trigger_inbox = s.trigger_inbox ++ r ∷ [] })
]

abbrev pub as_duplicate : InboxRow → InsertTriggerInboxResult
as_duplicate r = record {
  inbox_id = r.id;
  inserted = false;
  is_duplicate = true;
  processed_run_id = r.processed_run_id;
  status = r.status;
}

abbrev pub as_inserted : InboxRow → InsertTriggerInboxResult
as_inserted r = record {
  inbox_id = r.id;
  inserted = true;
  is_duplicate = false;
  processed_run_id = r.processed_run_id;
  status = r.status;
}

-- the SELECT after the INSERT met a conflict
pub fetch_after_race : Text → Exec Db Fault InsertTriggerInboxResult
fetch_after_race canonical = do
  existing ← statement (λ s. (by_message canonical s, s))
  elim existing [ none ↦ throw trigger_inbox_consistency_error | some r ↦ pure (as_duplicate r) ]

-- `result.rows.length === 1`, or on to the SELECT
pub after_insert : Text → Option InboxRow → Exec Db Fault InsertTriggerInboxResult
after_insert canonical none = fetch_after_race canonical
after_insert canonical (some r) = pure (as_inserted r)

module _ (sha256_hex : Text → Text) where
  -- `inbox-${canonicalId.slice(0, 16)}-${sha256(canonicalId).slice(0, 8)}`
  unfoldable pub default_inbox_id : Text → Text
  default_inbox_id canonical =
      codes "inbox-" ++ (take 16 canonical ++ (codes "-" ++ take 8 (sha256_hex canonical)))

  unfoldable pub new_inbox_row : InsertTriggerInboxInput → Text → InboxRow
  new_inbox_row input canonical = record {
    id = or_else input.id (default_inbox_id canonical);
    source = input.source;
    external_message_id = canonical;
    schedule_id = input.schedule_id;
    scheduled_for = input.scheduled_for;
    payload_hash = input.payload_hash;
    received_at = input.received_at;
    verified_at = input.verified_at;
    processed_run_id = none;
    status = InboxStatus.received;
  }

  -- the INSERT, where a refusal by the database counts as no row
  pub insert_or_fetch : InsertTriggerInboxInput → Text → Exec Db Fault InsertTriggerInboxResult
  insert_or_fetch input canonical = do
    result ← catch (fallible (insert_inbox (new_inbox_row input canonical))) (pure none)
    after_insert canonical result

  pub insert_canonical : InsertTriggerInboxInput → Text → Exec Db Fault InsertTriggerInboxResult
  insert_canonical input canonical = do
    existing ← statement (λ s. (by_message canonical s, s))
    elim existing [ none ↦ insert_or_fetch input canonical | some r ↦ pure (as_duplicate r) ]

  pub insert_trigger_inbox : InsertTriggerInboxInput → Exec Db Fault InsertTriggerInboxResult
  insert_trigger_inbox input w = elim (canonicalize_external_message_id input.external_message_id) [
    | err e ↦ (err e, w)
    | ok canonical ↦ insert_canonical input canonical w
  ]

unfoldable pub link_trigger_to_run : Text → Text → Exec Db Fault (Unit {0})
link_trigger_to_run inbox_id run_id = statement (λ s. (
  tt,
  record s {
    trigger_inbox =
        update_where (λ r. same r.id inbox_id)
          (λ r. record r { processed_run_id = some run_id; status = InboxStatus.processed })
          s.trigger_inbox;
  },
))

unfoldable pub should_start_workflow_for_trigger : InsertTriggerInboxResult → Bool
should_start_workflow_for_trigger r = r.inserted
