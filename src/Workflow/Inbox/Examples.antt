-- ===== src/Workflow/Inbox/Examples.antt =====
-- A message that is delivered twice to the inbox (packages/workflow-runtime/src/index.ts).
use mathlib.Core.Path.{refl}
use chain_sieve.Base.{
  ◌≡◌, true, false, some, none, [], ◌∷◌, Text, same, ok, trim, trim_start, is_blank,
}
use chain_sieve.Sql.Exec.{alone, turn, ◌>>=◌}
use chain_sieve.Sql.Table.{row}
use chain_sieve.Workflow.Store.{Db}
use chain_sieve.Workflow.Samples.{message, key, empty_db}
use chain_sieve.Workflow.Inbox.{
  InsertTriggerInboxInput, InsertTriggerInboxResult, canonicalize_external_message_id, by_message,
  insert_inbox, as_inserted, after_insert, new_inbox_row, insert_or_fetch, insert_canonical,
  insert_trigger_inbox, should_start_workflow_for_trigger,
}
use chain_sieve.Workflow.Inbox.Once.{insert_trigger_inbox-once, inbox_grows}

-- the message with a blank before it
abbrev delivery : InsertTriggerInboxInput
delivery = record {
  id = some key;
  source = [];
  external_message_id = 32 ∷ message;
  schedule_id = none;
  scheduled_for = none;
  payload_hash = [];
  received_at = 0;
  verified_at = none;
}

-- a concrete digest: the text itself
abbrev digest : Text → Text
digest t = t

canonical : canonicalize_external_message_id delivery.external_message_id ≡ ok message
unfolding canonicalize_external_message_id trim trim_start is_blank same
canonical = refl

abbrev answer : InsertTriggerInboxResult
answer = as_inserted (new_inbox_row digest delivery message)

first_delivery : (insert_trigger_inbox digest delivery (alone empty_db)).0 ≡ ok answer
unfolding insert_trigger_inbox insert_canonical insert_or_fetch insert_inbox by_message after_insert
    new_inbox_row row canonicalize_external_message_id trim trim_start is_blank same ◌>>=◌ turn
first_delivery = refl

-- a first delivery starts the workflow
starts : should_start_workflow_for_trigger answer ≡ true
unfolding should_start_workflow_for_trigger
starts = refl

abbrev stored : Db
stored = (insert_trigger_inbox digest delivery (alone empty_db)).1.state

insert_trigger_inbox-once_example :
    (r : InsertTriggerInboxResult) × ((insert_trigger_inbox digest delivery (alone stored)).0
      ≡ ok r)
    × (r.inserted ≡ false)
    × (r.is_duplicate ≡ true)
    × (r.inbox_id ≡ answer.inbox_id)
insert_trigger_inbox-once_example =
    insert_trigger_inbox-once digest delivery delivery message (alone empty_db) (alone stored)
      answer canonical canonical first_delivery (inbox_grows.reflexive stored) tt
