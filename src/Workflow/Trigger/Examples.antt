-- ===== src/Workflow/Trigger/Examples.antt =====
-- A trigger that is delivered twice (packages/workflow-runtime/src/index.ts).
use mathlib.Core.Path.{refl}
use chain_sieve.Base.{
  ◌≡◌, true, false, some, none, [], ◌∷◌, Text, same, ok, trim, trim_start, is_blank, Outcome,
}
use chain_sieve.Sql.Exec.{World, alone}
use chain_sieve.Sql.Table.{row}
use chain_sieve.Workflow.Store.{Db, InboxRow, InboxStatus, Fault}
use chain_sieve.Workflow.Samples.{message, key, empty_db}
use chain_sieve.Workflow.Steps.{run}
use chain_sieve.Workflow.Inbox.{canonicalize_external_message_id, by_message}
use chain_sieve.Workflow.Runs.{new_run}
use chain_sieve.Workflow.Trigger.{
  TriggerRequest, TriggerResponse, run_of, run_input, handle_trigger_inbox_request,
}
use chain_sieve.Workflow.Trigger.Twice.{one_run_per_message, delivered_again, first_row}

abbrev request : TriggerRequest
request = record {
  source = [];
  external_message_id = message;
  schedule_id = none;
  scheduled_for = none;
  payload_json = [];
  received_at = 0;
  verified_at = none;
}

-- a concrete digest: the text itself
abbrev digest : Text → Text
digest t = t

canonical : canonicalize_external_message_id request.external_message_id ≡ ok message
unfolding canonicalize_external_message_id trim trim_start is_blank same
canonical = refl

abbrev row_id : Text
row_id = (first_row digest request message empty_db).id

no_message : by_message message empty_db ≡ none
unfolding by_message row
no_message = refl

no_run : run (run_of digest row_id) empty_db ≡ none
unfolding run row
no_run = refl

abbrev handled : Outcome Fault TriggerResponse × World Db
handled = handle_trigger_inbox_request digest request (alone empty_db)

one_run_per_message_example :
    (handled.0
      ≡ ok (record {
        inbox_id = row_id;
        run_id = some (run_of digest row_id);
        is_duplicate = false;
      }))
    × (run (run_of digest row_id) handled.1.state
        ≡ some (new_run (run_input digest request row_id)))
    × (handle_trigger_inbox_request digest request handled.1 ≡ (
      ok (record { inbox_id = row_id; run_id = some (run_of digest row_id); is_duplicate = true }),
      handled.1,
    ))
one_run_per_message_example =
    one_run_per_message digest request message empty_db request canonical canonical no_message refl
      no_run

-- the row of a delivery that stopped before its run was created
abbrev orphan : InboxRow
orphan = record {
  id = key;
  source = [];
  external_message_id = message;
  schedule_id = none;
  scheduled_for = none;
  payload_hash = [];
  received_at = 0;
  verified_at = none;
  processed_run_id = none;
  status = InboxStatus.received;
}

abbrev stopped : Db
stopped = record empty_db { trigger_inbox = orphan ∷ [] }

orphan_there : by_message message stopped ≡ some orphan
unfolding by_message row same
orphan_there = refl

delivered_again_example :
    handle_trigger_inbox_request digest request (alone stopped)
    ≡ (ok (record { inbox_id = key; run_id = none; is_duplicate = true }), alone stopped)
delivered_again_example =
    delivered_again digest request message stopped orphan canonical orphan_there
