-- ===== src/Workflow/Trigger.antt =====
-- `handleTriggerInboxRequest` (packages/workflow-runtime/src/index.ts): a delivered message is stored
-- in the inbox, and the first delivery creates the run. SHA-256 in hex is the parameter `sha256_hex`,
-- and a payload is given by its JSON text.
pub mod Twice
mod Examples
use chain_sieve.Base.{
  ℕ, Bool, true, false, Option, none, some, Text, codes, ◌++◌, take, if◌then◌else◌,
}
use chain_sieve.Sql.Exec.{Exec, pure, continue, ◌>>=◌, ◌>>◌}
use chain_sieve.Workflow.Store.{Db, Fault}
use chain_sieve.Workflow.Inbox.{
  InsertTriggerInboxInput, InsertTriggerInboxResult, insert_trigger_inbox, link_trigger_to_run,
}
use chain_sieve.Workflow.Runs.{CreateWorkflowRunInput, create_workflow_run}

pub record TriggerRequest : Type 0 where
  pub source : Text
  pub external_message_id : Text
  pub schedule_id : Option Text
  pub scheduled_for : Option ℕ
  pub payload_json : Text
  pub received_at : ℕ
  pub verified_at : Option ℕ

-- the answer, which always has the status 202
pub record TriggerResponse : Type 0 where
  pub inbox_id : Text
  pub run_id : Option Text
  pub is_duplicate : Bool

module _ (sha256_hex : Text → Text) where
  unfoldable pub inbox_input : TriggerRequest → InsertTriggerInboxInput
  inbox_input input = record {
    id = none;
    source = input.source;
    external_message_id = input.external_message_id;
    schedule_id = input.schedule_id;
    scheduled_for = input.scheduled_for;
    payload_hash = sha256_hex input.payload_json;
    received_at = input.received_at;
    verified_at = input.verified_at;
  }

  unfoldable pub run_of : Text → Text
  run_of inbox_id = codes "run-" ++ take 16 (sha256_hex inbox_id)

  abbrev pub run_input : TriggerRequest → Text → CreateWorkflowRunInput
  run_input input inbox_id = record {
    id = run_of inbox_id;
    workflow_name = codes "discovery";
    schedule_id = input.schedule_id;
    trigger_inbox_id = some inbox_id;
    now = input.received_at;
  }

  pub start_run : TriggerRequest → InsertTriggerInboxResult → Exec Db Fault TriggerResponse
  start_run input result =
      if result.is_duplicate
      then pure (record {
        inbox_id = result.inbox_id;
        run_id = result.processed_run_id;
        is_duplicate = true;
      })
      else do
        create_workflow_run (run_input input result.inbox_id)
        link_trigger_to_run result.inbox_id (run_of result.inbox_id)
        pure (record {
          inbox_id = result.inbox_id;
          run_id = some (run_of result.inbox_id);
          is_duplicate = false;
        })

  pub handle_trigger_inbox_request : TriggerRequest → Exec Db Fault TriggerResponse
  handle_trigger_inbox_request input = do
    result ← insert_trigger_inbox sha256_hex (inbox_input input)
    start_run input result
