-- ===== src/Workflow/Trigger/Twice.antt =====
-- A message that is delivered twice starts one run (`handleTriggerInboxRequest`,
-- packages/workflow-runtime/src/index.ts).
use chain_sieve.Base.{
  ◌≡◌, ◌∙◌, refl, true, false, none, some, [], ◌∷◌, ◌++◌, Text, same, same_refl, any, any-last, ok,
}
use chain_sieve.Sql.Table.{row-append, update_where-last}
use chain_sieve.Sql.Exec.{alone, turn, pure, bind-ok, ◌>>=◌}
use chain_sieve.Workflow.Store.{Db, InboxRow, InboxStatus}
use chain_sieve.Workflow.Steps.{run}
use chain_sieve.Workflow.Inbox.{
  canonicalize_external_message_id, by_message, as_inserted, new_inbox_row, insert_trigger_inbox,
  link_trigger_to_run,
}
use chain_sieve.Workflow.Inbox.Alone.{insert_trigger_inbox-new, insert_trigger_inbox-known}
use chain_sieve.Workflow.Runs.Creation.{create_workflow_run-new}
use chain_sieve.Workflow.Runs.{create_workflow_run, new_run}
use chain_sieve.Workflow.Trigger.{
  TriggerRequest, inbox_input, run_of, run_input, start_run, handle_trigger_inbox_request,
}

module _ (sha256_hex : Text → Text) where
  -- what a first and a later delivery of the message do to the database
  abbrev pub linked : Text → InboxRow → InboxRow
  linked run_id r = record r { processed_run_id = some run_id; status = InboxStatus.processed }

  -- With nobody else acting, a delivery of a message that has a row in the inbox changes nothing and
  -- answers with the run of that row, whether or not the row has one. So a delivery that stopped
  -- before its run was created is not made good by a later one.
  pub delivered_again :
      (again : TriggerRequest) (message : Text) (s : Db) (r : InboxRow)
      → canonicalize_external_message_id again.external_message_id ≡ ok message
      → by_message message s ≡ some r
      → handle_trigger_inbox_request sha256_hex again (alone s) ≡ (
        ok (record { inbox_id = r.id; run_id = r.processed_run_id; is_duplicate = true }),
        alone s,
      )
  unfolding handle_trigger_inbox_request inbox_input start_run pure
  delivered_again again message s r c there =
      bind-ok (insert_trigger_inbox sha256_hex (inbox_input sha256_hex again))
        (start_run sha256_hex again) (alone s) _ _
        (insert_trigger_inbox-known sha256_hex (inbox_input sha256_hex again) message s r c there)

  module _ (input : TriggerRequest) (message : Text) (s : Db) where
    abbrev pub first_row : InboxRow
    first_row = new_inbox_row sha256_hex (inbox_input sha256_hex input) message

    abbrev inserted_row : Db
    inserted_row = record s { trigger_inbox = s.trigger_inbox ++ first_row ∷ [] }

    abbrev stored : Db
    stored = record s {
      trigger_inbox = s.trigger_inbox ++ linked (run_of sha256_hex first_row.id) first_row ∷ [];
      workflow_runs = s.workflow_runs ++ new_run (run_input sha256_hex input first_row.id) ∷ [];
    }

    link_first :
        any (λ r. same r.id first_row.id) s.trigger_inbox ≡ false
        → run (run_of sha256_hex first_row.id) s ≡ none
        → start_run sha256_hex input (as_inserted first_row) (alone inserted_row) ≡ (
          ok (record {
            inbox_id = first_row.id;
            run_id = some (run_of sha256_hex first_row.id);
            is_duplicate = false;
          }),
          alone stored,
        )
    unfolding start_run ◌>>=◌ turn link_trigger_to_run run
    link_first free no_run =
        bind-ok (create_workflow_run (run_input sha256_hex input first_row.id)) _
          (alone inserted_row) _ _
          (create_workflow_run-new (run_input sha256_hex input first_row.id) first_row.id
            inserted_row refl no_run
            (any-last (λ r. same r.id first_row.id) s.trigger_inbox first_row
              (same_refl first_row.id)))
        ∙ rw
            (update_where-last (λ r. same r.id first_row.id)
              (linked (run_of sha256_hex first_row.id)) s.trigger_inbox first_row free
              (same_refl first_row.id))
            refl

    handle_first :
        canonicalize_external_message_id input.external_message_id ≡ ok message
        → by_message message s ≡ none
        → any (λ r. same r.id first_row.id) s.trigger_inbox ≡ false
        → run (run_of sha256_hex first_row.id) s ≡ none
        → handle_trigger_inbox_request sha256_hex input (alone s) ≡ (
          ok (record {
            inbox_id = first_row.id;
            run_id = some (run_of sha256_hex first_row.id);
            is_duplicate = false;
          }),
          alone stored,
        )
    unfolding handle_trigger_inbox_request inbox_input
    handle_first c fresh free no_run =
        bind-ok (insert_trigger_inbox sha256_hex (inbox_input sha256_hex input))
          (start_run sha256_hex input) (alone s) _ _
          (insert_trigger_inbox-new sha256_hex (inbox_input sha256_hex input) message s c fresh
            free)
        ∙ link_first free no_run

    message_of_stored :
        by_message message s ≡ none
        → by_message message stored ≡ some (linked (run_of sha256_hex first_row.id) first_row)
    unfolding by_message new_inbox_row
    message_of_stored fresh =
        row-append (λ r. r.external_message_id) message s.trigger_inbox _
        ∙ rw (fresh, same_refl message) refl

    run_of-stored :
        run (run_of sha256_hex first_row.id) s ≡ none
        → run (run_of sha256_hex first_row.id) stored
          ≡ some (new_run (run_input sha256_hex input first_row.id))
    unfolding run
    run_of-stored no_run =
        row-append (λ r. r.id) (run_of sha256_hex first_row.id) s.workflow_runs _
        ∙ rw (no_run, same_refl (run_of sha256_hex first_row.id)) refl

    -- With nobody else acting, the first delivery of a message stores it, creates its run and answers
    -- with that run, when the ids that are derived from the message are free; and every later delivery
    -- of the message answers with the same row and the same run, as a duplicate, and changes nothing.
    pub one_run_per_message :
        (again : TriggerRequest)
        → canonicalize_external_message_id input.external_message_id ≡ ok message
        → canonicalize_external_message_id again.external_message_id ≡ ok message
        → by_message message s ≡ none
        → any (λ r. same r.id first_row.id) s.trigger_inbox ≡ false
        → run (run_of sha256_hex first_row.id) s ≡ none
        → let (r, w) = handle_trigger_inbox_request sha256_hex input (alone s) in
          (r
            ≡ ok (record {
              inbox_id = first_row.id;
              run_id = some (run_of sha256_hex first_row.id);
              is_duplicate = false;
            }))
          × (run (run_of sha256_hex first_row.id) w.state
              ≡ some (new_run (run_input sha256_hex input first_row.id)))
          × (handle_trigger_inbox_request sha256_hex again w ≡ (
            ok (record {
              inbox_id = first_row.id;
              run_id = some (run_of sha256_hex first_row.id);
              is_duplicate = true;
            }),
            w,
          ))
    one_run_per_message again c c' fresh free no_run = rw (handle_first c fresh free no_run) (
      refl,
      run_of-stored no_run,
      delivered_again again message stored _ c' (message_of_stored fresh),
    )
