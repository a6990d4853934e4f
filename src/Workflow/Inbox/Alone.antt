-- ===== src/Workflow/Inbox/Alone.antt =====
-- `insertTriggerInbox` with nobody else acting (packages/workflow-runtime/src/index.ts).
use chain_sieve.Base.{◌≡◌, refl, false, none, some, [], ◌∷◌, ◌++◌, Text, same, any, ok}
use chain_sieve.Sql.Exec.{alone, turn, ◌>>=◌, catch, fallible, pure, bind-ok, catch-ok, fallible-ok}
use chain_sieve.Workflow.Store.{Db, InboxRow}
use chain_sieve.Workflow.Inbox.{
  InsertTriggerInboxInput, canonicalize_external_message_id, by_message, insert_inbox, as_duplicate,
  as_inserted, after_insert, new_inbox_row, insert_or_fetch, insert_canonical, insert_trigger_inbox,
}

insert_inbox-new :
    (r : InboxRow) (s : Db)
    → by_message r.external_message_id s ≡ none
    → any (λ q. same q.id r.id) s.trigger_inbox ≡ false
    → insert_inbox r s ≡ ok (some r, record s { trigger_inbox = s.trigger_inbox ++ r ∷ [] })
unfolding insert_inbox
insert_inbox-new r s fresh free = rw (fresh, insert_inbox) (rw free refl)

module _ (sha256_hex : Text → Text) where
  insert_or_fetch-new :
      (input : InsertTriggerInboxInput) (message : Text) (s : Db)
      → by_message message s ≡ none
      → any (λ r. same r.id (new_inbox_row sha256_hex input message).id) s.trigger_inbox ≡ false
      → insert_or_fetch sha256_hex input message (alone s) ≡ (
        ok (as_inserted (new_inbox_row sha256_hex input message)),
        alone (record s {
          trigger_inbox = s.trigger_inbox ++ new_inbox_row sha256_hex input message ∷ [];
        }),
      )
  unfolding new_inbox_row insert_or_fetch after_insert ◌>>=◌ turn
  insert_or_fetch-new input message s fresh free =
      bind-ok (catch (fallible (insert_inbox (new_inbox_row sha256_hex input message))) (pure none))
        (after_insert message) (alone s) _ _
        (catch-ok (fallible (insert_inbox (new_inbox_row sha256_hex input message))) (pure none)
          (alone s) _ _
          (fallible-ok (insert_inbox (new_inbox_row sha256_hex input message)) (alone s) _ _
            (insert_inbox-new (new_inbox_row sha256_hex input message) s fresh free)))

  pub insert_trigger_inbox-new :
      (input : InsertTriggerInboxInput) (message : Text) (s : Db)
      → canonicalize_external_message_id input.external_message_id ≡ ok message
      → by_message message s ≡ none
      → any (λ r. same r.id (new_inbox_row sha256_hex input message).id) s.trigger_inbox ≡ false
      → insert_trigger_inbox sha256_hex input (alone s) ≡ (
        ok (as_inserted (new_inbox_row sha256_hex input message)),
        alone (record s {
          trigger_inbox = s.trigger_inbox ++ new_inbox_row sha256_hex input message ∷ [];
        }),
      )
  unfolding insert_trigger_inbox insert_canonical insert_or_fetch after_insert ◌>>=◌ turn
      new_inbox_row
  insert_trigger_inbox-new input message s c fresh free =
      rw (c, insert_trigger_inbox) (rw fresh (insert_or_fetch-new input message s fresh free))

  pub insert_trigger_inbox-known :
      (input : InsertTriggerInboxInput) (message : Text) (s : Db) (r : InboxRow)
      → canonicalize_external_message_id input.external_message_id ≡ ok message
      → by_message message s ≡ some r
      → insert_trigger_inbox sha256_hex input (alone s) ≡ (ok (as_duplicate r), alone s)
  unfolding insert_trigger_inbox insert_canonical ◌>>=◌ turn
  insert_trigger_inbox-known input message s r c there =
      rw (c, insert_trigger_inbox) (rw there refl)
