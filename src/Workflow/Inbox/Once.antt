-- ===== src/Workflow/Inbox/Once.antt =====
-- One row for one message, however often and however concurrently it is delivered
-- (`insertTriggerInbox`, packages/workflow-runtime/src/index.ts).
use chain_sieve.Base.{
  ◌≡◌, sym, ◌∙◌, refl, true, false, Option, none, some, [], ◌∷◌, ◌++◌, Text, same, same_refl, any,
  ok, err, Outcome, Bool-cases, Option-cases, inl, inr, subst,
}
use chain_sieve.Sql.Table.{row, row-append}
use chain_sieve.Sql.Exec.{World, turn, continue, pure, ◌>>=◌}
use chain_sieve.Sql.Rely.{Preorder, Obeys, Kept-turn}
use chain_sieve.Workflow.Store.{Db, InboxRow, Fault}
use chain_sieve.Workflow.Inbox.{
  InsertTriggerInboxInput, InsertTriggerInboxResult, canonicalize_external_message_id, by_message,
  insert_inbox, as_duplicate, as_inserted, fetch_after_race, after_insert, new_inbox_row,
  insert_or_fetch, insert_canonical, insert_trigger_inbox,
}

-- the message has a row of that id
abbrev pub HasRow : Text → Text → Db → Type 0
HasRow message id s = (r : InboxRow) × (by_message message s ≡ some r) × (r.id ≡ id)

-- rows are never deleted, and keep their ids
abbrev pub inbox_grows : Preorder Db
inbox_grows = record {
  R = λ s t. (message id : Text) → HasRow message id s → HasRow message id t;
  reflexive = λ s message id h. h;
  transitive = λ s t u h k message id r. k message id (h message id r);
}

abbrev pub HasRowOf : Text → Outcome Fault InsertTriggerInboxResult → Db → Type 0
HasRowOf message (ok r) s = HasRow message r.inbox_id s
HasRowOf message (err e) s = Unit

abbrev Stored : Text → Outcome Fault InsertTriggerInboxResult × World Db → Type 0
Stored message ran = HasRowOf message ran.0 ran.1.state

Stored-fetch : (message : Text) (w : World Db) → Stored message (fetch_after_race message w)
unfolding fetch_after_race ◌>>=◌
Stored-fetch message w = elim (Option-cases (by_message message (turn w).state)) [
  | inl e ↦ rw e tt
  | inr (r, e) ↦ rw e (r, e, refl)
]

by_message-append :
    (r : InboxRow) (s : Db)
    → by_message r.external_message_id s ≡ none
    → by_message r.external_message_id (record s { trigger_inbox = s.trigger_inbox ++ r ∷ [] })
      ≡ some r
unfolding by_message
by_message-append r s e =
    row-append (λ q. q.external_message_id) r.external_message_id s.trigger_inbox r
    ∙ rw (e, same_refl r.external_message_id)

-- the run after the INSERT, by what the database did with it
settled :
    Text
    → World Db
    → Outcome Fault (Option InboxRow × Db)
    → Outcome Fault InsertTriggerInboxResult × World Db
settled message v (ok (none, s)) =
    fetch_after_race message (record { state = s; others = v.others })
settled message v (ok (some r, s)) = (ok (as_inserted r), record { state = s; others = v.others })
settled message v (err e) = fetch_after_race message v

settled_lem :
    (message : Text) (v : World Db) (o : Outcome Fault (Option InboxRow × Db))
    → (let tried : Outcome Fault (Option InboxRow) × World Db = elim o [
      | ok (a, s) ↦ (ok a, record { state = s; others = v.others })
      | err e ↦ (err e, v)
    ] in
        let caught : Outcome Fault (Option InboxRow) × World Db = elim tried.0 [
          | ok a ↦ (ok a, tried.1)
          | err e ↦ (ok none, tried.1)
        ] in
        continue caught.0 (after_insert message) caught.1)
      ≡ settled message v o
unfolding settled after_insert pure
settled_lem message v (ok (none, s)) = refl
settled_lem message v (ok (some r, s)) = refl
settled_lem message v (err e) = refl

module _ (sha256_hex : Text → Text) (input : InsertTriggerInboxInput) (message : Text) where
  insert_or_fetch-settled :
      (w : World Db)
      → insert_or_fetch sha256_hex input message w
        ≡ settled message
            (turn w)
            (insert_inbox (new_inbox_row sha256_hex input message) (turn w).state)
  unfolding insert_or_fetch ◌>>=◌
  insert_or_fetch-settled w =
      settled_lem message (turn w)
        (insert_inbox (new_inbox_row sha256_hex input message) (turn w).state)

  Stored-settled :
      (v : World Db)
      → Stored message
          (settled message v (insert_inbox (new_inbox_row sha256_hex input message) v.state))
  unfolding settled insert_inbox new_inbox_row
  Stored-settled v = elim (Option-cases (by_message message v.state)) [
    | inl e ↦
        elim (Bool-cases (
          any (λ q. same q.id (new_inbox_row sha256_hex input message).id) v.state.trigger_inbox)) [
            | inl taken ↦ rw (e, insert_inbox) (rw taken (Stored-fetch message v))
            | inr free ↦
                rw (e, insert_inbox)
                  (rw free (
                    new_inbox_row sha256_hex input message,
                    by_message-append (new_inbox_row sha256_hex input message) v.state e,
                    refl,
                  ))
          ]
    | inr (r, e) ↦ rw (e, insert_inbox) (Stored-fetch message _)
  ]

  Stored-canonical : (w : World Db) → Stored message (insert_canonical sha256_hex input message w)
  unfolding insert_canonical ◌>>=◌
  Stored-canonical w = elim (Option-cases (by_message message (turn w).state)) [
    | inl e ↦ rw e (rw (insert_or_fetch-settled _) (Stored-settled _))
    | inr (r, e) ↦ rw e (r, e, refl)
  ]

  -- A message that has its row is a duplicate, whatever the others do in the meantime, so long as
  -- they keep the rows of the inbox.
  known_message :
      (w : World Db) (id : Text)
      → Obeys inbox_grows w.others
      → HasRow message id w.state
      → (r : InboxRow) × (r.id ≡ id)
        × ((insert_canonical sha256_hex input message w).0 ≡ ok (as_duplicate r))
  unfolding insert_canonical ◌>>=◌
  known_message w id o h =
      let (r, e, i) = (Kept-turn inbox_grows w o).state message id h in (r, i, rw e refl)

  insert_trigger_inbox-canonical :
      (w : World Db)
      → canonicalize_external_message_id input.external_message_id ≡ ok message
      → insert_trigger_inbox sha256_hex input w ≡ insert_canonical sha256_hex input message w
  unfolding insert_trigger_inbox
  insert_trigger_inbox-canonical w c = rw (c, insert_trigger_inbox)

module _ (sha256_hex : Text → Text) (first second : InsertTriggerInboxInput) (message : Text)
    (w w' : World Db) where
  -- Two deliveries of one message, the second starting after the first was answered: the second is
  -- answered as a duplicate that was not inserted, with the id of the first one's inbox row. Anybody
  -- else may act before every statement, so long as no row of the inbox is deleted or renamed.
  pub insert_trigger_inbox-once :
      (r : InsertTriggerInboxResult)
      → canonicalize_external_message_id first.external_message_id ≡ ok message
      → canonicalize_external_message_id second.external_message_id ≡ ok message
      → (insert_trigger_inbox sha256_hex first w).0 ≡ ok r
      → inbox_grows.R (insert_trigger_inbox sha256_hex first w).1.state w'.state
      → Obeys inbox_grows w'.others
      → (r' : InsertTriggerInboxResult) × ((insert_trigger_inbox sha256_hex second w').0 ≡ ok r')
        × (r'.inserted ≡ false)
        × (r'.is_duplicate ≡ true)
        × (r'.inbox_id ≡ r.inbox_id)
  insert_trigger_inbox-once r c c' e between o =
      let ran = insert_trigger_inbox-canonical sha256_hex first message w c in
      let stored =
        subst (λ x. HasRowOf message x (insert_trigger_inbox sha256_hex first w).1.state) e
          (subst (Stored message) (sym ran) (Stored-canonical sha256_hex first message w)) in
      let (row, i, q) =
        known_message sha256_hex second message w' r.inbox_id o
          (between message r.inbox_id stored) in
      (
        as_duplicate row,
        rw (insert_trigger_inbox-canonical sha256_hex second message w' c') q,
        refl,
        refl,
        i,
      )
