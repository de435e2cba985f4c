-- ===== src/Transfers/Resolve.antt =====
-- `ResolveTransfer` and `RecordObservation`: what they do to the rows and to the ledger.
use text.Mathlib.Text.{◌==◌ as str_eq}
use text.Mathlib.TextPositions.{eq_refl}
use go_exchange_back.Prelude.{
  ℕ, ◌≡◌, refl, sym, ap, subst, ◌∙◌, Bool, true, ◌||◌, not, Option, none, some, inl, inr, ◌⊎◌,
  String, ◌==◌, ==_iff, if◌then◌else◌, Bool-cases, Option-cases,
}
use go_exchange_back.Packages.{Packages}
use go_exchange_back.Settlement.Types.{
  JournalInput, Checked, accepted, rejected, >>=-accepted, guard, guard-accepted, or_error,
  or_error-accepted,
}
use go_exchange_back.Ledger.Tables.{Database, JournalEntry}
use go_exchange_back.Ledger.Record.{LedgerError, record_journal}
use go_exchange_back.Transfers.Types.{
  TransferStatus, received, processing, completed, failed, other_status, TransferOutcome, success,
  failure, pending_outcome, unknown_outcome, other_outcome, status_is_terminal, outcome_is_terminal,
  Payload, TransferRequest, TransferDatabase, terminal_before_dispatch,
  conflicting_terminal_outcome, poll,
}
use go_exchange_back.Transfers.Requests.{
  find_request, was_processing, confirmed, has_event, set_review_required,
}
use go_exchange_back.Transfers.Confirm.{confirmation_journal}
use go_exchange_back.Transfers.Service.{
  matches_terminal_outcome, TransferError, not_terminal, not_open, id_or_key_missing,
  request_not_found, no_row_affected, no_external_ref, unhandled_combination, record_in,
  record_confirmation_journal, status_for, reason_for, confirm_terminal, ResolveInput, new_event,
  insert_event, resolve_by_status, resolve_transfer, observe_by_status, kind_of, record_observation,
}
use go_exchange_back.Transfers.Steps.{
  update_request-lem, find-updated, updated_row, RowsFollow-same, update-RowsFollow,
}
use go_exchange_back.Transfers.Moves.{
  Ends, Confirmed, Held, Moves, Moves-refl, find_request-id, confirmed-Follows,
  confirmed-IsSameRequest, review-Moves, advance_poll_schedule-Moves,
}

module _ ⦃pk : Packages⦄ where
  status-cases :
      (s : TransferStatus)
      → (s ≡ received)
        ⊎ ((s ≡ processing)
            ⊎ ((s ≡ completed) ⊎ ((s ≡ failed) ⊎ ((t : String) × (s ≡ other_status t)))))
  status-cases received = inl refl
  status-cases processing = inr (inl refl)
  status-cases completed = inr (inr (inl refl))
  status-cases failed = inr (inr (inr (inl refl)))
  status-cases (other_status t) = inr (inr (inr (inr (t, refl))))

  pub record_in-accepted :
      (db db' : TransferDatabase) (input : JournalInput) (entry : JournalEntry)
      → record_in db input ≡ accepted (db', entry)
      → (created : Bool) × (record_journal db.ledger input ≡ accepted (db'.ledger, entry, created))
        × (db'.requests ≡ db.requests)
        × (db'.events ≡ db.events)
        × (db'.next_request_id ≡ db.next_request_id)
  unfolding record_in
  record_in-accepted db db' input entry h = go (record_journal db.ledger input) refl
    where
      go :
          (m : Checked LedgerError (Database × JournalEntry × Bool))
          → record_journal db.ledger input ≡ m
          → (created : Bool) × (record_journal db.ledger input
              ≡ accepted (db'.ledger, entry, created))
            × (db'.requests ≡ db.requests)
            × (db'.events ≡ db.events)
            × (db'.next_request_id ≡ db.next_request_id)
      go (rejected e) m = cc (rw (record_in, m) at h)
      go (accepted (ledger, e, created)) m =
          let whole : accepted (record db { ledger = ledger }, e) ≡ accepted (db', entry) =
            rw (record_in, m) at h in
          let same : (record db { ledger = ledger }, e) ≡ (db', entry) = cc in
          subst
            (λ (x : TransferDatabase × JournalEntry).
              (c : Bool) × (record_journal db.ledger input ≡ accepted (x.0.ledger, x.1, c))
              × (x.0.requests ≡ db.requests)
              × (x.0.events ≡ db.events)
              × (x.0.next_request_id ≡ db.next_request_id))
            same (created, m, refl, refl, refl)

  -- What a confirmation records before it updates the row.
  Recorded :
      TransferDatabase → TransferRequest → TransferOutcome → TransferDatabase → Option ℕ → Type 0
  Recorded db r outcome recorded journal =
      (recorded.requests ≡ db.requests)
      × (recorded.events ≡ db.events)
      × (recorded.next_request_id ≡ db.next_request_id)
      × ((recorded.ledger ≡ db.ledger)
          ⊎ ((ref : String) × (input : JournalInput) × (entry : JournalEntry) × (created : Bool)
              × (r.external_ref ≡ some ref)
              × (confirmation_journal r ref outcome ≡ some (some input))
              × (record_journal db.ledger input ≡ accepted (recorded.ledger, entry, created))
              × (journal ≡ some entry.id)))

  record_confirmation_journal-Recorded :
      (db recorded : TransferDatabase) (r : TransferRequest) (outcome : TransferOutcome)
      (journal : Option ℕ)
      → record_confirmation_journal db r outcome ≡ accepted (recorded, journal)
      → Recorded db r outcome recorded journal
  unfolding record_confirmation_journal Recorded
  record_confirmation_journal-Recorded db recorded r outcome journal h =
      let named : Checked TransferError String = or_error r.external_ref no_external_ref in
      let (ref, fr, h1) = >>=-accepted named _ (recorded, journal) h in
      let handled : Checked TransferError (Option JournalInput) =
        or_error (confirmation_journal r ref outcome) unhandled_combination in
      let (o, fo, h2) = >>=-accepted handled _ (recorded, journal) h1 in
      elim (Option-cases o) [
        | inl e ↦
            let whole : accepted (db, none) ≡ accepted (recorded, journal) = rw e at h2 in
            let same : (db, none) ≡ (recorded, journal) = cc in
            let dbs : db ≡ recorded = ap (λ (x : TransferDatabase × Option ℕ). x.0) same in
            (
              ap (λ x. x.requests) (sym dbs),
              ap (λ x. x.events) (sym dbs),
              ap (λ x. x.next_request_id) (sym dbs),
              inl (ap (λ x. x.ledger) (sym dbs)),
            )
        | inr (input, e) ↦
            let (done, fd, h3) =
              >>=-accepted (record_in db input)
                (λ (x : TransferDatabase × JournalEntry). accepted (x.0, some x.1.id))
                (recorded, journal) (rw e at h2) in
            let (created, rec, rows, events, next) = record_in-accepted db done.0 input done.1 fd in
            let handled_as : confirmation_journal r ref outcome ≡ some (some input) =
              or_error-accepted _ unhandled_combination o fo ∙ ap some e in
            let same : (done.0, some done.1.id) ≡ (recorded, journal) = cc in
            subst (λ (x : TransferDatabase × Option ℕ). Recorded db r outcome x.0 x.1) same
              (
                rows,
                events,
                next,
                inr (
                  ref,
                  input,
                  done.1,
                  created,
                  or_error-accepted _ no_external_ref ref fr,
                  handled_as,
                  rec,
                  refl,
                ),
              )
      ]

  status_for-terminal : (o : TransferOutcome) → status_is_terminal (status_for o) ≡ true
  status_for-terminal success = refl
  status_for-terminal failure = refl
  status_for-terminal pending_outcome = refl
  status_for-terminal unknown_outcome = refl
  status_for-terminal (other_outcome s) = refl

  status_for-Ends : (o : TransferOutcome) → outcome_is_terminal o ≡ true → Ends o (status_for o)
  unfolding Ends
  status_for-Ends success h = inl (refl, refl)
  status_for-Ends failure h = inr (refl, refl)
  status_for-Ends pending_outcome h = cc
  status_for-Ends unknown_outcome h = cc
  status_for-Ends (other_outcome s) h = cc

  -- The confirmation of a transfer that is being processed.
  pub confirm_terminal-Moves :
      (db db' : TransferDatabase) (r : TransferRequest) (outcome : TransferOutcome)
      (payload : Payload)
      → find_request r.id db.requests ≡ some r
      → r.status ≡ processing
      → outcome_is_terminal outcome ≡ true
      → confirm_terminal db r outcome payload ≡ accepted db'
      → Moves db db'
  unfolding confirm_terminal Moves Recorded Confirmed
  confirm_terminal-Moves db db' r outcome payload found st terminal h =
      let ((recorded, journal), fr, h1) =
        >>=-accepted (record_confirmation_journal db r outcome) _ db' h in
      let (rows, events, next, moved) =
        record_confirmation_journal-Recorded db recorded r outcome journal fr in
      let reason = reason_for outcome payload in
      let change = confirmed (status_for outcome) journal reason in
      let u = or_error-accepted {E = TransferError} _ no_row_affected db' h1 in
      let (same_ledger, es, new_rows) =
        update_request-lem r.id was_processing change recorded db' u in
      let follows =
        update-RowsFollow r.id was_processing change recorded db'
          (confirmed-IsSameRequest (status_for outcome) journal reason)
          (λ x t.
            confirmed-Follows (status_for outcome) journal reason x (status_for-terminal outcome) t)
          u in
      let own : updated_row r.id was_processing change r ≡ change r =
        rw ((==_iff r.id r.id).1 refl, st) refl in
      let after : find_request r.id db'.requests ≡ some (change r) =
        ap (find_request r.id) new_rows
        ∙ find-updated r.id r.id was_processing change recorded.requests r (λ x. refl)
            (ap (find_request r.id) rows ∙ found)
        ∙ ap some own in
      (
        RowsFollow-same db recorded db' rows next follows,
        elim moved [
          | inl kept ↦ inl (same_ledger ∙ kept)
          | inr (ref, input, entry, created, named, handled, rec, listed) ↦ inr (
              inl (
                r,
                change r,
                ref,
                outcome,
                input,
                entry,
                created,
                found,
                st,
                named,
                handled,
                rec ∙ ap (λ l. accepted (l, entry, created)) (sym same_ledger),
                after,
                status_for-Ends outcome terminal,
                listed,
              ))
        ],
        (λ key e. ap (has_event key) (es ∙ events) ∙ e),
      )

  resolve_by_status-Moves :
      (db db' : TransferDatabase) (r : TransferRequest) (input : ResolveInput) (now : ℕ)
      → find_request r.id db.requests ≡ some r
      → outcome_is_terminal input.outcome ≡ true
      → resolve_by_status db r input now ≡ accepted db'
      → Moves db db'
  unfolding resolve_by_status
  resolve_by_status-Moves db db' r input now found terminal h = elim (status-cases r.status) [
    | inl e ↦ review-Moves r.id terminal_before_dispatch now db db' (rw (resolve_by_status, e) at h)
    | inr (inl e) ↦
        confirm_terminal-Moves db db' r input.outcome input.payload found e terminal
          (rw (resolve_by_status, e) at h)
    | inr (inr (inl e)) ↦ opposite completed (rw (resolve_by_status, e) at h)
    | inr (inr (inr (inl e))) ↦ opposite failed (rw (resolve_by_status, e) at h)
    | inr (inr (inr (inr (t, e)))) ↦ cc (rw (resolve_by_status, e) at h)
  ]
    where
      opposite :
          (s : TransferStatus)
          → (if matches_terminal_outcome s input.outcome
              then accepted db
              else or_error {E = TransferError}
                  (set_review_required r.id conflicting_terminal_outcome now db)
                  no_row_affected)
            ≡ accepted db'
          → Moves db db'
      opposite s k = elim (Bool-cases (matches_terminal_outcome s input.outcome)) [
        | inl a ↦
            let same : accepted db ≡ accepted db' = rw a at k in
            let dbs : db ≡ db' = cc in subst (Moves db) dbs (Moves-refl db)
        | inr a ↦ review-Moves r.id conflicting_terminal_outcome now db db' (rw a at k)
      ]

  observe_by_status-Moves :
      (db db' : TransferDatabase) (r : TransferRequest) (outcome : TransferOutcome) (now : ℕ)
      → observe_by_status db r outcome now ≡ accepted db'
      → Moves db db'
  unfolding observe_by_status
  observe_by_status-Moves db db' r outcome now h = elim (status-cases r.status) [
    | inl e ↦ cc (rw (observe_by_status, e) at h)
    | inr (inl e) ↦
        advance_poll_schedule-Moves db db' r (kind_of outcome) now (rw (observe_by_status, e) at h)
    | inr (inr (inl e)) ↦ unchanged (rw (observe_by_status, e) at h)
    | inr (inr (inr (inl e))) ↦ unchanged (rw (observe_by_status, e) at h)
    | inr (inr (inr (inr (t, e)))) ↦ cc (rw (observe_by_status, e) at h)
  ]
    where
      unchanged :
          ◌≡◌ {A = Checked TransferError TransferDatabase} (accepted db) (accepted db')
          → Moves db db'
      unchanged k = let dbs : db ≡ db' = cc in subst (Moves db) dbs (Moves-refl db)

  -- Moves after an event has been stored are moves.
  event-Moves :
      (db db' : TransferDatabase) (input : ResolveInput) (now : ℕ)
      → Moves (insert_event db (new_event input now)) db'
      → Moves db db'
  unfolding Moves Confirmed Held
  event-Moves db db' input now (rows, moved, kept) = (
    RowsFollow-same db (insert_event db (new_event input now)) db' refl refl rows,
    moved,
    λ key h.
        kept key
          (elim (Bool-cases (str_eq input.event_key key)) [ inl e ↦ rw e refl | inr e ↦ rw e h ]),
  )

  pub resolve_transfer-Moves :
      (input : ResolveInput) (now : ℕ) (db db' : TransferDatabase)
      → resolve_transfer input now db ≡ accepted db'
      → Moves db db'
        × (has_event input.event_key db'.events ≡ true)
        × ((r : TransferRequest) × (find_request input.transfer_request_id db.requests ≡ some r))
        × ((outcome_is_terminal input.outcome ≡ true)
            × (not (input.transfer_request_id == 0 || str_eq input.event_key "") ≡ true))
  unfolding resolve_transfer Moves
  resolve_transfer-Moves input now db db' h =
      let terminal : Checked TransferError Unit =
        guard (outcome_is_terminal input.outcome) not_terminal in
      let given : Checked TransferError Unit =
        guard (not (input.transfer_request_id == 0 || str_eq input.event_key ""))
          id_or_key_missing in
      let looked : Checked TransferError TransferRequest =
        or_error (find_request input.transfer_request_id db.requests) request_not_found in
      let (u, f1, h1) = >>=-accepted terminal _ db' h in
      let (v, f2, h2) = >>=-accepted given _ db' h1 in
      let (r, f3, h3) = >>=-accepted looked _ db' h2 in
      let at_id = or_error-accepted _ request_not_found r f3 in
      let ids = find_request-id input.transfer_request_id db.requests r at_id in
      let sane : (outcome_is_terminal input.outcome ≡ true)
          × (not (input.transfer_request_id == 0 || str_eq input.event_key "") ≡ true) =
        (
          guard-accepted (outcome_is_terminal input.outcome) not_terminal u f1,
          guard-accepted _ id_or_key_missing v f2,
        ) in
      elim (Bool-cases (has_event input.event_key db.events)) [
        | inl e ↦
            let same : accepted db ≡ accepted db' = rw e at h3 in
            let dbs : db ≡ db' = cc in
            (
              subst (Moves db) dbs (Moves-refl db),
              subst (λ (x : TransferDatabase). has_event input.event_key x.events ≡ true) dbs e,
              (r, at_id),
              sane,
            )
        | inr e ↦
            let moves =
              resolve_by_status-Moves (insert_event db (new_event input now)) db' r input now
                (ap (λ i. find_request i db.requests) ids ∙ at_id) sane.0 (rw e at h3) in
            (
              event-Moves db db' input now moves,
              moves.2 input.event_key (rw (eq_refl input.event_key) refl),
              (r, at_id),
              sane,
            )
      ]

  pub record_observation-Moves :
      (input : ResolveInput) (now : ℕ) (db db' : TransferDatabase)
      → record_observation input now db ≡ accepted db'
      → Moves db db'
  unfolding record_observation
  record_observation-Moves input now db db' h =
      let open_outcome : Checked TransferError Unit =
        guard (not (outcome_is_terminal input.outcome)) not_open in
      let given : Checked TransferError Unit =
        guard (not (input.transfer_request_id == 0 || str_eq input.event_key ""))
          id_or_key_missing in
      let looked : Checked TransferError TransferRequest =
        or_error (find_request input.transfer_request_id db.requests) request_not_found in
      let (u, f1, h1) = >>=-accepted open_outcome _ db' h in
      let (v, f2, h2) = >>=-accepted given _ db' h1 in
      let (r, f3, h3) = >>=-accepted looked _ db' h2 in
      elim (Bool-cases (has_event input.event_key db.events)) [
        | inl e ↦
            let same : accepted db ≡ accepted db' = rw e at h3 in
            let dbs : db ≡ db' = cc in subst (Moves db) dbs (Moves-refl db)
        | inr e ↦
            event-Moves db db' (record input { source = poll }) now
              (observe_by_status-Moves _ db' r input.outcome now (rw e at h3))
      ]

  -- An event that comes again changes nothing: after `ResolveTransfer` has accepted an outcome, every
  -- further terminal outcome for the request under the same event key is accepted and leaves the
  -- tables, the ledger among them, as they are.
  pub resolve_transfer-again :
      (input again : ResolveInput) (now later_on : ℕ) (db db' : TransferDatabase)
      → resolve_transfer input now db ≡ accepted db'
      → again.transfer_request_id ≡ input.transfer_request_id
      → again.event_key ≡ input.event_key
      → outcome_is_terminal again.outcome ≡ true
      → resolve_transfer again later_on db' ≡ accepted db'
  unfolding resolve_transfer Moves
  resolve_transfer-again input again now later_on db db' h ids keys terminal =
      let (moves, stored, (r, found), (t, sane)) = resolve_transfer-Moves input now db db' h in
      let (s, after, follows) = moves.0.by_id input.transfer_request_id r found in
      let found' : find_request again.transfer_request_id db'.requests ≡ some s =
        ap (λ i. find_request i db'.requests) ids ∙ after in
      let stored' : has_event again.event_key db'.events ≡ true =
        ap (λ k. has_event k db'.events) keys ∙ stored in
      let sane' : not (again.transfer_request_id == 0 || str_eq again.event_key "") ≡ true =
        ap (λ i. not (i == 0 || str_eq again.event_key "")) ids
        ∙ ap (λ k. not (input.transfer_request_id == 0 || str_eq k "")) keys
        ∙ sane in
      simp (terminal, sane', found', stored') refl
