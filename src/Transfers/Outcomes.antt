-- ===== src/Transfers/Outcomes.antt =====
-- What becomes of a transfer: its first terminal outcome confirms it.
use go_exchange_back.Prelude.{
  ℕ, subst, ◌≡◌, refl, sym, ap, ◌∙◌, Bool, true, Option, none, some, inl, inr, String, ◌∷◌,
}
use go_exchange_back.Packages.{Packages}
use go_exchange_back.Settlement.Types.{JournalInput, accepted}
use go_exchange_back.Ledger.Tables.{Database, JournalEntry}
use go_exchange_back.Ledger.Record.{record_journal}
use go_exchange_back.Transfers.Types.{
  into_exchange, out_of_exchange, processing, completed, failed, TransferOutcome, success, failure,
  pending_outcome, unknown_outcome, other_outcome, outcome_is_terminal, is_processing, Payload,
  TransferRequest, TransferDatabase,
}
use go_exchange_back.Transfers.Requests.{find_request, was_processing, confirmed}
use go_exchange_back.Transfers.Confirm.{
  deposit_journal, withdrawal_journal, refund_journal, confirmation_journal,
}
use go_exchange_back.Transfers.Service.{
  record_in, record_confirmation_journal, status_for, reason_for, confirm_terminal, ResolveInput,
  new_event, insert_event, resolve_by_status, resolve_transfer,
}
use go_exchange_back.Transfers.Moves.{find_request-id}
use go_exchange_back.Transfers.Waiting.{update-Succeeds, IsRouted, Waits}

module _ ⦃pk : Packages⦄ where
  -- The confirmation's journal, where there is one, is taken by the ledger.
  unfoldable pub LedgerTakes :
      TransferDatabase → TransferRequest → String → TransferOutcome → Type 0
  LedgerTakes db r ref outcome =
      (j : JournalInput)
      → confirmation_journal r ref outcome ≡ some (some j)
      → (ledger : Database) × (entry : JournalEntry) × (created : Bool) × (record_journal db.ledger
            j
          ≡ accepted (ledger, entry, created))

  -- The ledger has recorded a journal, whose id is given.
  unfoldable pub HasRecorded : Database → JournalInput → Database → Option ℕ → Type 0
  HasRecorded before input after journal =
      (entry : JournalEntry) × (created : Bool) × (record_journal before input
        ≡ accepted (after, entry, created))
      × (journal ≡ some entry.id)

  -- What the confirmation of a transfer has put into the ledger, and the id of its journal: the
  -- settlement of a deposit or a withdrawal that succeeds, the refund of a withdrawal that fails, and
  -- nothing for a deposit that fails.
  unfoldable pub Books :
      Database → TransferRequest → String → TransferOutcome → Database → Option ℕ → Type 0
  Books before r ref outcome after journal =
      (r.direction ≡ into_exchange
        → outcome ≡ success
        → HasRecorded before (deposit_journal r ref) after journal)
      × (r.direction ≡ into_exchange → outcome ≡ failure → (after ≡ before) × (journal ≡ none))
      × (r.direction ≡ out_of_exchange
          → outcome ≡ success
          → HasRecorded before (withdrawal_journal r ref) after journal)
      × (r.direction ≡ out_of_exchange
          → outcome ≡ failure
          → HasRecorded before (refund_journal r ref) after journal)

  -- What a confirmation records does not touch the requests.
  recorded_lem :
      (db : TransferDatabase) (r : TransferRequest) (ref : String) (outcome : TransferOutcome)
      → r.external_ref ≡ some ref
      → IsRouted r.direction
      → outcome_is_terminal outcome ≡ true
      → LedgerTakes db r ref outcome
      → (recorded : TransferDatabase) × (journal : Option ℕ) × (record_confirmation_journal db r
            outcome
          ≡ accepted (recorded, journal))
        × (recorded.requests ≡ db.requests)
        × (recorded.events ≡ db.events)
        × Books db.ledger r ref outcome recorded.ledger journal
  unfolding record_confirmation_journal record_in LedgerTakes Books HasRecorded IsRouted
      confirmation_journal deposit_journal withdrawal_journal refund_journal
  recorded_lem db r ref success named (inl d) terminal takes =
      let (ledger, entry, created, rec) =
        takes (deposit_journal r ref) (rw (confirmation_journal, d) refl) in
      (
        record db { ledger = ledger },
        some entry.id,
        simp (named, confirmation_journal, d, record_in, rec) refl,
        refl,
        refl,
        (λ _ _. (entry, created, rec, refl), λ _ q. cc, λ q. cc, λ q. cc),
      )
  recorded_lem db r ref failure named (inl d) terminal takes = (
    db,
    none,
    simp (named, confirmation_journal, d) refl,
    refl,
    refl,
    (λ _ q. cc, λ _ _. (refl, refl), λ q. cc, λ q. cc),
  )
  recorded_lem db r ref success named (inr d) terminal takes =
      let (ledger, entry, created, rec) =
        takes (withdrawal_journal r ref) (rw (confirmation_journal, d) refl) in
      (
        record db { ledger = ledger },
        some entry.id,
        simp (named, confirmation_journal, d, record_in, rec) refl,
        refl,
        refl,
        (λ q. cc, λ q. cc, λ _ _. (entry, created, rec, refl), λ _ q. cc),
      )
  recorded_lem db r ref failure named (inr d) terminal takes =
      let (ledger, entry, created, rec) =
        takes (refund_journal r ref) (rw (confirmation_journal, d) refl) in
      (
        record db { ledger = ledger },
        some entry.id,
        simp (named, confirmation_journal, d, record_in, rec) refl,
        refl,
        refl,
        (λ q. cc, λ q. cc, λ _ q. cc, λ _ _. (entry, created, rec, refl)),
      )
  recorded_lem db r ref pending_outcome named routed terminal takes = cc
  recorded_lem db r ref unknown_outcome named routed terminal takes = cc
  recorded_lem db r ref (other_outcome s) named routed terminal takes = cc

  -- A request that has its result: COMPLETED on success and FAILED on failure, with the journal that
  -- was recorded for it, no open review and nothing to look at.
  pub record HasResult (s : TransferRequest) (outcome : TransferOutcome) (journal : Option ℕ)
      : Type 0 where
    pub succeeds : outcome ≡ success → (s.status ≡ completed) × (s.failure_reason ≡ "")
    pub fails : outcome ≡ failure → s.status ≡ failed
    pub journal_lem : s.resolution_journal_id ≡ journal
    pub unscheduled : s.next_check_at ≡ none
    pub reviewed : (s.review_required_at ≡ none) × (s.review_reason ≡ none)

  result_lem :
      (outcome : TransferOutcome) (payload : Payload) (journal : Option ℕ) (r : TransferRequest)
      → outcome_is_terminal outcome ≡ true
      → HasResult
          (confirmed (status_for outcome) journal (reason_for outcome payload) r)
          outcome
          journal
  result_lem success payload journal r t = record {
    succeeds = λ _. (refl, refl);
    fails = λ q. cc;
    journal_lem = refl;
    unscheduled = refl;
    reviewed = (refl, refl);
  }
  result_lem failure payload journal r t = record {
    succeeds = λ q. cc;
    fails = λ _. refl;
    journal_lem = refl;
    unscheduled = refl;
    reviewed = (refl, refl);
  }
  result_lem pending_outcome payload journal r t = cc
  result_lem unknown_outcome payload journal r t = cc
  result_lem (other_outcome s) payload journal r t = cc

  confirm_lem :
      (db : TransferDatabase) (r : TransferRequest) (ref : String) (outcome : TransferOutcome)
      (payload : Payload)
      → find_request r.id db.requests ≡ some r
      → r.status ≡ processing
      → r.external_ref ≡ some ref
      → IsRouted r.direction
      → outcome_is_terminal outcome ≡ true
      → LedgerTakes db r ref outcome
      → (db' : TransferDatabase) × (s : TransferRequest) × (journal : Option ℕ) × (confirm_terminal
            db r outcome payload
          ≡ accepted db')
        × (find_request r.id db'.requests ≡ some s)
        × HasResult s outcome journal
        × Books db.ledger r ref outcome db'.ledger journal
        × (db'.events ≡ db.events)
  unfolding confirm_terminal
  confirm_lem db r ref outcome payload found st named routed terminal takes =
      let (recorded, journal, rec, rows, events, books) =
        recorded_lem db r ref outcome named routed terminal takes in
      let change = confirmed (status_for outcome) journal (reason_for outcome payload) in
      let (db', up, after, ev, led) =
        update-Succeeds r.id was_processing change recorded r (λ x. refl)
          (ap (find_request r.id) rows ∙ found) (ap is_processing st) in
      (
        db',
        change r,
        journal,
        simp (rec, up) refl,
        after,
        result_lem outcome payload journal r terminal,
        subst (λ l. Books db.ledger r ref outcome l journal) (sym led) books,
        ev ∙ events,
      )

  -- A request that waits for its result gets it: the first terminal outcome under a new event key
  -- that the ledger can book is accepted. It makes the transfer COMPLETED on success and FAILED on
  -- failure and ends its polling and its review. The ledger records the journal of the deposit, of
  -- the withdrawal or of the withdrawal's refund, which the transfer names, and nothing for a deposit
  -- that fails. The outcome is stored as an event.
  pub resolve_transfer-confirms :
      (input : ResolveInput) (now : ℕ) (db : TransferDatabase) (r : TransferRequest) (ref : String)
      → Waits db input r ref
      → outcome_is_terminal input.outcome ≡ true
      → LedgerTakes db r ref input.outcome
      → (db' : TransferDatabase) × (s : TransferRequest) × (journal : Option ℕ) × (resolve_transfer
            input now db
          ≡ accepted db')
        × (find_request input.transfer_request_id db'.requests ≡ some s)
        × HasResult s input.outcome journal
        × Books db.ledger r ref input.outcome db'.ledger journal
        × (db'.events ≡ new_event input now ∷ db.events)
  unfolding resolve_transfer resolve_by_status Waits LedgerTakes
  resolve_transfer-confirms input now db r ref (found, st, named, routed, given, keyed, new)
        terminal takes =
      let ids = find_request-id input.transfer_request_id db.requests r found in
      let stored = insert_event db (new_event input now) in
      let (db', s, journal, conf, after, result, books, events) =
        confirm_lem stored r ref input.outcome input.payload
          (ap (λ i. find_request i db.requests) ids ∙ found) st named routed terminal takes in
      (
        db',
        s,
        journal,
        simp (terminal, given, keyed, found, new, resolve_by_status, st, conf) refl,
        ap (λ i. find_request i db'.requests) (sym ids) ∙ after,
        result,
        books,
        events,
      )
