-- ===== src/Transfers/Moves.antt =====
-- What the operations on transfers do to the rows and to the ledger.
use go_exchange_back.Prelude.{
  ℕ, ◌+◌, ◌≡◌, refl, sym, ap, subst, ◌∙◌, Bool, true, Option, none, some, inl, inr, ◌⊎◌, String,
  List, [], ◌∷◌, ◌==◌, ==_iff, Bool-cases, Option-cases,
}
use go_exchange_back.Packages.{Packages}
use go_exchange_back.Settlement.Types.{
  JournalInput, Checked, accepted, >>=-accepted, or_error, or_error-accepted,
}
use go_exchange_back.Ledger.Tables.{JournalEntry}
use go_exchange_back.Ledger.Record.{record_journal}
use go_exchange_back.Transfers.Types.{
  TransferOutcome, success, failure, out_of_exchange, TransferStatus, received, processing,
  completed, failed, other_status, status_is_terminal, is_received, is_processing, TransferRequest,
  TransferDatabase, ReviewReason,
}
use go_exchange_back.Transfers.Requests.{
  find_request, update_request, anything, was_received, was_processing, dispatched, rescheduled,
  confirmed, flagged, polled, has_event,
}
use go_exchange_back.Transfers.Confirm.{withdrawal_hold_journal, confirmation_journal}
use go_exchange_back.Transfers.Schedule.{
  PollFailureKind, poll_failure_unreachable, backoff_interval, review_reason_for_poll_failure,
}
use go_exchange_back.Transfers.Service.{
  TransferError, request_not_found, no_row_affected, advance_poll_schedule,
  handle_status_check_failure, handle_dispatch_failure, dispatch,
}
use go_exchange_back.Transfers.Steps.{
  update_request-lem, IsSameRequest, MayFollow, Follows, RowsFollow, RowsFollow-refl,
  update-RowsFollow,
}

module _ ⦃pk : Packages⦄ where
  -- The status that a terminal outcome gives.
  unfoldable pub Ends : TransferOutcome → TransferStatus → Type 0
  Ends outcome status =
      ((outcome ≡ success) × (status ≡ completed)) ⊎ ((outcome ≡ failure) × (status ≡ failed))

  -- The ledger has recorded the journal that confirms a transfer with an outcome. The transfer was
  -- being processed; now it has the status of that outcome and names that journal.
  unfoldable pub Confirmed : TransferDatabase → TransferDatabase → Type 0
  Confirmed db db' =
      (r : TransferRequest) × (s : TransferRequest) × (ref : String) × (outcome : TransferOutcome)
      × (input : JournalInput) × (entry : JournalEntry) × (created : Bool) × (find_request r.id
            db.requests
          ≡ some r)
      × (r.status ≡ processing)
      × (r.external_ref ≡ some ref)
      × (confirmation_journal r ref outcome ≡ some (some input))
      × (record_journal db.ledger input ≡ accepted (db'.ledger, entry, created))
      × (find_request r.id db'.requests ≡ some s)
      × Ends outcome s.status
      × (s.resolution_journal_id ≡ some entry.id)

  -- The ledger has recorded the hold of a withdrawal that is new, and that names the journal.
  unfoldable pub Held : TransferDatabase → TransferDatabase → Type 0
  Held db db' =
      (s : TransferRequest) × (entry : JournalEntry) × (created : Bool) × (find_request s.id
          db.requests
        ≡ none)
      × (find_request s.id db'.requests ≡ some s)
      × (s.status ≡ received)
      × (s.direction ≡ out_of_exchange)
      × (record_journal db.ledger (withdrawal_hold_journal s)
          ≡ accepted (db'.ledger, entry, created))
      × (s.hold_journal_id ≡ some entry.id)

  abbrev pub KeepsEvents : TransferDatabase → TransferDatabase → Type 0
  KeepsEvents db db' =
      (key : String) → has_event key db.events ≡ true → has_event key db'.events ≡ true

  -- The rows follow the state machine; the ledger is as before, or a transfer was confirmed, or a
  -- new withdrawal holds its assets; and no event is lost.
  unfoldable pub Moves : TransferDatabase → TransferDatabase → Type 0
  Moves db db' =
      RowsFollow db db'
      × ((db'.ledger ≡ db.ledger) ⊎ (Confirmed db db' ⊎ Held db db'))
      × KeepsEvents db db'

  pub Moves-refl : (db : TransferDatabase) → Moves db db
  unfolding Moves
  Moves-refl db = (RowsFollow-refl db, inl refl, λ key h. h)

  pub find_request-id :
      (id : ℕ) (rs : List TransferRequest) (r : TransferRequest)
      → find_request id rs ≡ some r
      → r.id ≡ id
  unfolding find_request
  find_request-id id [] r h = cc
  find_request-id id (x ∷ rs) r h = elim (Bool-cases (x.id == id)) [
    | inl e ↦
        let found : some x ≡ some r = rw e at h in
        let row : x ≡ r = cc in
        subst (λ (y : TransferRequest). y.id ≡ id) row ((==_iff x.id id).0 e)
    | inr e ↦ find_request-id id rs r (rw e at h)
  ]

  pub was_received-lem : (s : TransferStatus) → is_received s ≡ true → s ≡ received
  was_received-lem received h = refl
  was_received-lem processing h = cc
  was_received-lem completed h = cc
  was_received-lem failed h = cc
  was_received-lem (other_status s) h = cc

  pub was_processing-lem : (s : TransferStatus) → is_processing s ≡ true → s ≡ processing
  was_processing-lem processing h = refl
  was_processing-lem received h = cc
  was_processing-lem completed h = cc
  was_processing-lem failed h = cc
  was_processing-lem (other_status s) h = cc

  -- A row whose status stays.
  stays :
      (r s : TransferRequest)
      → s.status ≡ r.status
      → s.amount ≡ r.amount
      → s.fee_amount ≡ r.fee_amount
      → s.hold_journal_id ≡ r.hold_journal_id
      → s.resolution_journal_id ≡ r.resolution_journal_id
      → s.external_ref ≡ r.external_ref
      → IsSameRequest r s
      → Follows r s
  unfolding Follows MayFollow
  stays r s st a f h j e same = (go r.status s.status st, a, f, h, same, λ t. (j, e))
    where
      go : (t u : TransferStatus) → u ≡ t → MayFollow t u
      go received u e = inl e
      go processing u e = inl e
      go completed u e = e
      go failed u e = e
      go (other_status x) u e = e

  flagged-IsSameRequest :
      (reason : ReviewReason) (at : ℕ) (r : TransferRequest) → IsSameRequest r (flagged reason at r)
  unfolding IsSameRequest
  flagged-IsSameRequest reason at r = (refl, refl, refl, refl, refl, refl)

  polled-IsSameRequest :
      (checked next attempts : ℕ) (o : Option ReviewReason) (r : TransferRequest)
      → IsSameRequest r (polled checked next attempts o r)
  unfolding IsSameRequest
  polled-IsSameRequest checked next attempts none r = (refl, refl, refl, refl, refl, refl)
  polled-IsSameRequest checked next attempts (some x) r = (refl, refl, refl, refl, refl, refl)

  rescheduled-IsSameRequest :
      (next attempts : ℕ) (r : TransferRequest) → IsSameRequest r (rescheduled next attempts r)
  unfolding IsSameRequest
  rescheduled-IsSameRequest next attempts r = (refl, refl, refl, refl, refl, refl)

  dispatched-IsSameRequest :
      (ref : String) (next : ℕ) (r : TransferRequest) → IsSameRequest r (dispatched ref next r)
  unfolding IsSameRequest
  dispatched-IsSameRequest ref next r = (refl, refl, refl, refl, refl, refl)

  pub confirmed-IsSameRequest :
      (status : TransferStatus) (journal : Option ℕ) (reason : String) (r : TransferRequest)
      → IsSameRequest r (confirmed status journal reason r)
  unfolding IsSameRequest
  confirmed-IsSameRequest status journal reason r = (refl, refl, refl, refl, refl, refl)

  flagged-Follows :
      (reason : ReviewReason) (at : ℕ) (r : TransferRequest) → Follows r (flagged reason at r)
  flagged-Follows reason at r =
      stays r (flagged reason at r) refl refl refl refl refl refl
        (flagged-IsSameRequest reason at r)

  polled-Follows :
      (checked next attempts : ℕ) (o : Option ReviewReason) (r : TransferRequest)
      → Follows r (polled checked next attempts o r)
  polled-Follows checked next attempts none r =
      stays r (polled checked next attempts none r) refl refl refl refl refl refl
        (polled-IsSameRequest checked next attempts none r)
  polled-Follows checked next attempts (some x) r =
      stays r (polled checked next attempts (some x) r) refl refl refl refl refl refl
        (polled-IsSameRequest checked next attempts (some x) r)

  pub polled_id :
      (checked next attempts : ℕ) (o : Option ReviewReason) (r : TransferRequest)
      → (polled checked next attempts o r).id ≡ r.id
  polled_id checked next attempts none r = refl
  polled_id checked next attempts (some x) r = refl

  dispatched-Follows :
      (ref : String) (next : ℕ) (r : TransferRequest)
      → is_received r.status ≡ true
      → Follows r (dispatched ref next r)
  unfolding Follows MayFollow
  dispatched-Follows ref next r h =
      let e = was_received-lem r.status h in
      (
        subst (λ t. MayFollow t processing) (sym e) (inr refl),
        refl,
        refl,
        refl,
        dispatched-IsSameRequest ref next r,
        λ t. cc (rw e at t),
      )

  pub confirmed-Follows :
      (status : TransferStatus) (journal : Option ℕ) (reason : String) (r : TransferRequest)
      → status_is_terminal status ≡ true
      → is_processing r.status ≡ true
      → Follows r (confirmed status journal reason r)
  unfolding Follows MayFollow
  confirmed-Follows status journal reason r terminal h =
      let e = was_processing-lem r.status h in
      (
        subst (λ t. MayFollow t status) (sym e) (inr terminal),
        refl,
        refl,
        refl,
        confirmed-IsSameRequest status journal reason r,
        λ t. cc (rw e at t),
      )

  -- An update that leaves the ledger.
  update-Moves :
      (id : ℕ) (p : TransferRequest → Bool) (f : TransferRequest → TransferRequest)
      (db db' : TransferDatabase)
      → ((x : TransferRequest) → IsSameRequest x (f x))
      → ((x : TransferRequest) → p x ≡ true → Follows x (f x))
      → or_error {E = TransferError} (update_request id p f db) no_row_affected ≡ accepted db'
      → Moves db db'
  unfolding Moves
  update-Moves id p f db db' keeps follows h =
      let u = or_error-accepted _ no_row_affected db' h in
      let (ledger, events, rows) = update_request-lem id p f db db' u in
      (
        update-RowsFollow id p f db db' keeps follows u,
        inl ledger,
        λ key e. ap (has_event key) events ∙ e,
      )

  pub review-Moves :
      (id : ℕ) (reason : ReviewReason) (at : ℕ) (db db' : TransferDatabase)
      → or_error {E = TransferError}
          (update_request id anything (flagged reason at) db)
          no_row_affected
        ≡ accepted db'
      → Moves db db'
  review-Moves id reason at db db' h =
      update-Moves id anything (flagged reason at) db db' (flagged-IsSameRequest reason at)
        (λ x t. flagged-Follows reason at x) h

  pub advance_poll_schedule-Moves :
      (db db' : TransferDatabase) (r : TransferRequest) (kind : PollFailureKind) (now : ℕ)
      → advance_poll_schedule db r kind now ≡ accepted db'
      → Moves db db'
  unfolding advance_poll_schedule
  advance_poll_schedule-Moves db db' r kind now h =
      let next = now + backoff_interval (r.check_attempts + 1) in
      let attempts = r.check_attempts + 1 in
      let reason = review_reason_for_poll_failure kind now r.created_at in
      update-Moves r.id was_processing (polled now next attempts reason) db db'
        (polled-IsSameRequest now next attempts reason)
        (λ x t. polled-Follows now next attempts reason x) h

  pub handle_status_check_failure-Moves :
      (id now : ℕ) (db db' : TransferDatabase)
      → handle_status_check_failure id now db ≡ accepted db'
      → Moves db db'
  unfolding handle_status_check_failure
  handle_status_check_failure-Moves id now db db' h =
      let looked : Checked TransferError TransferRequest =
        or_error (find_request id db.requests) request_not_found in
      let (r, found, h1) = >>=-accepted looked _ db' h in
      elim (Bool-cases (is_processing r.status)) [
        | inl e ↦ advance_poll_schedule-Moves db db' r poll_failure_unreachable now (rw e at h1)
        | inr e ↦
            let same : accepted db ≡ accepted db' = rw e at h1 in
            let dbs : db ≡ db' = cc in subst (Moves db) dbs (Moves-refl db)
      ]

  pub handle_dispatch_failure-Moves :
      (id now : ℕ) (db db' : TransferDatabase)
      → handle_dispatch_failure id now db ≡ accepted db'
      → Moves db db'
  unfolding handle_dispatch_failure
  handle_dispatch_failure-Moves id now db db' h =
      let looked : Checked TransferError TransferRequest =
        or_error (find_request id db.requests) request_not_found in
      let (r, found, h1) = >>=-accepted looked _ db' h in
      elim (Bool-cases (is_received r.status)) [
        | inl e ↦
            let attempts = r.check_attempts + 1 in
            let next = now + backoff_interval attempts in
            update-Moves r.id was_received (rescheduled next attempts) db db'
              (rescheduled-IsSameRequest next attempts)
              (λ x t.
                stays x (rescheduled next attempts x) refl refl refl refl refl refl
                  (rescheduled-IsSameRequest next attempts x))
              (rw e at h1)
        | inr e ↦
            let same : accepted db ≡ accepted db' = rw e at h1 in
            let dbs : db ≡ db' = cc in subst (Moves db) dbs (Moves-refl db)
      ]

  pub dispatch-Moves :
      (r : TransferRequest) (answer : Option String) (now : ℕ) (db db' : TransferDatabase)
      → dispatch r answer now db ≡ accepted db'
      → Moves db db'
  unfolding dispatch
  dispatch-Moves r answer now db db' h = elim (Bool-cases (is_received r.status)) [
    | inl e ↦ elim (Option-cases answer) [
      | inl a ↦ handle_dispatch_failure-Moves r.id now db db' (rw (e, a) at h)
      | inr (ref, a) ↦
          update-Moves r.id was_received _ db db' (dispatched-IsSameRequest ref _)
            (λ x t. dispatched-Follows ref _ x t) (rw (e, a) at h)
    ]
    | inr e ↦
        let same : accepted db ≡ accepted db' = rw e at h in
        let dbs : db ≡ db' = cc in subst (Moves db) dbs (Moves-refl db)
  ]
