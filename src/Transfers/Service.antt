-- ===== src/Transfers/Service.antt =====
-- internal/service/transfer_service.go: the operations of `TransferService`. Each runs in one
-- transaction, so a rejected call leaves the tables as they were. The time and what the outside
-- world answers are arguments.
use text.Mathlib.Text.{◌==◌ as str_eq}
use go_exchange_back.Prelude.{
  ℕ, ◌+◌, Bool, true, false, ◌||◌, not, Option, none, some, String, ◌∷◌, ◌==◌, if◌then◌else◌,
}
use go_exchange_back.Packages.{Packages}
use go_exchange_back.Settlement.Types.{
  JournalInput, Checked, accepted, rejected, ◌>>=◌, guard, or_error,
}
use go_exchange_back.Ledger.Tables.{JournalEntry}
use go_exchange_back.Ledger.Record.{LedgerError, record_journal}
use go_exchange_back.Transfers.Types.{
  TransferDirection, into_exchange, out_of_exchange, other_direction, TransferRail, bank, chain,
  other_rail, TransferStatus, received, processing, completed, failed, other_status,
  TransferOutcome, success, failure, unknown_outcome, TransferEventSource, poll,
  terminal_before_dispatch, conflicting_terminal_outcome, outcome_is_terminal, is_received,
  is_processing, Payload, encode_transfer_payload, failure_reason_from_payload, TransferStatusEvent,
  TransferRequest, TransferDatabase,
}
use go_exchange_back.Transfers.Requests.{
  find_request, set_dispatched, advance_dispatch_schedule, set_confirmed, set_review_required,
  update_poll_schedule, has_event,
}
use go_exchange_back.Transfers.Confirm.{confirmation_journal}
use go_exchange_back.Transfers.Schedule.{
  poll_base_interval, backoff_interval, PollFailureKind, poll_failure_unknown, poll_failure_pending,
  poll_failure_unreachable, review_reason_for_poll_failure,
}

-- `matchesTerminalOutcome`.
unfoldable pub matches_terminal_outcome : TransferStatus → TransferOutcome → Bool
matches_terminal_outcome completed success = true
matches_terminal_outcome failed failure = true
matches_terminal_outcome _ _ = false

abbrev pub same_direction : TransferDirection → TransferDirection → Bool
same_direction into_exchange into_exchange = true
same_direction out_of_exchange out_of_exchange = true
same_direction (other_direction s) (other_direction t) = str_eq s t
same_direction _ _ = false

abbrev pub same_rail : TransferRail → TransferRail → Bool
same_rail bank bank = true
same_rail chain chain = true
same_rail (other_rail s) (other_rail t) = str_eq s t
same_rail _ _ = false

module _ ⦃pk : Packages⦄ where
  open pk use {Decimal, zero_decimal, less_than}

  pub data TransferError : Type 0 where
    not_terminal not_open id_or_key_missing request_not_found unexpected_status : TransferError
    not_dispatched no_external_ref unhandled_combination no_row_affected : TransferError
    different_request submit_failed : TransferError
    ledger_refused : LedgerError → TransferError

  -- `Record` on the ledger of the tables.
  unfoldable pub record_in :
      TransferDatabase → JournalInput → Checked TransferError (TransferDatabase × JournalEntry)
  record_in db input = elim (record_journal db.ledger input) [
    | rejected e ↦ rejected (ledger_refused e)
    | accepted (ledger, entry, created) ↦ accepted (record db { ledger = ledger }, entry)
  ]

  -- The tables with the journal of a confirmation and its id; a failed deposit has none.
  unfoldable pub record_confirmation_journal :
      TransferDatabase
      → TransferRequest
      → TransferOutcome
      → Checked TransferError (TransferDatabase × Option ℕ)
  record_confirmation_journal db r outcome = do
    ref ← or_error r.external_ref no_external_ref
    journal ← or_error (confirmation_journal r ref outcome) unhandled_combination
    elim journal [
      | none ↦ accepted (db, none)
      | some input ↦ record_in db input >>= λ (recorded : TransferDatabase × JournalEntry).
          accepted (recorded.0, some recorded.1.id)
    ]

  abbrev pub status_for : TransferOutcome → TransferStatus
  status_for success = completed
  status_for _ = failed

  abbrev pub reason_for : TransferOutcome → Payload → String
  reason_for success payload = ""
  reason_for _ payload = failure_reason_from_payload payload

  unfoldable pub confirm_terminal :
      TransferDatabase
      → TransferRequest
      → TransferOutcome
      → Payload
      → Checked TransferError TransferDatabase
  confirm_terminal db r outcome payload = do
    (recorded, journal) ← record_confirmation_journal db r outcome
    or_error (set_confirmed r.id (status_for outcome) journal (reason_for outcome payload) recorded)
        no_row_affected

  pub record ResolveInput : Type 0 where
    pub transfer_request_id : ℕ
    pub source : TransferEventSource
    pub event_key : String
    pub outcome : TransferOutcome
    pub payload : Payload

  abbrev pub new_event : ResolveInput → ℕ → TransferStatusEvent
  new_event input now = record {
    transfer_request_id = input.transfer_request_id;
    source = input.source;
    event_key = input.event_key;
    outcome = input.outcome;
    payload = encode_transfer_payload input.payload;
    received_at = now;
  }

  abbrev pub insert_event : TransferDatabase → TransferStatusEvent → TransferDatabase
  insert_event db e = record db { events = e ∷ db.events }

  -- The `switch` of `ResolveTransfer` on the status that was read under the lock.
  unfoldable pub resolve_by_status :
      TransferDatabase → TransferRequest → ResolveInput → ℕ → Checked TransferError TransferDatabase
  resolve_by_status db r input now = elim r.status [
    | received ↦ or_error (set_review_required r.id terminal_before_dispatch now db) no_row_affected
    | processing ↦ confirm_terminal db r input.outcome input.payload
    | completed ↦
        if matches_terminal_outcome completed input.outcome
        then accepted db
        else or_error (set_review_required r.id conflicting_terminal_outcome now db) no_row_affected
    | failed ↦
        if matches_terminal_outcome failed input.outcome
        then accepted db
        else or_error (set_review_required r.id conflicting_terminal_outcome now db) no_row_affected
    | other_status s ↦ rejected unexpected_status
  ]

  -- `ResolveTransfer`.
  unfoldable pub resolve_transfer :
      ResolveInput → ℕ → TransferDatabase → Checked TransferError TransferDatabase
  resolve_transfer input now db = do
    _ ← guard (outcome_is_terminal input.outcome) not_terminal
    _ ← guard (not (input.transfer_request_id == 0 || str_eq input.event_key "")) id_or_key_missing
    r ← or_error (find_request input.transfer_request_id db.requests) request_not_found
    if has_event input.event_key db.events
        then accepted db
        else resolve_by_status (insert_event db (new_event input now)) r input now

  unfoldable pub advance_poll_schedule :
      TransferDatabase
      → TransferRequest
      → PollFailureKind
      → ℕ
      → Checked TransferError TransferDatabase
  advance_poll_schedule db r kind now =
      or_error
        (update_poll_schedule r.id now (now + backoff_interval (r.check_attempts + 1))
          (r.check_attempts + 1) (review_reason_for_poll_failure kind now r.created_at) db)
        no_row_affected

  -- `updatePollSchedule` chooses the kind.
  abbrev pub kind_of : TransferOutcome → PollFailureKind
  kind_of unknown_outcome = poll_failure_unknown
  kind_of _ = poll_failure_pending

  unfoldable pub observe_by_status :
      TransferDatabase
      → TransferRequest
      → TransferOutcome
      → ℕ
      → Checked TransferError TransferDatabase
  observe_by_status db r outcome now = elim r.status [
    | processing ↦ advance_poll_schedule db r (kind_of outcome) now
    | completed ↦ accepted db
    | failed ↦ accepted db
    | received ↦ rejected not_dispatched
    | other_status s ↦ rejected unexpected_status
  ]

  -- `RecordObservation`: its input has no source, since its event comes from a poll.
  unfoldable pub record_observation :
      ResolveInput → ℕ → TransferDatabase → Checked TransferError TransferDatabase
  record_observation input now db = do
    _ ← guard (not (outcome_is_terminal input.outcome)) not_open
    _ ← guard (not (input.transfer_request_id == 0 || str_eq input.event_key "")) id_or_key_missing
    r ← or_error (find_request input.transfer_request_id db.requests) request_not_found
    if has_event input.event_key db.events
        then accepted db
        else observe_by_status (insert_event db (new_event (record input { source = poll }) now)) r
            input.outcome now

  -- `HandleStatusCheckFailure`.
  unfoldable pub handle_status_check_failure :
      ℕ → ℕ → TransferDatabase → Checked TransferError TransferDatabase
  handle_status_check_failure id now db = do
    r ← or_error (find_request id db.requests) request_not_found
    if not (is_processing r.status)
        then accepted db
        else advance_poll_schedule db r poll_failure_unreachable now

  -- `HandleDispatchFailure`.
  unfoldable pub handle_dispatch_failure :
      ℕ → ℕ → TransferDatabase → Checked TransferError TransferDatabase
  handle_dispatch_failure id now db = do
    r ← or_error (find_request id db.requests) request_not_found
    if not (is_received r.status)
        then accepted db
        else or_error
            (advance_dispatch_schedule r.id (now + backoff_interval (r.check_attempts + 1))
              (r.check_attempts + 1) db)
            no_row_affected

  -- `Dispatch`, with the tables that it leaves: `answer` is what `Submit` returns for the request,
  -- `none` for an error, which is handed on after the schedule has moved.
  unfoldable pub dispatch :
      TransferRequest
      → Option String
      → ℕ
      → TransferDatabase
      → Checked TransferError TransferDatabase
  dispatch r answer now db = if not (is_received r.status) then accepted db else elim answer [
    | none ↦ handle_dispatch_failure r.id now db
    | some ref ↦ or_error (set_dispatched r.id ref (now + poll_base_interval) db) no_row_affected
  ]
