-- ===== src/Transfers/Intake.antt =====
-- internal/service/transfer_service.go: `RequestDeposit`, `RequestWithdrawal` and the dispatch that
-- follows. The input is what `normalizeTransferInput` returns.
use text.Mathlib.Text.{◌==◌ as str_eq}
use go_exchange_back.Prelude.{
  ℕ, suc, Bool, ◌&&◌, not, Option, none, some, String, ◌∷◌, if◌then◌else◌,
}
use go_exchange_back.Packages.{Packages}
use go_exchange_back.Settlement.Types.{Checked, accepted, rejected, ◌>>=◌, or_error}
use go_exchange_back.Ledger.Tables.{JournalEntry}
use go_exchange_back.Transfers.Types.{
  TransferDirection, into_exchange, out_of_exchange, TransferRail, received, TransferRequest,
  TransferDatabase,
}
use go_exchange_back.Transfers.Requests.{find_request, set_hold_journal, find_by_user_request_key}
use go_exchange_back.Transfers.Confirm.{withdrawal_hold_journal}
use go_exchange_back.Transfers.Service.{
  TransferError, different_request, no_row_affected, request_not_found, same_direction, same_rail,
  record_in, dispatch,
}

module _ ⦃pk : Packages⦄ where
  open pk use {Decimal, zero_decimal, less_than}

  -- What `normalizeTransferInput` returns.
  pub record TransferInput : Type 0 where
    pub user_id : ℕ
    pub rail : TransferRail
    pub asset : String
    pub amount : Decimal
    pub client_request_key : String

  -- `sameTransferBody`.
  abbrev pub same_transfer_body : TransferRequest → TransferDirection → TransferInput → Bool
  same_transfer_body r direction input =
      same_direction r.direction direction
      && (same_rail r.rail input.rail
          && (str_eq r.asset input.asset
              && (not (less_than r.amount input.amount) && not (less_than input.amount r.amount))))

  abbrev pub candidate : ℕ → TransferDirection → TransferInput → ℕ → TransferRequest
  candidate id direction input now = record {
    id = id;
    user_id = input.user_id;
    direction = direction;
    rail = input.rail;
    asset = input.asset;
    amount = input.amount;
    fee_amount = zero_decimal;
    fee_asset = input.asset;
    status = received;
    client_request_key = input.client_request_key;
    external_ref = none;
    resolution_journal_id = none;
    hold_journal_id = none;
    last_checked_at = none;
    next_check_at = none;
    check_attempts = 0;
    review_required_at = none;
    review_reason = none;
    failure_reason = "";
    created_at = now;
  }

  abbrev pub insert_request : TransferDatabase → TransferRequest → TransferDatabase
  insert_request db r = record db {
    requests = r ∷ db.requests;
    next_request_id = suc db.next_request_id;
  }

  -- The request of a deposit: the row of the user's key, which is made where there is none.
  unfoldable pub accept_deposit :
      TransferInput
      → ℕ
      → TransferDatabase
      → Checked TransferError (TransferDatabase × TransferRequest)
  accept_deposit input now db =
      let r = candidate db.next_request_id into_exchange input now in
      elim (find_by_user_request_key input.user_id input.client_request_key db.requests) [
        | some old ↦
            if same_transfer_body old into_exchange input
            then accepted (db, old)
            else rejected different_request
        | none ↦ accepted (insert_request db r, r)
      ]

  -- The transaction of a withdrawal: a new row with the hold of its amount and its fee.
  unfoldable pub accept_withdrawal :
      TransferInput
      → ℕ
      → TransferDatabase
      → Checked TransferError (TransferDatabase × TransferRequest)
  accept_withdrawal input now db =
      let r = candidate db.next_request_id out_of_exchange input now in
      elim (find_by_user_request_key input.user_id input.client_request_key db.requests) [
        | some old ↦
            if same_transfer_body old out_of_exchange input
            then accepted (db, old)
            else rejected different_request
        | none ↦
            record_in (insert_request db r) (withdrawal_hold_journal r)
            >>= λ (held : TransferDatabase × JournalEntry).
                or_error (set_hold_journal r.id held.1.id held.0) no_row_affected >>= λ done.
                accepted (done, r)
      ]

  -- `dispatchAndReload`: an error of the dispatch is dropped. The tables after the dispatch are
  -- those of `dispatch`, or unchanged where it was rolled back.
  unfoldable pub dispatch_and_reload :
      TransferDatabase × TransferRequest
      → Option String
      → ℕ
      → Checked TransferError (TransferDatabase × TransferRequest)
  dispatch_and_reload (db, r) answer now = elim (dispatch r answer now db) [
    | accepted after ↦ or_error (find_request r.id after.requests) request_not_found >>= λ row.
        accepted (after, row)
    | rejected e ↦
        or_error (find_request r.id db.requests) request_not_found >>= λ row. accepted (db, row)
  ]

  -- `RequestDeposit` and `RequestWithdrawal`, with what `Submit` answers.
  unfoldable pub request_deposit :
      TransferInput
      → Option String
      → ℕ
      → TransferDatabase
      → Checked TransferError (TransferDatabase × TransferRequest)
  request_deposit input answer now db = do
    (after, r) ← accept_deposit input now db
    dispatch_and_reload (after, r) answer now

  unfoldable pub request_withdrawal :
      TransferInput
      → Option String
      → ℕ
      → TransferDatabase
      → Checked TransferError (TransferDatabase × TransferRequest)
  request_withdrawal input answer now db = do
    (after, r) ← accept_withdrawal input now db
    dispatch_and_reload (after, r) answer now
