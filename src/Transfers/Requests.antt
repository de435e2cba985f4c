-- ===== src/Transfers/Requests.antt =====
-- internal/repository/transfer_repository.go: the updates of a request, each with its condition on
-- the status. The column `updated_at` is left out.
use text.Mathlib.Text.{◌==◌ as str_eq}
use go_exchange_back.Prelude.{
  ℕ, Bool, true, ◌&&◌, Option, none, some, String, List, [], ◌∷◌, ◌==◌, any, map, if◌then◌else◌,
}
use go_exchange_back.Packages.{Packages}
use go_exchange_back.Transfers.Types.{
  TransferStatus, processing, is_received, is_processing, ReviewReason, TransferStatusEvent,
  TransferRequest, TransferDatabase,
}

-- `COALESCE`.
abbrev pub coalesce : {A : Type 0} → Option A → A → A
coalesce none b = b
coalesce (some a) b = a

module _ ⦃pk : Packages⦄ where
  -- `LockByID`.
  unfoldable pub find_request : ℕ → List TransferRequest → Option TransferRequest
  find_request id [] = none
  find_request id (r ∷ rs) = if r.id == id then some r else find_request id rs

  -- An `UPDATE` of the row of an id that satisfies a condition; `none` where it affects no row.
  unfoldable pub update_request :
      ℕ
      → (TransferRequest → Bool)
      → (TransferRequest → TransferRequest)
      → TransferDatabase
      → Option TransferDatabase
  update_request id p f db =
      if any (λ r. r.id == id && p r) db.requests
      then some
          (record db { requests = map (λ r. if r.id == id && p r then f r else r) db.requests })
      else none

  abbrev pub anything : TransferRequest → Bool
  anything r = true

  abbrev pub was_received : TransferRequest → Bool
  was_received r = is_received r.status

  abbrev pub was_processing : TransferRequest → Bool
  was_processing r = is_processing r.status

  abbrev pub with_hold : ℕ → TransferRequest → TransferRequest
  with_hold journal r = record r { hold_journal_id = some journal }

  abbrev pub set_hold_journal : ℕ → ℕ → TransferDatabase → Option TransferDatabase
  set_hold_journal id journal db = update_request id anything (with_hold journal) db

  abbrev pub dispatched : String → ℕ → TransferRequest → TransferRequest
  dispatched ref next r = record r {
    status = processing;
    external_ref = some ref;
    next_check_at = some next;
    check_attempts = 0;
  }

  abbrev pub set_dispatched : ℕ → String → ℕ → TransferDatabase → Option TransferDatabase
  set_dispatched id ref next db = update_request id was_received (dispatched ref next) db

  abbrev pub rescheduled : ℕ → ℕ → TransferRequest → TransferRequest
  rescheduled next attempts r = record r { next_check_at = some next; check_attempts = attempts }

  abbrev pub advance_dispatch_schedule : ℕ → ℕ → ℕ → TransferDatabase → Option TransferDatabase
  advance_dispatch_schedule id next attempts db =
      update_request id was_received (rescheduled next attempts) db

  abbrev pub confirmed : TransferStatus → Option ℕ → String → TransferRequest → TransferRequest
  confirmed status journal reason r = record r {
    status = status;
    resolution_journal_id = journal;
    review_required_at = none;
    review_reason = none;
    next_check_at = none;
    failure_reason = reason;
  }

  -- `ConfirmTerminal`.
  abbrev pub set_confirmed :
      ℕ → TransferStatus → Option ℕ → String → TransferDatabase → Option TransferDatabase
  set_confirmed id status journal reason db =
      update_request id was_processing (confirmed status journal reason) db

  abbrev pub flagged : ReviewReason → ℕ → TransferRequest → TransferRequest
  flagged reason at r = record r {
    review_required_at = some (coalesce r.review_required_at at);
    review_reason = some reason;
  }

  abbrev pub set_review_required : ℕ → ReviewReason → ℕ → TransferDatabase → Option TransferDatabase
  set_review_required id reason at db = update_request id anything (flagged reason at) db

  abbrev pub flagged_or_not : Option ReviewReason → ℕ → TransferRequest → TransferRequest
  flagged_or_not none at r = r
  flagged_or_not (some reason) at r = flagged reason at r

  abbrev pub polled : ℕ → ℕ → ℕ → Option ReviewReason → TransferRequest → TransferRequest
  polled checked next attempts reason r = flagged_or_not reason checked (record r {
    last_checked_at = some checked;
    next_check_at = some next;
    check_attempts = attempts;
  })

  abbrev pub update_poll_schedule :
      ℕ → ℕ → ℕ → ℕ → Option ReviewReason → TransferDatabase → Option TransferDatabase
  update_poll_schedule id checked next attempts reason db =
      update_request id was_processing (polled checked next attempts reason) db

  abbrev pub has_event : String → List TransferStatusEvent → Bool
  has_event key events = any (λ e. str_eq e.event_key key) events

  -- `InsertOrGetByUserRequestKey`, the search for a row of the user's key.
  unfoldable pub find_by_user_request_key :
      ℕ → String → List TransferRequest → Option TransferRequest
  find_by_user_request_key user key [] = none
  find_by_user_request_key user key (r ∷ rs) =
      if r.user_id == user && str_eq r.client_request_key key
      then some r
      else find_by_user_request_key user key rs
