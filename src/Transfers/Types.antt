-- ===== src/Transfers/Types.antt =====
-- internal/model/transfer.go: the state machine of a transfer and its events. Times are counted in
-- nanoseconds; a text outside the constants of the source is kept by the constructors `other_…`.
use text.Mathlib.Text.{◌==◌ as str_eq}
use go_exchange_back.Prelude.{
  ℕ, Bool, true, false, ◌||◌, Option, none, some, String, List, [], ◌∷◌, filter, if◌then◌else◌,
}
use go_exchange_back.Packages.{Packages}
use go_exchange_back.Ledger.Tables.{Database}

pub data TransferDirection : Type 0 where
  into_exchange out_of_exchange : TransferDirection
  other_direction : String → TransferDirection

pub data TransferRail : Type 0 where
  bank chain : TransferRail
  other_rail : String → TransferRail

pub data TransferStatus : Type 0 where
  received processing completed failed : TransferStatus
  other_status : String → TransferStatus

pub data TransferOutcome : Type 0 where
  success failure pending_outcome unknown_outcome : TransferOutcome
  other_outcome : String → TransferOutcome

pub data TransferEventSource : Type 0 where
  callback poll : TransferEventSource

pub data ReviewReason : Type 0 where
  external_unknown external_unreachable pending_too_long : ReviewReason
  conflicting_terminal_outcome terminal_before_dispatch : ReviewReason

-- `TransferStatus.IsTerminal`.
abbrev pub status_is_terminal : TransferStatus → Bool
status_is_terminal completed = true
status_is_terminal failed = true
status_is_terminal _ = false

-- `TransferOutcome.IsTerminal`.
abbrev pub outcome_is_terminal : TransferOutcome → Bool
outcome_is_terminal success = true
outcome_is_terminal failure = true
outcome_is_terminal _ = false

abbrev pub is_received : TransferStatus → Bool
is_received received = true
is_received _ = false

abbrev pub is_processing : TransferStatus → Bool
is_processing processing = true
is_processing _ = false

-- A value of a payload is a text, or something that is no text.
pub data PayloadValue : Type 0 where
  text_value : String → PayloadValue
  other_value : String → PayloadValue

abbrev pub Payload : Type 0
Payload = List (String × PayloadValue)

-- `transferPayloadAllowedFields`.
abbrev pub is_allowed_field : String → Bool
is_allowed_field s =
    str_eq s "external_id"
    || str_eq s "status_code"
    || str_eq s "reason"
    || str_eq s "amount"
    || str_eq s "asset"
    || str_eq s "external_timestamp"

-- The fields that `encodeTransferPayload` keeps, before they are written as JSON.
unfoldable pub encode_transfer_payload : Payload → Option Payload
encode_transfer_payload [] = none
encode_transfer_payload ((k, v) ∷ fields) =
    elim (filter (λ f. is_allowed_field f.0) ((k, v) ∷ fields)) [
      | [] ↦ none
      | f ∷ rest ↦ some (f ∷ rest)
    ]

-- `failureReasonFromPayload`: a map has one value under a name.
unfoldable pub failure_reason_from_payload : Payload → String
failure_reason_from_payload [] = ""
failure_reason_from_payload ((k, text_value s) ∷ fields) =
    let rest = failure_reason_from_payload fields in if str_eq k "reason" then s else rest
failure_reason_from_payload ((k, other_value s) ∷ fields) =
    let rest = failure_reason_from_payload fields in if str_eq k "reason" then "" else rest

pub record TransferStatusEvent : Type 0 where
  pub transfer_request_id : ℕ
  pub source : TransferEventSource
  pub event_key : String
  pub outcome : TransferOutcome
  pub payload : Option Payload
  pub received_at : ℕ

module _ ⦃pk : Packages⦄ where
  open pk use {Decimal}

  pub record TransferRequest : Type 0 where
    pub id : ℕ
    pub user_id : ℕ
    pub direction : TransferDirection
    pub rail : TransferRail
    pub asset : String
    pub amount : Decimal
    pub fee_amount : Decimal
    pub fee_asset : String
    pub status : TransferStatus
    pub client_request_key : String
    pub external_ref : Option String
    pub resolution_journal_id : Option ℕ
    pub hold_journal_id : Option ℕ
    pub last_checked_at : Option ℕ
    pub next_check_at : Option ℕ
    pub check_attempts : ℕ
    pub review_required_at : Option ℕ
    pub review_reason : Option ReviewReason
    pub failure_reason : String
    pub created_at : ℕ

  -- The ledger with the tables of transfers.
  pub record TransferDatabase : Type 0 where
    pub ledger : Database
    pub requests : List TransferRequest
    pub next_request_id : ℕ
    pub events : List TransferStatusEvent
