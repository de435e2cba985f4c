-- ===== src/Transfers/Confirm.antt =====
-- internal/service/transfer_service.go: the journals of a transfer, its hold, its settlement and its
-- refund.
use go_exchange_back.Prelude.{ℕ, Option, none, some, String, List, [], ◌∷◌, ◌++◌, if◌then◌else◌}
use go_exchange_back.Packages.{Packages}
use go_exchange_back.Settlement.Types.{
  AccountType, user_available, user_locked, fee_income, external_bank, external_chain,
  JournalEventType, deposit, withdrawal, of_transfer, IdempotencyKey, withdraw_hold_key,
  deposit_settle_key, withdraw_settle_key, withdraw_refund_key, PostingInput, JournalInput,
}
use go_exchange_back.Settlement.Postings.{of_user}
use go_exchange_back.Transfers.Types.{
  into_exchange, out_of_exchange, TransferRail, chain, TransferOutcome, success, failure,
  TransferRequest,
}

abbrev pub external_account_type : TransferRail → AccountType
external_account_type chain = external_chain
external_account_type _ = external_bank

module _ ⦃pk : Packages⦄ where
  open pk use {Decimal, zero_decimal, add, neg, less_than}

  abbrev pub of_system : AccountType → String → Decimal → PostingInput
  of_system account asset amount = record {
    account_type = account;
    owner_user_id = none;
    asset = asset;
    amount = amount;
  }

  abbrev pub transfer_journal :
      JournalEventType → IdempotencyKey → ℕ → List PostingInput → JournalInput
  transfer_journal event key id postings = record {
    event_type = event;
    idempotency_key = key;
    reference_type = of_transfer;
    reference_id = id;
    reverses_journal_id = none;
    postings = postings;
  }

  -- The amount with its fee, which a withdrawal locks.
  abbrev pub locked_amount : TransferRequest → Decimal
  locked_amount r = add r.amount r.fee_amount

  -- The hold of `RequestWithdrawal`.
  unfoldable pub withdrawal_hold_journal : TransferRequest → JournalInput
  withdrawal_hold_journal r = transfer_journal withdrawal (withdraw_hold_key r.id) r.id (
      of_user user_available r.user_id r.asset (neg (locked_amount r))
      ∷ of_user user_locked r.user_id r.asset (locked_amount r)
      ∷ [])

  unfoldable pub deposit_journal : TransferRequest → String → JournalInput
  deposit_journal r ref = transfer_journal deposit (deposit_settle_key ref) r.id (
      of_system (external_account_type r.rail) r.asset (neg r.amount)
      ∷ of_user user_available r.user_id r.asset r.amount
      ∷ [])

  abbrev pub fee_line : TransferRequest → List PostingInput
  fee_line r =
      if less_than zero_decimal r.fee_amount
      then of_system fee_income r.fee_asset r.fee_amount ∷ []
      else []

  unfoldable pub withdrawal_journal : TransferRequest → String → JournalInput
  withdrawal_journal r ref = transfer_journal withdrawal (withdraw_settle_key ref) r.id (
      (of_user user_locked r.user_id r.asset (neg (locked_amount r))
        ∷ of_system (external_account_type r.rail) r.asset r.amount
        ∷ [])
      ++ fee_line r)

  unfoldable pub refund_journal : TransferRequest → String → JournalInput
  refund_journal r ref = transfer_journal withdrawal (withdraw_refund_key ref) r.id (
      of_user user_locked r.user_id r.asset (neg (locked_amount r))
      ∷ of_user user_available r.user_id r.asset (locked_amount r)
      ∷ [])

  -- The journal of a direction with an outcome, which only a failed deposit has not; `none` where
  -- the source reports a combination that it does not handle.
  unfoldable pub confirmation_journal :
      TransferRequest → String → TransferOutcome → Option (Option JournalInput)
  confirmation_journal r ref outcome = elim r.direction [
    | into_exchange ↦ elim outcome [
      | success ↦ some (some (deposit_journal r ref))
      | failure ↦ some none
      | _ ↦ none
    ]
    | out_of_exchange ↦ elim outcome [
      | success ↦ some (some (withdrawal_journal r ref))
      | failure ↦ some (some (refund_journal r ref))
      | _ ↦ none
    ]
    | _ ↦ none
  ]
