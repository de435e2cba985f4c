-- ===== src/Transfers/Journals.antt =====
-- The journals of transfers: the ledger takes each of them, and what a withdrawal has locked is
-- either spent or given back.
use text.Mathlib.Text.{◌==◌ as str_eq}
use go_exchange_back.Prelude.{
  ◌≡◌, refl, ap, subst, ◌∙◌, Bool, true, false, not, ltb, length, Option, none, some, inl, inr,
  String, if◌then◌else◌, Bool-cases, arith,
}
use go_exchange_back.Packages.{Packages}
use go_exchange_back.Settlement.Types.{
  is_system_account_type, is_reversal, event_is_empty, reference_is_empty, key_is_empty,
  user_available, user_locked, JournalInput,
}
use go_exchange_back.Settlement.Journal.{
  is_nil, same_bool, sum_from, check_postings, balances, validate_journal_input,
}
use go_exchange_back.Settlement.Balance.{
  add-zero, is_zero_pos, is_zero_neg, balances_lem, opposite, move-accepted,
}
use go_exchange_back.Settlement.Trades.{add-pos}
use go_exchange_back.Transfers.Types.{
  TransferDirection, into_exchange, out_of_exchange, other_direction, TransferRail, bank, chain,
  other_rail, TransferOutcome, success, failure, pending_outcome, unknown_outcome, other_outcome,
  TransferRequest,
}
use go_exchange_back.Transfers.Confirm.{
  external_account_type, locked_amount, withdrawal_hold_journal, deposit_journal,
  withdrawal_journal, refund_journal, confirmation_journal,
}

module _ ⦃pk : Packages⦄ where
  open pk use {
    Decimal, zero_decimal, add, neg, less_than, less_irrefl, less_total, add_comm, add_assoc,
    zero-add, neg-add,
  }

  -- What the request and its table ask for: a positive amount, a fee that is not negative and paid
  -- in the asset itself, and an asset.
  unfoldable pub IsSendable : TransferRequest → Type 0
  IsSendable r =
      (less_than zero_decimal r.amount ≡ true)
      × (less_than r.fee_amount zero_decimal ≡ false)
      × (r.fee_asset ≡ r.asset)
      × (str_eq r.asset "" ≡ false)

  locked-pos :
      (r : TransferRequest) → IsSendable r → less_than zero_decimal (locked_amount r) ≡ true
  unfolding IsSendable
  locked-pos r (pos, fee, same, asset) = add-pos r.amount r.fee_amount pos fee

  external-system :
      (rail : TransferRail) → is_system_account_type (external_account_type rail) ≡ true
  external-system bank = refl
  external-system chain = refl
  external-system (other_rail s) = refl

  deposit-valid :
      (r : TransferRequest) (ref : String)
      → IsSendable r
      → validate_journal_input (deposit_journal r ref) ≡ none
  unfolding deposit_journal validate_journal_input check_postings sum_from IsSendable
  deposit-valid r ref (pos, fee, same, asset) =
      let lines = (deposit_journal r ref).postings in
      let even : balances lines lines ≡ true =
        balances_lem lines lines (λ j. opposite (str_eq r.asset j) zero_decimal r.amount) in
      rw (asset, external-system r.rail, is_zero_neg r.amount pos, is_zero_pos r.amount pos, even)
        refl

  refund-valid :
      (r : TransferRequest) (ref : String)
      → IsSendable r
      → (validate_journal_input (refund_journal r ref) ≡ none)
        × (validate_journal_input (withdrawal_hold_journal r) ≡ none)
  unfolding refund_journal withdrawal_hold_journal validate_journal_input IsSendable
  refund-valid r ref (pos, fee, same, asset) =
      let locked = locked-pos r (pos, fee, same, asset) in
      let back =
        move-accepted user_locked user_available r.user_id r.asset (locked_amount r) refl refl
          locked asset in
      let hold =
        move-accepted user_available user_locked r.user_id r.asset (locked_amount r) refl refl
          locked asset in
      (rw (back.0, back.1) refl, rw (hold.0, hold.1) refl)

  valid_lem :
      (j : JournalInput)
      → key_is_empty j.idempotency_key ≡ false
      → event_is_empty j.event_type ≡ false
      → reference_is_empty j.reference_type ≡ false
      → same_bool (is_reversal j.event_type) (not (is_nil j.reverses_journal_id)) ≡ true
      → ltb (length j.postings) 2 ≡ false
      → check_postings j.postings ≡ none
      → balances j.postings j.postings ≡ true
      → validate_journal_input j ≡ none
  unfolding validate_journal_input
  valid_lem j k e f r l c b = rw (k, e, f, l, r, c, b) refl

  -- The lines of a settled withdrawal add up to nothing, with a fee and without one.
  spent :
      (b : Bool) (a f : Decimal)
      → (if b
          then add
              (if b
                then add (if b then add zero_decimal (neg (add a f)) else zero_decimal) a
                else (if b then add zero_decimal (neg (add a f)) else zero_decimal))
              f
          else (if b
              then add (if b then add zero_decimal (neg (add a f)) else zero_decimal) a
              else (if b then add zero_decimal (neg (add a f)) else zero_decimal)))
        ≡ zero_decimal
  spent true a f =
      add_assoc (add zero_decimal (neg (add a f))) a f
      ∙ ap (λ x. add x (add a f)) (zero-add (neg (add a f)))
      ∙ neg-add (add a f)
  spent false a f = refl

  withdrawal-even :
      (r : TransferRequest) (ref : String) (j : String)
      → IsSendable r
      → sum_from j zero_decimal (withdrawal_journal r ref).postings ≡ zero_decimal
  unfolding withdrawal_journal sum_from IsSendable
  withdrawal-even r ref j (pos, fee, same, asset) =
      elim (Bool-cases (less_than zero_decimal r.fee_amount)) [
        | inl e ↦ rw (e, same) (spent (str_eq r.asset j) r.amount r.fee_amount)
        | inr e ↦ rw e (
            rw (less_total r.fee_amount zero_decimal fee e, add-zero r.amount)
              (opposite (str_eq r.asset j) zero_decimal r.amount))
      ]

  withdrawal-checked :
      (r : TransferRequest) (ref : String)
      → IsSendable r
      → check_postings (withdrawal_journal r ref).postings ≡ none
  unfolding withdrawal_journal check_postings IsSendable
  withdrawal-checked r ref (pos, fee, same, asset) =
      let locked = is_zero_neg (locked_amount r) (locked-pos r (pos, fee, same, asset)) in
      let fee_named : str_eq r.fee_asset "" ≡ false = ap (λ x. str_eq x "") same ∙ asset in
      elim (Bool-cases (less_than zero_decimal r.fee_amount)) [
        | inl e ↦
            rw
              (
                e,
                fee_named,
                asset,
                external-system r.rail,
                locked,
                is_zero_pos r.amount pos,
                is_zero_pos r.fee_amount e,
              )
              refl
        | inr e ↦ rw (e, asset, external-system r.rail, locked, is_zero_pos r.amount pos) refl
      ]

  length-withdrawal :
      (r : TransferRequest) (ref : String)
      → ltb (length (withdrawal_journal r ref).postings) 2 ≡ false
  unfolding withdrawal_journal
  length-withdrawal r ref = ground arith

  withdrawal-valid :
      (r : TransferRequest) (ref : String)
      → IsSendable r
      → validate_journal_input (withdrawal_journal r ref) ≡ none
  unfolding withdrawal_journal
  withdrawal-valid r ref sendable =
      let lines = (withdrawal_journal r ref).postings in
      let even : balances lines lines ≡ true =
        balances_lem lines lines (λ j. withdrawal-even r ref j sendable) in
      valid_lem (withdrawal_journal r ref) refl refl refl refl (length-withdrawal r ref)
        (withdrawal-checked r ref sendable) even

  -- For a request with a positive amount, a fee that is not negative and paid in its own asset, and
  -- an asset, the journal of every confirmation passes `validateJournalInput`, and so does the hold
  -- of a withdrawal.
  pub confirmation-accepted :
      (r : TransferRequest) (ref : String) (outcome : TransferOutcome) (input : JournalInput)
      → IsSendable r
      → confirmation_journal r ref outcome ≡ some (some input)
      → (validate_journal_input input ≡ none)
        × (validate_journal_input (withdrawal_hold_journal r) ≡ none)
  unfolding confirmation_journal deposit_journal withdrawal_journal refund_journal
  confirmation-accepted r ref outcome input sendable h =
      (go r.direction outcome h, (refund-valid r ref sendable).1)
    where
      pick :
          (j : JournalInput)
          → validate_journal_input j ≡ none
          → ◌≡◌ {A = Option (Option JournalInput)} (some (some j)) (some (some input))
          → validate_journal_input input ≡ none
      pick j v e = let same : j ≡ input = cc in subst (λ x. validate_journal_input x ≡ none) same v

      go :
          (d : TransferDirection) (o : TransferOutcome)
          → confirmation_journal (record r { direction = d }) ref o ≡ some (some input)
          → validate_journal_input input ≡ none
      go into_exchange success e = pick (deposit_journal r ref) (deposit-valid r ref sendable) e
      go into_exchange failure e = cc
      go into_exchange pending_outcome e = cc
      go into_exchange unknown_outcome e = cc
      go into_exchange (other_outcome s) e = cc
      go out_of_exchange success e =
          pick (withdrawal_journal r ref) (withdrawal-valid r ref sendable) e
      go out_of_exchange failure e = pick (refund_journal r ref) (refund-valid r ref sendable).0 e
      go out_of_exchange pending_outcome e = cc
      go out_of_exchange unknown_outcome e = cc
      go out_of_exchange (other_outcome s) e = cc
      go (other_direction s) o e = cc
