-- ===== src/Settlement/Journal.antt =====
-- internal/service/ledger_service.go, `validateJournalInput`: what `Record` asks of every journal.
-- The map of sums is read as the sum of each asset's amounts in their order.
use text.Mathlib.Text.{◌==◌ as str_eq}
use go_exchange_back.Prelude.{
  ℕ, Bool, true, false, ◌&&◌, not, Option, none, some, String, List, [], ◌∷◌, ltb, if◌then◌else◌,
  length,
}
use go_exchange_back.Packages.{Packages}
use go_exchange_back.Settlement.Types.{
  PostingInput, JournalInput, is_system_account_type, is_reversal, event_is_empty,
  reference_is_empty, key_is_empty,
}

pub data JournalError : Type 0 where
  key_required event_type_required reference_type_required too_few_postings : JournalError
  reversal_mismatch asset_required amount_zero wrong_owner not_balanced : JournalError

abbrev pub is_nil : Option ℕ → Bool
is_nil none = true
is_nil (some n) = false

abbrev pub same_bool : Bool → Bool → Bool
same_bool true b = b
same_bool false b = not b

module _ ⦃pk : Packages⦄ where
  open pk use {Decimal, zero_decimal, add, less_than}

  abbrev pub is_zero : Decimal → Bool
  is_zero a = not (less_than a zero_decimal) && not (less_than zero_decimal a)

  -- `sums[asset]` after the loop, from a first amount on.
  unfoldable pub sum_from : String → Decimal → List PostingInput → Decimal
  sum_from asset acc [] = acc
  sum_from asset acc (p ∷ ps) =
      sum_from asset (if str_eq p.asset asset then add acc p.amount else acc) ps

  unfoldable pub check_postings : List PostingInput → Option JournalError
  check_postings [] = none
  check_postings (p ∷ ps) =
      let rest = check_postings ps in
      if str_eq p.asset ""
      then some asset_required
      else if is_zero p.amount
      then some amount_zero
      else if not (same_bool (is_system_account_type p.account_type) (is_nil p.owner_user_id))
      then some wrong_owner
      else rest

  -- Every asset that a posting names has the sum zero.
  unfoldable pub balances : List PostingInput → List PostingInput → Bool
  balances all [] = true
  balances all (p ∷ ps) = is_zero (sum_from p.asset zero_decimal all) && balances all ps

  unfoldable pub validate_journal_input : JournalInput → Option JournalError
  validate_journal_input j =
      if key_is_empty j.idempotency_key
      then some key_required
      else if event_is_empty j.event_type
      then some event_type_required
      else if reference_is_empty j.reference_type
      then some reference_type_required
      else if ltb (length j.postings) 2
      then some too_few_postings
      else if not (same_bool (is_reversal j.event_type) (not (is_nil j.reverses_journal_id)))
      then some reversal_mismatch
      else elim (check_postings j.postings) [
        | some err ↦ some err
        | none ↦ if balances j.postings j.postings then none else some not_balanced
      ]
