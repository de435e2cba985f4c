-- ===== src/Ledger/Tables.antt =====
-- internal/model/account.go and journal.go: the rows of the ledger's tables, and the tests by which
-- the source compares account keys, event types and idempotency keys.
use Prim.Native.Nat.{Ordering}
use Prim.Native.String.{compare}
use text.Mathlib.Text.{◌==◌ as str_eq}
use go_exchange_back.Prelude.{
  ℕ, Bool, true, false, ◌&&◌, not, Option, none, some, String, List, ◌==◌, ltb, if◌then◌else◌,
}
use go_exchange_back.Packages.{Packages}
use go_exchange_back.Settlement.Types.{
  AccountType, user_available, user_locked, fee_income, external_bank, external_chain, dev_mint,
  other_account, JournalEventType, deposit, withdrawal, order_hold, order_release, trade, dev_fund,
  reversal, other_event, JournalReferenceType, of_order, of_trade, of_transfer, of_dev_fund,
  other_reference, IdempotencyKey, order_hold_key, order_release_key, trade_key, reversal_key,
  withdraw_hold_key, deposit_settle_key, withdraw_settle_key, withdraw_refund_key, text_key,
}

-- The text of an account type, by which rows are sorted.
abbrev pub account_type_text : AccountType → String
account_type_text user_available = "USER_AVAILABLE"
account_type_text user_locked = "USER_LOCKED"
account_type_text fee_income = "FEE_INCOME"
account_type_text external_bank = "EXTERNAL_BANK"
account_type_text external_chain = "EXTERNAL_CHAIN"
account_type_text dev_mint = "DEV_MINT"
account_type_text (other_account s) = s

-- `AllowsNegativeBalance`.
abbrev pub allows_negative_balance : AccountType → Bool
allows_negative_balance external_bank = true
allows_negative_balance external_chain = true
allows_negative_balance dev_mint = true
allows_negative_balance _ = false

-- Two values are equal when they have the same code.
abbrev pub account_type_code : AccountType → ℕ × String
account_type_code user_available = (0, "")
account_type_code user_locked = (1, "")
account_type_code fee_income = (2, "")
account_type_code external_bank = (3, "")
account_type_code external_chain = (4, "")
account_type_code dev_mint = (5, "")
account_type_code (other_account s) = (6, s)

abbrev pub event_type_code : JournalEventType → ℕ × String
event_type_code deposit = (0, "")
event_type_code withdrawal = (1, "")
event_type_code order_hold = (2, "")
event_type_code order_release = (3, "")
event_type_code trade = (4, "")
event_type_code dev_fund = (5, "")
event_type_code reversal = (6, "")
event_type_code (other_event s) = (7, s)

abbrev pub reference_type_code : JournalReferenceType → ℕ × String
reference_type_code of_order = (0, "")
reference_type_code of_trade = (1, "")
reference_type_code of_transfer = (2, "")
reference_type_code of_dev_fund = (3, "")
reference_type_code (other_reference s) = (4, s)

abbrev pub idempotency_key_code : IdempotencyKey → ℕ × ℕ × String
idempotency_key_code (order_hold_key n) = (0, n, "")
idempotency_key_code (order_release_key n s) = (1, n, s)
idempotency_key_code (trade_key s) = (2, 0, s)
idempotency_key_code (reversal_key n) = (3, n, "")
idempotency_key_code (withdraw_hold_key n) = (4, n, "")
idempotency_key_code (deposit_settle_key s) = (5, 0, s)
idempotency_key_code (withdraw_settle_key s) = (6, 0, s)
idempotency_key_code (withdraw_refund_key s) = (7, 0, s)
idempotency_key_code (text_key s) = (8, 0, s)

abbrev pub same_code : ℕ × String → ℕ × String → Bool
same_code a b = a.0 == b.0 && str_eq a.1 b.1

abbrev pub same_idempotency_key : IdempotencyKey → IdempotencyKey → Bool
same_idempotency_key a b =
    let (tag, number, text) = idempotency_key_code a in
    let (tag', number', text') = idempotency_key_code b in
    tag == tag' && (number == number' && str_eq text text')

-- `equalUintPtr`.
unfoldable pub equal_uint_ptr : Option ℕ → Option ℕ → Bool
equal_uint_ptr none none = true
equal_uint_ptr none (some b) = false
equal_uint_ptr (some a) none = false
equal_uint_ptr (some a) (some b) = a == b

-- `ownerValue`: system accounts have the owner 0.
abbrev pub owner_value : Option ℕ → ℕ
owner_value none = 0
owner_value (some n) = n

pub record AccountKey : Type 0 where
  pub account_type : AccountType
  pub owner_user_id : ℕ
  pub asset : String

unfoldable pub new_account_key : AccountType → Option ℕ → String → AccountKey
new_account_key t owner asset = record {
  account_type = t;
  owner_user_id = owner_value owner;
  asset = asset;
}

unfoldable pub same_key : AccountKey → AccountKey → Bool
same_key a b =
    same_code (account_type_code a.account_type) (account_type_code b.account_type)
    && (a.owner_user_id == b.owner_user_id && str_eq a.asset b.asset)

abbrev pub text_less : String → String → Bool
text_less a b = elim (compare a b) [ Ordering.lt ↦ true | _ ↦ false ]

-- The comparison of the three parts in turn.
abbrev pub key_less : AccountKey → AccountKey → Bool
key_less a b =
    let s = account_type_text a.account_type in
    let t = account_type_text b.account_type in
    if not (str_eq s t)
    then text_less s t
    else if not (a.owner_user_id == b.owner_user_id)
    then ltb a.owner_user_id b.owner_user_id
    else text_less a.asset b.asset

pub record Account : Type 0 where
  pub id : ℕ
  pub account_type : AccountType
  pub owner_user_id : Option ℕ
  pub asset : String
  pub allows_negative : Bool

-- The table of accounts, the newest row first, with the next id.
pub record AccountTable : Type 0 where
  pub rows : List Account
  pub next_id : ℕ

pub record JournalEntry : Type 0 where
  pub id : ℕ
  pub event_type : JournalEventType
  pub idempotency_key : IdempotencyKey
  pub reference_type : JournalReferenceType
  pub reference_id : ℕ
  pub reverses_journal_id : Option ℕ

module _ ⦃pk : Packages⦄ where
  open pk use {Decimal}

  pub record Posting : Type 0 where
    pub id : ℕ
    pub journal_id : ℕ
    pub account_id : ℕ
    pub asset : String
    pub amount : Decimal

  pub record AccountBalance : Type 0 where
    pub account_id : ℕ
    pub balance : Decimal
    pub last_posting_id : ℕ

  -- The tables that the ledger writes: journals with the newest first, postings by their ids.
  pub record Database : Type 0 where
    pub accounts : AccountTable
    pub journals : List JournalEntry
    pub next_journal_id : ℕ
    pub postings : List Posting
    pub next_posting_id : ℕ
    pub balances : List AccountBalance
