-- ===== src/Settlement/Types.antt =====
-- internal/model/account.go, journal.go and the input types of internal/service/ledger_service.go.
-- Texts that the source formats, such as `"order-hold:%d"`, are kept as their parts.
use text.Mathlib.Text.{◌==◌ as str_eq}
use go_exchange_back.Prelude.{ℕ, Bool, true, false, Option, none, some, String, List, ◌≡◌, refl}
use go_exchange_back.Packages.{Packages}
use go_exchange_back.Matching.Types.{Trade}

-- `model.AccountType` is a string: any other text is a value too.
pub data AccountType : Type 0 where
  user_available user_locked fee_income external_bank external_chain dev_mint : AccountType
  other_account : String → AccountType

-- `IsSystemAccountType`: a map from the types to true.
abbrev pub is_system_account_type : AccountType → Bool
is_system_account_type user_available = false
is_system_account_type user_locked = false
is_system_account_type fee_income = true
is_system_account_type external_bank = true
is_system_account_type external_chain = true
is_system_account_type dev_mint = true
is_system_account_type (other_account s) = false

pub data JournalEventType : Type 0 where
  deposit withdrawal order_hold order_release trade dev_fund reversal : JournalEventType
  other_event : String → JournalEventType

abbrev pub is_reversal : JournalEventType → Bool
is_reversal reversal = true
is_reversal _ = false

abbrev pub event_is_empty : JournalEventType → Bool
event_is_empty (other_event s) = str_eq s ""
event_is_empty _ = false

pub data JournalReferenceType : Type 0 where
  of_order of_trade of_transfer of_dev_fund : JournalReferenceType
  other_reference : String → JournalReferenceType

abbrev pub reference_is_empty : JournalReferenceType → Bool
reference_is_empty (other_reference s) = str_eq s ""
reference_is_empty _ = false

-- `order-hold:%d`, `order-release:%d:%s`, `trade:%s`, `reversal:%d`, the keys of transfers, or a
-- text that is given.
pub data IdempotencyKey : Type 0 where
  order_hold_key : ℕ → IdempotencyKey
  order_release_key : ℕ → String → IdempotencyKey
  trade_key : String → IdempotencyKey
  reversal_key withdraw_hold_key : ℕ → IdempotencyKey
  deposit_settle_key withdraw_settle_key withdraw_refund_key : String → IdempotencyKey
  text_key : String → IdempotencyKey

abbrev pub key_is_empty : IdempotencyKey → Bool
key_is_empty (text_key s) = str_eq s ""
key_is_empty _ = false

abbrev pub krw_asset_symbol : String
krw_asset_symbol = "KRW"

-- What a step returns, or the error with which it stops.
pub data Checked (E A : Type 0) : Type 0 where
  accepted : A → Checked E A
  rejected : E → Checked E A

infixl 5 ◌>>=◌
abbrev pub ◌>>=◌ : {E A B : Type 0} → Checked E A → (A → Checked E B) → Checked E B
accepted a >>= f = f a
rejected e >>= f = rejected e

-- Goes on where a check has found no error.
abbrev pub unless_error : {E : Type 0} → Option E → Checked E Unit
unless_error none = accepted tt
unless_error (some e) = rejected e

abbrev pub or_error : {E A : Type 0} → Option A → E → Checked E A
or_error none e = rejected e
or_error (some a) e = accepted a

abbrev pub guard : {E : Type 0} → Bool → E → Checked E Unit
guard true e = accepted tt
guard false e = rejected e

pub >>=-accepted :
    {E A B : Type 0} (m : Checked E A) (f : A → Checked E B) (b : B)
    → (m >>= f) ≡ accepted b
    → (a : A) × (m ≡ accepted a) × (f a ≡ accepted b)
>>=-accepted (accepted a) f b h = (a, refl, h)
>>=-accepted (rejected e) f b h = cc

pub unless_error-accepted :
    {E : Type 0} (o : Option E) (u : Unit) → unless_error o ≡ accepted u → o ≡ none
unless_error-accepted none u h = refl
unless_error-accepted (some e) u h = cc

pub or_error-accepted :
    {E A : Type 0} (o : Option A) (e : E) (a : A) → or_error o e ≡ accepted a → o ≡ some a
or_error-accepted none e a h = cc
or_error-accepted (some b) e a h = cc

pub guard-accepted : {E : Type 0} (b : Bool) (e : E) (u : Unit) → guard b e ≡ accepted u → b ≡ true
guard-accepted true e u h = refl
guard-accepted false e u h = cc

module _ ⦃pk : Packages⦄ where
  open pk use {Decimal}

  pub record PostingInput : Type 0 where
    pub account_type : AccountType
    pub owner_user_id : Option ℕ
    pub asset : String
    pub amount : Decimal

  pub record JournalInput : Type 0 where
    pub event_type : JournalEventType
    pub idempotency_key : IdempotencyKey
    pub reference_type : JournalReferenceType
    pub reference_id : ℕ
    pub reverses_journal_id : Option ℕ
    pub postings : List PostingInput

  -- `model.Trade`: what the engine emits, with the fields of settlement.
  pub record SettledTrade : Type 0 where
    pub emitted : Trade
    pub id : ℕ
    pub idempotency_key : String
    pub fee_rate : Decimal
    pub buyer_fee : Decimal
    pub buyer_fee_asset : String
    pub seller_fee : Decimal
    pub seller_fee_asset : String
