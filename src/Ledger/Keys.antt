-- ===== src/Ledger/Keys.antt =====
-- Account keys that pass the test of the source are equal, and what that makes of the lookups by a
-- key or an id.
use text.Mathlib.Text.{◌==◌ as str_eq}
use text.Mathlib.TextEquality.{eq_iff}
use text.Mathlib.TextPositions.{eq_refl}
use go_exchange_back.Prelude.{
  ℕ, zero, suc, ◌≤◌, ◌<◌, ◌≡◌, refl, sym, ap, subst, ◌∙◌, Bool, true, false, ◌&&◌, none, some, inl,
  inr, String, List, [], ◌∷◌, ◌==◌, ==_iff, if◌then◌else◌, Bool-cases, arith,
}
use go_exchange_back.Settlement.Types.{
  AccountType, user_available, user_locked, fee_income, external_bank, external_chain, dev_mint,
  other_account,
}
use go_exchange_back.Ledger.Tables.{account_type_code, same_code, AccountKey, same_key, Account}
use go_exchange_back.Ledger.Accounts.{key_of, find_account, AccountSpec, is_asked, find_by_specs}
use go_exchange_back.Ledger.Record.{allows_negative, account_by_id}

pub and-left : (a b : Bool) → (a && b) ≡ true → a ≡ true
and-left true b h = refl
and-left false b h = cc

pub and-right : (a b : Bool) → (a && b) ≡ true → b ≡ true
and-right true b h = h
and-right false b h = cc

abbrev decode_type : ℕ → String → AccountType
decode_type zero s = user_available
decode_type (suc zero) s = user_locked
decode_type (suc (suc zero)) s = fee_income
decode_type (suc (suc (suc zero))) s = external_bank
decode_type (suc (suc (suc (suc zero)))) s = external_chain
decode_type (suc (suc (suc (suc (suc zero))))) s = dev_mint
decode_type n s = other_account s

decode-code : (t : AccountType) → decode_type (account_type_code t).0 (account_type_code t).1 ≡ t
decode-code user_available = refl
decode-code user_locked = refl
decode-code fee_income = refl
decode-code external_bank = refl
decode-code external_chain = refl
decode-code dev_mint = refl
decode-code (other_account s) = refl

pub same_code_refl : (a : ℕ × String) → same_code a a ≡ true
same_code_refl (n, s) = rw ((==_iff n n).1 refl, eq_refl s) refl

same_code_lem : (a b : ℕ × String) → same_code a b ≡ true → a ≡ b
same_code_lem (n, s) (m, t) h =
    let numbers : n ≡ m = (==_iff n m).0 (and-left (n == m) (str_eq s t) h) in
    let texts : s ≡ t = (eq_iff s t).0 (and-right (n == m) (str_eq s t) h) in cc

same_type_lem :
    (a b : AccountType) → same_code (account_type_code a) (account_type_code b) ≡ true → a ≡ b
same_type_lem a b h =
    let codes = same_code_lem (account_type_code a) (account_type_code b) h in
    sym (decode-code a) ∙ ap (λ (c : ℕ × String). decode_type c.0 c.1) codes ∙ decode-code b

pub same_key_refl : (k : AccountKey) → same_key k k ≡ true
unfolding same_key
same_key_refl k =
    rw
      (
        same_code_refl (account_type_code k.account_type),
        (==_iff k.owner_user_id k.owner_user_id).1 refl,
        eq_refl k.asset,
      )
      refl

pub same_key_lem : (a b : AccountKey) → same_key a b ≡ true → a ≡ b
unfolding same_key
same_key_lem a b h =
    let types = same_code (account_type_code a.account_type) (account_type_code b.account_type) in
    let owners = a.owner_user_id == b.owner_user_id in
    let assets = str_eq a.asset b.asset in
    let rest = and-right types (owners && assets) h in
    let t : a.account_type ≡ b.account_type =
      same_type_lem a.account_type b.account_type (and-left types (owners && assets) h) in
    let o : a.owner_user_id ≡ b.owner_user_id =
      (==_iff a.owner_user_id b.owner_user_id).0 (and-left owners assets rest) in
    let s : a.asset ≡ b.asset = (eq_iff a.asset b.asset).0 (and-right owners assets rest) in
    λ i. record { account_type = t i; owner_user_id = o i; asset = s i }

-- Each row has a smaller id than every newer one.
abbrev pub Descending : ℕ → List Account → Type 0
Descending n [] = Unit
Descending n (a ∷ rows) = (a.id < n) × Descending a.id rows

pub find_account_key :
    (k : AccountKey) (rows : List Account) (a : Account)
    → find_account k rows ≡ some a
    → key_of a ≡ k
unfolding find_account
find_account_key k [] a h = cc
find_account_key k (b ∷ rows) a h = elim (Bool-cases (same_key (key_of b) k)) [
  | inl e ↦
      let same : some b ≡ some a = rw e at h in
      let row : b ≡ a = cc in subst (λ x. key_of x ≡ k) row (same_key_lem (key_of b) k e)
  | inr e ↦ find_account_key k rows a (rw e at h)
]

-- The rows that the specs ask for give each key that is asked for the account it has.
pub find_account-by_specs :
    (specs : List AccountSpec) (k : AccountKey) (rows : List Account)
    → find_account k (find_by_specs specs rows)
      ≡ (if is_asked specs k then find_account k rows else none)
unfolding find_account find_by_specs
find_account-by_specs specs k [] = elim (Bool-cases (is_asked specs k)) [
  | inl e ↦ rw e refl
  | inr e ↦ rw e refl
]
find_account-by_specs specs k (b ∷ rows) = elim (Bool-cases (same_key (key_of b) k)) [
  | inl e ↦
      let key : key_of b ≡ k = same_key_lem (key_of b) k e in
      elim (Bool-cases (is_asked specs k)) [
        | inl asked ↦ rw (ap (is_asked specs) key ∙ asked, e, asked) refl
        | inr asked ↦
            rw (ap (is_asked specs) key ∙ asked, asked)
              (find_account-by_specs specs k rows ∙ rw asked refl)
      ]
  | inr e ↦ elim (Bool-cases (is_asked specs (key_of b))) [
    | inl asked ↦ rw (asked, e) (find_account-by_specs specs k rows)
    | inr asked ↦ rw (asked, e) (find_account-by_specs specs k rows)
  ]
]

pub find_account_found :
    (specs : List AccountSpec) (k : AccountKey) (rows : List Account) (a : Account)
    → find_account k (find_by_specs specs rows) ≡ some a
    → find_account k rows ≡ some a
find_account_found specs k rows a h =
    let found = find_account-by_specs specs k rows in
    elim (Bool-cases (is_asked specs k)) [
      | inl e ↦ sym (rw e at found) ∙ h
      | inr e ↦ cc (rw e at found)
    ]

pub find_account-below :
    (n : ℕ) (k : AccountKey) (rows : List Account) (a : Account)
    → Descending n rows
    → find_account k rows ≡ some a
    → a.id < n
unfolding find_account
find_account-below n k [] a d h = cc
find_account-below n k (b ∷ rows) a d h = elim (Bool-cases (same_key (key_of b) k)) [
  | inl e ↦
      let same : some b ≡ some a = rw e at h in
      let row : b ≡ a = cc in subst (λ (x : Account). x.id < n) row d.0
  | inr e ↦ let below = find_account-below b.id k rows a d.1 (rw e at h) in omega (arith, d.0)
]

-- The account of a key is also the account of its id.
pub account_by_id_found :
    (n : ℕ) (k : AccountKey) (rows : List Account) (a : Account)
    → Descending n rows
    → find_account k rows ≡ some a
    → account_by_id a.id rows ≡ some a
unfolding find_account account_by_id
account_by_id_found n k [] a d h = cc
account_by_id_found n k (b ∷ rows) a d h = elim (Bool-cases (same_key (key_of b) k)) [
  | inl e ↦
      let same : some b ≡ some a = rw e at h in
      let row : b ≡ a = cc in
      subst (λ x. (if b.id == x.id then some b else account_by_id x.id rows) ≡ some x) row
        (rw ((==_iff b.id b.id).1 refl) refl)
  | inr e ↦
      let below = find_account-below b.id k rows a d.1 (rw e at h) in
      let apart : (b.id == a.id) ≡ false = ground (arith, below) in
      rw apart (account_by_id_found b.id k rows a d.1 (rw e at h))
]

-- Two keys that have accounts of one id are equal.
pub same_id-same_key :
    (n : ℕ) (k j : AccountKey) (rows : List Account) (a b : Account)
    → Descending n rows
    → find_account k rows ≡ some a
    → find_account j rows ≡ some b
    → a.id ≡ b.id
    → k ≡ j
same_id-same_key n k j rows a b d h g same =
    let one = account_by_id_found n k rows a d h in
    let two = account_by_id_found n j rows b d g in
    let rows_agree : some a ≡ some b = sym one ∙ ap (λ i. account_by_id i rows) same ∙ two in
    let accounts : a ≡ b = cc in
    sym (find_account_key k rows a h) ∙ ap key_of accounts ∙ find_account_key j rows b g

pub allows_negative-fresh :
    (n id : ℕ) (rows : List Account) → Descending n rows → n ≤ id → allows_negative id rows ≡ false
unfolding allows_negative
allows_negative-fresh n id [] d h = refl
allows_negative-fresh n id (a ∷ rows) d h =
    let apart : (a.id == id) ≡ false = ground (arith, d.0) in
    rw apart (allows_negative-fresh a.id id rows d.1 (omega (arith, d.0)))

-- What is not allowed in the table is not allowed in the rows that were found.
pub allows_negative-found :
    (n id : ℕ) (specs : List AccountSpec) (rows : List Account)
    → Descending n rows
    → allows_negative id rows ≡ false
    → allows_negative id (find_by_specs specs rows) ≡ false
unfolding allows_negative find_by_specs
allows_negative-found n id specs [] d h = refl
allows_negative-found n id specs (a ∷ rows) d h = elim (Bool-cases (a.id == id)) [
  | inl e ↦
      let this : a.allows_negative ≡ false = rw e at h in
      let older : allows_negative id rows ≡ false =
        allows_negative-fresh a.id id rows d.1 (ground arith) in
      let rest = allows_negative-found a.id id specs rows d.1 older in
      elim (Bool-cases (is_asked specs (key_of a))) [
        | inl asked ↦ rw (asked, e) this
        | inr asked ↦ rw asked rest
      ]
  | inr e ↦
      let rest = allows_negative-found a.id id specs rows d.1 (rw e at h) in
      elim (Bool-cases (is_asked specs (key_of a))) [
        | inl asked ↦ rw (asked, e) rest
        | inr asked ↦ rw asked rest
      ]
]
