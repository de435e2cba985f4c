-- ===== src/Ledger/Accounts.antt =====
-- internal/repository/account_repository.go: rows of accounts and balances are made where they are
-- missing, and balances are read in the order of their accounts.
use go_exchange_back.Prelude.{
  ℕ, suc, Bool, Option, none, some, String, List, [], ◌∷◌, map, length, ◌==◌, ltb, any, filter,
  sort_by, if◌then◌else◌,
}
use go_exchange_back.Packages.{Packages}
use go_exchange_back.Settlement.Types.{AccountType}
use go_exchange_back.Ledger.Tables.{
  allows_negative_balance, AccountKey, new_account_key, same_key, key_less, Account, AccountTable,
  AccountBalance,
}

pub record AccountSpec : Type 0 where
  pub account_type : AccountType
  pub owner_user_id : Option ℕ
  pub asset : String

abbrev pub spec_key : AccountSpec → AccountKey
spec_key s = new_account_key s.account_type s.owner_user_id s.asset

abbrev pub key_of : Account → AccountKey
key_of a = new_account_key a.account_type a.owner_user_id a.asset

-- The specs without repetition, the first of each key.
unfoldable pub unique_specs : List AccountKey → List AccountSpec → List AccountSpec
unique_specs seen [] = []
unique_specs seen (s ∷ ss) =
    if any (same_key (spec_key s)) seen
    then unique_specs seen ss
    else s ∷ unique_specs (spec_key s ∷ seen) ss

abbrev pub spec_less : AccountSpec → AccountSpec → Bool
spec_less a b = key_less (spec_key a) (spec_key b)

unfoldable pub find_account : AccountKey → List Account → Option Account
find_account k [] = none
find_account k (a ∷ rows) = if same_key (key_of a) k then some a else find_account k rows

abbrev pub new_account : ℕ → AccountSpec → Account
new_account id s = record {
  id = id;
  account_type = s.account_type;
  owner_user_id = s.owner_user_id;
  asset = s.asset;
  allows_negative = allows_negative_balance s.account_type;
}

-- An `INSERT` that does nothing where an account of the key is there.
unfoldable pub insert_account : AccountTable → AccountSpec → AccountTable
insert_account t s = elim (find_account (spec_key s) t.rows) [
  | some a ↦ t
  | none ↦ record { rows = new_account t.next_id s ∷ t.rows; next_id = suc t.next_id }
]

unfoldable pub insert_accounts : AccountTable → List AccountSpec → AccountTable
insert_accounts t [] = t
insert_accounts t (s ∷ ss) = insert_accounts (insert_account t s) ss

-- Is there a spec of the key?
unfoldable pub is_asked : List AccountSpec → AccountKey → Bool
is_asked specs k = any (λ s. same_key (spec_key s) k) specs

unfoldable pub find_by_specs : List AccountSpec → List Account → List Account
find_by_specs specs rows = filter (λ a. is_asked specs (key_of a)) rows

module _ ⦃pk : Packages⦄ where
  open pk use {zero_decimal}

  abbrev pub has_balance : ℕ → List AccountBalance → Bool
  has_balance id rows = any (λ r. r.account_id == id) rows

  unfoldable pub ensure_balance_row : ℕ → List AccountBalance → List AccountBalance
  ensure_balance_row id rows =
      if has_balance id rows
      then rows
      else record { account_id = id; balance = zero_decimal; last_posting_id = 0 } ∷ rows

  unfoldable pub ensure_balance_rows : List ℕ → List AccountBalance → List AccountBalance
  ensure_balance_rows [] rows = rows
  ensure_balance_rows (id ∷ ids) rows = ensure_balance_rows ids (ensure_balance_row id rows)

  abbrev pub row_less : AccountBalance → AccountBalance → Bool
  row_less a b = ltb a.account_id b.account_id

  abbrev pub is_locked : List ℕ → AccountBalance → Bool
  is_locked ids r = any (λ i. i == r.account_id) ids

  -- `LockBalances`: `none` where a row is missing.
  unfoldable pub lock_balances : List ℕ → List AccountBalance → Option (List AccountBalance)
  lock_balances ids rows =
      let locked = sort_by row_less (filter (is_locked ids) rows) in
      if length locked == length ids then some locked else none

  -- The tables after `EnsureAccounts` with the rows of the specs; `none` where a row is missing.
  unfoldable pub ensure_accounts :
      AccountTable
      → List AccountBalance
      → List AccountSpec
      → Option (AccountTable × List AccountBalance × List Account)
  ensure_accounts t balances specs =
      let unique = sort_by spec_less (unique_specs [] specs) in
      let table = insert_accounts t unique in
      let found = find_by_specs unique table.rows in
      if length found == length unique
      then some (table, ensure_balance_rows (sort_by ltb (map (λ a. a.id) found)) balances, found)
      else none
