-- ===== src/Ledger/Journals.antt =====
-- internal/repository/journal_repository.go: journals by their idempotency key, postings with their
-- ids, and the balances that postings change.
use go_exchange_back.Prelude.{
  ℕ, suc, Bool, false, Option, none, some, List, [], ◌∷◌, map, length, ◌==◌, ltb, any, filter,
  if◌then◌else◌,
}
use go_exchange_back.Packages.{Packages}
use go_exchange_back.Settlement.Types.{IdempotencyKey, JournalInput}
use go_exchange_back.Ledger.Tables.{
  same_idempotency_key, equal_uint_ptr, JournalEntry, Posting, AccountBalance, Database,
}

unfoldable pub find_entry : IdempotencyKey → List JournalEntry → Option JournalEntry
find_entry k [] = none
find_entry k (e ∷ es) = if same_idempotency_key e.idempotency_key k then some e else find_entry k es

unfoldable pub find_entry_by_id : ℕ → List JournalEntry → Option JournalEntry
find_entry_by_id id [] = none
find_entry_by_id id (e ∷ es) = if e.id == id then some e else find_entry_by_id id es

-- Does a journal reverse this one already?
unfoldable pub is_reversed : Option ℕ → List JournalEntry → Bool
is_reversed none es = false
is_reversed (some id) es = any (λ e. equal_uint_ptr e.reverses_journal_id (some id)) es

module _ ⦃pk : Packages⦄ where
  open pk use {Decimal, zero_decimal, add}

  -- The amounts of the rows that satisfy a test, added to a first amount one by one.
  unfoldable pub sum_where : {A : Type 0} → (A → Bool) → (A → Decimal) → Decimal → List A → Decimal
  sum_where p amount acc [] = acc
  sum_where p amount acc (x ∷ xs) = sum_where p amount (if p x then add acc (amount x) else acc) xs

  -- `deltaByAccountID[id]`, and what all postings of an account add up to.
  abbrev pub delta_of : ℕ → List Posting → Decimal
  delta_of id ps = sum_where (λ p. p.account_id == id) (λ p. p.amount) zero_decimal ps

  abbrev pub new_entry : ℕ → JournalInput → JournalEntry
  new_entry id input = record {
    id = id;
    event_type = input.event_type;
    idempotency_key = input.idempotency_key;
    reference_type = input.reference_type;
    reference_id = input.reference_id;
    reverses_journal_id = input.reverses_journal_id;
  }

  abbrev pub insert_entry : Database → JournalInput → Database
  insert_entry db input = record db {
    journals = new_entry db.next_journal_id input ∷ db.journals;
    next_journal_id = suc db.next_journal_id;
  }

  -- The ids that an `INSERT` gives to the rows in turn.
  unfoldable pub number_postings : ℕ → List Posting → List Posting
  number_postings id [] = []
  number_postings id (p ∷ ps) = record p { id = id } ∷ number_postings (suc id) ps

  abbrev pub find_postings_by_journal_id : ℕ → List Posting → List Posting
  find_postings_by_journal_id id ps = filter (λ p. p.journal_id == id) ps

  pub record BalanceDelta : Type 0 where
    pub account_id : ℕ
    pub delta : Decimal
    pub last_posting_id : ℕ

  unfoldable pub find_delta : ℕ → List BalanceDelta → Option BalanceDelta
  find_delta id [] = none
  find_delta id (d ∷ ds) = if d.account_id == id then some d else find_delta id ds

  -- One row of the `UPDATE`.
  unfoldable pub apply_delta : List BalanceDelta → AccountBalance → AccountBalance
  apply_delta ds r = elim (find_delta r.account_id ds) [
    | none ↦ r
    | some d ↦ record {
      account_id = r.account_id;
      balance = add r.balance d.delta;
      last_posting_id =
          if ltb r.last_posting_id d.last_posting_id then d.last_posting_id else r.last_posting_id;
    }
  ]

  abbrev pub is_affected : List BalanceDelta → AccountBalance → Bool
  is_affected ds r = any (λ d. d.account_id == r.account_id) ds

  -- `ApplyBalanceDeltas`: `none` where it affects another number of rows.
  unfoldable pub apply_balance_deltas :
      List BalanceDelta → List AccountBalance → Option (List AccountBalance)
  apply_balance_deltas ds rows =
      if length (filter (is_affected ds) rows) == length ds
      then some (map (apply_delta ds) rows)
      else none
