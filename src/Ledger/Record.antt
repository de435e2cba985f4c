-- ===== src/Ledger/Record.antt =====
-- internal/service/ledger_service.go: `Record`, `assertSameJournal` and `Reverse`. The caller's
-- transaction is rolled back on an error, so a rejected call leaves the tables as they were.
use go_exchange_back.Prelude.{
  ℕ, ◌+◌, Bool, true, false, ◌&&◌, not, Option, none, some, List, [], ◌∷◌, ◌++◌, map, length, ◌==◌,
  ltb, sort_by, if◌then◌else◌,
}
use go_exchange_back.Packages.{Packages}
use go_exchange_back.Settlement.Types.{
  PostingInput, JournalInput, reversal, reversal_key, Checked, accepted, rejected, ◌>>=◌,
  unless_error, or_error, guard,
}
use go_exchange_back.Settlement.Journal.{JournalError, validate_journal_input}
use go_exchange_back.Ledger.Tables.{
  event_type_code, reference_type_code, same_code, equal_uint_ptr, new_account_key, AccountKey,
  same_key, key_less, Account, JournalEntry, Posting, AccountBalance, Database,
}
use go_exchange_back.Ledger.Accounts.{AccountSpec, find_account, ensure_accounts, lock_balances}
use go_exchange_back.Ledger.Journals.{
  find_entry, find_entry_by_id, is_reversed, delta_of, new_entry, insert_entry, number_postings,
  find_postings_by_journal_id, BalanceDelta, apply_balance_deltas,
}

unfoldable pub allows_negative : ℕ → List Account → Bool
allows_negative id [] = false
allows_negative id (a ∷ rows) = if a.id == id then a.allows_negative else allows_negative id rows

unfoldable pub account_by_id : ℕ → List Account → Option Account
account_by_id id [] = none
account_by_id id (a ∷ rows) = if a.id == id then some a else account_by_id id rows

-- An id into the ascending list of ids, each of which stands there once.
unfoldable pub insert_id : ℕ → List ℕ → List ℕ
insert_id i [] = i ∷ []
insert_id i (j ∷ js) =
    let rest = insert_id i js in
    if ltb i j then i ∷ j ∷ js else if ltb j i then j ∷ rest else j ∷ js

module _ ⦃pk : Packages⦄ where
  open pk use {Decimal, zero_decimal, add, neg, less_than}

  pub data LedgerError : Type 0 where
    invalid_journal : JournalError → LedgerError
    different_event different_count different_postings already_reversed : LedgerError
    accounts_not_ensured account_not_provisioned balances_not_locked : LedgerError
    account_missing : ℕ → LedgerError
    would_go_negative : ℕ → Decimal → LedgerError
    no_postings deltas_not_applied journal_not_found nothing_to_reverse : LedgerError

  abbrev pub spec_of : PostingInput → AccountSpec
  spec_of p = record {
    account_type = p.account_type;
    owner_user_id = p.owner_user_id;
    asset = p.asset;
  }

  abbrev pub input_key : PostingInput → AccountKey
  input_key p = new_account_key p.account_type p.owner_user_id p.asset

  abbrev pub new_posting : ℕ → Account → PostingInput → Posting
  new_posting journal a p = record {
    id = 0;
    journal_id = journal;
    account_id = a.id;
    asset = p.asset;
    amount = p.amount;
  }

  -- The postings of a journal, before they have ids.
  unfoldable pub build_postings :
      ℕ → List Account → List PostingInput → Checked LedgerError (List Posting)
  build_postings journal rows [] = accepted []
  build_postings journal rows (p ∷ ps) = do
    a ← or_error (find_account (input_key p) rows) account_not_provisioned
    rest ← build_postings journal rows ps
    accepted (new_posting journal a p ∷ rest)

  unfoldable pub account_ids : List Posting → List ℕ
  account_ids [] = []
  account_ids (p ∷ ps) = insert_id p.account_id (account_ids ps)

  abbrev pub is_overdrawn : List Posting → List Account → AccountBalance → Bool
  is_overdrawn ps rows r =
      less_than (add r.balance (delta_of r.account_id ps)) zero_decimal
      && not (allows_negative r.account_id rows)

  unfoldable pub check_balances :
      List Posting → List Account → List AccountBalance → Option LedgerError
  check_balances ps rows [] = none
  check_balances ps rows (r ∷ rs) =
      let rest = check_balances ps rows rs in
      if is_overdrawn ps rows r
      then some (would_go_negative r.account_id (add r.balance (delta_of r.account_id ps)))
      else rest

  -- `lastPostingByAccount[id]` after the loop, from a first value on.
  unfoldable pub last_posting : ℕ → ℕ → List Posting → ℕ
  last_posting id acc [] = acc
  last_posting id acc (p ∷ ps) =
      last_posting id (if p.account_id == id && ltb acc p.id then p.id else acc) ps

  abbrev pub new_delta : List Posting → ℕ → BalanceDelta
  new_delta ps id = record {
    account_id = id;
    delta = delta_of id ps;
    last_posting_id = last_posting id 0 ps;
  }

  abbrev pub balance_deltas : List Posting → List BalanceDelta
  balance_deltas ps = map (new_delta ps) (account_ids ps)

  -- The part of `Record` after the journal is inserted.
  unfoldable pub post_journal : Database → ℕ → List PostingInput → Checked LedgerError Database
  post_journal db journal inputs = do
    (table, balances, found) ←
        or_error (ensure_accounts db.accounts db.balances (map spec_of inputs)) accounts_not_ensured
    drafts ← build_postings journal found inputs
    locked ← or_error (lock_balances (account_ids drafts) balances) balances_not_locked
    _ ← unless_error (check_balances drafts found locked)
    _ ← guard (ltb 0 (length drafts)) no_postings
    let created = number_postings db.next_posting_id drafts
    updated ← or_error (apply_balance_deltas (balance_deltas created) balances) deltas_not_applied
    accepted (record db {
      accounts = table;
      balances = updated;
      postings = db.postings ++ created;
      next_posting_id = db.next_posting_id + length created;
    })

  pub record PostingTuple : Type 0 where
    pub account : AccountKey
    pub amount : Decimal

  -- Tuples are sorted by their keys, then by their amounts.
  abbrev pub tuple_less : PostingTuple → PostingTuple → Bool
  tuple_less a b =
      if not (same_key a.account b.account)
      then key_less a.account b.account
      else less_than a.amount b.amount

  abbrev pub same_amount : Decimal → Decimal → Bool
  same_amount a b = not (less_than a b) && not (less_than b a)

  unfoldable pub same_tuples : List PostingTuple → List PostingTuple → Bool
  same_tuples [] [] = true
  same_tuples [] (b ∷ bs) = false
  same_tuples (a ∷ rows) [] = false
  same_tuples (a ∷ rows) (b ∷ bs) =
      same_key a.account b.account && (same_amount a.amount b.amount && same_tuples rows bs)

  abbrev pub input_tuple : PostingInput → PostingTuple
  input_tuple p = record { account = input_key p; amount = p.amount }

  unfoldable pub stored_tuples :
      List Account → List Posting → Checked LedgerError (List PostingTuple)
  stored_tuples rows [] = accepted []
  stored_tuples rows (p ∷ ps) = do
    a ← or_error (account_by_id p.account_id rows) (account_missing p.account_id)
    rest ← stored_tuples rows ps
    accepted (
        record {
          account = new_account_key a.account_type a.owner_user_id p.asset;
          amount = p.amount;
        }
        ∷ rest)

  abbrev pub same_event : JournalEntry → JournalInput → Bool
  same_event e input =
      same_code (event_type_code e.event_type) (event_type_code input.event_type)
      && (same_code (reference_type_code e.reference_type)
            (reference_type_code input.reference_type)
          && (e.reference_id == input.reference_id
              && equal_uint_ptr e.reverses_journal_id input.reverses_journal_id))

  unfoldable pub assert_same_journal :
      Database → JournalEntry → JournalInput → Checked LedgerError Unit
  assert_same_journal db e input = do
    _ ← guard (same_event e input) different_event
    let stored = find_postings_by_journal_id e.id db.postings
    _ ← guard (length stored == length input.postings) different_count
    tuples ← stored_tuples db.accounts.rows stored
    guard
        (same_tuples (sort_by tuple_less tuples)
          (sort_by tuple_less (map input_tuple input.postings)))
        different_postings

  -- The part of `Record` that follows on the key of a journal.
  unfoldable pub record_entry :
      Database
      → JournalInput
      → Option JournalEntry
      → Checked LedgerError (Database × JournalEntry × Bool)
  record_entry db input (some e) = do _ ← assert_same_journal db e input; accepted (db, e, false)
  record_entry db input none = do
    _ ← guard (not (is_reversed input.reverses_journal_id db.journals)) already_reversed
    posted ← post_journal (insert_entry db input) db.next_journal_id input.postings
    accepted (posted, new_entry db.next_journal_id input, true)

  abbrev pub validated : Option JournalError → Checked LedgerError Unit
  validated none = accepted tt
  validated (some e) = rejected (invalid_journal e)

  -- `Record`: the tables, the journal of the key, and whether this call has made it.
  unfoldable pub record_journal :
      Database → JournalInput → Checked LedgerError (Database × JournalEntry × Bool)
  record_journal db input = do
    _ ← validated (validate_journal_input input)
    record_entry db input (find_entry input.idempotency_key db.journals)

  -- The lines of a reversal.
  unfoldable pub opposite_postings :
      List Account → List Posting → Checked LedgerError (List PostingInput)
  opposite_postings rows [] = accepted []
  opposite_postings rows (p ∷ ps) = do
    a ← or_error (account_by_id p.account_id rows) (account_missing p.account_id)
    rest ← opposite_postings rows ps
    accepted (
        record {
          account_type = a.account_type;
          owner_user_id = a.owner_user_id;
          asset = p.asset;
          amount = neg p.amount;
        }
        ∷ rest)

  abbrev pub reversal_journal : JournalEntry → ℕ → List PostingInput → JournalInput
  reversal_journal source id postings = record {
    event_type = reversal;
    idempotency_key = reversal_key id;
    reference_type = source.reference_type;
    reference_id = source.reference_id;
    reverses_journal_id = some id;
    postings = postings;
  }

  -- `Reverse`: the source drops whether the journal is new.
  unfoldable pub reverse_journal :
      Database → ℕ → Checked LedgerError (Database × JournalEntry × Bool)
  reverse_journal db id = do
    source ← or_error (find_entry_by_id id db.journals) journal_not_found
    let original = find_postings_by_journal_id id db.postings
    _ ← guard (ltb 0 (length original)) nothing_to_reverse
    postings ← opposite_postings db.accounts.rows original
    record_journal db (reversal_journal source id postings)
