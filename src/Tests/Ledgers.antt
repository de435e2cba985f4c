-- ===== src/Tests/Ledgers.antt =====
-- A ledger with one deposit, recorded twice and then reversed.
use go_exchange_back.Prelude.{◌≡◌, refl, true, false, none, some, [], ◌∷◌}
use go_exchange_back.Prelude.Int.{pos, negsuc, ◌+ℤ◌, ◌-ℤ◌}
use go_exchange_back.Packages.Int.{int_packages, neg}
use go_exchange_back.Settlement.Types.{
  JournalInput, user_available, external_bank, deposit, of_transfer, reversal, reversal_key,
  deposit_settle_key, Checked, accepted, rejected,
}
use go_exchange_back.Settlement.Journal.{sum_from, check_postings, balances, validate_journal_input}
use go_exchange_back.Ledger.Tables.{
  equal_uint_ptr, new_account_key, same_key, AccountKey, AccountTable, Database, JournalEntry,
}
use go_exchange_back.Ledger.Accounts.{
  unique_specs, find_account, insert_account, insert_accounts, is_asked, find_by_specs,
  ensure_balance_row, ensure_balance_rows, lock_balances, ensure_accounts,
}
use go_exchange_back.Ledger.Journals.{
  find_entry, find_entry_by_id, is_reversed, sum_where, new_entry, number_postings, find_delta,
  apply_delta, apply_balance_deltas,
}
use go_exchange_back.Ledger.Record.{
  allows_negative, account_by_id, insert_id, build_postings, account_ids, check_balances,
  last_posting, post_journal, record_entry, record_journal, opposite_postings, reverse_journal,
}
use go_exchange_back.Ledger.Provision.{balance_of, AccountsAreSound}
use go_exchange_back.Ledger.Invariant.{LedgerIsSound}
use go_exchange_back.Ledger.Promise.{
  view, add_lines, record_journal-IsSound, record_journal-refines,
}
use go_exchange_back.Ledger.Again.{record_journal-again}
use go_exchange_back.Ledger.Reversal.{reverse_journal-record_journal}

-- What an accepted step returns.
abbrev pub value_or : {E A : Type 0} → A → Checked E A → A
value_or a (accepted b) = b
value_or a (rejected e) = a

abbrev no_accounts : AccountTable
no_accounts = record { rows = []; next_id = 1 }

abbrev pub empty_ledger : Database
empty_ledger = record {
  accounts = no_accounts;
  journals = [];
  next_journal_id = 1;
  postings = [];
  next_posting_id = 1;
  balances = [];
}

pub empty_ledger-IsSound : LedgerIsSound empty_ledger
unfolding LedgerIsSound AccountsAreSound balance_of sum_where
empty_ledger-IsSound = ((tt, λ id le. refl, λ id barred. refl), λ id. refl, λ asset. refl, tt)

-- The user 7 deposits 100 KRW.
abbrev pub deposit_input : JournalInput
deposit_input = record {
  event_type = deposit;
  idempotency_key = deposit_settle_key "ext-1";
  reference_type = of_transfer;
  reference_id = 4;
  reverses_journal_id = none;
  postings =
      record {
        account_type = external_bank;
        owner_user_id = none;
        asset = "KRW";
        amount = negsuc 99;
      }
      ∷ record {
        account_type = user_available;
        owner_user_id = some 7;
        asset = "KRW";
        amount = pos 100;
      }
      ∷ [];
}

abbrev pub deposit_entry : JournalEntry
deposit_entry = new_entry 1 deposit_input

abbrev two_accounts : AccountTable
two_accounts = record {
  rows =
      record {
        id = 2;
        account_type = user_available;
        owner_user_id = some 7;
        asset = "KRW";
        allows_negative = false;
      }
      ∷ record {
        id = 1;
        account_type = external_bank;
        owner_user_id = none;
        asset = "KRW";
        allows_negative = true;
      }
      ∷ [];
  next_id = 3;
}

abbrev pub funded_ledger : Database
funded_ledger = record {
  accounts = two_accounts;
  journals = deposit_entry ∷ [];
  next_journal_id = 2;
  postings =
      record { id = 1; journal_id = 1; account_id = 1; asset = "KRW"; amount = negsuc 99 }
      ∷ record { id = 2; journal_id = 1; account_id = 2; asset = "KRW"; amount = pos 100 }
      ∷ [];
  next_posting_id = 3;
  balances =
      record { account_id = 2; balance = pos 100; last_posting_id = 2 }
      ∷ record { account_id = 1; balance = negsuc 99; last_posting_id = 1 }
      ∷ [];
}

pub funded :
    record_journal empty_ledger deposit_input ≡ accepted (funded_ledger, deposit_entry, true)
unfolding record_journal validate_journal_input check_postings balances sum_from find_entry
    record_entry is_reversed post_journal ensure_accounts unique_specs same_key new_account_key
    insert_accounts insert_account find_account find_by_specs is_asked ensure_balance_rows
    ensure_balance_row build_postings account_ids insert_id lock_balances check_balances sum_where
    allows_negative number_postings last_posting apply_balance_deltas apply_delta find_delta ◌+ℤ◌
funded = refl

abbrev user_key : AccountKey
user_key = record { account_type = user_available; owner_user_id = 7; asset = "KRW" }

record_journal-IsSound_example : LedgerIsSound funded_ledger
record_journal-IsSound_example =
    record_journal-IsSound empty_ledger funded_ledger deposit_input deposit_entry true
      empty_ledger-IsSound funded

record_journal-refines_example :
    view funded_ledger user_key ≡ add_lines deposit_input.postings (view empty_ledger) user_key
record_journal-refines_example =
    record_journal-refines empty_ledger funded_ledger deposit_input deposit_entry true user_key
      empty_ledger-IsSound funded

record_journal-again_example :
    record_journal funded_ledger deposit_input ≡ accepted (funded_ledger, deposit_entry, false)
record_journal-again_example =
    record_journal-again empty_ledger funded_ledger deposit_input deposit_entry empty_ledger-IsSound
      funded

abbrev reversal_entry : JournalEntry
reversal_entry = record {
  id = 2;
  event_type = reversal;
  idempotency_key = reversal_key 1;
  reference_type = of_transfer;
  reference_id = 4;
  reverses_journal_id = some 1;
}

abbrev reversed_ledger : Database
reversed_ledger = record {
  accounts = two_accounts;
  journals = reversal_entry ∷ deposit_entry ∷ [];
  next_journal_id = 3;
  postings =
      record { id = 1; journal_id = 1; account_id = 1; asset = "KRW"; amount = negsuc 99 }
      ∷ record { id = 2; journal_id = 1; account_id = 2; asset = "KRW"; amount = pos 100 }
      ∷ record { id = 3; journal_id = 2; account_id = 1; asset = "KRW"; amount = pos 100 }
      ∷ record { id = 4; journal_id = 2; account_id = 2; asset = "KRW"; amount = negsuc 99 }
      ∷ [];
  next_posting_id = 5;
  balances =
      record { account_id = 2; balance = pos 0; last_posting_id = 4 }
      ∷ record { account_id = 1; balance = pos 0; last_posting_id = 3 }
      ∷ [];
}

reversed : reverse_journal funded_ledger 1 ≡ accepted (reversed_ledger, reversal_entry, true)
unfolding record_journal validate_journal_input check_postings balances sum_from find_entry
    record_entry is_reversed post_journal ensure_accounts unique_specs same_key new_account_key
    insert_accounts insert_account find_account find_by_specs is_asked ensure_balance_rows
    ensure_balance_row build_postings account_ids insert_id lock_balances check_balances sum_where
    allows_negative number_postings last_posting apply_balance_deltas apply_delta find_delta ◌+ℤ◌
    reverse_journal find_entry_by_id opposite_postings account_by_id neg equal_uint_ptr ◌-ℤ◌
reversed = refl

not_reversed : find_entry (reversal_key 1) funded_ledger.journals ≡ none
unfolding find_entry
not_reversed = refl

reverse_journal-record_journal_example : view reversed_ledger user_key ≡ view empty_ledger user_key
reverse_journal-record_journal_example =
    reverse_journal-record_journal empty_ledger funded_ledger reversed_ledger deposit_input
      deposit_entry reversal_entry true user_key empty_ledger-IsSound funded not_reversed reversed
