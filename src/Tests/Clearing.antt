-- ===== src/Tests/Clearing.antt =====
-- The trade of the bid and the ask, settled over the tables and sent again.
use go_exchange_back.Prelude.{◌≡◌, refl, true, false, none, some, [], ◌∷◌}
use go_exchange_back.Prelude.Int.{pos, negsuc, ◌+ℤ◌, ◌-ℤ◌, ◌*ℤ◌}
use go_exchange_back.Packages.Int.{int_packages, neg, quo_ℤ}
use go_exchange_back.Settlement.Types.{
  JournalInput, user_locked, external_bank, external_chain, dev_fund, of_dev_fund, text_key,
  accepted,
}
use go_exchange_back.Settlement.Fees.{apply_trade_fee_policy, amount_after_fee}
use go_exchange_back.Settlement.Fills.{pending, takes_settlement, apply_trade_fill}
use go_exchange_back.Settlement.Postings.{
  reserved_buy_debit_amount, trade_postings, plan_trade_settlement, trade_journal,
}
use go_exchange_back.Settlement.Journal.{sum_from, check_postings, balances, validate_journal_input}
use go_exchange_back.Ledger.Tables.{new_account_key, same_key, Database}
use go_exchange_back.Ledger.Accounts.{
  unique_specs, find_account, insert_account, insert_accounts, is_asked, find_by_specs,
  ensure_balance_row, ensure_balance_rows, lock_balances, ensure_accounts,
}
use go_exchange_back.Ledger.Journals.{
  find_entry, is_reversed, sum_where, new_entry, number_postings, find_delta, apply_delta,
  apply_balance_deltas,
}
use go_exchange_back.Ledger.Record.{
  allows_negative, account_by_id, insert_id, build_postings, account_ids, check_balances,
  last_posting, post_journal, record_entry, record_journal,
}
use go_exchange_back.Ledger.Promise.{record_journal-IsSound}
use go_exchange_back.Settling.Tables.{
  TradeDatabase, outbox_pending, find_order, find_trade, update_order_execution,
  mark_settled_outbox,
}
use go_exchange_back.Settling.Statistics.{
  holds_for, previous_avg, put_stat, apply_avg_buy_price, clear_avg_buy_price_if_empty,
}
use go_exchange_back.Settling.Service.{
  applied_result, prepare_trade_for_settlement, settlement_participants, check_orders, record_trade,
  apply_settlement, settle_inserted, settle_found, settle_trade,
}
use go_exchange_back.Settling.Fulfilled.{Fulfils, settle_trade-Fulfils}
use go_exchange_back.Settling.Soundness.{
  TradesAreStored, BooksAreSound, settle_trade-BooksAreSound, Books, settle_trade-Books,
}
use go_exchange_back.Settling.Again.{settle_trade-again}
use go_exchange_back.Tests.{cheap_ask, bid}
use go_exchange_back.Tests.Settlements.{fresh_trade}
use go_exchange_back.Tests.Ledgers.{empty_ledger, empty_ledger-IsSound, value_or}

-- What the two orders have locked: 24 KRW of the buyer and 2 BTC of the seller.
abbrev funding : JournalInput
funding = record {
  event_type = dev_fund;
  idempotency_key = text_key "funding";
  reference_type = of_dev_fund;
  reference_id = 1;
  reverses_journal_id = none;
  postings =
      record {
        account_type = external_bank;
        owner_user_id = none;
        asset = "KRW";
        amount = negsuc 23;
      }
      ∷ record {
        account_type = user_locked;
        owner_user_id = some 3;
        asset = "KRW";
        amount = pos 24;
      }
      ∷ record {
        account_type = external_chain;
        owner_user_id = none;
        asset = "BTC";
        amount = negsuc 1;
      }
      ∷ record { account_type = user_locked; owner_user_id = some 1; asset = "BTC"; amount = pos 2 }
      ∷ [];
}

abbrev funded_ledger : Database
funded_ledger =
    (value_or (empty_ledger, new_entry 1 funding, false) (record_journal empty_ledger funding)).0

funded : record_journal empty_ledger funding ≡ accepted (funded_ledger, new_entry 1 funding, true)
unfolding record_journal validate_journal_input check_postings balances sum_from find_entry
    record_entry is_reversed post_journal ensure_accounts unique_specs same_key new_account_key
    insert_accounts insert_account find_account find_by_specs is_asked ensure_balance_rows
    ensure_balance_row build_postings account_ids insert_id lock_balances check_balances sum_where
    allows_negative number_postings last_posting apply_balance_deltas apply_delta find_delta ◌+ℤ◌
funded = refl

abbrev before : TradeDatabase
before = record {
  ledger = funded_ledger;
  orders =
      record { order = bid; status = pending }
      ∷ record { order = cheap_ask; status = pending }
      ∷ [];
  trades = [];
  next_trade_id = 9;
  stats = [];
  outbox = record { id = 5; status = outbox_pending } ∷ [];
}

abbrev after : TradeDatabase
after = (value_or (before, applied_result 0) (settle_trade quo_ℤ (pos 0) fresh_trade 5 before)).0

settled : settle_trade quo_ℤ (pos 0) fresh_trade 5 before ≡ accepted (after, applied_result 9)
unfolding settle_trade settle_found settle_inserted apply_settlement record_trade check_orders
    settlement_participants prepare_trade_for_settlement apply_trade_fee_policy
    plan_trade_settlement amount_after_fee trade_postings reserved_buy_debit_amount trade_journal
    apply_trade_fill takes_settlement find_order find_trade update_order_execution
    mark_settled_outbox apply_avg_buy_price clear_avg_buy_price_if_empty put_stat previous_avg
    holds_for account_by_id quo_ℤ record_journal validate_journal_input check_postings balances
    sum_from find_entry record_entry is_reversed post_journal ensure_accounts unique_specs same_key
    new_account_key insert_accounts insert_account find_account find_by_specs is_asked
    ensure_balance_rows ensure_balance_row build_postings account_ids insert_id lock_balances
    check_balances sum_where allows_negative number_postings last_posting apply_balance_deltas
    apply_delta find_delta ◌+ℤ◌ ◌-ℤ◌ ◌*ℤ◌ neg
settled = refl

before-BooksAreSound : BooksAreSound before
unfolding BooksAreSound TradesAreStored record_journal validate_journal_input check_postings
    balances sum_from find_entry record_entry is_reversed post_journal ensure_accounts unique_specs
    same_key new_account_key insert_accounts insert_account find_account find_by_specs is_asked
    ensure_balance_rows ensure_balance_row build_postings account_ids insert_id lock_balances
    check_balances sum_where allows_negative number_postings last_posting apply_balance_deltas
    apply_delta find_delta ◌+ℤ◌
before-BooksAreSound = (
  record_journal-IsSound empty_ledger funded_ledger funding (new_entry 1 funding) true
      empty_ledger-IsSound funded,
  λ key h. refl,
)

settle_trade-Fulfils_example : Fulfils fresh_trade.emitted before.orders after.orders
settle_trade-Fulfils_example =
    settle_trade-Fulfils quo_ℤ (pos 0) fresh_trade 5 9 before after settled

settle_trade-BooksAreSound_example : BooksAreSound after
settle_trade-BooksAreSound_example =
    settle_trade-BooksAreSound quo_ℤ (pos 0) fresh_trade 5 before after (applied_result 9)
      before-BooksAreSound settled

settle_trade-Books_example : Books (pos 0) fresh_trade before after
settle_trade-Books_example =
    settle_trade-Books quo_ℤ (pos 0) fresh_trade 5 9 before after before-BooksAreSound settled

settle_trade-again_example :
    settle_trade quo_ℤ (pos 0) fresh_trade 0 after
    ≡ accepted
        (mark_settled_outbox 0 after, record { applied = false; duplicate = true; trade_id = 9 })
settle_trade-again_example = settle_trade-again quo_ℤ (pos 0) fresh_trade 5 0 9 before after settled
