-- ===== src/Tests/Banking.antt =====
-- A deposit that the bank confirms and then contradicts, and a withdrawal that is requested.
use go_exchange_back.Prelude.{
  ℕ, Option, arith, ◌*◌, ◌^◌, ◌≤◌, ◌≡◌, refl, subst, true, none, some, some_eq, inl, [], ◌∷◌,
}
use go_exchange_back.Prelude.Int.{ℤ, pos, ◌+ℤ◌, ◌-ℤ◌}
use go_exchange_back.Packages.Int.{int_packages, neg}
use go_exchange_back.Settlement.Types.{user_available, user_locked, accepted}
use go_exchange_back.Settlement.Journal.{sum_from, check_postings, balances, validate_journal_input}
use go_exchange_back.Ledger.Tables.{new_account_key, same_key, AccountKey, JournalEntry}
use go_exchange_back.Ledger.Accounts.{
  unique_specs, find_account, insert_account, insert_accounts, is_asked, find_by_specs,
  ensure_balance_row, ensure_balance_rows, lock_balances, ensure_accounts,
}
use go_exchange_back.Ledger.Journals.{
  find_entry, is_reversed, sum_where, number_postings, find_delta, apply_delta,
  apply_balance_deltas,
}
use go_exchange_back.Ledger.Record.{
  allows_negative, insert_id, build_postings, account_ids, check_balances, last_posting,
  post_journal, record_entry, record_journal,
}
use go_exchange_back.Ledger.Promise.{add_lines, record_journal-IsSound}
use go_exchange_back.Transfers.Types.{
  into_exchange, out_of_exchange, bank, processing, completed, success, failure, pending_outcome,
  callback, text_value, encode_transfer_payload, TransferRequest, TransferDatabase,
}
use go_exchange_back.Transfers.Requests.{find_request, update_request, find_by_user_request_key}
use go_exchange_back.Transfers.Confirm.{
  withdrawal_hold_journal, deposit_journal, withdrawal_journal, refund_journal,
  confirmation_journal,
}
use go_exchange_back.Transfers.Schedule.{poll_base_interval, poll_max_interval, backoff_interval}
use go_exchange_back.Transfers.Service.{
  matches_terminal_outcome, record_in, record_confirmation_journal, confirm_terminal, ResolveInput,
  new_event, resolve_by_status, resolve_transfer, record_observation, dispatch,
}
use go_exchange_back.Transfers.Intake.{TransferInput, accept_withdrawal}
use go_exchange_back.Transfers.Moves.{Moves}
use go_exchange_back.Transfers.Resolve.{resolve_transfer-again}
use go_exchange_back.Transfers.History.{
  resolves, dispatches, here, later, Reaches-IsNumbered, Settled, terminal-Settled,
}
use go_exchange_back.Transfers.Steps.{IsNumbered}
use go_exchange_back.Transfers.Booked.{HoldsAreNumbered, IsBooked, history-IsBooked}
use go_exchange_back.Transfers.Journals.{IsSendable, confirmation-accepted}
use go_exchange_back.Transfers.Balances.{user_key, refund-hold, withdrawal-hold}
use go_exchange_back.Transfers.Backoff.{capped, backoff_interval_lem}
use go_exchange_back.Transfers.Waiting.{IsRouted, Waits}
use go_exchange_back.Transfers.Outcomes.{LedgerTakes, HasResult, Books, resolve_transfer-confirms}
use go_exchange_back.Transfers.Polls.{IsPolled, record_observation-polls}
use go_exchange_back.Transfers.Requested.{accept_withdrawal-once}
use go_exchange_back.Tests.Ledgers.{
  empty_ledger, empty_ledger-IsSound, deposit_input, deposit_entry, funded_ledger, funded, value_or,
}

abbrev waiting : TransferRequest
waiting = record {
  id = 4;
  user_id = 7;
  direction = into_exchange;
  rail = bank;
  asset = "KRW";
  amount = pos 100;
  fee_amount = pos 0;
  fee_asset = "KRW";
  status = processing;
  client_request_key = "k";
  external_ref = some "ext-1";
  resolution_journal_id = none;
  hold_journal_id = none;
  last_checked_at = none;
  next_check_at = some 10;
  check_attempts = 0;
  review_required_at = none;
  review_reason = none;
  failure_reason = "";
  created_at = 0;
}

abbrev before : TransferDatabase
before = record { ledger = empty_ledger; requests = waiting ∷ []; next_request_id = 5; events = [] }

abbrev arrives : ResolveInput
arrives = record {
  transfer_request_id = 4;
  source = callback;
  event_key = "callback:BANK:1";
  outcome = success;
  payload = [];
}

abbrev contradicts : ResolveInput
contradicts = record arrives {
  event_key = "callback:BANK:2";
  outcome = failure;
  payload = ("reason", text_value "lost") ∷ [];
}

abbrev pending_poll : ResolveInput
pending_poll = record arrives { event_key = "poll:4:0"; outcome = pending_outcome }

abbrev after : TransferDatabase
after = value_or before (resolve_transfer arrives 5 before)

resolved : resolve_transfer arrives 5 before ≡ accepted after
unfolding resolve_transfer resolve_by_status confirm_terminal record_confirmation_journal record_in
    confirmation_journal deposit_journal find_request update_request encode_transfer_payload
    record_journal validate_journal_input check_postings balances sum_from find_entry record_entry
    is_reversed post_journal ensure_accounts unique_specs same_key new_account_key insert_accounts
    insert_account find_account find_by_specs is_asked ensure_balance_rows ensure_balance_row
    build_postings account_ids insert_id lock_balances check_balances sum_where allows_negative
    number_postings last_posting apply_balance_deltas apply_delta find_delta ◌+ℤ◌ ◌-ℤ◌ neg
resolved = refl

abbrev deposited_row : TransferRequest
deposited_row = record waiting {
  status = completed;
  next_check_at = none;
  resolution_journal_id = some 1;
}

ledger_takes : LedgerTakes before waiting "ext-1" success
unfolding LedgerTakes confirmation_journal deposit_journal neg ◌-ℤ◌
ledger_takes j h =
    let same : deposit_input ≡ j = some_eq (some_eq h) in
    (
      funded_ledger,
      deposit_entry,
      true,
      subst (λ x. record_journal empty_ledger x ≡ accepted (funded_ledger, deposit_entry, true))
          same funded,
    )

arrives-Waits : Waits before arrives waiting "ext-1"
unfolding Waits find_request IsRouted
arrives-Waits = (refl, refl, refl, inl refl, refl, refl, refl)

pending_poll-Waits : Waits before pending_poll waiting "ext-1"
unfolding Waits find_request IsRouted
pending_poll-Waits = (refl, refl, refl, inl refl, refl, refl, refl)

resolve_transfer-confirms_example :
    (db' : TransferDatabase) × (s : TransferRequest) × (journal : Option ℕ) × (resolve_transfer
        arrives 5 before
      ≡ accepted db')
    × (find_request 4 db'.requests ≡ some s)
    × HasResult s success journal
    × Books empty_ledger waiting "ext-1" success db'.ledger journal
    × (db'.events ≡ new_event arrives 5 ∷ [])
resolve_transfer-confirms_example =
    resolve_transfer-confirms arrives 5 before waiting "ext-1" arrives-Waits refl ledger_takes

record_observation-polls_example :
    (db' : TransferDatabase) × (s : TransferRequest) × (record_observation pending_poll 20 before
      ≡ accepted db')
    × (db'.ledger ≡ empty_ledger)
    × (find_request 4 db'.requests ≡ some s)
    × IsPolled waiting s pending_outcome 20
record_observation-polls_example =
    record_observation-polls pending_poll 20 before waiting "ext-1" pending_poll-Waits refl

resolve_transfer-again_example : resolve_transfer arrives 9 after ≡ accepted after
resolve_transfer-again_example =
    resolve_transfer-again arrives arrives 5 9 before after resolved refl refl refl

before-IsNumbered : IsNumbered before
unfolding IsNumbered
before-IsNumbered = (omega arith, tt)

before-IsBooked : IsBooked before
unfolding HoldsAreNumbered find_entry
before-IsBooked = record {
  sound = empty_ledger-IsSound;
  rows = before-IsNumbered;
  holds = λ n le. refl;
}

history-IsBooked_example : IsBooked after
history-IsBooked_example =
    history-IsBooked before after before-IsBooked (later here (resolves arrives 5 resolved))

after-IsNumbered : IsNumbered after
after-IsNumbered =
    Reaches-IsNumbered before after before-IsNumbered (later here (resolves arrives 5 resolved))

abbrev contradicted : TransferDatabase
contradicted = value_or before (resolve_transfer contradicts 8 after)

contradiction : resolve_transfer contradicts 8 after ≡ accepted contradicted
unfolding resolve_transfer resolve_by_status matches_terminal_outcome confirm_terminal
    record_confirmation_journal record_in confirmation_journal deposit_journal find_request
    update_request encode_transfer_payload record_journal validate_journal_input check_postings
    balances sum_from find_entry record_entry is_reversed post_journal ensure_accounts unique_specs
    same_key new_account_key insert_accounts insert_account find_account find_by_specs is_asked
    ensure_balance_rows ensure_balance_row build_postings account_ids insert_id lock_balances
    check_balances sum_where allows_negative number_postings last_posting apply_balance_deltas
    apply_delta find_delta ◌+ℤ◌ ◌-ℤ◌ neg
contradiction = refl

completed_row : find_request 4 after.requests ≡ some deposited_row
unfolding resolve_transfer resolve_by_status confirm_terminal record_confirmation_journal record_in
    confirmation_journal deposit_journal find_request update_request encode_transfer_payload
    record_journal validate_journal_input check_postings balances sum_from find_entry record_entry
    is_reversed post_journal ensure_accounts unique_specs same_key new_account_key insert_accounts
    insert_account find_account find_by_specs is_asked ensure_balance_rows ensure_balance_row
    build_postings account_ids insert_id lock_balances check_balances sum_where allows_negative
    number_postings last_posting apply_balance_deltas apply_delta find_delta ◌+ℤ◌ ◌-ℤ◌ neg
completed_row = refl

terminal-Settled_example :
    (s : TransferRequest) × (find_request 4 contradicted.requests ≡ some s)
    × Settled deposited_row s
terminal-Settled_example =
    terminal-Settled after contradicted 4 deposited_row after-IsNumbered
      (later here (resolves contradicts 8 contradiction)) completed_row refl

-- A withdrawal of 30 with a fee of 1.
abbrev leaving : TransferRequest
leaving = record waiting { direction = out_of_exchange; amount = pos 30; fee_amount = pos 1 }

leaving-IsSendable : IsSendable leaving
unfolding IsSendable
leaving-IsSendable = (refl, refl, refl, refl)

leaving_journal :
    confirmation_journal leaving "ext-1" success ≡ some (some (withdrawal_journal leaving "ext-1"))
unfolding confirmation_journal
leaving_journal = refl

confirmation-accepted_example :
    (validate_journal_input (withdrawal_journal leaving "ext-1") ≡ none)
    × (validate_journal_input (withdrawal_hold_journal leaving) ≡ none)
confirmation-accepted_example =
    confirmation-accepted leaving "ext-1" success (withdrawal_journal leaving "ext-1")
      leaving-IsSendable leaving_journal

abbrev hundred : AccountKey → ℤ
hundred k = pos 100

refund-hold_example :
    add_lines
      (refund_journal leaving "ext-1").postings
      (add_lines (withdrawal_hold_journal leaving).postings hundred)
      (user_key leaving user_locked)
    ≡ pos 100
refund-hold_example = refund-hold leaving "ext-1" hundred (user_key leaving user_locked)

withdrawal-hold_example :
    (let balance =
        add_lines
          (withdrawal_journal leaving "ext-1").postings
          (add_lines (withdrawal_hold_journal leaving).postings hundred) in
      (balance (user_key leaving user_locked) ≡ pos 100)
      × (balance (user_key leaving user_available)
          ≡ pos 100 +ℤ neg (leaving.amount +ℤ leaving.fee_amount)))
withdrawal-hold_example = withdrawal-hold leaving "ext-1" hundred

backoff_interval_lem_example :
    (backoff_interval 3 ≡ capped (poll_base_interval * 2 ^ 2))
    × (poll_base_interval ≤ backoff_interval 3)
    × (backoff_interval 3 ≤ poll_max_interval)
    × (backoff_interval 3 ≤ backoff_interval 4)
backoff_interval_lem_example = backoff_interval_lem 2

abbrev withdrawal_input : TransferInput
withdrawal_input = record {
  user_id = 7;
  rail = bank;
  asset = "KRW";
  amount = pos 30;
  client_request_key = "w-1";
}

abbrev funded_bank : TransferDatabase
funded_bank = record before { ledger = funded_ledger; requests = [] }

abbrev held : TransferDatabase × TransferRequest
held = value_or (funded_bank, waiting) (accept_withdrawal withdrawal_input 6 funded_bank)

held_accepted : accept_withdrawal withdrawal_input 6 funded_bank ≡ accepted (held.0, held.1)
unfolding accept_withdrawal find_by_user_request_key record_in withdrawal_hold_journal
    update_request record_journal validate_journal_input check_postings balances sum_from find_entry
    record_entry is_reversed post_journal ensure_accounts unique_specs same_key new_account_key
    insert_accounts insert_account find_account find_by_specs is_asked ensure_balance_rows
    ensure_balance_row build_postings account_ids insert_id lock_balances check_balances sum_where
    allows_negative number_postings last_posting apply_balance_deltas apply_delta find_delta ◌+ℤ◌
    ◌-ℤ◌ neg
held_accepted = refl

new_key : find_by_user_request_key 7 "w-1" [] ≡ none
unfolding find_by_user_request_key
new_key = refl

funded_bank-IsBooked : IsBooked funded_bank
unfolding HoldsAreNumbered IsNumbered find_entry
funded_bank-IsBooked = record {
  sound =
      record_journal-IsSound empty_ledger funded_ledger deposit_input deposit_entry true
        empty_ledger-IsSound funded;
  rows = tt;
  holds = λ n le. refl;
}

-- The withdrawal is handed to the bank.
abbrev handed_on : TransferDatabase
handed_on = value_or before (dispatch held.1 (some "ext-9") 7 held.0)

dispatched_on : dispatch held.1 (some "ext-9") 7 held.0 ≡ accepted handed_on
unfolding dispatch accept_withdrawal find_by_user_request_key record_in withdrawal_hold_journal
    update_request record_journal validate_journal_input check_postings balances sum_from find_entry
    record_entry is_reversed post_journal ensure_accounts unique_specs same_key new_account_key
    insert_accounts insert_account find_account find_by_specs is_asked ensure_balance_rows
    ensure_balance_row build_postings account_ids insert_id lock_balances check_balances sum_where
    allows_negative number_postings last_posting apply_balance_deltas apply_delta find_delta ◌+ℤ◌
    ◌-ℤ◌ neg
dispatched_on = refl

accept_withdrawal-once_example :
    (entry : JournalEntry) × (s : TransferRequest) × (record_journal funded_ledger
        (withdrawal_hold_journal held.1)
      ≡ accepted (held.0.ledger, entry, true))
    × (accept_withdrawal withdrawal_input 90 handed_on ≡ accepted (handed_on, s))
    × (s.id ≡ held.1.id)
    × (s.hold_journal_id ≡ some entry.id)
accept_withdrawal-once_example =
    accept_withdrawal-once withdrawal_input 6 90 funded_bank held.0 handed_on held.1
      funded_bank-IsBooked new_key held_accepted
      (later here (dispatches held.1 (some "ext-9") 7 dispatched_on))
