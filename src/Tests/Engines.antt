-- ===== src/Tests/Engines.antt =====
-- An engine in the middle of a sweep, its quotas and its shards.
use go_exchange_back.Prelude.{
  ℕ, ◌<◌, ◌≤◌, ◌≡◌, ◌↔◌, refl, Bool, true, false, none, some, [], ◌∷◌, arith, take, reverse,
}
use go_exchange_back.Prelude.Int.{pos, ◌+ℤ◌, ◌≤ℤ◌, ◌-ℤ◌, ◌*ℤ◌}
use go_exchange_back.Packages.Int.{int_packages, min_ℤ}
use go_exchange_back.Matching.Types.{sell}
use go_exchange_back.Matching.Book.{
  new_order_book, add_to, add_order, index_of, keep_level, remove_from, remove_order,
}
use go_exchange_back.Matching.Emit.{
  returns, panics, begin_reservation, end_reservation, emit_order_cancelled, send_if_open,
  send_execution, send_reserved, next_trade_event, new_trade, emit_trade, try_send,
}
use go_exchange_back.Matching.Find.{
  is_self_trade, first_non_self_order_index, walk, best_matchable_sell_order,
}
use go_exchange_back.Matching.Sweep.{
  take_from, take_base, fill_resting, fill_buy, match_buy, trade_ids, record_fill, run_loop,
  count_orders, resting_orders, loop_for, match_slice, finish_order,
}
use go_exchange_back.Matching.Quantum.{
  QuantumConfig, valid, validate, validate_execution_capacity, validate-capacity_iff,
}
use go_exchange_back.Matching.Engine.{
  MatchingEngine, ActiveSweep, new_matching_engine, has_slice_capacity, free, slice_blocked_now,
  contains, mark_dirty, get_order_book, command_is_valid, reply, handle_cancel, process_cancel,
  take_cancel, decide_cancel, cancel_round, cancel_loop, waiting_cancels, cancel_phase,
}
use go_exchange_back.Matching.Engine.Cancels.{Ended, cancel_phase-Ended}
use go_exchange_back.Matching.Engine.Books.{BooksAreValid, cancel_phase-BooksAreValid}
use go_exchange_back.Matching.Snapshot.{snapshot_of}
use go_exchange_back.Matching.Snapshot.Depth.{filled_levels, snapshot_of_lem}
use go_exchange_back.Matching.Scheduler.{
  on_order, Run, finish_slice, yield_slice, run_slice, ticker_phase, slice_phase, stop_phase,
  wait_phase, run_turn, is_some,
}
use go_exchange_back.Matching.Scheduler.Turns.{run_slice-returns}
use go_exchange_back.Matching.Scheduler.Intake.{run_turn-orders}
use go_exchange_back.Matching.Sharding.{
  ShardedEngine, new_sharded_engine, next_candidate, load_or_store, shard_for, draws, stores, still,
  then_step, shard_for-stable,
}
use go_exchange_back.Tests.{cheap_ask, bid, two_asks, emitter, two_asks-BookIsValid}

abbrev sweep : ActiveSweep
sweep = record { order = bid; book = 0; trades = 0 }

-- One trade a turn, a sweep in progress, an order and a cancellation that wait.
abbrev busy : MatchingEngine
busy = record (new_matching_engine "e") {
  books = two_asks ∷ [];
  order_books = ("BTC", 0) ∷ [];
  order_ch = record { capacity = 4; queue = cheap_ask ∷ [] };
  cancel_ch = record {
    capacity = 4;
    queue =
        record {
          command_id = 7;
          coin_symbol = "BTC";
          order_id = 2;
          side = sell;
          price = pos 11;
          wants_reply = true;
        }
        ∷ [];
  };
  emitter = emitter;
  max_matches_per_turn = 1;
  active_sweep = some sweep;
}

abbrev turned : MatchingEngine × Bool
turned = end_of (run_turn false on_order busy)
  where
    end_of : Run (MatchingEngine × Bool) → MatchingEngine × Bool
    end_of none = (busy, true)
    end_of (some panics) = (busy, true)
    end_of (some (returns r)) = r

turn_runs : run_turn false on_order busy ≡ some (returns (turned.0, turned.1))
unfolding run_turn cancel_phase cancel_loop cancel_round decide_cancel take_cancel process_cancel
    handle_cancel command_is_valid get_order_book mark_dirty contains reply emit_order_cancelled
    begin_reservation end_reservation send_execution send_reserved send_if_open next_trade_event
    free slice_blocked_now has_slice_capacity waiting_cancels ticker_phase slice_phase run_slice
    finish_slice yield_slice stop_phase wait_phase match_slice run_loop loop_for match_buy
    record_fill resting_orders count_orders add_order add_to new_order_book fill_buy take_base
    take_from fill_resting best_matchable_sell_order walk first_non_self_order_index is_self_trade
    new_trade emit_trade try_send trade_ids min_ℤ ◌-ℤ◌ ◌+ℤ◌ ◌*ℤ◌ remove_order remove_from keep_level
    index_of new_matching_engine finish_order
turn_runs = refl

-- Half of the sweep is left after the turn.
turn_goes_on : is_some turned.0.active_sweep ≡ true
unfolding run_turn cancel_phase cancel_loop cancel_round decide_cancel take_cancel process_cancel
    handle_cancel command_is_valid get_order_book mark_dirty contains reply emit_order_cancelled
    begin_reservation end_reservation send_execution send_reserved send_if_open next_trade_event
    free slice_blocked_now has_slice_capacity waiting_cancels ticker_phase slice_phase run_slice
    finish_slice yield_slice stop_phase wait_phase match_slice run_loop loop_for match_buy
    record_fill resting_orders count_orders add_order add_to new_order_book fill_buy take_base
    take_from fill_resting best_matchable_sell_order walk first_non_self_order_index is_self_trade
    new_trade emit_trade try_send trade_ids min_ℤ ◌-ℤ◌ ◌+ℤ◌ ◌*ℤ◌ remove_order remove_from keep_level
    index_of new_matching_engine finish_order
turn_goes_on = refl

run_turn-orders_example :
    (turned.0.order_ch ≡ busy.order_ch) × (turned.0.pending_order ≡ busy.pending_order)
run_turn-orders_example =
    run_turn-orders false on_order busy turned.0 turned.1 turn_runs refl turn_goes_on

cancel_phase-Ended_example : Ended busy (cancel_phase busy)
cancel_phase-Ended_example = cancel_phase-Ended busy

busy_has_capacity : has_slice_capacity busy ≡ true
unfolding has_slice_capacity free new_matching_engine
busy_has_capacity = refl

busy_has_budget : 0 < busy.max_matches_per_turn
busy_has_budget = omega arith

run_slice-returns_example : (e : MatchingEngine) × (run_slice busy sweep ≡ some (returns e))
run_slice-returns_example =
    run_slice-returns busy sweep two_asks-BookIsValid busy_has_budget busy_has_capacity

snapshot_of_lem_example :
    ((snapshot_of "BTC" two_asks 1).asks ≡ take 1 (filled_levels two_asks.sell_orders.0))
    × ((snapshot_of "BTC" two_asks 1).bids ≡ take 1 (filled_levels (reverse two_asks.buy_orders.0)))
snapshot_of_lem_example = snapshot_of_lem "BTC" two_asks 1

abbrev shards : ShardedEngine
shards = new_sharded_engine 3 (new_matching_engine "e")

-- Another goroutine draws a candidate and stores it for the same symbol.
abbrev raced : ShardedEngine
raced = (load_or_store "BTC" 2 (next_candidate (shard_for "BTC" shards).1).1).1

shard_for-stable_example :
    ((shard_for "BTC" raced).0 ≡ (shard_for "BTC" shards).0)
    × ((candidate : ℕ) → (load_or_store "BTC" candidate raced).0 ≡ (shard_for "BTC" shards).0)
shard_for-stable_example = shard_for-stable "BTC" shards raced (
    then_step _ _ _ (draws (shard_for "BTC" shards).1) (
      then_step _ _ _ (stores "BTC" 2 (next_candidate (shard_for "BTC" shards).1).1) (still raced)))

abbrev limits : QuantumConfig
limits = record { max_matches_per_turn = pos 128; max_consecutive_cancels = pos 8 }

validate-capacity_iff_example :
    ((validate limits ≡ valid) × (validate_execution_capacity (pos 1024) (pos 128) (pos 8) ≡ valid))
    ↔ ((pos 1 ≤ℤ pos 128) × (pos 1 ≤ℤ pos 8) × (pos 128 +ℤ pos 1 +ℤ pos 8 ≤ℤ pos 1024))
validate-capacity_iff_example = validate-capacity_iff limits (pos 1024)

positive_limit : 1 ≤ 8
positive_limit = omega arith

abbrev cancelled : MatchingEngine
cancelled = end_of (cancel_phase busy)
  where
    end_of : Run MatchingEngine → MatchingEngine
    end_of none = busy
    end_of (some panics) = busy
    end_of (some (returns e)) = e

cancels_run : cancel_phase busy ≡ some (returns cancelled)
unfolding cancel_phase cancel_loop cancel_round decide_cancel take_cancel process_cancel
    handle_cancel command_is_valid get_order_book mark_dirty contains reply emit_order_cancelled
    begin_reservation end_reservation send_execution send_reserved next_trade_event free
    slice_blocked_now has_slice_capacity waiting_cancels add_order add_to new_order_book
    remove_order remove_from keep_level index_of new_matching_engine
cancels_run = refl

cancel_phase-BooksAreValid_example : BooksAreValid cancelled
cancel_phase-BooksAreValid_example =
    cancel_phase-BooksAreValid busy cancelled cancels_run (two_asks-BookIsValid, tt)
