-- ===== src/Tests/Sweeps.antt =====
-- The book and the sweeps.
use go_exchange_back.Prelude.{
  ◌<◌, ◌≤◌, ◌≡◌, refl, Bool, true, false, Option, none, some, ◌∷◌, ◌+◌, arith,
}
use go_exchange_back.Prelude.Int.{pos, ◌+ℤ◌, ◌-ℤ◌, ◌*ℤ◌, ltb_ℤ}
use mathlib.Core.List.{Perm}
use go_exchange_back.Packages.Int.{int_packages, min_ℤ}
use go_exchange_back.Matching.Types.{sell}
use go_exchange_back.Matching.Book.{
  new_order_book, add_to, add_order, index_of, keep_level, remove_from, remove_order,
}
use go_exchange_back.Matching.Book.Invariant.{
  BookIsValid, add_order-BookIsValid, remove_order-BookIsValid,
}
use go_exchange_back.Matching.Book.Contents.{contents, add_to-perm}
use go_exchange_back.Matching.Book.Removal.{Removes, remove_from-Removes}
use go_exchange_back.Matching.Emit.{
  Outcome, returns, panics, send_if_open, send_execution, next_trade_event, new_trade, emit_trade,
  try_send,
}
use go_exchange_back.Matching.Find.{
  is_self_trade, first_non_self_order_index, walk, best_matchable_sell_order,
  best_matchable_buy_order, best_market_sell_order, best_market_buy_order,
}
use go_exchange_back.Matching.Find.Best.{IsBestMatch, searches-IsBestMatch}
use go_exchange_back.Matching.Sweep.{
  Sweep, sweep_of, take_from, take_base, fill_resting, fill_buy, match_buy, trade_ids, record_fill,
  run_loop, count_orders, resting_orders, loop_for, match_slice,
}
use go_exchange_back.Matching.Sweep.Termination.{match_slice-ends}
use go_exchange_back.Matching.Sweep.Outcomes.{Conserved, match_slice-Conserved}
use go_exchange_back.Matching.Sweep.Resume.{run_slices, run_slices-match_slice}
use go_exchange_back.Matching.Sweep.Slicing.{run_slices-returns}
use go_exchange_back.Matching.Sweep.Ending.{Exhausted, match_slice-Exhausted}
use go_exchange_back.Matching.Sweep.Emitted.{Emits, IsTradeOf}
use go_exchange_back.Matching.Sweep.Events.{match_slice-Emits}
use go_exchange_back.Tests.{
  dear_ask, bid, one_ask, two_asks, emitter, one_ask-BookIsValid, two_asks-BookIsValid,
}

abbrev result_of : Option (Outcome (Sweep × Bool)) → Sweep × Bool
result_of none = (sweep_of two_asks bid emitter, false)
result_of (some panics) = (sweep_of two_asks bid emitter, false)
result_of (some (returns r)) = r

-- The first slice of one trade, and the sweep in one piece.
abbrev first_slice : Sweep × Bool
first_slice = result_of (match_slice two_asks bid emitter 1)

first_slice_runs : match_slice two_asks bid emitter 1 ≡ some (returns first_slice)
unfolding match_slice run_loop loop_for match_buy record_fill resting_orders count_orders add_order
    add_to new_order_book fill_buy take_base take_from fill_resting best_matchable_sell_order walk
    first_non_self_order_index is_self_trade new_trade next_trade_event emit_trade try_send
    send_if_open send_execution trade_ids min_ℤ ◌-ℤ◌ ◌+ℤ◌ ◌*ℤ◌ remove_order remove_from keep_level
    index_of
first_slice_runs = refl

abbrev whole_sweep : Sweep × Bool
whole_sweep = result_of (match_slice two_asks bid emitter 0)

whole_sweep_runs : match_slice two_asks bid emitter 0 ≡ some (returns (whole_sweep.0, true))
unfolding match_slice run_loop loop_for match_buy record_fill resting_orders count_orders add_order
    add_to new_order_book fill_buy take_base take_from fill_resting best_matchable_sell_order walk
    first_non_self_order_index is_self_trade new_trade next_trade_event emit_trade try_send
    send_if_open send_execution trade_ids min_ℤ ◌-ℤ◌ ◌+ℤ◌ ◌*ℤ◌ remove_order remove_from keep_level
    index_of
whole_sweep_runs = refl

abbrev in_slices : Sweep × Bool
in_slices = result_of (run_slices 5 1 two_asks bid emitter)

in_slices_runs : run_slices 5 1 two_asks bid emitter ≡ some (returns (in_slices.0, true))
unfolding run_slices match_slice run_loop loop_for match_buy record_fill resting_orders count_orders
    add_order add_to new_order_book fill_buy take_base take_from fill_resting
    best_matchable_sell_order walk first_non_self_order_index is_self_trade new_trade
    next_trade_event emit_trade try_send send_if_open send_execution trade_ids min_ℤ ◌-ℤ◌ ◌+ℤ◌ ◌*ℤ◌
    remove_order remove_from keep_level index_of
in_slices_runs = refl

searches-IsBestMatch_example :
    IsBestMatch ltb_ℤ
      (λ price. ltb_ℤ (pos 12) price)
      bid
      two_asks.sell_orders
      (best_matchable_sell_order two_asks bid)
    × IsBestMatch
        (λ a b. ltb_ℤ b a)
        (λ price. ltb_ℤ price (pos 12))
        bid
        two_asks.buy_orders
        (best_matchable_buy_order two_asks bid)
    × IsBestMatch ltb_ℤ
        (λ price. false)
        bid
        two_asks.sell_orders
        (best_market_sell_order two_asks bid)
    × IsBestMatch
        (λ a b. ltb_ℤ b a)
        (λ price. false)
        bid
        two_asks.buy_orders
        (best_market_buy_order two_asks bid)
searches-IsBestMatch_example = searches-IsBestMatch two_asks bid

match_slice-Conserved_example : Conserved two_asks bid first_slice.0
match_slice-Conserved_example =
    match_slice-Conserved two_asks bid emitter 1 first_slice.0 first_slice.1 two_asks-BookIsValid
      refl refl first_slice_runs

run_slices-match_slice_example :
    (s : Sweep) × (match_slice two_asks bid emitter 0 ≡ some (returns (s, true)))
    × (s.book ≡ in_slices.0.book)
    × (s.order ≡ in_slices.0.order)
    × (s.emitter ≡ in_slices.0.emitter)
run_slices-match_slice_example =
    run_slices-match_slice 5 1 two_asks bid emitter in_slices.0 two_asks-BookIsValid in_slices_runs

match_slice-ends_example :
    (r : Outcome (Sweep × Bool)) × (match_slice two_asks bid emitter 1 ≡ some r)
match_slice-ends_example = match_slice-ends two_asks bid emitter 1 two_asks-BookIsValid

match_slice-Exhausted_example : Exhausted bid whole_sweep.0
match_slice-Exhausted_example =
    match_slice-Exhausted two_asks bid emitter 0 whole_sweep.0 two_asks-BookIsValid whole_sweep_runs

match_slice-Emits_example :
    Emits (IsTradeOf two_asks bid) bid.filled_amount emitter first_slice.0
    × (0 < 1 → first_slice.0.trades ≤ 1)
match_slice-Emits_example =
    match_slice-Emits two_asks bid emitter 1 first_slice.0 first_slice.1 first_slice_runs

remove_order-BookIsValid_example :
    BookIsValid (remove_order two_asks sell (pos 11) 2).0
    × ((remove_order two_asks sell (pos 11) 2).1 ≡ false
        → (remove_order two_asks sell (pos 11) 2).0 ≡ two_asks)
remove_order-BookIsValid_example =
    remove_order-BookIsValid two_asks sell (pos 11) 2 two_asks-BookIsValid

add_order-BookIsValid_example : BookIsValid (add_order one_ask dear_ask)
add_order-BookIsValid_example = add_order-BookIsValid one_ask dear_ask refl refl one_ask-BookIsValid

remove_from-Removes_example :
    Removes two_asks.sell_orders (pos 11) 2 (remove_from two_asks.sell_orders (pos 11) 2)
remove_from-Removes_example = remove_from-Removes two_asks.sell_orders (pos 11) 2

add_to-perm_example :
    Perm
      (contents (add_to one_ask.sell_orders dear_ask).0)
      (dear_ask ∷ contents one_ask.sell_orders.0)
add_to-perm_example = add_to-perm one_ask.sell_orders dear_ask

two_rest : resting_orders two_asks ≡ 2
unfolding resting_orders count_orders add_order add_to new_order_book
two_rest = refl

enough_slices : resting_orders two_asks + 2 ≤ 4
enough_slices = omega (arith, two_rest)

positive_budget : 0 < 1
positive_budget = omega arith

run_slices-returns_example :
    (s : Sweep) × (run_slices 4 1 two_asks bid emitter ≡ some (returns (s, true)))
run_slices-returns_example =
    run_slices-returns 4 1 two_asks bid emitter two_asks-BookIsValid positive_budget refl
      enough_slices
