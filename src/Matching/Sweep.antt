-- ===== src/Matching/Sweep.antt =====
-- engine.go, `matchBuy`, `matchSell`, `matchMarketBuy`, `matchMarketSell`, `matchSlice`,
-- `finishOrder` and `orderIsAdmissible`. The body of each loop is a function of its own, and the
-- four loops, alike in budget, emission and counting, are one over their bodies.
pub mod Take
pub mod Origins
pub mod Rounds
pub mod Loops
pub mod Termination
pub mod MarketBuy
pub mod Outcomes
pub mod Slices
pub mod Resume
pub mod Slicing
pub mod Ending
pub mod Emitted
pub mod Events
use go_exchange_back.Prelude.{
  ℕ, zero, suc, ◌+◌, ◌≡◌, Bool, true, false, ◌&&◌, ◌||◌, Option, none, some, List, [], ◌∷◌, ltb,
  leb, length, get_elem?, if◌then◌else◌,
}
use go_exchange_back.Packages.{Packages}
use go_exchange_back.Matching.Types.{
  Order, OrderBook, OrderSide, buy, sell, other_side, OrderType, is_market,
}
use go_exchange_back.Matching.Book.{keep_level, add_order}
use go_exchange_back.Matching.Find.{
  Found, best_matchable_sell_order, best_market_sell_order, best_matchable_buy_order,
  best_market_buy_order,
}
use go_exchange_back.Matching.Emit.{
  Emitter, Outcome, returns, panics, ◌>>=◌, new_trade, emit_trade, emit_market_order_done,
}

module _ ⦃pk : Packages⦄ where
  open pk use {
    Decimal, Deque, Tree, items, levels, set_item, remove_item, zero_decimal, add, sub, mul, quo,
    min_decimal, less_than,
  }

  abbrev pub is_positive : Decimal → Bool
  is_positive a = less_than zero_decimal a

  -- One trade: the book and the incoming order after it, and the resting order that gave it.
  pub record Fill : Type 0 where
    pub book : OrderBook
    pub order : Order
    pub resting : Order
    pub price : Decimal
    pub quantity : Decimal

  -- `sellOrder.Amount -= tradeQty; sellOrder.FilledAmount += tradeQty`.
  unfoldable pub fill_resting : Order → Decimal → Order
  fill_resting resting qty = record resting {
    amount = sub resting.amount qty;
    filled_amount = add resting.filled_amount qty;
  }

  -- The level after its order at `found.index` has given `qty`: out of the queue when nothing is
  -- left of it, and the level out of the tree when the queue is empty.
  unfoldable pub take_from : Tree (Deque Order) → Found → Order → Tree (Deque Order)
  take_from t found resting = keep_level t found.price (
      if is_positive resting.amount
      then set_item found.orders found.index resting
      else remove_item found.orders found.index)

  unfoldable pub take_base : Order → Decimal → Order
  take_base order qty = record order {
    amount = sub order.amount qty;
    filled_amount = add order.filled_amount qty;
  }

  -- The bodies return `none` where the source returns `trades, true`.
  unfoldable pub fill_buy : OrderBook → Order → Found → Order → Option Fill
  unfolding take_base
  fill_buy book order found resting =
      let qty = min_decimal order.amount resting.amount in
      let resting' = fill_resting resting qty in
      if is_positive qty
      then some (record {
        book = record book { sell_orders = take_from book.sell_orders found resting' };
        order = take_base order qty;
        resting = resting;
        price = found.price;
        quantity = qty;
      })
      else none

  unfoldable pub fill_sell : OrderBook → Order → Found → Order → Option Fill
  unfolding take_base
  fill_sell book order found resting =
      let qty = min_decimal order.amount resting.amount in
      let resting' = fill_resting resting qty in
      if is_positive qty
      then some (record {
        book = record book { buy_orders = take_from book.buy_orders found resting' };
        order = take_base order qty;
        resting = resting;
        price = found.price;
        quantity = qty;
      })
      else none

  unfoldable pub fill_market_buy : OrderBook → Order → Found → Order → Option Fill
  fill_market_buy book order found resting =
      let max_qty_by_quote = quo order.quote_amount found.price in
      let qty = min_decimal max_qty_by_quote resting.amount in
      let execution_quote = mul found.price qty in
      let resting' = fill_resting resting qty in
      if is_positive qty
      then some (record {
        book = record book { sell_orders = take_from book.sell_orders found resting' };
        order = record order {
          quote_amount = sub order.quote_amount execution_quote;
          filled_quote_amount = add order.filled_quote_amount execution_quote;
          filled_amount = add order.filled_amount qty;
        };
        resting = resting;
        price = found.price;
        quantity = qty;
      })
      else none

  unfoldable pub fill_market_sell : OrderBook → Order → Found → Order → Option Fill
  unfolding take_base
  fill_market_sell book order found resting =
      let qty = min_decimal order.amount resting.amount in
      let execution_quote = mul found.price qty in
      let resting' = fill_resting resting qty in
      if is_positive qty
      then some (record {
        book = record book { buy_orders = take_from book.buy_orders found resting' };
        order = record (take_base order qty) {
          filled_quote_amount = add order.filled_quote_amount execution_quote;
        };
        resting = resting;
        price = found.price;
        quantity = qty;
      })
      else none

  -- The search and `Orders.At(orderIndex)`, which the search has found to be in range.
  abbrev body :
      (OrderBook → Order → Option Found)
      → (OrderBook → Order → Found → Order → Option Fill)
      → OrderBook
      → Order
      → Option Fill
  body best fill book order = elim (best book order) [
    | none ↦ none
    | some found ↦ elim (get_elem? (items found.orders) found.index) [
      | none ↦ none
      | some resting ↦ fill book order found resting
    ]
  ]

  -- A loop: its condition, its body, and which of the two orders is the buyer.
  pub record Loop : Type 0 where
    pub wants : Order → Bool
    pub round : OrderBook → Order → Option Fill
    pub buyer_is_incoming : Bool

  unfoldable pub match_buy : Loop
  match_buy = record {
    wants = λ order. is_positive order.amount;
    round = body best_matchable_sell_order fill_buy;
    buyer_is_incoming = true;
  }

  unfoldable pub match_sell : Loop
  match_sell = record {
    wants = λ order. is_positive order.amount;
    round = body best_matchable_buy_order fill_sell;
    buyer_is_incoming = false;
  }

  unfoldable pub match_market_buy : Loop
  match_market_buy = record {
    wants = λ order. is_positive order.quote_amount;
    round = body best_market_sell_order fill_market_buy;
    buyer_is_incoming = true;
  }

  unfoldable pub match_market_sell : Loop
  match_market_sell = record {
    wants = λ order. is_positive order.amount;
    round = body best_market_buy_order fill_market_sell;
    buyer_is_incoming = false;
  }

  -- What a loop works on and counts.
  pub record Sweep : Type 0 where
    pub book : OrderBook
    pub order : Order
    pub emitter : Emitter
    pub trades : ℕ

  -- The buyer's and the seller's order.
  unfoldable pub trade_ids : Bool → Fill → ℕ × ℕ
  trade_ids true f = (f.order.id, f.resting.id)
  trade_ids false f = (f.resting.id, f.order.id)

  -- `emitTrade(newTrade(…))` and `trades++`.
  unfoldable pub record_fill : Loop → Sweep → Fill → Outcome Sweep
  record_fill l s f =
      let ids = trade_ids l.buyer_is_incoming f in
      let (t, em) = new_trade s.emitter f.order.coin_symbol f.price f.quantity ids.0 ids.1 in
      emit_trade em t >>= λ em'.
      returns (record { book = f.book; order = f.order; emitter = em'; trades = s.trades + 1 })

  -- `budget` 0 is no limit. The flag is the source's `done`; `none` says that the fuel ran out.
  unfoldable pub run_loop : ℕ → Loop → ℕ → Sweep → Option (Outcome (Sweep × Bool))
  run_loop zero l budget s = none
  run_loop (suc fuel) l budget s =
      let go_on : Outcome Sweep → Option (Outcome (Sweep × Bool)) =
        λ r. elim r [ panics ↦ some panics | returns s' ↦ run_loop fuel l budget s' ] in
      if l.wants s.order
      then (if ltb 0 budget && leb budget s.trades
          then some (returns (s, false))
          else elim (l.round s.book s.order) [
            | none ↦ some (returns (s, true))
            | some f ↦ go_on (record_fill l s f)
          ])
      else some (returns (s, true))

  -- Enough for every loop: one round for each resting order, one that fills the incoming order,
  -- and one that stops.
  unfoldable pub count_orders : List (Decimal × Deque Order) → ℕ
  count_orders [] = 0
  count_orders ((price, orders) ∷ rest) = length (items orders) + count_orders rest

  unfoldable pub resting_orders : OrderBook → ℕ
  unfolding count_orders
  resting_orders book =
      count_orders (levels book.sell_orders) + count_orders (levels book.buy_orders)

  -- The switch of `matchSlice`; no loop runs for a side that is neither buy nor sell.
  unfoldable pub loop_for : OrderSide → OrderType → Option Loop
  loop_for buy order_type = some (if is_market order_type then match_market_buy else match_buy)
  loop_for sell order_type = some (if is_market order_type then match_market_sell else match_sell)
  loop_for (other_side s) order_type = none

  abbrev pub sweep_of : OrderBook → Order → Emitter → Sweep
  sweep_of book order em = record { book = book; order = order; emitter = em; trades = 0 }

  unfoldable pub match_slice : OrderBook → Order → Emitter → ℕ → Option (Outcome (Sweep × Bool))
  match_slice book order em budget = elim (loop_for order.side order.order_type) [
    | none ↦ some (returns (sweep_of book order em, true))
    | some l ↦ run_loop (resting_orders book + 2) l budget (sweep_of book order em)
  ]

  -- The book with what is left of a limit order, the events, and whether the symbol is marked dirty.
  unfoldable pub finish_order : OrderBook → Order → Emitter → Outcome (OrderBook × Emitter × Bool)
  finish_order book order em =
      if is_market order.order_type
      then (emit_market_order_done em order >>= λ em'. returns (book, em', false))
      else if is_positive order.amount
      then returns (add_order book order, em, true)
      else returns (book, em, false)

  unfoldable pub order_is_admissible : Order → Bool
  order_is_admissible order = elim order.side [
    | buy ↦ is_market order.order_type || is_positive order.amount
    | sell ↦ is_positive order.amount
    | other_side s ↦ false
  ]
