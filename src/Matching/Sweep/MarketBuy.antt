-- ===== src/Matching/Sweep/MarketBuy.antt =====
-- A market buy order that leaves something of the resting order has no quote amount left that buys
-- at that price: the next search finds the same order again and the quantity is not positive.
use go_exchange_back.Prelude.{
  ◌≡◌, refl, ◌∙◌, subst, true, false, inl, inr, Option, none, some, get_elem?, put_key, Bool-cases,
  some_eq, get_elem?-set_self, set-ne-nil,
}
use go_exchange_back.Packages.{Packages}
use go_exchange_back.Packages.Laws.{min-cases, min-le_left, sub_self, le_trans, less_asym}
use go_exchange_back.Matching.Types.{Order, OrderBook}
use go_exchange_back.Matching.Book.Invariant.{
  BookIsValid, get_level-LevelIsValid, LevelIsValid-priced,
}
use go_exchange_back.Matching.Book.Contents.{keep_level-replaces}
use go_exchange_back.Matching.Find.{is_self_trade, Found, best_market_sell_order}
use go_exchange_back.Matching.Find.Target.{market_sell-IsTarget}
use go_exchange_back.Matching.Find.Again.{market_sell_again, self_trade_user, self_trade_resting}
use go_exchange_back.Matching.Sweep.{
  is_positive, Fill, fill_resting, take_from, fill_market_buy, body, match_market_buy,
}
use go_exchange_back.Matching.Sweep.Rounds.{body-some, target-other, pay_quote}

module _ ⦃pk : Packages⦄ where
  open pk use {
    Decimal, Deque, Tree, items, levels, set_item, zero_decimal, add, sub, mul, quo, min_decimal,
    less_than, less_irrefl, quo-rest, items-set_item,
  }

  -- The quantity of the next round.
  no_rest :
      (quote price amount rest : Decimal)
      → is_positive price ≡ true
      → is_positive quote ≡ true
      → is_positive (sub amount (min_decimal (quo quote price) amount)) ≡ true
      → is_positive (
          min_decimal
            (quo (sub quote (mul price (min_decimal (quo quote price) amount))) price)
            rest)
        ≡ false
  no_rest quote price amount rest p q left = elim (min-cases (quo quote price) amount) [
    | inl (e, le) ↦ rw e (
        le_trans _ (quo (sub quote (mul price (quo quote price))) price) zero_decimal
          (min-le_left _ rest) (quo-rest quote price p (less_asym zero_decimal quote q)))
    | inr (e, lt) ↦ cc (rw (e, sub_self amount) at left, less_irrefl zero_decimal)
  ]

  body-unmatched :
      (best : OrderBook → Order → Option Found)
      (fill : OrderBook → Order → Found → Order → Option Fill) (book : OrderBook) (order : Order)
      (found : Found) (resting : Order)
      → best book order ≡ some found
      → get_elem? (items found.orders) found.index ≡ some resting
      → fill book order found resting ≡ none
      → body best fill book order ≡ none
  body-unmatched best fill book order found resting b i f = rw (b, i, body) f

  stop_after :
      (book : OrderBook) (order : Order) (found : Found) (resting : Order)
      → BookIsValid book
      → is_positive order.quote_amount ≡ true
      → best_market_sell_order book order ≡ some found
      → get_elem? (items found.orders) found.index ≡ some resting
      → let qty = min_decimal (quo order.quote_amount found.price) resting.amount in
        is_positive (sub resting.amount qty) ≡ true
        → body best_market_sell_order fill_market_buy
            (record book {
              sell_orders = take_from book.sell_orders found (fill_resting resting qty);
            })
            (pay_quote order found.price qty)
          ≡ none
  unfolding take_from fill_resting fill_market_buy pay_quote
  stop_after book order found resting h q b at_index left =
      let qty = min_decimal (quo order.quote_amount found.price) resting.amount in
      let resting' = fill_resting resting qty in
      let target = market_sell-IsTarget book order found b in
      let orders' = set_item found.orders found.index resting' in
      let order' = pay_quote order found.price qty in
      let tree = take_from book.sell_orders found resting' in
      let priced : is_positive found.price ≡ true =
        LevelIsValid-priced false (found.price, found.orders)
          (get_level-LevelIsValid false book.sell_orders found.price found.orders h.sells
            target.0) in
      let changed : levels tree ≡ put_key less_than found.price orders' (levels book.sell_orders) =
        rw left (
          keep_level-replaces book.sell_orders found.price orders' (
            rw items-set_item
              (set-ne-nil (items found.orders) found.index resting resting' at_index))) in
      let other : is_self_trade order resting' ≡ false =
        self_trade_resting order resting resting' refl
        ∙ target-other book.sell_orders order found resting target at_index in
      let again =
        market_sell_again order order' (λ o. self_trade_user order order' o refl) book
          (record book { sell_orders = tree }) found orders' resting' b changed
          (items-set_item found.orders found.index resting') other in
      body-unmatched best_market_sell_order fill_market_buy (record book { sell_orders = tree })
        order' (record found { orders = orders' }) resting' again
        (rw items-set_item
          (get_elem?-set_self (items found.orders) found.index resting resting' at_index))
        (rw (no_rest order.quote_amount found.price resting.amount resting'.amount priced q left))

  pub market_buy_stops :
      (book : OrderBook) (order : Order) (f : Fill)
      → BookIsValid book
      → is_positive order.quote_amount ≡ true
      → match_market_buy.round book order ≡ some f
      → is_positive (sub f.resting.amount f.quantity) ≡ true
      → match_market_buy.round f.book f.order ≡ none
  unfolding match_market_buy fill_market_buy pay_quote
  market_buy_stops book order f h q e left =
      let (found, resting, b, at_index, filled) =
        body-some best_market_sell_order fill_market_buy book order f e in
      let qty = min_decimal (quo order.quote_amount found.price) resting.amount in
      elim (Bool-cases (is_positive qty)) [
        | inl p ↦
            subst
              (λ (g : Fill).
                is_positive (sub g.resting.amount g.quantity) ≡ true
                → body best_market_sell_order fill_market_buy g.book g.order ≡ none)
              (some_eq (rw p at filled)) (stop_after book order found resting h q b at_index) left
        | inr n ↦ cc (rw n at filled)
      ]
