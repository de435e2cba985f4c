-- ===== src/Matching/Sweep/Events.antt =====
-- The trades that a slice emits.
use go_exchange_back.Prelude.{
  ℕ, ◌+◌, ◌≤◌, ◌<◌, ◌≡◌, refl, sym, ◌∙◌, Bool, true, false, inl, inr, some, [], arith, Option-cases,
  some_eq,
}
use go_exchange_back.Packages.{Packages}
use go_exchange_back.Matching.Types.{Order, OrderBook, Trade, buy, sell, is_market}
use go_exchange_back.Matching.Emit.{Emitter, returns}
use go_exchange_back.Matching.Sweep.{
  Fill, Loop, Sweep, take_base, match_slice, loop_for, sweep_of, resting_orders, match_buy,
  match_sell, match_market_buy, match_market_sell, trade_ids,
}
use go_exchange_back.Matching.Sweep.Origins.{ComesFrom, ComesFrom-refl}
use go_exchange_back.Matching.Sweep.Rounds.{
  Takes, sells, buys, match_buy-BuyRound, match_sell-SellRound, match_market_buy-MarketBuyRound,
  match_market_sell-MarketSellRound, pay_quote, earn_quote,
}
use go_exchange_back.Matching.Sweep.Loops.{
  Recorded, loop_inv, loop_for_cases, match_slice_loop, match_slice-none,
}
use go_exchange_back.Matching.Sweep.Emitted.{
  append_events-nil, Emits, Emits-step, IsTradeOf, offered,
}

module _ ⦃pk : Packages⦄ where
  open pk use {Decimal, Deque, Tree, items, get_level, add, less_than}

  -- What every round keeps: the events, what identifies the order, and where the book comes from.
  record Emitting (book : OrderBook) (order : Order) (em : Emitter) (s : Sweep) : Type 0 where
    pub emits : Emits (IsTradeOf book order) order.filled_amount em s
    pub id_lem : s.order.id ≡ order.id
    pub user_lem : s.order.user_id ≡ order.user_id
    pub symbol_lem : s.order.coin_symbol ≡ order.coin_symbol
    pub price_lem : s.order.price ≡ order.price
    pub sells_from : ComesFrom book.sell_orders s.book.sell_orders
    pub buys_from : ComesFrom book.buy_orders s.book.buy_orders

  abbrev KeepsEmitting : OrderBook → Order → Emitter → Loop → Type 0
  KeepsEmitting book order em l =
      (budget : ℕ) (s s' : Sweep) (f : Fill)
      → Emitting book order em s
      → l.wants s.order ≡ true
      → (0 < budget → s.trades < budget)
      → l.round s.book s.order ≡ some f
      → Recorded l s f s'
      → Emitting book order em s'

  -- An order after a trade is the order before it but for its amounts, and has filled the quantity.
  record Fills (o o' : Order) (qty : Decimal) : Type 0 where
    pub same_id : o'.id ≡ o.id
    pub same_user : o'.user_id ≡ o.user_id
    pub same_symbol : o'.coin_symbol ≡ o.coin_symbol
    pub same_price : o'.price ≡ o.price
    pub filled : o'.filled_amount ≡ add o.filled_amount qty

  module _ (book : OrderBook) (order : Order) (em : Emitter) (l : Loop) (s s' : Sweep) (f : Fill)
      (h : Emitting book order em s) (rec : Recorded l s f s')
      (after : Fills s.order f.order f.quantity) where
    bought_step :
        Takes sells buys s.book s.order f
        → l.buyer_is_incoming ≡ true
        → order.side ≡ buy
        → (is_market order.order_type ≡ false → less_than order.price f.price ≡ false)
        → Emitting book order em s'
    unfolding trade_ids
    bought_step t incoming side limit =
        let (from, origin) = t.origin book.sell_orders h.sells_from in
        let own = after.same_id ∙ h.id_lem in
        record {
          emits =
              Emits-step (IsTradeOf book order) order.filled_amount em l s s' f h.emits rec
                after.filled
                (record {
                  symbol = after.same_symbol ∙ h.symbol_lem;
                  positive = t.positive;
                  buyer = λ _. rw incoming (
                    own,
                    offered book.sell_orders order s.order f.resting f.price h.user_lem t.other_user
                        origin,
                  );
                  seller = λ q. cc;
                  buy_limit = λ _. limit;
                  sell_limit = λ q. cc;
                });
          id_lem = rw rec.order_lem own;
          user_lem = rw rec.order_lem (after.same_user ∙ h.user_lem);
          symbol_lem = rw rec.order_lem (after.same_symbol ∙ h.symbol_lem);
          price_lem = rw rec.order_lem (after.same_price ∙ h.price_lem);
          sells_from = rw rec.book_lem from;
          buys_from = rw (rec.book_lem, t.other_side) h.buys_from;
        }

    sold_step :
        Takes buys sells s.book s.order f
        → l.buyer_is_incoming ≡ false
        → order.side ≡ sell
        → (is_market order.order_type ≡ false → less_than f.price order.price ≡ false)
        → Emitting book order em s'
    unfolding trade_ids
    sold_step t incoming side limit =
        let (from, origin) = t.origin book.buy_orders h.buys_from in
        let own = after.same_id ∙ h.id_lem in
        record {
          emits =
              Emits-step (IsTradeOf book order) order.filled_amount em l s s' f h.emits rec
                after.filled
                (record {
                  symbol = after.same_symbol ∙ h.symbol_lem;
                  positive = t.positive;
                  buyer = λ q. cc;
                  seller = λ _. rw incoming (
                    own,
                    offered book.buy_orders order s.order f.resting f.price h.user_lem t.other_user
                        origin,
                  );
                  buy_limit = λ q. cc;
                  sell_limit = λ _. limit;
                });
          id_lem = rw rec.order_lem own;
          user_lem = rw rec.order_lem (after.same_user ∙ h.user_lem);
          symbol_lem = rw rec.order_lem (after.same_symbol ∙ h.symbol_lem);
          price_lem = rw rec.order_lem (after.same_price ∙ h.price_lem);
          sells_from = rw (rec.book_lem, t.other_side) h.sells_from;
          buys_from = rw rec.book_lem from;
        }

  take_base-Fills : (o o' : Order) (qty : Decimal) → o' ≡ take_base o qty → Fills o o' qty
  unfolding take_base
  take_base-Fills o o' qty e = rw e (record {
    same_id = refl;
    same_user = refl;
    same_symbol = refl;
    same_price = refl;
    filled = refl;
  })

  pay_quote-Fills :
      (o o' : Order) (price qty : Decimal) → o' ≡ pay_quote o price qty → Fills o o' qty
  unfolding pay_quote
  pay_quote-Fills o o' price qty e = rw e (record {
    same_id = refl;
    same_user = refl;
    same_symbol = refl;
    same_price = refl;
    filled = refl;
  })

  earn_quote-Fills :
      (o o' : Order) (price qty : Decimal) → o' ≡ earn_quote o price qty → Fills o o' qty
  unfolding earn_quote take_base
  earn_quote-Fills o o' price qty e = rw e (record {
    same_id = refl;
    same_user = refl;
    same_symbol = refl;
    same_price = refl;
    filled = refl;
  })

  module _ (book : OrderBook) (order : Order) (em : Emitter) where
    keep_buy : order.side ≡ buy → KeepsEmitting book order em match_buy
    unfolding match_buy
    keep_buy side budget s s' f h w x e rec =
        let (t, limit, fits, after, out) = match_buy-BuyRound s.book s.order f e in
        bought_step book order em match_buy s s' f h rec (take_base-Fills s.order f.order _ after) t
          refl side (λ _. rw h.price_lem at limit)

    keep_sell : order.side ≡ sell → KeepsEmitting book order em match_sell
    unfolding match_sell
    keep_sell side budget s s' f h w x e rec =
        let (t, limit, fits, after, out) = match_sell-SellRound s.book s.order f e in
        sold_step book order em match_sell s s' f h rec (take_base-Fills s.order f.order _ after) t
          refl side (λ _. rw h.price_lem at limit)

    keep_market_buy :
        order.side ≡ buy
        → is_market order.order_type ≡ true
        → KeepsEmitting book order em match_market_buy
    unfolding match_market_buy
    keep_market_buy side type budget s s' f h w x e rec =
        let (t, fits, after) = match_market_buy-MarketBuyRound s.book s.order f e in
        bought_step book order em match_market_buy s s' f h rec
          (pay_quote-Fills s.order f.order f.price f.quantity after) t refl side (λ q. cc)

    keep_market_sell :
        order.side ≡ sell
        → is_market order.order_type ≡ true
        → KeepsEmitting book order em match_market_sell
    unfolding match_market_sell
    keep_market_sell side type budget s s' f h w x e rec =
        let (t, fits, after, out) = match_market_sell-MarketSellRound s.book s.order f e in
        sold_step book order em match_market_sell s s' f h rec
          (earn_quote-Fills s.order f.order f.price f.quantity after) t refl side (λ q. cc)

  start_Emits :
      (Q : Trade → Type 0) (book : OrderBook) (order : Order) (em : Emitter)
      → Emits Q order.filled_amount em (sweep_of book order em)
  start_Emits Q book order em = record {
    trade_list = [];
    queue = sym (append_events-nil em.execution_ch);
    count = refl;
    numbers = tt;
    last_number = omega arith;
    same_id = refl;
    filled = refl;
    each = tt;
  }

  start_Emitting :
      (book : OrderBook) (order : Order) (em : Emitter)
      → Emitting book order em (sweep_of book order em)
  start_Emitting book order em = record {
    emits = start_Emits (IsTradeOf book order) book order em;
    id_lem = refl;
    user_lem = refl;
    symbol_lem = refl;
    price_lem = refl;
    sells_from = ComesFrom-refl book.sell_orders;
    buys_from = ComesFrom-refl book.buy_orders;
  }

  -- The events of a slice are its trades, in order and numbered without a gap. Each is of the order's
  -- symbol and for a positive quantity, names the order on its own side and, on the other, an order of
  -- another user that stood in the book at the trade's price when the slice began; for a limit order
  -- the price is within its limit. Their quantities are together what the order has filled. A slice
  -- with a budget makes no more trades than its budget.
  pub match_slice-Emits :
      (book : OrderBook) (order : Order) (em : Emitter) (budget : ℕ) (s : Sweep) (d : Bool)
      → match_slice book order em budget ≡ some (returns (s, d))
      → Emits (IsTradeOf book order) order.filled_amount em s × (0 < budget → s.trades ≤ budget)
  match_slice-Emits book order em budget s d e =
      elim (Option-cases (loop_for order.side order.order_type)) [
        | inl n ↦
            let whole : returns (sweep_of book order em, true) ≡ returns (s, d) =
              some_eq (sym (match_slice-none book order em budget n) ∙ e) in
            let same : sweep_of book order em ≡ s = cc whole in
            rw (← same) (start_Emits (IsTradeOf book order) book order em, λ _. omega arith)
        | inr (l, n) ↦
            let keeps =
              loop_for_cases (KeepsEmitting book order em) order.side order.order_type
                (keep_market_buy book order em) (λ b _. keep_buy book order em b)
                (keep_market_sell book order em) (λ b _. keep_sell book order em b) l n in
            let run = sym (match_slice_loop book order em budget l n) ∙ e in
            let (h, within) =
              (loop_inv l budget (λ x. Emitting book order em x × (0 < budget → x.trades ≤ budget))
                (λ x y f p w b r rec.
                  (keeps budget x y f p.0 w b r rec, λ z. omega (arith, rec.trades_lem, b z)))
                (resting_orders book + 2) (sweep_of book order em) s d run
                (start_Emitting book order em, λ _. omega arith)).0 in
            (h.emits, within)
      ]
