-- ===== src/Matching/Sweep/Rounds.antt =====
-- The bodies of the four match loops: what one trade does to the book and to the incoming order.
use go_exchange_back.Prelude.{
  suc, ◌≡◌, refl, sym, ◌∙◌, subst, true, false, inl, inr, Option, some, get_elem?, length,
  Bool-cases, Option-cases, some_eq,
}
use go_exchange_back.Packages.{Packages}
use go_exchange_back.Packages.Laws.{min-cases, min-le_left, min-le_right, sub_self}
use go_exchange_back.Matching.Types.{Order, OrderBook}
use go_exchange_back.Matching.Book.Invariant.{
  BookIsValid, get_level-LevelIsValid, LevelIsValid-priced,
}
use go_exchange_back.Matching.Book.Contents.{contents}
use go_exchange_back.Matching.Book.Totals.{total}
use go_exchange_back.Matching.Find.{
  is_self_trade, Found, best_matchable_sell_order, best_market_sell_order, best_matchable_buy_order,
  best_market_buy_order,
}
use go_exchange_back.Matching.Find.Target.{
  IsTarget, matchable_sell-IsTarget, market_sell-IsTarget, matchable_buy-IsTarget,
  market_buy-IsTarget,
}
use go_exchange_back.Matching.Sweep.{
  is_positive, Fill, fill_resting, take_from, take_base, fill_buy, fill_sell, fill_market_buy,
  fill_market_sell, body, match_buy, match_sell, match_market_buy, match_market_sell,
}
use go_exchange_back.Matching.Sweep.Origins.{HasOrigin, ComesFrom, take_from-ComesFrom}
use go_exchange_back.Matching.Sweep.Take.{
  take_from-SideIsValid, take_from-total, take_from_gone-length,
}

module _ ⦃pk : Packages⦄ where
  open pk use {
    Decimal, Deque, Tree, items, levels, get_level, zero_decimal, add, sub, mul, quo, min_decimal,
    less_than, less_irrefl,
  }

  abbrev pub sells : OrderBook → Tree (Deque Order)
  sells book = book.sell_orders

  abbrev pub buys : OrderBook → Tree (Deque Order)
  buys book = book.buy_orders

  -- A trade takes a positive quantity, no more than is there, from another user's order on the
  -- `taken` side, keeps the book valid and leaves the other side alone.
  pub record Takes (taken kept : OrderBook → Tree (Deque Order)) (book : OrderBook) (order : Order)
      (f : Fill) : Type 0 where
    pub other_user : is_self_trade order f.resting ≡ false
    pub positive : is_positive f.quantity ≡ true
    pub within : less_than f.resting.amount f.quantity ≡ false
    pub valid : BookIsValid book → BookIsValid f.book
    pub side_total :
        total (contents (levels (taken book)))
        ≡ add f.quantity (total (contents (levels (taken f.book))))
    pub other_side : kept f.book ≡ kept book
    pub priced : BookIsValid book → is_positive f.price ≡ true
    pub origin :
        (t : Tree (Deque Order))
        → ComesFrom t (taken book)
        → ComesFrom t (taken f.book) × HasOrigin t f.price f.resting
    pub fewer :
        is_positive (sub f.resting.amount f.quantity) ≡ false
        → suc (length (contents (levels (taken f.book)))) ≡ length (contents (levels (taken book)))

  -- What the body of a loop has done when it made a trade.
  pub body-some :
      (best : OrderBook → Order → Option Found)
      (fill : OrderBook → Order → Found → Order → Option Fill) (book : OrderBook) (order : Order)
      (f : Fill)
      → body best fill book order ≡ some f
      → (found : Found) × (resting : Order) × (best book order ≡ some found)
        × (get_elem? (items found.orders) found.index ≡ some resting)
        × (fill book order found resting ≡ some f)
  body-some best fill book order f e = elim (Option-cases (best book order)) [
    | inl d ↦ cc (rw (d, body) at e)
    | inr (found, d) ↦ elim (Option-cases (get_elem? (items found.orders) found.index)) [
      | inl n ↦ cc (rw (d, n, body) at e)
      | inr (resting, n) ↦ (found, resting, d, n, rw (d, n, body) at e)
    ]
  ]

  -- The order that the search has shown to be another user's is the one at the index.
  pub target-other :
      (t : Tree (Deque Order)) (order : Order) (found : Found) (resting : Order)
      → IsTarget t order found
      → get_elem? (items found.orders) found.index ≡ some resting
      → is_self_trade order resting ≡ false
  target-other t order found resting (at_level, (o, at_index, other, earlier)) e =
      let same : some o ≡ some resting = sym at_index ∙ e in
      let o_resting : o ≡ resting = cc same in rw (← o_resting) other

  module _ (book : OrderBook) (order order' : Order) (found : Found) (resting : Order)
      (qty : Decimal) (at_index : get_elem? (items found.orders) found.index ≡ some resting)
      (some_qty : is_positive qty ≡ true) (fits : less_than resting.amount qty ≡ false) where
    take_sell-Takes :
        IsTarget book.sell_orders order found
        → Takes sells buys book order (record {
          book = record book {
            sell_orders = take_from book.sell_orders found (fill_resting resting qty);
          };
          order = order';
          resting = resting;
          price = found.price;
          quantity = qty;
        })
    take_sell-Takes t = record {
      other_user = target-other book.sell_orders order found resting t at_index;
      positive = some_qty;
      within = fits;
      valid = λ h. record {
        buys = h.buys;
        sells = take_from-SideIsValid book.sell_orders found resting qty t.0 at_index false h.sells;
      };
      side_total = take_from-total book.sell_orders found resting qty t.0 at_index fits;
      other_side = refl;
      priced = λ h.
          LevelIsValid-priced false (found.price, found.orders)
            (get_level-LevelIsValid false book.sell_orders found.price found.orders h.sells t.0);
      origin = λ start. take_from-ComesFrom start book.sell_orders found resting qty t.0 at_index;
      fewer = take_from_gone-length book.sell_orders found resting qty t.0 at_index;
    }

    take_buy-Takes :
        IsTarget book.buy_orders order found
        → Takes buys sells book order (record {
          book = record book {
            buy_orders = take_from book.buy_orders found (fill_resting resting qty);
          };
          order = order';
          resting = resting;
          price = found.price;
          quantity = qty;
        })
    take_buy-Takes t = record {
      other_user = target-other book.buy_orders order found resting t at_index;
      positive = some_qty;
      within = fits;
      valid = λ h. record {
        buys = take_from-SideIsValid book.buy_orders found resting qty t.0 at_index true h.buys;
        sells = h.sells;
      };
      side_total = take_from-total book.buy_orders found resting qty t.0 at_index fits;
      other_side = refl;
      priced = λ h.
          LevelIsValid-priced true (found.price, found.orders)
            (get_level-LevelIsValid true book.buy_orders found.price found.orders h.buys t.0);
      origin = λ start. take_from-ComesFrom start book.buy_orders found resting qty t.0 at_index;
      fewer = take_from_gone-length book.buy_orders found resting qty t.0 at_index;
    }

  -- A trade that leaves something of the resting order fills the incoming one.
  abbrev pub RunsOut : Fill → Type 0
  RunsOut f =
      is_positive (sub f.resting.amount f.quantity) ≡ true → is_positive f.order.amount ≡ false

  runs_out :
      (a b : Decimal)
      → is_positive (sub b (min_decimal a b)) ≡ true
      → is_positive (sub a (min_decimal a b)) ≡ false
  runs_out a b h = elim (min-cases a b) [
    | inl (e, le) ↦ rw (e, sub_self a) (less_irrefl zero_decimal)
    | inr (e, lt) ↦ cc (rw (e, sub_self b) at h, less_irrefl zero_decimal)
  ]

  -- A trade of a limit buy order: at a price no higher than its limit, for no more than it asks.
  abbrev pub BuyRound : OrderBook → Order → Fill → Type 0
  BuyRound book order f =
      Takes sells buys book order f
      × (less_than order.price f.price ≡ false)
      × (less_than order.amount f.quantity ≡ false)
      × (f.order ≡ take_base order f.quantity)
      × RunsOut f

  pub match_buy-BuyRound :
      (book : OrderBook) (order : Order) (f : Fill)
      → match_buy.round book order ≡ some f
      → BuyRound book order f
  unfolding match_buy fill_buy take_base
  match_buy-BuyRound book order f e =
      let (found, resting, b, at_index, filled) =
        body-some best_matchable_sell_order fill_buy book order f e in
      let (limit, target) = matchable_sell-IsTarget book order found b in
      let qty = min_decimal order.amount resting.amount in
      elim (Bool-cases (is_positive qty)) [
        | inl p ↦ subst (BuyRound book order) (some_eq (rw p at filled)) (
          take_sell-Takes book order (take_base order qty) found resting qty at_index p
              (min-le_right order.amount resting.amount) target,
          limit,
          min-le_left order.amount resting.amount,
          refl,
          runs_out order.amount resting.amount,
        )
        | inr n ↦ cc (rw n at filled)
      ]

  -- A trade of a limit sell order: at a price no lower than its limit, for no more than it offers.
  abbrev pub SellRound : OrderBook → Order → Fill → Type 0
  SellRound book order f =
      Takes buys sells book order f
      × (less_than f.price order.price ≡ false)
      × (less_than order.amount f.quantity ≡ false)
      × (f.order ≡ take_base order f.quantity)
      × RunsOut f

  pub match_sell-SellRound :
      (book : OrderBook) (order : Order) (f : Fill)
      → match_sell.round book order ≡ some f
      → SellRound book order f
  unfolding match_sell fill_sell take_base
  match_sell-SellRound book order f e =
      let (found, resting, b, at_index, filled) =
        body-some best_matchable_buy_order fill_sell book order f e in
      let (limit, target) = matchable_buy-IsTarget book order found b in
      let qty = min_decimal order.amount resting.amount in
      elim (Bool-cases (is_positive qty)) [
        | inl p ↦ subst (SellRound book order) (some_eq (rw p at filled)) (
          take_buy-Takes book order (take_base order qty) found resting qty at_index p
              (min-le_right order.amount resting.amount) target,
          limit,
          min-le_left order.amount resting.amount,
          refl,
          runs_out order.amount resting.amount,
        )
        | inr n ↦ cc (rw n at filled)
      ]

  -- The incoming market buy order after a trade: it pays the price times the quantity.
  unfoldable pub pay_quote : Order → Decimal → Decimal → Order
  pay_quote order price qty = record order {
    quote_amount = sub order.quote_amount (mul price qty);
    filled_quote_amount = add order.filled_quote_amount (mul price qty);
    filled_amount = add order.filled_amount qty;
  }

  -- A trade of a market buy order: for no more than its quote amount buys at the price.
  abbrev pub MarketBuyRound : OrderBook → Order → Fill → Type 0
  MarketBuyRound book order f =
      Takes sells buys book order f
      × (less_than (quo order.quote_amount f.price) f.quantity ≡ false)
      × (f.order ≡ pay_quote order f.price f.quantity)

  pub match_market_buy-MarketBuyRound :
      (book : OrderBook) (order : Order) (f : Fill)
      → match_market_buy.round book order ≡ some f
      → MarketBuyRound book order f
  unfolding match_market_buy fill_market_buy pay_quote
  match_market_buy-MarketBuyRound book order f e =
      let (found, resting, b, at_index, filled) =
        body-some best_market_sell_order fill_market_buy book order f e in
      let target = market_sell-IsTarget book order found b in
      let qty = min_decimal (quo order.quote_amount found.price) resting.amount in
      elim (Bool-cases (is_positive qty)) [
        | inl p ↦ subst (MarketBuyRound book order) (some_eq (rw p at filled)) (
          take_sell-Takes book order (pay_quote order found.price qty) found resting qty at_index p
              (min-le_right (quo order.quote_amount found.price) resting.amount) target,
          min-le_left (quo order.quote_amount found.price) resting.amount,
          refl,
        )
        | inr n ↦ cc (rw n at filled)
      ]

  unfoldable pub earn_quote : Order → Decimal → Decimal → Order
  earn_quote order price qty = record (take_base order qty) {
    filled_quote_amount = add order.filled_quote_amount (mul price qty);
  }

  -- A trade of a market sell order: for no more than it offers, at whatever price is best.
  abbrev pub MarketSellRound : OrderBook → Order → Fill → Type 0
  MarketSellRound book order f =
      Takes buys sells book order f
      × (less_than order.amount f.quantity ≡ false)
      × (f.order ≡ earn_quote order f.price f.quantity)
      × RunsOut f

  pub match_market_sell-MarketSellRound :
      (book : OrderBook) (order : Order) (f : Fill)
      → match_market_sell.round book order ≡ some f
      → MarketSellRound book order f
  unfolding match_market_sell fill_market_sell earn_quote take_base
  match_market_sell-MarketSellRound book order f e =
      let (found, resting, b, at_index, filled) =
        body-some best_market_buy_order fill_market_sell book order f e in
      let target = market_buy-IsTarget book order found b in
      let qty = min_decimal order.amount resting.amount in
      elim (Bool-cases (is_positive qty)) [
        | inl p ↦ subst (MarketSellRound book order) (some_eq (rw p at filled)) (
          take_buy-Takes book order (earn_quote order found.price qty) found resting qty at_index p
              (min-le_right order.amount resting.amount) target,
          min-le_left order.amount resting.amount,
          refl,
          runs_out order.amount resting.amount,
        )
        | inr n ↦ cc (rw n at filled)
      ]
