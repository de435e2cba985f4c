-- ===== src/Matching/Sweep/Ending.antt =====
-- What is left to match when a slice reports that it is done.
use go_exchange_back.Prelude.{
  ℕ, ◌+◌, ◌≡◌, ◌≢◌, sym, ◌∙◌, Bool, true, false, inl, inr, ◌⊎◌, Option, none, some, get_elem?,
  All-get_elem?, Bool-cases, Option-cases,
}
use go_exchange_back.Packages.{Packages}
use go_exchange_back.Packages.Laws.{min-cases}
use go_exchange_back.Matching.Types.{Order, OrderBook, buy, sell, is_market}
use go_exchange_back.Matching.Book.Invariant.{
  Belongs, BookIsValid, SideIsValid, get_level-LevelIsValid,
}
use go_exchange_back.Matching.Emit.{Emitter, returns}
use go_exchange_back.Matching.Find.{
  Found, best_matchable_sell_order, best_market_sell_order, best_matchable_buy_order,
  best_market_buy_order,
}
use go_exchange_back.Matching.Find.Priority.{NoMatch, searches-IsBest}
use go_exchange_back.Matching.Find.Target.{
  IsTarget, matchable_sell-IsTarget, market_sell-IsTarget, matchable_buy-IsTarget,
  market_buy-IsTarget,
}
use go_exchange_back.Matching.Sweep.{
  is_positive, Fill, Loop, Sweep, body, fill_buy, fill_sell, fill_market_buy, fill_market_sell,
  match_buy, match_sell, match_market_buy, match_market_sell, match_slice, sweep_of, resting_orders,
  loop_for,
}
use go_exchange_back.Matching.Sweep.Loops.{
  Ended, loop_inv, match_slice_loop, loop_for_buy, loop_for_sell,
}
use go_exchange_back.Matching.Sweep.Resume.{match_slice-SameLoop}

module _ ⦃pk : Packages⦄ where
  open pk use {Decimal, Deque, Tree, items, levels, quo, min_decimal, less_than, zero_decimal}

  -- Why a body makes no trade.
  body-none :
      (best : OrderBook → Order → Option Found)
      (fill : OrderBook → Order → Found → Order → Option Fill) (side : Tree (Deque Order))
      (book : OrderBook) (order : Order)
      → ((f : Found) → best book order ≡ some f → IsTarget side order f)
      → body best fill book order ≡ none
      → (best book order ≡ none)
        ⊎ ((f : Found) × (resting : Order) × (best book order ≡ some f)
            × (get_elem? (items f.orders) f.index ≡ some resting)
            × (fill book order f resting ≡ none))
  body-none best fill side book order target e = elim (Option-cases (best book order)) [
    | inl n ↦ inl n
    | inr (f, b) ↦
        let (resting, at_index, other, earlier) = (target f b).1 in
        inr (f, resting, b, at_index, rw (b, at_index, body) at e)
  ]

  -- An order in a valid book has something left.
  resting_positive :
      (b : Bool) (t : Tree (Deque Order)) (order : Order) (f : Found) (resting : Order)
      → SideIsValid b t
      → IsTarget t order f
      → get_elem? (items f.orders) f.index ≡ some resting
      → is_positive resting.amount ≡ true
  resting_positive b t order f resting h target at_index =
      (All-get_elem? (Belongs b f.price) (items f.orders) f.index resting
        (get_level-LevelIsValid b t f.price f.orders h target.0).1 at_index).positive

  min_positive :
      (a b : Decimal)
      → is_positive a ≡ true
      → is_positive b ≡ true
      → is_positive (min_decimal a b) ≡ true
  min_positive a b p q = elim (min-cases a b) [ inl (e, h) ↦ rw e p | inr (e, h) ↦ rw e q ]

  fill_buy-some :
      (book : OrderBook) (order : Order) (f : Found) (resting : Order)
      → is_positive (min_decimal order.amount resting.amount) ≡ true
      → fill_buy book order f resting ≢ none
  unfolding fill_buy
  fill_buy-some book order f resting p e = cc (rw p at e)

  fill_sell-some :
      (book : OrderBook) (order : Order) (f : Found) (resting : Order)
      → is_positive (min_decimal order.amount resting.amount) ≡ true
      → fill_sell book order f resting ≢ none
  unfolding fill_sell
  fill_sell-some book order f resting p e = cc (rw p at e)

  fill_market_sell-some :
      (book : OrderBook) (order : Order) (f : Found) (resting : Order)
      → is_positive (min_decimal order.amount resting.amount) ≡ true
      → fill_market_sell book order f resting ≢ none
  unfolding fill_market_sell
  fill_market_sell-some book order f resting p e = cc (rw p at e)

  fill_market_buy-some :
      (book : OrderBook) (order : Order) (f : Found) (resting : Order)
      → is_positive (min_decimal (quo order.quote_amount f.price) resting.amount) ≡ true
      → fill_market_buy book order f resting ≢ none
  unfolding fill_market_buy
  fill_market_buy-some book order f resting p e = cc (rw p at e)

  match_buy-stuck :
      (book : OrderBook) (order : Order)
      → BookIsValid book
      → is_positive order.amount ≡ true
      → match_buy.round book order ≡ none
      → best_matchable_sell_order book order ≡ none
  unfolding match_buy
  match_buy-stuck book order v p e =
      elim (body-none best_matchable_sell_order fill_buy book.sell_orders book order
        (λ f b. (matchable_sell-IsTarget book order f b).1) e) [
          | inl n ↦ n
          | inr (f, resting, b, at_index, stuck) ↦
              let left =
                resting_positive false book.sell_orders order f resting v.sells
                  (matchable_sell-IsTarget book order f b).1 at_index in
              absurd (fill_buy-some book order f resting (min_positive _ _ p left) stuck)
        ]

  match_sell-stuck :
      (book : OrderBook) (order : Order)
      → BookIsValid book
      → is_positive order.amount ≡ true
      → match_sell.round book order ≡ none
      → best_matchable_buy_order book order ≡ none
  unfolding match_sell
  match_sell-stuck book order v p e =
      elim (body-none best_matchable_buy_order fill_sell book.buy_orders book order
        (λ f b. (matchable_buy-IsTarget book order f b).1) e) [
          | inl n ↦ n
          | inr (f, resting, b, at_index, stuck) ↦
              let left =
                resting_positive true book.buy_orders order f resting v.buys
                  (matchable_buy-IsTarget book order f b).1 at_index in
              absurd (fill_sell-some book order f resting (min_positive _ _ p left) stuck)
        ]

  match_market_sell-stuck :
      (book : OrderBook) (order : Order)
      → BookIsValid book
      → is_positive order.amount ≡ true
      → match_market_sell.round book order ≡ none
      → best_market_buy_order book order ≡ none
  unfolding match_market_sell
  match_market_sell-stuck book order v p e =
      elim (body-none best_market_buy_order fill_market_sell book.buy_orders book order
        (λ f b. market_buy-IsTarget book order f b) e) [
          | inl n ↦ n
          | inr (f, resting, b, at_index, stuck) ↦
              let left =
                resting_positive true book.buy_orders order f resting v.buys
                  (market_buy-IsTarget book order f b) at_index in
              absurd (fill_market_sell-some book order f resting (min_positive _ _ p left) stuck)
        ]

  match_market_buy-stuck :
      (book : OrderBook) (order : Order)
      → BookIsValid book
      → match_market_buy.round book order ≡ none
      → (best_market_sell_order book order ≡ none)
        ⊎ ((f : Found) × (best_market_sell_order book order ≡ some f)
            × (is_positive (quo order.quote_amount f.price) ≡ false))
  unfolding match_market_buy
  match_market_buy-stuck book order v e =
      elim (body-none best_market_sell_order fill_market_buy book.sell_orders book order
        (λ f b. market_sell-IsTarget book order f b) e) [
          | inl n ↦ inl n
          | inr (f, resting, b, at_index, stuck) ↦
              let left =
                resting_positive false book.sell_orders order f resting v.sells
                  (market_sell-IsTarget book order f b) at_index in
              elim (Bool-cases (is_positive (quo order.quote_amount f.price))) [
                | inl q ↦
                    absurd
                      (fill_market_buy-some book order f resting (min_positive _ _ q left) stuck)
                | inr q ↦ inr (f, b, q)
              ]
        ]

  -- What a finished sweep leaves to match, by the side and type of its order: nothing is left of it,
  -- or the other side holds nothing within its limit but its own user's orders; for a market buy
  -- also: what is left of the quote amount buys no positive quantity at the best price.
  abbrev pub Exhausted : Order → Sweep → Type 0
  Exhausted order s =
      (order.side ≡ buy
        → is_market order.order_type ≡ false
        → (is_positive s.order.amount ≡ false)
          ⊎ NoMatch (λ price. less_than s.order.price price) s.order s.book.sell_orders)
      × (order.side ≡ sell
          → is_market order.order_type ≡ false
          → (is_positive s.order.amount ≡ false)
            ⊎ NoMatch (λ price. less_than price s.order.price) s.order s.book.buy_orders)
      × (order.side ≡ sell
          → is_market order.order_type ≡ true
          → (is_positive s.order.amount ≡ false)
            ⊎ NoMatch (λ price. false) s.order s.book.buy_orders)
      × (order.side ≡ buy
          → is_market order.order_type ≡ true
          → (is_positive s.order.quote_amount ≡ false)
            ⊎ (NoMatch (λ price. false) s.order s.book.sell_orders
                ⊎ ((f : Found) × (best_market_sell_order s.book s.order ≡ some f)
                    × (is_positive (quo s.order.quote_amount f.price) ≡ false))))

  stuck : {A B : Type 0} (b : Bool) → (b ≡ false) ⊎ A → (b ≡ true → A → B) → (b ≡ false) ⊎ B
  stuck b (inl h) f = inl h
  stuck b (inr a) f = elim (Bool-cases b) [ inl t ↦ inr (f t a) | inr n ↦ inl n ]

  module _ (book : OrderBook) (order : Order) (em : Emitter) (budget : ℕ) (s : Sweep)
      (v : BookIsValid book) (e : match_slice book order em budget ≡ some (returns (s, true))) where
    after : BookIsValid s.book
    after = (match_slice-SameLoop book order em budget s true v e).0

    ended : (l : Loop) → loop_for order.side order.order_type ≡ some l → Ended l budget s true
    ended l n =
        (loop_inv l budget (λ x. Unit {0}) (λ x y f p w b r rec. tt) (resting_orders book + 2)
          (sweep_of book order em) s true (sym (match_slice_loop book order em budget l n) ∙ e)
          tt).1

    -- A slice of a sweep on a valid book that reports that it is done has exhausted the order or the
    -- other side of the book.
    pub match_slice-Exhausted : Exhausted order s
    unfolding match_buy match_sell match_market_buy match_market_sell
    match_slice-Exhausted = (
      λ b m. stuck _ (ended match_buy (loop_for_buy order.side order.order_type b ∙ rw m)) (λ p r.
          rw (match_buy-stuck s.book s.order after p r) at (searches-IsBest s.book s.order).0),
      λ b m. stuck _ (ended match_sell (loop_for_sell order.side order.order_type b ∙ rw m)) (λ p r.
          rw (match_sell-stuck s.book s.order after p r) at (searches-IsBest s.book s.order).1),
      λ b m.
          stuck _ (ended match_market_sell (loop_for_sell order.side order.order_type b ∙ rw m))
            (λ p r.
              rw (match_market_sell-stuck s.book s.order after p r) at
                (searches-IsBest s.book s.order).3),
      λ b m.
          stuck _ (ended match_market_buy (loop_for_buy order.side order.order_type b ∙ rw m))
            (λ p r. elim (match_market_buy-stuck s.book s.order after r) [
              | inl n ↦ inl (rw n at (searches-IsBest s.book s.order).2)
              | inr x ↦ inr x
            ]),
    )
