-- ===== src/Matching/Find/Best.antt =====
-- Price-time priority in terms of the book alone: whose the orders are, where they stand, and which
-- prices are better.
use go_exchange_back.Prelude.{
  ℕ, ◌≡◌, refl, Bool, true, false, Option, none, some, List, ◌==◌, get_elem?, take, All, All-map,
  arith,
}
use go_exchange_back.Packages.{Packages}
use go_exchange_back.Matching.Types.{Order, OrderBook}
use go_exchange_back.Matching.Find.{
  is_self_trade, Found, best_matchable_sell_order, best_market_sell_order, best_matchable_buy_order,
  best_market_buy_order,
}
use go_exchange_back.Matching.Find.Priority.{
  OnlySelf, FirstOther, greater_than, IsBest, searches-IsBest,
}
use go_exchange_back.Matching.Find.Target.{
  IsTarget, matchable_sell-IsTarget, market_sell-IsTarget, matchable_buy-IsTarget,
  market_buy-IsTarget,
}

module _ ⦃pk : Packages⦄ where
  open pk use {Decimal, Deque, Tree, items, levels, get_level, less_than}

  -- A resting order of the incoming order's own user; the user 0 is nobody.
  abbrev pub IsOwn : Order → Order → Type 0
  IsOwn incoming o = (o.user_id ≡ incoming.user_id) × ((incoming.user_id == 0) ≡ false)

  pub own_lem : (incoming o : Order) → is_self_trade incoming o ≡ true → IsOwn incoming o
  unfolding is_self_trade
  own_lem incoming o h = ground arith

  pub foreign_lem : (incoming o : Order) → is_self_trade incoming o ≡ false → ¬ IsOwn incoming o
  unfolding is_self_trade
  foreign_lem incoming o h (same, user) = ground arith

  -- The order at the index is not the incoming user's, and the ones before it in the queue are.
  abbrev pub FirstForeign : Order → List Order → ℕ → Type 0
  FirstForeign incoming os i =
      (resting : Order) × (get_elem? os i ≡ some resting)
      × ¬ IsOwn incoming resting
      × All (IsOwn incoming) (take i os)

  owns : (incoming : Order) (os : List Order) → OnlySelf incoming os → All (IsOwn incoming) os
  owns incoming os h = All-map (own_lem incoming) os h

  first_foreign :
      (incoming : Order) (os : List Order) (i : ℕ)
      → FirstOther incoming os i
      → FirstForeign incoming os i
  first_foreign incoming os i (resting, at, other, before) =
      (resting, at, foreign_lem incoming resting other, owns incoming (take i os) before)

  -- The best level of the tree at which the incoming order may trade, with the place of the order
  -- that it meets; or there is no such level. `beyond` is the test for a price beyond the limit.
  abbrev pub IsBestMatch :
      (Decimal → Decimal → Bool)
      → (Decimal → Bool)
      → Order
      → Tree (Deque Order)
      → Option Found
      → Type 0
  IsBestMatch better beyond incoming t (some f) =
      (get_level t f.price ≡ some f.orders)
      × (beyond f.price ≡ false)
      × FirstForeign incoming (items f.orders) f.index
      × All (λ e. better e.0 f.price ≡ true → All (IsOwn incoming) (items e.1)) (levels t)
  IsBestMatch better beyond incoming t none =
      All (λ e. beyond e.0 ≡ false → All (IsOwn incoming) (items e.1)) (levels t)

  best_lem :
      (better : Decimal → Decimal → Bool) (beyond : Decimal → Bool) (incoming : Order)
      (t : Tree (Deque Order)) (o : Option Found)
      → IsBest better beyond incoming t o
      → ((f : Found) → o ≡ some f → IsTarget t incoming f)
      → IsBestMatch better beyond incoming t o
  best_lem better beyond incoming t none h target =
      All-map (λ e p q. owns incoming (items e.1) (p q)) (levels t) h
  best_lem better beyond incoming t (some f) (within, first, rest) target = (
    (target f refl).0,
    within,
    first_foreign incoming (items f.orders) f.index first,
    All-map (λ e p q. owns incoming (items e.1) (p q)) (levels t) rest,
  )

  -- The search of each loop meets price-time priority. What it finds is a level of the tree and the
  -- first order in the queue of that level that is not the incoming user's own, at a price within the
  -- limit (any price, for a market order), and every strictly better price holds the incoming user's
  -- own orders only. It finds nothing only where every price within the limit holds the incoming
  -- user's own orders only.
  pub searches-IsBestMatch :
      (book : OrderBook) (incoming : Order)
      → IsBestMatch less_than
          (λ price. less_than incoming.price price)
          incoming
          book.sell_orders
          (best_matchable_sell_order book incoming)
        × IsBestMatch greater_than
            (λ price. less_than price incoming.price)
            incoming
            book.buy_orders
            (best_matchable_buy_order book incoming)
        × IsBestMatch less_than
            (λ price. false)
            incoming
            book.sell_orders
            (best_market_sell_order book incoming)
        × IsBestMatch greater_than
            (λ price. false)
            incoming
            book.buy_orders
            (best_market_buy_order book incoming)
  searches-IsBestMatch book incoming =
      let (ms, mb, ks, kb) = searches-IsBest book incoming in
      (
        best_lem _ _ incoming book.sell_orders _ ms
            (λ f e. (matchable_sell-IsTarget book incoming f e).1),
        best_lem _ _ incoming book.buy_orders _ mb
            (λ f e. (matchable_buy-IsTarget book incoming f e).1),
        best_lem _ _ incoming book.sell_orders _ ks (market_sell-IsTarget book incoming),
        best_lem _ _ incoming book.buy_orders _ kb (market_buy-IsTarget book incoming),
      )
