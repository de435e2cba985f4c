-- ===== src/Matching/Find.antt =====
-- engine.go, `bestMatchable*`, `bestMarket*`, `firstNonSelfOrderIndex` and `isSelfTrade`: the
-- resting order that an incoming order meets next.
pub mod Priority
pub mod Target
pub mod Best
pub mod Again
use go_exchange_back.Prelude.{
  ℕ, zero, suc, ◌≡◌, Bool, true, false, not, ◌&&◌, Option, none, some, List, [], ◌∷◌, reverse, ◌==◌,
  if◌then◌else◌,
}
use go_exchange_back.Packages.{Packages}
use go_exchange_back.Matching.Types.{Order, OrderBook}

module _ ⦃pk : Packages⦄ where
  open pk use {Decimal, Deque, Tree, items, levels, less_than}

  -- User 0 stands for no user.
  unfoldable pub is_self_trade : Order → Order → Bool
  is_self_trade incoming resting =
      not (incoming.user_id == 0)
      && not (resting.user_id == 0)
      && incoming.user_id == resting.user_id

  -- `none` stands for -1.
  unfoldable pub first_non_self_order_index : Order → List Order → Option ℕ
  first_non_self_order_index incoming [] = none
  first_non_self_order_index incoming (o ∷ os) =
      if is_self_trade incoming o
      then elim (first_non_self_order_index incoming os) [ none ↦ none | some i ↦ some (suc i) ]
      else some 0

  pub record Found : Type 0 where
    pub price : Decimal
    pub orders : Deque Order
    pub index : ℕ

  -- The walk that `Ascend` or `Descend` makes with the source's callback: it ends at a level that
  -- `stop` refuses, and at the first level with an order of another user.
  unfoldable pub walk : (Decimal → Bool) → Order → List (Decimal × Deque Order) → Option Found
  walk stop incoming [] = none
  walk stop incoming ((price, orders) ∷ rest) =
      let later = walk stop incoming rest in
      if stop price then none else elim (first_non_self_order_index incoming (items orders)) [
        | some i ↦ some (record { price = price; orders = orders; index = i })
        | none ↦ later
      ]

  unfoldable pub best_matchable_sell_order : OrderBook → Order → Option Found
  best_matchable_sell_order book incoming =
      walk (λ price. less_than incoming.price price) incoming (levels book.sell_orders)

  unfoldable pub best_market_sell_order : OrderBook → Order → Option Found
  best_market_sell_order book incoming = walk (λ price. false) incoming (levels book.sell_orders)

  unfoldable pub best_matchable_buy_order : OrderBook → Order → Option Found
  best_matchable_buy_order book incoming =
      walk (λ price. less_than price incoming.price) incoming (reverse (levels book.buy_orders))

  unfoldable pub best_market_buy_order : OrderBook → Order → Option Found
  best_market_buy_order book incoming =
      walk (λ price. false) incoming (reverse (levels book.buy_orders))
