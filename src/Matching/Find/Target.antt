-- ===== src/Matching/Find/Target.antt =====
-- What the code may do with the level and index that a search returns: the level is the tree's, and
-- `At(index)` is in range.
use go_exchange_back.Prelude.{◌≡◌, Bool, false, some, List, All, All-reverse, find_key}
use go_exchange_back.Packages.{Packages}
use go_exchange_back.Matching.Types.{Order, OrderBook}
use go_exchange_back.Matching.Book.Removal.{find_key_self}
use go_exchange_back.Matching.Find.{
  Found, walk, best_matchable_sell_order, best_market_sell_order, best_matchable_buy_order,
  best_market_buy_order,
}
use go_exchange_back.Matching.Find.Priority.{FirstOther, walk-All}

module _ ⦃pk : Packages⦄ where
  open pk use {
    Decimal, Deque, Tree, items, levels, get_level, less_than, get_level_lem, levels-Ascending,
  }

  abbrev pub IsTarget : Tree (Deque Order) → Order → Found → Type 0
  IsTarget t incoming f =
      (get_level t f.price ≡ some f.orders) × FirstOther incoming (items f.orders) f.index

  walk-IsTarget :
      (stop : Decimal → Bool) (incoming : Order) (t : Tree (Deque Order))
      (l : List (Decimal × Deque Order)) (f : Found)
      → All (λ e. find_key less_than e.0 (levels t) ≡ some e.1) l
      → walk stop incoming l ≡ some f
      → (stop f.price ≡ false) × IsTarget t incoming f
  walk-IsTarget stop incoming t l f h e =
      let (found, open_price, first) =
        walk-All (λ x. find_key less_than x.0 (levels t) ≡ some x.1) stop incoming l f h e in
      (open_price, (rw get_level_lem found, first))

  pub own_levels :
      (t : Tree (Deque Order)) → All (λ e. find_key less_than e.0 (levels t) ≡ some e.1) (levels t)
  own_levels t = find_key_self (levels t) (levels-Ascending t)

  pub matchable_sell-IsTarget :
      (book : OrderBook) (incoming : Order) (f : Found)
      → best_matchable_sell_order book incoming ≡ some f
      → (less_than incoming.price f.price ≡ false) × IsTarget book.sell_orders incoming f
  unfolding best_matchable_sell_order
  matchable_sell-IsTarget book incoming f e =
      walk-IsTarget _ incoming book.sell_orders _ f (own_levels book.sell_orders) e

  pub market_sell-IsTarget :
      (book : OrderBook) (incoming : Order) (f : Found)
      → best_market_sell_order book incoming ≡ some f
      → IsTarget book.sell_orders incoming f
  unfolding best_market_sell_order
  market_sell-IsTarget book incoming f e =
      (walk-IsTarget _ incoming book.sell_orders _ f (own_levels book.sell_orders) e).1

  pub matchable_buy-IsTarget :
      (book : OrderBook) (incoming : Order) (f : Found)
      → best_matchable_buy_order book incoming ≡ some f
      → (less_than f.price incoming.price ≡ false) × IsTarget book.buy_orders incoming f
  unfolding best_matchable_buy_order
  matchable_buy-IsTarget book incoming f e =
      walk-IsTarget _ incoming book.buy_orders _ f
        (All-reverse (λ x. find_key less_than x.0 (levels book.buy_orders) ≡ some x.1) _
          (own_levels book.buy_orders))
        e

  pub market_buy-IsTarget :
      (book : OrderBook) (incoming : Order) (f : Found)
      → best_market_buy_order book incoming ≡ some f
      → IsTarget book.buy_orders incoming f
  unfolding best_market_buy_order
  market_buy-IsTarget book incoming f e =
      (walk-IsTarget _ incoming book.buy_orders _ f
        (All-reverse (λ x. find_key less_than x.0 (levels book.buy_orders) ≡ some x.1) _
          (own_levels book.buy_orders))
        e).1
