-- ===== src/Matching/Book.antt =====
-- internal/matching/orderbook.go: the book of one symbol. The source's levels are pointers that it
-- changes in place; here a changed level replaces the one of the same price.
pub mod Contents
pub mod Removal
pub mod Totals
pub mod Invariant
use go_exchange_back.Prelude.{
  ℕ, suc, ◌≡◌, Bool, true, false, Option, none, some, List, [], ◌∷◌, ◌==◌, if◌then◌else◌,
}
use go_exchange_back.Packages.{Packages}
use go_exchange_back.Matching.Types.{Order, OrderBook, OrderSide, buy, sell, other_side}

module _ ⦃pk : Packages⦄ where
  open pk use {
    Decimal, Deque, Tree, items, empty_deque, push_back, remove_item, new_tree, get_level,
    replace_or_insert, delete_level,
  }

  unfoldable pub new_order_book : OrderBook
  new_order_book = record { buy_orders = new_tree; sell_orders = new_tree }

  -- One half of `AddOrder`, the same text for both sides.
  unfoldable pub add_to : Tree (Deque Order) → Order → Tree (Deque Order)
  add_to t order = elim (get_level t order.price) [
    | some existing ↦ replace_or_insert t order.price (push_back existing order)
    | none ↦ replace_or_insert t order.price (push_back empty_deque order)
  ]

  -- Whatever is no buy order goes to the sell side.
  unfoldable pub add_order : OrderBook → Order → OrderBook
  add_order book order = elim order.side [
    | buy ↦ record book { buy_orders = add_to book.buy_orders order }
    | _ ↦ record book { sell_orders = add_to book.sell_orders order }
  ]

  -- The loop over `existing.Orders`: the first index whose order has the id.
  unfoldable pub index_of : ℕ → List Order → Option ℕ
  index_of id [] = none
  index_of id (o ∷ os) =
      if o.id == id then some 0 else elim (index_of id os) [ none ↦ none | some i ↦ some (suc i) ]

  -- A level that has become empty leaves the tree.
  unfoldable pub keep_level : Tree (Deque Order) → Decimal → Deque Order → Tree (Deque Order)
  keep_level t price orders = elim (items orders) [
    | [] ↦ delete_level t price
    | _ ∷ _ ↦ replace_or_insert t price orders
  ]

  -- One half of `RemoveOrder`; `none` where it returns false.
  unfoldable pub remove_from : Tree (Deque Order) → Decimal → ℕ → Option (Tree (Deque Order))
  remove_from t price id = elim (get_level t price) [
    | none ↦ none
    | some existing ↦ elim (index_of id (items existing)) [
      | none ↦ none
      | some i ↦ some (keep_level t price (remove_item existing i))
    ]
  ]

  -- The book afterwards and whether the order was there.
  unfoldable pub remove_order : OrderBook → OrderSide → Decimal → ℕ → OrderBook × Bool
  remove_order book side price id = elim side [
    | buy ↦ elim (remove_from book.buy_orders price id) [
      | none ↦ (book, false)
      | some t ↦ (record book { buy_orders = t }, true)
    ]
    | _ ↦ elim (remove_from book.sell_orders price id) [
      | none ↦ (book, false)
      | some t ↦ (record book { sell_orders = t }, true)
    ]
  ]
