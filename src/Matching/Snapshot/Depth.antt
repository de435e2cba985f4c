-- ===== src/Matching/Snapshot/Depth.antt =====
-- What a snapshot of a book holds.
use mathlib.Core.List.{append_assoc, append-nil}
use go_exchange_back.Prelude.{
  ℕ, zero, suc, ◌+◌, ◌≡◌, sym, ◌∙◌, true, false, inl, inr, String, List, [], ◌∷◌, ◌++◌, reverse,
  leb, if◌then◌else◌, length, length-append, take, arith, Bool-cases,
}
use go_exchange_back.Packages.{Packages}
use go_exchange_back.Matching.Types.{Order, OrderBook}
use go_exchange_back.Matching.Book.Totals.{total}
use go_exchange_back.Settlement.Balance.{add-zero}
use go_exchange_back.Matching.Engine.{PriceLevelData}
use go_exchange_back.Matching.Snapshot.{level_quantity, collect, snapshot_of}

module _ ⦃pk : Packages⦄ where
  open pk use {Decimal, Deque, items, levels, zero_decimal, add, less_than, add_assoc, zero-add}

  -- The levels that hold something, each with the sum of the amounts of its orders.
  pub filled_levels : List (Decimal × Deque Order) → List PriceLevelData
  filled_levels [] = []
  filled_levels ((price, orders) ∷ rest) =
      let qty = total (items orders) in
      if less_than zero_decimal qty
      then record { price = price; quantity = qty } ∷ filled_levels rest
      else filled_levels rest

  level_quantity-total :
      (qty : Decimal) (os : List Order) → level_quantity qty os ≡ add qty (total os)
  unfolding level_quantity
  level_quantity-total qty [] = sym (add-zero qty)
  level_quantity-total qty (o ∷ os) =
      level_quantity-total (add qty o.amount) os ∙ add_assoc qty o.amount (total os)

  quantity_lem : (os : List Order) → level_quantity zero_decimal os ≡ total os
  quantity_lem os = level_quantity-total zero_decimal os ∙ zero-add (total os)

  collect_lem :
      (depth n : ℕ) (acc : List PriceLevelData) (l : List (Decimal × Deque Order))
      → length acc + n ≡ depth
      → collect depth acc l ≡ acc ++ take n (filled_levels l)
  unfolding collect filled_levels
  collect_lem depth zero acc [] h = sym (append-nil acc)
  collect_lem depth (suc n) acc [] h = sym (append-nil acc)
  collect_lem depth zero acc ((price, orders) ∷ l) h =
      let full : leb depth (length acc) ≡ true = ground arith in rw full (sym (append-nil acc))
  collect_lem depth (suc n) acc ((price, orders) ∷ l) h =
      let qty = total (items orders) in
      let same = quantity_lem (items orders) in
      let level : PriceLevelData = record { price = price; quantity = qty } in
      let below : leb depth (length acc) ≡ false = ground arith in
      elim (Bool-cases (less_than zero_decimal qty)) [
        | inl e ↦
            rw (below, same, e)
              (collect_lem depth n (acc ++ level ∷ []) l
                  (omega (arith, length-append acc (level ∷ [])))
                ∙ append_assoc acc (level ∷ []) (take n (filled_levels l)))
        | inr e ↦ rw (below, same, e) (collect_lem depth (suc n) acc l h)
      ]

  -- A snapshot of some depth holds, from the best price on, the first levels of each side that hold
  -- something, at most as many as the depth: the asks in the order of the sell side, the bids in the
  -- opposite order of the buy side, each with the sum of the amounts of its orders.
  pub snapshot_of_lem :
      (symbol : String) (book : OrderBook) (depth : ℕ)
      → (snapshot_of symbol book depth).asks ≡ take depth (filled_levels (levels book.sell_orders))
        × (snapshot_of symbol book depth).bids
          ≡ take depth (filled_levels (reverse (levels book.buy_orders)))
  unfolding snapshot_of
  snapshot_of_lem symbol book depth = (
    collect_lem depth depth [] (levels book.sell_orders) (omega arith),
    collect_lem depth depth [] (reverse (levels book.buy_orders)) (omega arith),
  )
