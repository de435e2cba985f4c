-- ===== src/Matching/Find/Again.antt =====
-- A market buy order that left something of the resting order meets the same one again.
use go_exchange_back.Prelude.{
  ℕ, suc, ◌≡◌, refl, subst, true, false, inl, inr, none, some, List, [], ◌∷◌, set, put_key,
  Ascending, Bool-cases, Option-cases, some_eq,
}
use go_exchange_back.Packages.{Packages}
use go_exchange_back.Packages.Laws.{less_asym}
use go_exchange_back.Matching.Types.{Order, OrderBook}
use go_exchange_back.Matching.Find.{
  is_self_trade, first_non_self_order_index, Found, walk, best_market_sell_order,
}
use go_exchange_back.Matching.Find.Priority.{walk-All}

module _ ⦃pk : Packages⦄ where
  open pk use {Decimal, Deque, Tree, items, levels, less_than, less_irrefl, levels-Ascending}

  module _ (incoming incoming' : Order)
      (same_user : (o : Order) → is_self_trade incoming' o ≡ is_self_trade incoming o) where
    first_again :
        (os : List Order) (i : ℕ) (o : Order)
        → first_non_self_order_index incoming os ≡ some i
        → is_self_trade incoming o ≡ false
        → first_non_self_order_index incoming' (set os i o) ≡ some i
    unfolding first_non_self_order_index
    first_again [] i o e other = cc
    first_again (x ∷ os) i o e other = elim (Bool-cases (is_self_trade incoming x)) [
      | inl self ↦ elim (Option-cases (first_non_self_order_index incoming os)) [
        | inl d ↦ cc (rw (self, d) at e)
        | inr (j, d) ↦
            let at_index : some (suc j) ≡ some i = rw (self, d) at e in
            let same : suc j ≡ i = cc at_index in
            let again = first_again os j o d other in rw (← same, same_user x, self, again)
      ]
      | inr y ↦
          let at_index : some 0 ≡ some i = rw y at e in
          let same : 0 ≡ i = cc at_index in rw (← same, same_user o, other)
    ]

    none_again :
        (os : List Order)
        → first_non_self_order_index incoming os ≡ none
        → first_non_self_order_index incoming' os ≡ none
    unfolding first_non_self_order_index
    none_again [] e = refl
    none_again (x ∷ os) e = elim (Bool-cases (is_self_trade incoming x)) [
      | inl self ↦ elim (Option-cases (first_non_self_order_index incoming os)) [
        | inl d ↦ rw (same_user x, self, none_again os d)
        | inr (j, d) ↦ cc (rw (self, d) at e)
      ]
      | inr y ↦ cc (rw y at e)
    ]

    walk_again :
        (l : List (Decimal × Deque Order)) (f : Found) (q : Deque Order) (o : Order)
        → Ascending less_than l
        → walk (λ price. false) incoming l ≡ some f
        → items q ≡ set (items f.orders) f.index o
        → is_self_trade incoming o ≡ false
        → walk (λ price. false) incoming' (put_key less_than f.price q l)
          ≡ some (record f { orders = q })
    unfolding walk
    walk_again [] f q o asc e its other = cc
    walk_again ((price, orders) ∷ l) f q o asc e its other =
        elim (Option-cases (first_non_self_order_index incoming (items orders))) [
          | inl d ↦
              let later = rw d at e in
              let above =
                (walk-All (λ x. less_than price x.0 ≡ true) (λ p. false) incoming l f asc.0
                  later).0 in
              rw (less_asym price f.price above, above, none_again (items orders) d)
                (walk_again l f q o asc.1 later its other)
          | inr (i, d) ↦
              let g : Found = record { price = price; orders = orders; index = i } in
              let found : some g ≡ some f = rw d at e in
              let same : g ≡ f = some_eq found in
              subst
                (λ (h : Found).
                  items q ≡ set (items h.orders) h.index o
                  → walk (λ p. false) incoming' (put_key less_than h.price q ((price, orders) ∷ l))
                    ≡ some (record h { orders = q }))
                same (λ its'. rw (less_irrefl price, its', first_again (items orders) i o d other))
                its
        ]

    pub market_sell_again :
        (book book' : OrderBook) (f : Found) (q : Deque Order) (o : Order)
        → best_market_sell_order book incoming ≡ some f
        → levels book'.sell_orders ≡ put_key less_than f.price q (levels book.sell_orders)
        → items q ≡ set (items f.orders) f.index o
        → is_self_trade incoming o ≡ false
        → best_market_sell_order book' incoming' ≡ some (record f { orders = q })
    unfolding best_market_sell_order
    market_sell_again book book' f q o e put its other =
        rw put (
          walk_again (levels book.sell_orders) f q o (levels-Ascending book.sell_orders) e its
            other)

  -- Only the user counts.
  pub self_trade_user :
      (incoming incoming' o : Order)
      → incoming'.user_id ≡ incoming.user_id
      → is_self_trade incoming' o ≡ is_self_trade incoming o
  unfolding is_self_trade
  self_trade_user incoming incoming' o e = rw e

  pub self_trade_resting :
      (incoming o o' : Order)
      → o'.user_id ≡ o.user_id
      → is_self_trade incoming o' ≡ is_self_trade incoming o
  unfolding is_self_trade
  self_trade_resting incoming o o' e = rw e
