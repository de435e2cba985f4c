-- ===== src/Matching/Find/Priority.antt =====
-- Price-time priority: what the four searches of engine.go return.
use go_exchange_back.Prelude.{
  ℕ, suc, ◌≡◌, refl, subst, Bool, true, false, inl, inr, Option, none, some, List, [], ◌∷◌, ◌++◌,
  reverse, arith, get_elem?, take, All, All-map, All-reverse, Ascending, Bool-cases, Option-cases,
}
use mathlib.Core.List.{reverse-cons, reverse-reverse}
use go_exchange_back.Packages.{Packages}
use go_exchange_back.Packages.Laws.{less_asym}
use go_exchange_back.Matching.Types.{Order, OrderBook}
use go_exchange_back.Matching.Find.{
  is_self_trade, first_non_self_order_index, Found, walk, best_matchable_sell_order,
  best_market_sell_order, best_matchable_buy_order, best_market_buy_order,
}

module _ ⦃pk : Packages⦄ where
  open pk use {
    Decimal, Deque, Tree, items, levels, less_than, less_irrefl, less_trans, levels-Ascending,
  }

  -- Every order of the list belongs to the incoming order's user.
  abbrev pub OnlySelf : Order → List Order → Type 0
  OnlySelf incoming = All (λ o. is_self_trade incoming o ≡ true)

  -- The order at the index is another user's, and the ones before it in the queue are not.
  abbrev pub FirstOther : Order → List Order → ℕ → Type 0
  FirstOther incoming os i =
      (resting : Order) × (get_elem? os i ≡ some resting)
      × (is_self_trade incoming resting ≡ false)
      × OnlySelf incoming (take i os)

  pub first_non_self_order_index-some :
      (incoming : Order) (os : List Order) (i : ℕ)
      → first_non_self_order_index incoming os ≡ some i
      → FirstOther incoming os i
  unfolding first_non_self_order_index
  first_non_self_order_index-some incoming [] i e = cc
  first_non_self_order_index-some incoming (o ∷ os) i e =
      elim (Bool-cases (is_self_trade incoming o)) [
        | inl self ↦ elim (Option-cases (first_non_self_order_index incoming os)) [
          | inl d ↦ cc (rw (self, d) at e)
          | inr (j, d) ↦
              let (resting, at, other, earlier) = first_non_self_order_index-some incoming os j d in
              let at_index : some (suc j) ≡ some i = rw (self, d) at e in
              let same : suc j ≡ i = cc at_index in
              subst (FirstOther incoming (o ∷ os)) same (resting, at, other, (self, earlier))
        ]
        | inr other ↦
            let at_index : some 0 ≡ some i = rw other at e in
            let same : 0 ≡ i = cc at_index in
            subst (FirstOther incoming (o ∷ os)) same (o, refl, other, tt)
      ]

  pub first_non_self_order_index-none :
      (incoming : Order) (os : List Order)
      → first_non_self_order_index incoming os ≡ none
      → OnlySelf incoming os
  unfolding first_non_self_order_index
  first_non_self_order_index-none incoming [] e = tt
  first_non_self_order_index-none incoming (o ∷ os) e =
      ground (arith, first_non_self_order_index-none incoming os)

  -- What holds of every level holds of the level found.
  pub walk-All :
      (P : Decimal × Deque Order → Type 0) (stop : Decimal → Bool) (incoming : Order)
      (l : List (Decimal × Deque Order)) (f : Found)
      → All P l
      → walk stop incoming l ≡ some f
      → P (f.price, f.orders)
        × (stop f.price ≡ false)
        × FirstOther incoming (items f.orders) f.index
  unfolding walk
  walk-All P stop incoming [] f h e = cc
  walk-All P stop incoming ((price, orders) ∷ l) f h e = elim (Bool-cases (stop price)) [
    | inl s ↦ cc (rw s at e)
    | inr s ↦ elim (Option-cases (first_non_self_order_index incoming (items orders))) [
      | inl d ↦ walk-All P stop incoming l f h.1 (rw (s, d) at e)
      | inr (i, d) ↦
          let g : Found = record { price = price; orders = orders; index = i } in
          let found : some g ≡ some f = rw (s, d) at e in
          let same : g ≡ f = cc found in
          subst
            (λ (g : Found).
              P (g.price, g.orders)
              × (stop g.price ≡ false)
              × FirstOther incoming (items g.orders) g.index)
            same (h.0, s, first_non_self_order_index-some incoming (items orders) i d)
    ]
  ]

  module _ (before : Decimal → Decimal → Bool) where
    -- Levels that come before the one found hold nothing to match.
    walk_best :
        ((a : Decimal) → before a a ≡ false)
        → ((a b : Decimal) → before a b ≡ true → before b a ≡ false)
        → (stop : Decimal → Bool) (incoming : Order) (l : List (Decimal × Deque Order)) (f : Found)
        → Ascending before l
        → walk stop incoming l ≡ some f
        → All (λ e. before e.0 f.price ≡ true → OnlySelf incoming (items e.1)) l
    unfolding walk
    walk_best irrefl asym stop incoming [] f h e = tt
    walk_best irrefl asym stop incoming ((price, orders) ∷ l) f h e =
        elim (Bool-cases (stop price)) [
          | inl s ↦ cc (rw s at e)
          | inr s ↦ elim (Option-cases (first_non_self_order_index incoming (items orders))) [
            | inl d ↦ (
              λ _. first_non_self_order_index-none incoming (items orders) d,
              walk_best irrefl asym stop incoming l f h.1 (rw (s, d) at e),
            )
            | inr (i, d) ↦
                let g : Found = record { price = price; orders = orders; index = i } in
                let found : some g ≡ some f = rw (s, d) at e in
                let same : g ≡ f = cc found in
                subst
                  (λ (g : Found).
                    All (λ e. before e.0 g.price ≡ true → OnlySelf incoming (items e.1))
                      ((price, orders) ∷ l))
                  same
                  (
                    λ (q : before price price ≡ true). cc (irrefl price),
                    All-map {Q = λ e. before e.0 price ≡ true → OnlySelf incoming (items e.1)}
                        (λ e p q. cc (asym price e.0 p)) l h.0,
                  )
          ]
        ]

    -- Where nothing is found, every level that is not stopped holds nothing to match.
    walk-none :
        (stop : Decimal → Bool)
        → ((a b : Decimal) → before a b ≡ true → stop a ≡ true → stop b ≡ true)
        → (incoming : Order) (l : List (Decimal × Deque Order)) → Ascending before l
        → walk stop incoming l ≡ none
        → All (λ e. stop e.0 ≡ false → OnlySelf incoming (items e.1)) l
    unfolding walk
    walk-none stop mono incoming [] h e = tt
    walk-none stop mono incoming ((price, orders) ∷ l) h e = elim (Bool-cases (stop price)) [
      | inl s ↦ (λ q. cc s, All-map (λ e p q. cc (mono price e.0 p s)) l h.0)
      | inr s ↦ elim (Option-cases (first_non_self_order_index incoming (items orders))) [
        | inl d ↦ (
          λ _. first_non_self_order_index-none incoming (items orders) d,
          walk-none stop mono incoming l h.1 (rw (s, d) at e),
        )
        | inr (i, d) ↦ cc (rw (s, d) at e)
      ]
    ]

  abbrev pub greater_than : Decimal → Decimal → Bool
  greater_than a b = less_than b a

  Ascending-snoc :
      (before : Decimal → Decimal → Bool) (l : List (Decimal × Deque Order))
      (x : Decimal × Deque Order)
      → Ascending before l
      → All (λ e. before e.0 x.0 ≡ true) l
      → Ascending before (l ++ x ∷ [])
  Ascending-snoc before [] x h a = (tt, tt)
  Ascending-snoc before ((j, w) ∷ l) x h a = (All-snoc l h.0, Ascending-snoc before l x h.1 a.1)
    where
      All-snoc :
          (m : List (Decimal × Deque Order))
          → All (λ e. before j e.0 ≡ true) m
          → All (λ e. before j e.0 ≡ true) (m ++ x ∷ [])
      All-snoc [] q = (a.0, tt)
      All-snoc (y ∷ m) q = (q.0, All-snoc m q.1)

  pub Ascending-reverse :
      (l : List (Decimal × Deque Order))
      → Ascending less_than l
      → Ascending greater_than (reverse l)
  Ascending-reverse [] h = tt
  Ascending-reverse (x ∷ l) h = rw (reverse-cons x l) (
      Ascending-snoc greater_than (reverse l) x (Ascending-reverse l h.1)
        (All-reverse (λ e. less_than x.0 e.0 ≡ true) l h.0))

  pub levels-Descending : (t : Tree (Deque Order)) → Ascending greater_than (reverse (levels t))
  levels-Descending t = Ascending-reverse (levels t) (levels-Ascending t)

  -- What a search that walks away from the best price has found, or has not found.
  abbrev pub Matches :
      (Decimal → Decimal → Bool) → (Decimal → Bool) → Order → Tree (Deque Order) → Found → Type 0
  Matches before stop incoming t f =
      (stop f.price ≡ false)
      × FirstOther incoming (items f.orders) f.index
      × All (λ e. before e.0 f.price ≡ true → OnlySelf incoming (items e.1)) (levels t)

  abbrev pub NoMatch : (Decimal → Bool) → Order → Tree (Deque Order) → Type 0
  NoMatch stop incoming t = All (λ e. stop e.0 ≡ false → OnlySelf incoming (items e.1)) (levels t)

  -- `some f` is the best match and `none` means that there is none.
  abbrev pub IsBest :
      (Decimal → Decimal → Bool)
      → (Decimal → Bool)
      → Order
      → Tree (Deque Order)
      → Option Found
      → Type 0
  IsBest before stop incoming t (some f) = Matches before stop incoming t f
  IsBest before stop incoming t none = NoMatch stop incoming t

  units : (l : List (Decimal × Deque Order)) → All (λ e. Unit {0}) l
  units [] = tt
  units (x ∷ l) = (tt, units l)

  ascend_IsBest :
      (stop : Decimal → Bool)
      → ((a b : Decimal) → less_than a b ≡ true → stop a ≡ true → stop b ≡ true)
      → (incoming : Order) (t : Tree (Deque Order))
      → IsBest less_than stop incoming t (walk stop incoming (levels t))
  ascend_IsBest stop mono incoming t = elim (Option-cases (walk stop incoming (levels t))) [
    | inl e ↦ rw e (walk-none less_than stop mono incoming (levels t) (levels-Ascending t) e)
    | inr (f, e) ↦
        let sound = walk-All (λ e. Unit {0}) stop incoming (levels t) f (units (levels t)) e in
        rw e (
          sound.1,
          sound.2,
          walk_best less_than less_irrefl less_asym stop incoming (levels t) f (levels-Ascending t)
              e,
        )
  ]

  descend_IsBest :
      (stop : Decimal → Bool)
      → ((a b : Decimal) → less_than b a ≡ true → stop a ≡ true → stop b ≡ true)
      → (incoming : Order) (t : Tree (Deque Order))
      → IsBest greater_than stop incoming t (walk stop incoming (reverse (levels t)))
  descend_IsBest stop mono incoming t = elim (Option-cases (walk stop incoming down)) [
    | inl e ↦
        rw e (unreverse _ (walk-none greater_than stop mono incoming down (levels-Descending t) e))
    | inr (f, e) ↦
        let sound = walk-All (λ e. Unit {0}) stop incoming down f (units down) e in
        rw e (
          sound.1,
          sound.2,
          unreverse _ (
              walk_best greater_than less_irrefl (λ a b. less_asym b a) stop incoming down f
                (levels-Descending t) e),
        )
  ]
    where
      down : List (Decimal × Deque Order)
      down = reverse (levels t)

      unreverse : (P : Decimal × Deque Order → Type 0) → All P down → All P (levels t)
      unreverse P h = rw reverse-reverse at (All-reverse P down h)

  -- The four searches, with the same tests as the code.
  pub searches-IsBest :
      (book : OrderBook) (incoming : Order)
      → IsBest less_than
          (λ price. less_than incoming.price price)
          incoming
          book.sell_orders
          (best_matchable_sell_order book incoming)
        × IsBest greater_than
            (λ price. less_than price incoming.price)
            incoming
            book.buy_orders
            (best_matchable_buy_order book incoming)
        × IsBest less_than
            (λ price. false)
            incoming
            book.sell_orders
            (best_market_sell_order book incoming)
        × IsBest greater_than
            (λ price. false)
            incoming
            book.buy_orders
            (best_market_buy_order book incoming)
  unfolding best_matchable_sell_order best_matchable_buy_order best_market_sell_order
      best_market_buy_order
  searches-IsBest book incoming = (
    ascend_IsBest _ (λ a b p q. less_trans incoming.price a b q p) incoming book.sell_orders,
    descend_IsBest _ (λ a b p q. less_trans b a incoming.price p q) incoming book.buy_orders,
    ascend_IsBest _ (λ a b p q. q) incoming book.sell_orders,
    descend_IsBest _ (λ a b p q. q) incoming book.buy_orders,
  )
