-- ===== src/Settling/Fulfilled.antt =====
-- What a settled trade does to the rows of `orders`.
use go_exchange_back.Prelude.{
  ℕ, ◌≡◌, refl, sym, ap, subst, ◌∙◌, true, false, some, inl, inr, ◌⊎◌, ◌&&◌, if◌then◌else◌, arith,
  List, [], ◌∷◌, ◌==◌, ==_iff, map, Bool-cases,
}
use go_exchange_back.Packages.{Packages}
use go_exchange_back.Matching.Types.{OrderSide, buy, sell, other_side, is_market, Order, Trade}
use go_exchange_back.Settlement.Types.{SettledTrade, accepted}
use go_exchange_back.Settlement.Fees.{apply_trade_fee_policy}
use go_exchange_back.Settlement.Fills.{
  is_buy, takes_settlement, TradeFill, limit_of, Standing, OrderStatus, pending, partial, filled,
  cancelled, order_rejected, apply_trade_fill, apply_trade_fill-bounded,
}
use go_exchange_back.Settling.Tables.{StoredOrder, TradeDatabase, find_order, executed, execute_row}
use go_exchange_back.Settling.Service.{is_sell, check_orders, applied_result, settle_trade}
use go_exchange_back.Settling.Runs.{inserted, Settles, HasApplied, settle_trade-HasApplied}

module _ ⦃pk : Packages⦄ where
  open pk use {Decimal, add, mul, less_than}

  found-id :
      (i : ℕ) (os : List StoredOrder) (o : StoredOrder) → find_order i os ≡ some o → o.order.id ≡ i
  unfolding find_order
  found-id i [] o h = cc
  found-id i (x ∷ os) o h = elim (Bool-cases (x.order.id == i)) [
    | inl e ↦
        let found : some x ≡ some o = rw e at h in
        let row : x ≡ o = cc in subst (λ y. y.order.id ≡ i) row ((==_iff x.order.id i).0 e)
    | inr e ↦ found-id i os o (rw e at h)
  ]

  execute_row-id :
      (id : ℕ) (fill : TradeFill) (o : StoredOrder) → (execute_row id fill o).order.id ≡ o.order.id
  execute_row-id id fill o = elim (Bool-cases (o.order.id == id)) [
    | inl e ↦ rw e refl
    | inr e ↦ rw e refl
  ]

  -- An update of another row is not seen.
  find-other :
      (i id : ℕ) (fill : TradeFill) (os : List StoredOrder)
      → (i == id) ≡ false
      → find_order i (map (execute_row id fill) os) ≡ find_order i os
  unfolding find_order
  find-other i id fill [] ne = refl
  find-other i id fill (o ∷ os) ne = elim (Bool-cases (o.order.id == i)) [
    | inl e ↦
        let other : (o.order.id == id) ≡ false = rw ((==_iff o.order.id i).0 e) ne in
        rw (execute_row-id id fill o, e, other) refl
    | inr e ↦ rw (execute_row-id id fill o, e) (find-other i id fill os ne)
  ]

  find-own :
      (i : ℕ) (fill : TradeFill) (os : List StoredOrder) (o : StoredOrder)
      → find_order i os ≡ some o
      → find_order i (map (execute_row i fill) os) ≡ some (executed fill o)
  unfolding find_order
  find-own i fill [] o h = cc
  find-own i fill (x ∷ os) o h = elim (Bool-cases (x.order.id == i)) [
    | inl e ↦
        let found : some x ≡ some o = rw e at h in
        let row : x ≡ o = cc in
        rw (execute_row-id i fill x, e) (ap (λ y. some (executed fill y)) row)
    | inr e ↦ rw (execute_row-id i fill x, e) (find-own i fill os o (rw e at h))
  ]

  -- How much of what bounds an order is used: quote amount for a market buy, else base amount.
  abbrev pub used_by : Order → Decimal
  used_by order =
      if is_market order.order_type && is_buy order.side
      then order.filled_quote_amount
      else order.filled_amount

  -- A row before and after a trade: the order is the same but for its two records, which have grown
  -- by the trade and keep within what bounds the order, and the status is FILLED where that is used
  -- up and PARTIAL where it is not.
  pub record Grows (x : Trade) (o o' : StoredOrder) : Type 0 where
    pub grown : o'.order ≡ record o.order {
      filled_amount = add o.order.filled_amount x.quantity;
      filled_quote_amount = add o.order.filled_quote_amount (mul x.price x.quantity);
    }
    pub within : less_than (limit_of o.order) (used_by o'.order) ≡ false
    pub standing :
        ((used_by o'.order ≡ limit_of o.order) × (o'.status ≡ filled))
        ⊎ ((less_than (used_by o'.order) (limit_of o.order) ≡ true) × (o'.status ≡ partial))

  executed-Grows :
      (x : Trade) (o : StoredOrder) (fill : TradeFill)
      → apply_trade_fill o.order x.quantity (mul x.price x.quantity) ≡ accepted fill
      → Grows x o (executed fill o)
  unfolding Standing
  executed-Grows x o fill h =
      let (amounts, quotes, below, stands) =
        apply_trade_fill-bounded o.order x.quantity (mul x.price x.quantity) fill h in
      record { grown = rw (amounts, quotes) refl; within = below; standing = stands }

  -- The rows of the buyer and the seller before and after a trade.
  unfoldable pub Fulfils : Trade → List StoredOrder → List StoredOrder → Type 0
  Fulfils x os os' =
      (buyer : StoredOrder) × (seller : StoredOrder) × (buyer' : StoredOrder)
      × (seller' : StoredOrder) × (find_order x.buy_order_id os ≡ some buyer)
      × (find_order x.sell_order_id os ≡ some seller)
      × ((buyer.status ≡ pending) ⊎ (buyer.status ≡ partial))
      × ((seller.status ≡ pending) ⊎ (seller.status ≡ partial))
      × (find_order x.buy_order_id os' ≡ some buyer')
      × (find_order x.sell_order_id os' ≡ some seller')
      × Grows x buyer buyer'
      × Grows x seller seller'
      × ((i : ℕ)
          → (i == x.buy_order_id) ≡ false
          → (i == x.sell_order_id) ≡ false
          → find_order i os' ≡ find_order i os)

  open_lem : (s : OrderStatus) → takes_settlement s ≡ true → (s ≡ pending) ⊎ (s ≡ partial)
  unfolding takes_settlement
  open_lem pending h = inl refl
  open_lem partial h = inr refl
  open_lem filled h = cc
  open_lem cancelled h = cc
  open_lem order_rejected h = cc

  -- What `SettleTrade` has checked of the two orders.
  checks_lem :
      (t : SettledTrade) (buyer seller : StoredOrder)
      → check_orders t buyer seller ≡ accepted tt
      → (is_buy buyer.order.side ≡ true)
        × (is_sell seller.order.side ≡ true)
        × (takes_settlement buyer.status ≡ true)
        × (takes_settlement seller.status ≡ true)
  unfolding check_orders
  checks_lem t buyer seller h = ground arith

  not_both : (s : OrderSide) → is_buy s ≡ true → is_sell s ≡ false
  not_both buy h = refl
  not_both sell h = cc
  not_both (other_side s) h = cc

  -- The two orders of a trade that passes the checks are different.
  ids_differ :
      (t : SettledTrade) (os : List StoredOrder) (buyer seller : StoredOrder)
      → find_order t.emitted.buy_order_id os ≡ some buyer
      → find_order t.emitted.sell_order_id os ≡ some seller
      → check_orders t buyer seller ≡ accepted tt
      → (t.emitted.buy_order_id == t.emitted.sell_order_id) ≡ false
  ids_differ t os buyer seller fb fs h =
      elim (Bool-cases (t.emitted.buy_order_id == t.emitted.sell_order_id)) [
        | inl e ↦
            let ids : t.emitted.buy_order_id ≡ t.emitted.sell_order_id = (==_iff _ _).0 e in
            let both : some buyer ≡ some seller = sym fb ∙ ap (λ i. find_order i os) ids ∙ fs in
            let same : buyer ≡ seller = cc in
            let (b, s, open_b, open_s) = checks_lem t buyer seller h in
            let no_sell : is_sell buyer.order.side ≡ false = not_both buyer.order.side b in cc
        | inr e ↦ e
      ]

  Settles-Fulfils :
      (rate : Decimal) (t : SettledTrade) (db db' : TradeDatabase)
      → Settles rate t db db'
      → Fulfils t.emitted db.orders db'.orders
  unfolding Fulfils
  Settles-Fulfils rate t db db' s =
      let b = t.emitted.buy_order_id in
      let c = t.emitted.sell_order_id in
      let (is_b, is_s, open_b, open_s) = checks_lem t s.buyer s.seller s.checked in
      let ne : (b == c) ≡ false =
        ids_differ t db.orders s.buyer s.seller s.found_buyer s.found_seller s.checked in
      let en : (c == b) ≡ false = ground arith in
      let rows : db'.orders ≡ map (execute_row c s.sold) (map (execute_row b s.bought) db.orders) =
        s.writes.orders_after
        ∙ ap
            (λ i.
              map (execute_row i s.sold) (map (execute_row s.buyer.order.id s.bought) db.orders))
            (found-id c db.orders s.seller s.found_seller)
        ∙ ap (λ i. map (execute_row c s.sold) (map (execute_row i s.bought) db.orders))
            (found-id b db.orders s.buyer s.found_buyer) in
      (
        s.buyer,
        s.seller,
        executed s.bought s.buyer,
        executed s.sold s.seller,
        s.found_buyer,
        s.found_seller,
        open_lem s.buyer.status open_b,
        open_lem s.seller.status open_s,
        ap (find_order b) rows
            ∙ find-other b c s.sold _ ne
            ∙ find-own b s.bought db.orders s.buyer s.found_buyer,
        ap (find_order c) rows
            ∙ find-own c s.sold _ s.seller (find-other c b s.bought db.orders en ∙ s.found_seller),
        executed-Grows t.emitted s.buyer s.bought s.buyer_fill,
        executed-Grows t.emitted s.seller s.sold s.seller_fill,
        λ i not_b not_c.
            ap (find_order i) rows
            ∙ find-other i c s.sold _ not_c
            ∙ find-other i b s.bought db.orders not_b,
      )

  policy-emitted :
      (rate : Decimal) (t t' : SettledTrade)
      → apply_trade_fee_policy rate t ≡ accepted t'
      → t'.emitted ≡ t.emitted
  unfolding apply_trade_fee_policy
  policy-emitted rate t t' h = ground arith

  -- A trade that `SettleTrade` applies finds both of its orders PENDING or PARTIAL. In the rows after
  -- it, each order's two records have grown by exactly the trade and all else of the order is as it
  -- was; the amount that bounds the order is not exceeded, and its status is FILLED where that amount
  -- is used up and PARTIAL otherwise. Every other order is as it was.
  pub settle_trade-Fulfils :
      (div : Decimal → Decimal → Decimal) (rate : Decimal) (t : SettledTrade) (event id : ℕ)
      (db db' : TradeDatabase)
      → settle_trade div rate t event db ≡ accepted (db', applied_result id)
      → Fulfils t.emitted db.orders db'.orders
  unfolding HasApplied
  settle_trade-Fulfils div rate t event id db db' h =
      let (priced, prepared, policy, absent, ids, s) =
        settle_trade-HasApplied div rate t event id db db' h in
      subst (λ x. Fulfils x db.orders db'.orders) (policy-emitted rate t priced policy)
        (Settles-Fulfils rate (inserted db priced) _ db' s)
