-- ===== src/Settlement/Fills.antt =====
-- internal/service/settlement_service.go, `applyTradeFill`: what a trade adds to an order's record.
use go_exchange_back.Prelude.{
  ◌≡◌, Bool, true, false, ◌&&◌, not, inl, inr, ◌⊎◌, refl, subst, arith, if◌then◌else◌, Bool-cases,
}
use go_exchange_back.Packages.{Packages}
use go_exchange_back.Matching.Types.{Order, OrderSide, buy, sell, other_side, is_market}
use go_exchange_back.Settlement.Types.{Checked, accepted, rejected}

pub data OrderStatus : Type 0 where
  pending partial filled cancelled order_rejected : OrderStatus

pub data FillError : Type 0 where
  quantity_not_positive quote_not_positive exceeds_quote_amount exceeds_amount : FillError

abbrev pub is_buy : OrderSide → Bool
is_buy buy = true
is_buy sell = false
is_buy (other_side s) = false

module _ ⦃pk : Packages⦄ where
  open pk use {Decimal, zero_decimal, add, less_than, less_total, less_irrefl}

  -- `validateOrderStatusForSettlement`; a status of another text is no settlement either.
  unfoldable pub takes_settlement : OrderStatus → Bool
  takes_settlement pending = true
  takes_settlement partial = true
  takes_settlement filled = false
  takes_settlement cancelled = false
  takes_settlement order_rejected = false

  pub record TradeFill : Type 0 where
    pub filled_amount : Decimal
    pub filled_quote_amount : Decimal
    pub status : OrderStatus

  -- `Equal`, for two values of which the first is not above the second.
  abbrev status_at : Decimal → Decimal → OrderStatus
  status_at done limit = if less_than done limit then partial else filled

  unfoldable pub apply_trade_fill : Order → Decimal → Decimal → Checked FillError TradeFill
  apply_trade_fill order quantity quote =
      let amount = add order.filled_amount quantity in
      let quote_amount = add order.filled_quote_amount quote in
      if not (less_than zero_decimal quantity)
      then rejected quantity_not_positive
      else if not (less_than zero_decimal quote)
      then rejected quote_not_positive
      else if is_market order.order_type && is_buy order.side
      then if less_than order.quote_amount quote_amount
        then rejected exceeds_quote_amount
        else accepted (record {
          filled_amount = amount;
          filled_quote_amount = quote_amount;
          status = status_at quote_amount order.quote_amount;
        })
      else if less_than order.amount amount
      then rejected exceeds_amount
      else accepted (record {
        filled_amount = amount;
        filled_quote_amount = quote_amount;
        status = status_at amount order.amount;
      })

  -- The amount of the order that a trade may not exceed: the quote budget of a market buy, else the
  -- base amount, and how much of it is used.
  abbrev pub limit_of : Order → Decimal
  limit_of order =
      if is_market order.order_type && is_buy order.side then order.quote_amount else order.amount

  abbrev pub used_of : Order → TradeFill → Decimal
  used_of order fill =
      if is_market order.order_type && is_buy order.side
      then fill.filled_quote_amount
      else fill.filled_amount

  -- Used up, or still below.
  unfoldable pub Standing : Decimal → Decimal → OrderStatus → Type 0
  Standing done limit status =
      ((done ≡ limit) × (status ≡ filled)) ⊎ ((less_than done limit ≡ true) × (status ≡ partial))

  standing_lem :
      (done limit : Decimal)
      → less_than limit done ≡ false
      → Standing done limit (status_at done limit)
  unfolding Standing
  standing_lem done limit h = elim (Bool-cases (less_than done limit)) [
    | inl e ↦ inr (e, rw e refl)
    | inr e ↦ inl (less_total done limit e h, rw e refl)
  ]

  IsBounded : Order → Decimal → Decimal → TradeFill → Type 0
  IsBounded order quantity quote fill =
      (fill.filled_amount ≡ add order.filled_amount quantity)
      × (fill.filled_quote_amount ≡ add order.filled_quote_amount quote)
      × (less_than (limit_of order) (used_of order fill) ≡ false)
      × Standing (used_of order fill) (limit_of order) fill.status

  fill_lem :
      (order : Order) (quantity quote : Decimal) (fill : TradeFill)
      → apply_trade_fill order quantity quote ≡ accepted fill
      → IsBounded order quantity quote fill
  unfolding apply_trade_fill IsBounded
  fill_lem order quantity quote fill e =
      let amount = add order.filled_amount quantity in
      let quote_amount = add order.filled_quote_amount quote in
      elim (Bool-cases (is_market order.order_type && is_buy order.side)) [
        | inl m ↦
            let within : less_than order.quote_amount quote_amount ≡ false = ground arith in
            let done : TradeFill = record {
              filled_amount = amount;
              filled_quote_amount = quote_amount;
              status = status_at quote_amount order.quote_amount;
            } in
            let same : done ≡ fill = ground arith in
            subst (λ x. IsBounded order quantity quote x) same
              (refl, refl, rw m within, rw m (standing_lem quote_amount order.quote_amount within))
        | inr m ↦
            let within : less_than order.amount amount ≡ false = ground arith in
            let done : TradeFill = record {
              filled_amount = amount;
              filled_quote_amount = quote_amount;
              status = status_at amount order.amount;
            } in
            let same : done ≡ fill = ground arith in
            subst (λ x. IsBounded order quantity quote x) same
              (refl, refl, rw m within, rw m (standing_lem amount order.amount within))
      ]

  -- Where `applyTradeFill` accepts a trade, both records grow by exactly the trade, the amount that
  -- bounds the order is not exceeded, and the order is FILLED when that amount is reached and
  -- PARTIAL otherwise.
  pub apply_trade_fill-bounded :
      (order : Order) (quantity quote : Decimal) (fill : TradeFill)
      → apply_trade_fill order quantity quote ≡ accepted fill
      → (fill.filled_amount ≡ add order.filled_amount quantity)
        × (fill.filled_quote_amount ≡ add order.filled_quote_amount quote)
        × (less_than (limit_of order) (used_of order fill) ≡ false)
        × Standing (used_of order fill) (limit_of order) fill.status
  unfolding IsBounded
  apply_trade_fill-bounded order quantity quote fill e = fill_lem order quantity quote fill e
