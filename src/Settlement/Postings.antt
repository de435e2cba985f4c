-- ===== src/Settlement/Postings.antt =====
-- internal/service/order_ledger.go: the postings that hold an order's assets, release them, and
-- settle a trade. `holdAmountFor` stands in hold_coordinator.go, `reservedBuyDebitAmount` in
-- settlement_service.go.
use text.Mathlib.Text.{◌==◌ as str_eq}
use go_exchange_back.Prelude.{
  Bool, true, false, not, ℕ, none, some, String, List, [], ◌∷◌, ◌++◌, if◌then◌else◌,
}
use go_exchange_back.Packages.{Packages}
use go_exchange_back.Matching.Types.{Order, OrderSide, buy, sell, other_side, is_market}
use go_exchange_back.Settlement.Types.{
  AccountType, user_available, user_locked, fee_income, order_hold, order_release, of_order, trade,
  of_trade, order_hold_key, order_release_key, trade_key, krw_asset_symbol, PostingInput,
  JournalInput, SettledTrade, Checked, accepted, rejected,
}
use go_exchange_back.Settlement.Fees.{
  FeeError, amount_after_fee, trade_quote_amount, quote_amount_with_trading_fee,
}

pub data HoldError : Type 0 where
  invalid_order_side hold_not_positive release_not_positive reason_required : HoldError

abbrev is_trading_side : OrderSide → Bool
is_trading_side buy = true
is_trading_side sell = true
is_trading_side (other_side s) = false

module _ ⦃pk : Packages⦄ where
  open pk use {Decimal, add, sub, mul, neg, zero_decimal, less_than}

  abbrev pub of_user : AccountType → ℕ → String → Decimal → PostingInput
  of_user account user asset amount = record {
    account_type = account;
    owner_user_id = some user;
    asset = asset;
    amount = amount;
  }

  -- `orderHoldAsset`.
  unfoldable pub order_hold_asset : Order → String
  order_hold_asset order = elim order.side [
    | buy ↦ krw_asset_symbol
    | sell ↦ order.coin_symbol
    | other_side s ↦ order.coin_symbol
  ]

  unfoldable pub order_hold_postings : Order → Decimal → List PostingInput
  order_hold_postings order amount =
      of_user user_available order.user_id (order_hold_asset order) (neg amount)
      ∷ of_user user_locked order.user_id (order_hold_asset order) amount
      ∷ []

  unfoldable pub order_release_postings : Order → Decimal → List PostingInput
  order_release_postings order amount =
      of_user user_locked order.user_id (order_hold_asset order) (neg amount)
      ∷ of_user user_available order.user_id (order_hold_asset order) amount
      ∷ []

  -- The `JournalInput` that `holdOrderAssets` and `releaseOrderAssets` write out.
  unfoldable pub order_hold_journal : Order → Decimal → JournalInput
  order_hold_journal order amount = record {
    event_type = order_hold;
    idempotency_key = order_hold_key order.id;
    reference_type = of_order;
    reference_id = order.id;
    reverses_journal_id = none;
    postings = order_hold_postings order amount;
  }

  unfoldable pub order_release_journal : Order → Decimal → String → JournalInput
  order_release_journal order amount reason = record {
    event_type = order_release;
    idempotency_key = order_release_key order.id reason;
    reference_type = of_order;
    reference_id = order.id;
    reverses_journal_id = none;
    postings = order_release_postings order amount;
  }

  -- `releaseOrderAssets`: the journal that goes to `Record`.
  unfoldable pub release_order_assets : Order → Decimal → String → Checked HoldError JournalInput
  release_order_assets order amount reason =
      if not (is_trading_side order.side)
      then rejected invalid_order_side
      else if not (less_than zero_decimal amount)
      then rejected release_not_positive
      else if str_eq reason ""
      then rejected reason_required
      else accepted (order_release_journal order amount reason)

  -- The four lines that every trade has.
  abbrev pub exchange_postings : SettledTrade → ℕ → ℕ → Decimal → Decimal → List PostingInput
  exchange_postings t buyer seller reserved_debit seller_quote_net =
      of_user user_locked buyer krw_asset_symbol (neg reserved_debit)
      ∷ of_user user_available seller krw_asset_symbol seller_quote_net
      ∷ of_user user_locked seller t.emitted.coin_symbol (neg t.emitted.quantity)
      ∷ of_user user_available buyer t.emitted.coin_symbol t.emitted.quantity
      ∷ []

  -- What was held beyond the execution goes back to the buyer.
  abbrev pub refund_posting : ℕ → Decimal → List PostingInput
  refund_posting buyer refund =
      if less_than zero_decimal refund
      then of_user user_available buyer krw_asset_symbol refund ∷ []
      else []

  abbrev pub fee_posting : Decimal → List PostingInput
  fee_posting fees =
      if less_than zero_decimal fees
      then (record {
        account_type = fee_income;
        owner_user_id = none;
        asset = krw_asset_symbol;
        amount = fees;
      }
          ∷ [])
      else []

  unfoldable pub trade_postings :
      SettledTrade → ℕ → ℕ → Decimal → Decimal → Decimal → List PostingInput
  trade_postings t buyer seller reserved_debit execution_debit seller_quote_net =
      exchange_postings t buyer seller reserved_debit seller_quote_net
      ++ refund_posting buyer (sub reserved_debit execution_debit)
      ++ fee_posting (add t.buyer_fee t.seller_fee)

  pub record TradeSettlementPlan : Type 0 where
    pub postings : List PostingInput
    pub execution_debit : Decimal

  module _ (default_fee_rate : Decimal) where
    unfoldable pub hold_amount_for : Order → Decimal
    hold_amount_for order = elim order.side [
      | buy ↦
          if is_market order.order_type
          then order.quote_amount
          else quote_amount_with_trading_fee default_fee_rate (mul order.price order.amount)
      | sell ↦ order.amount
      | other_side s ↦ order.amount
    ]

    -- `holdOrderAssets`: the journal that goes to `Record`.
    unfoldable pub hold_order_assets : Order → Checked HoldError JournalInput
    hold_order_assets order =
        if not (is_trading_side order.side)
        then rejected invalid_order_side
        else if not (less_than zero_decimal (hold_amount_for order))
        then rejected hold_not_positive
        else accepted (order_hold_journal order (hold_amount_for order))

    unfoldable pub reserved_buy_debit_amount : Order → SettledTrade → Decimal
    reserved_buy_debit_amount buy_order t =
        if is_market buy_order.order_type
        then quote_amount_with_trading_fee default_fee_rate (trade_quote_amount t)
        else quote_amount_with_trading_fee default_fee_rate (mul buy_order.price t.emitted.quantity)

    -- `planTradeSettlement`, the participants as the buyer and the seller.
    unfoldable pub plan_trade_settlement :
        SettledTrade → Order → ℕ → ℕ → Checked FeeError TradeSettlementPlan
    plan_trade_settlement t buy_order buyer seller =
        let execution_debit = add (trade_quote_amount t) t.buyer_fee in
        let reserved_debit = reserved_buy_debit_amount buy_order t in
        elim (amount_after_fee (trade_quote_amount t) t.seller_fee) [
          | rejected err ↦ rejected err
          | accepted net ↦ accepted (record {
            postings = trade_postings t buyer seller reserved_debit execution_debit net;
            execution_debit = execution_debit;
          })
        ]

  -- The journal of `SettleTrade`.
  unfoldable pub trade_journal : SettledTrade → TradeSettlementPlan → JournalInput
  trade_journal t plan = record {
    event_type = trade;
    idempotency_key = trade_key t.idempotency_key;
    reference_type = of_trade;
    reference_id = t.id;
    reverses_journal_id = none;
    postings = plan.postings;
  }
