-- ===== src/Settling/Service.antt =====
-- internal/service/settlement_service.go, `SettleTrade`. It runs in one transaction, so a rejected
-- call leaves the tables as they were. A trade comes with its texts trimmed, its coin symbol in upper
-- case and its idempotency key set. No other
-- transaction inserts the same trade between the search and the `INSERT`.
use text.Mathlib.Text.{◌==◌ as str_eq}
use go_exchange_back.Prelude.{ℕ, Bool, true, false, ◌&&◌, ◌||◌, not, Option, none, some, ◌==◌}
use go_exchange_back.Packages.{Packages}
use go_exchange_back.Matching.Types.{OrderSide, buy, sell, other_side, EventId, Order}
use go_exchange_back.Settlement.Types.{
  JournalInput, SettledTrade, Checked, accepted, rejected, ◌>>=◌, or_error, guard,
}
use go_exchange_back.Settlement.Fees.{FeeError, trade_quote_amount, apply_trade_fee_policy}
use go_exchange_back.Settlement.Postings.{plan_trade_settlement, trade_journal}
use go_exchange_back.Settlement.Fills.{
  FillError, is_buy, takes_settlement, TradeFill, apply_trade_fill,
}
use go_exchange_back.Ledger.Record.{LedgerError, same_amount, record_journal}
use go_exchange_back.Settling.Tables.{
  StoredOrder, TradeDatabase, find_order, update_order_execution, find_trade, insert_trade,
  mark_settled_outbox,
}
use go_exchange_back.Settling.Statistics.{
  StatisticsError, apply_avg_buy_price, clear_avg_buy_price_if_empty,
}

abbrev pub is_sell : OrderSide → Bool
is_sell sell = true
is_sell buy = false
is_sell (other_side s) = false

abbrev pub same_event_id : EventId → EventId → Bool
same_event_id a b = str_eq a.engine_id b.engine_id && a.sequence == b.sequence

pub record SettlementResult : Type 0 where
  pub applied : Bool
  pub duplicate : Bool
  pub trade_id : ℕ

module _ ⦃pk : Packages⦄ where
  open pk use {Decimal, zero_decimal, less_than}

  pub data SettlementError : Type 0 where
    coin_symbol_missing order_ids_missing price_or_quantity_not_positive : SettlementError
    payload_differs order_not_found buy_side_invalid sell_side_invalid : SettlementError
    symbols_differ buy_order_closed sell_order_closed participants_missing : SettlementError
    self_trade no_row_affected : SettlementError
    fee_refused : FeeError → SettlementError
    fill_refused : FillError → SettlementError
    ledger_refused : LedgerError → SettlementError
    statistics_refused : StatisticsError → SettlementError

  -- An error of a part, as an error of the settlement.
  abbrev pub refused_by :
      {E A : Type 0} → (E → SettlementError) → Checked E A → Checked SettlementError A
  refused_by f (accepted a) = accepted a
  refused_by f (rejected e) = rejected (f e)

  -- The checks of `prepareTradeForSettlement`.
  unfoldable pub prepare_trade_for_settlement : SettledTrade → Checked SettlementError Unit
  prepare_trade_for_settlement t = do
    _ ← guard (not (str_eq t.emitted.coin_symbol "")) coin_symbol_missing
    _ ← guard (not (t.emitted.buy_order_id == 0 || t.emitted.sell_order_id == 0)) order_ids_missing
    guard (less_than zero_decimal t.emitted.price && less_than zero_decimal t.emitted.quantity)
        price_or_quantity_not_positive

  -- The comparison of `validateIdempotentTradePayload`.
  unfoldable pub same_payload : SettledTrade → SettledTrade → Bool
  same_payload old new =
      str_eq old.emitted.coin_symbol new.emitted.coin_symbol
      && (old.emitted.engine_sequence == new.emitted.engine_sequence
          && (same_event_id old.emitted.engine_event_id new.emitted.engine_event_id
              && (old.emitted.buy_order_id == new.emitted.buy_order_id
                  && (old.emitted.sell_order_id == new.emitted.sell_order_id
                      && (same_amount old.emitted.price new.emitted.price
                          && (same_amount old.emitted.quantity new.emitted.quantity
                              && (same_amount old.fee_rate new.fee_rate
                                  && (same_amount old.buyer_fee new.buyer_fee
                                      && (str_eq old.buyer_fee_asset new.buyer_fee_asset
                                          && (same_amount old.seller_fee new.seller_fee
                                              && str_eq old.seller_fee_asset
                                                  new.seller_fee_asset))))))))))

  -- `settlementParticipants`, for orders whose sides are checked already.
  unfoldable pub settlement_participants : Order → Order → Checked SettlementError Unit
  settlement_participants buy_order sell_order = do
    _ ← guard (not (buy_order.user_id == 0 || sell_order.user_id == 0)) participants_missing
    guard (not (buy_order.user_id == sell_order.user_id)) self_trade

  -- The checks of `SettleTrade` on the two locked orders.
  unfoldable pub check_orders :
      SettledTrade → StoredOrder → StoredOrder → Checked SettlementError Unit
  check_orders t buyer seller = do
    _ ← guard (is_buy buyer.order.side) buy_side_invalid
    _ ← guard (is_sell seller.order.side) sell_side_invalid
    _ ←
        guard
          (str_eq buyer.order.coin_symbol t.emitted.coin_symbol
            && str_eq seller.order.coin_symbol t.emitted.coin_symbol)
          symbols_differ
    _ ← guard (takes_settlement buyer.status) buy_order_closed
    _ ← guard (takes_settlement seller.status) sell_order_closed
    settlement_participants buyer.order seller.order

  -- `Record` on the ledger of the tables.
  unfoldable pub record_trade : TradeDatabase → JournalInput → Checked SettlementError TradeDatabase
  record_trade db input = elim (record_journal db.ledger input) [
    | rejected e ↦ rejected (ledger_refused e)
    | accepted (ledger, entry, created) ↦ accepted (record db { ledger = ledger })
  ]

  abbrev pub applied_result : ℕ → SettlementResult
  applied_result id = record { applied = true; duplicate = false; trade_id = id }

  -- `duplicateSettlementResult`.
  abbrev pub duplicate_result : SettledTrade → SettlementResult
  duplicate_result t = record { applied = false; duplicate = true; trade_id = t.id }

  module _ (div : Decimal → Decimal → Decimal) (default_fee_rate : Decimal) where
    -- The writes of `SettleTrade` for two orders that are checked, and their fills.
    unfoldable pub apply_settlement :
        SettledTrade
        → StoredOrder
        → StoredOrder
        → TradeFill
        → TradeFill
        → TradeDatabase
        → Checked SettlementError TradeDatabase
    apply_settlement t buyer seller bought sold db = do
      plan ← refused_by fee_refused (
          plan_trade_settlement default_fee_rate t buyer.order buyer.order.user_id
            seller.order.user_id)
      half ← or_error (update_order_execution buyer.order.id bought db) no_row_affected
      full ← or_error (update_order_execution seller.order.id sold half) no_row_affected
      booked ← record_trade full (trade_journal t plan)
      priced ← refused_by statistics_refused (
          apply_avg_buy_price div buyer.order.user_id t.emitted.coin_symbol t.emitted.quantity
            plan.execution_debit booked)
      accepted (clear_avg_buy_price_if_empty seller.order.user_id t.emitted.coin_symbol priced)

    -- `SettleTrade` after the `INSERT` of the trade.
    unfoldable pub settle_inserted :
        SettledTrade → TradeDatabase → Checked SettlementError TradeDatabase
    settle_inserted t db = do
      buyer ← or_error (find_order t.emitted.buy_order_id db.orders) order_not_found
      seller ← or_error (find_order t.emitted.sell_order_id db.orders) order_not_found
      _ ← check_orders t buyer seller
      bought ←
          refused_by fill_refused
            (apply_trade_fill buyer.order t.emitted.quantity (trade_quote_amount t))
      sold ←
          refused_by fill_refused
            (apply_trade_fill seller.order t.emitted.quantity (trade_quote_amount t))
      apply_settlement t buyer seller bought sold db

    -- The transaction of `SettleTrade` for what its search under the key has found.
    unfoldable pub settle_found :
        SettledTrade
        → ℕ
        → TradeDatabase
        → Option SettledTrade
        → Checked SettlementError (TradeDatabase × SettlementResult)
    settle_found t event db (some old) = do
      _ ← guard (same_payload old t) payload_differs
      accepted (mark_settled_outbox event db, duplicate_result old)
    settle_found t event db none = do
      settled ← settle_inserted (record t { id = db.next_trade_id }) (insert_trade db t)
      accepted (mark_settled_outbox event settled, applied_result db.next_trade_id)

    -- `SettleTrade`: the tables after the commit, and its result.
    unfoldable pub settle_trade :
        SettledTrade
        → ℕ
        → TradeDatabase
        → Checked SettlementError (TradeDatabase × SettlementResult)
    settle_trade t event db = do
      _ ← prepare_trade_for_settlement t
      priced ← refused_by fee_refused (apply_trade_fee_policy default_fee_rate t)
      settle_found priced event db (find_trade priced.idempotency_key db.trades)
