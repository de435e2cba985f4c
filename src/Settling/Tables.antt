-- ===== src/Settling/Tables.antt =====
-- The tables that the settlement of a trade reads and writes: internal/model/order.go, trade.go,
-- user_asset_stat.go and trade_outbox_event.go, with the statements of
-- internal/repository/order_repository.go. Times are left out, and of an outbox event all but its
-- status.
use text.Mathlib.Text.{◌==◌ as str_eq}
use go_exchange_back.Prelude.{
  ℕ, suc, Option, none, some, String, List, [], ◌∷◌, ◌==◌, any, map, if◌then◌else◌,
}
use go_exchange_back.Packages.{Packages}
use go_exchange_back.Matching.Types.{Order}
use go_exchange_back.Settlement.Types.{SettledTrade}
use go_exchange_back.Settlement.Fills.{OrderStatus, TradeFill}
use go_exchange_back.Ledger.Tables.{Database}

pub data OutboxStatus : Type 0 where
  outbox_pending outbox_processed : OutboxStatus

pub record OutboxEvent : Type 0 where
  pub id : ℕ
  pub status : OutboxStatus

abbrev pub processed : OutboxEvent → OutboxEvent
processed e = record e { status = outbox_processed }

module _ ⦃pk : Packages⦄ where
  open pk use {Decimal}

  -- A row of `orders`: what the engine knows of an order, with its status.
  pub record StoredOrder : Type 0 where
    pub order : Order
    pub status : OrderStatus

  pub record UserAssetStat : Type 0 where
    pub user_id : ℕ
    pub asset : String
    pub avg_buy_price : Decimal

  pub record TradeDatabase : Type 0 where
    pub ledger : Database
    pub orders : List StoredOrder
    pub trades : List SettledTrade
    pub next_trade_id : ℕ
    pub stats : List UserAssetStat
    pub outbox : List OutboxEvent

  -- `FindByIDForUpdate`.
  unfoldable pub find_order : ℕ → List StoredOrder → Option StoredOrder
  find_order id [] = none
  find_order id (o ∷ os) = if o.order.id == id then some o else find_order id os

  abbrev pub executed : TradeFill → StoredOrder → StoredOrder
  executed fill o = record {
    order = record o.order {
      filled_amount = fill.filled_amount;
      filled_quote_amount = fill.filled_quote_amount;
    };
    status = fill.status;
  }

  abbrev pub execute_row : ℕ → TradeFill → StoredOrder → StoredOrder
  execute_row id fill o = if o.order.id == id then executed fill o else o

  -- `UpdateOrderExecution`; `none` where it affects no row.
  unfoldable pub update_order_execution : ℕ → TradeFill → TradeDatabase → Option TradeDatabase
  update_order_execution id fill db =
      if any (λ o. o.order.id == id) db.orders
      then some (record db { orders = map (execute_row id fill) db.orders })
      else none

  -- `findTradeByIdempotencyKey`.
  unfoldable pub find_trade : String → List SettledTrade → Option SettledTrade
  find_trade key [] = none
  find_trade key (t ∷ ts) = if str_eq t.idempotency_key key then some t else find_trade key ts

  -- The `INSERT` of a trade whose key is new, with the id that it gets.
  abbrev pub insert_trade : TradeDatabase → SettledTrade → TradeDatabase
  insert_trade db t = record db {
    trades = record t { id = db.next_trade_id } ∷ db.trades;
    next_trade_id = suc db.next_trade_id;
  }

  abbrev pub mark_row : ℕ → OutboxEvent → OutboxEvent
  mark_row id e = if e.id == id then processed e else e

  -- `markSettledOutbox`: 0 stands for no event.
  unfoldable pub mark_settled_outbox : ℕ → TradeDatabase → TradeDatabase
  mark_settled_outbox id db =
      if id == 0 then db else record db { outbox = map (mark_row id) db.outbox }
