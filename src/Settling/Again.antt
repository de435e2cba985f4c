-- ===== src/Settling/Again.antt =====
-- A trade that is settled and comes back, as the retries and the replay of the outbox send it.
use text.Mathlib.TextPositions.{eq_refl}
use go_exchange_back.Prelude.{ℕ, ◌≡◌, refl, ap, ◌∙◌, true, false, some, List, ◌∷◌, ◌==◌, arith}
use go_exchange_back.Packages.{Packages}
use go_exchange_back.Settlement.Types.{SettledTrade, accepted}
use go_exchange_back.Ledger.Record.{same_amount}
use go_exchange_back.Settling.Tables.{TradeDatabase, find_trade, mark_settled_outbox}
use go_exchange_back.Settling.Service.{same_payload, applied_result, settle_found, settle_trade}
use go_exchange_back.Settling.Runs.{inserted, HasApplied, settle_trade-HasApplied}

module _ ⦃pk : Packages⦄ where
  open pk use {Decimal, less_irrefl}

  same_amount_refl : (a : Decimal) → same_amount a a ≡ true
  same_amount_refl a = rw (less_irrefl a) refl

  nat_eq_refl : (a : ℕ) → (a == a) ≡ true
  nat_eq_refl a = ground arith

  -- An inserted row has the payload of its trade.
  same_payload-inserted :
      (t : SettledTrade) (db : TradeDatabase) → same_payload (inserted db t) t ≡ true
  unfolding same_payload
  same_payload-inserted t db =
      rw
        (
          eq_refl t.emitted.coin_symbol,
          nat_eq_refl t.emitted.engine_sequence,
          eq_refl t.emitted.engine_event_id.engine_id,
          nat_eq_refl t.emitted.engine_event_id.sequence,
          nat_eq_refl t.emitted.buy_order_id,
          nat_eq_refl t.emitted.sell_order_id,
          less_irrefl t.emitted.price,
          less_irrefl t.emitted.quantity,
          less_irrefl t.fee_rate,
          less_irrefl t.buyer_fee,
          eq_refl t.buyer_fee_asset,
          less_irrefl t.seller_fee,
          eq_refl t.seller_fee_asset,
        )
        refl

  find_trade-first :
      (t : SettledTrade) (ts : List SettledTrade) → find_trade t.idempotency_key (t ∷ ts) ≡ some t
  unfolding find_trade
  find_trade-first t ts = rw (eq_refl t.idempotency_key) refl

  -- A trade that `SettleTrade` has applied may come again, with the id of any outbox event: the call
  -- succeeds, reports a duplicate with the id of the stored trade, and leaves orders, trades, ledger
  -- and statistics as they were; only the event is marked as processed.
  pub settle_trade-again :
      (div : Decimal → Decimal → Decimal) (rate : Decimal) (t : SettledTrade) (event event' id : ℕ)
      (db db' : TradeDatabase)
      → settle_trade div rate t event db ≡ accepted (db', applied_result id)
      → settle_trade div rate t event' db'
        ≡ accepted (
          mark_settled_outbox event' db',
          record { applied = false; duplicate = true; trade_id = id },
        )
  unfolding HasApplied settle_trade settle_found
  settle_trade-again div rate t event event' id db db' h =
      let (priced, prepared, policy, absent, ids, s) =
        settle_trade-HasApplied div rate t event id db db' h in
      let found : find_trade priced.idempotency_key db'.trades ≡ some (inserted db priced) =
        ap (find_trade priced.idempotency_key) s.writes.trades_after
        ∙ find_trade-first (inserted db priced) db.trades in
      rw (prepared, policy, found, same_payload-inserted priced db, ids) refl
