-- ===== src/Tests/Settlements.antt =====
-- A trade that is settled, and the orders whose assets it moves.
use go_exchange_back.Prelude.{◌≡◌, refl, false, none}
use go_exchange_back.Prelude.Int.{pos, ◌+ℤ◌, ◌*ℤ◌, ltb_ℤ}
use go_exchange_back.Packages.Int.{int_packages}
use go_exchange_back.Settlement.Types.{SettledTrade, accepted}
use go_exchange_back.Settlement.Fees.{apply_trade_fee_policy}
use go_exchange_back.Settlement.Postings.{
  TradeSettlementPlan, plan_trade_settlement, trade_journal, hold_amount_for, hold_order_assets,
  release_order_assets, order_hold_journal, order_release_journal,
}
use go_exchange_back.Settlement.Journal.{validate_journal_input}
use go_exchange_back.Settlement.Fills.{
  TradeFill, partial, filled, takes_settlement, Standing, apply_trade_fill, limit_of, used_of,
  apply_trade_fill-bounded,
}
use go_exchange_back.Settlement.Balance.{holds-accepted}
use go_exchange_back.Settlement.Trades.{settlement-accepted}
use go_exchange_back.Tests.{bid}

-- The bid meets an ask of 2 at the price 10.
abbrev pub fresh_trade : SettledTrade
fresh_trade = record {
  emitted = record {
    engine_sequence = 1;
    engine_event_id = record { engine_id = "e"; sequence = 1 };
    coin_symbol = "BTC";
    price = pos 10;
    quantity = pos 2;
    buy_order_id = 3;
    sell_order_id = 1;
  };
  id = 9;
  idempotency_key = "engine:e-1";
  fee_rate = pos 0;
  buyer_fee = pos 0;
  buyer_fee_asset = "";
  seller_fee = pos 0;
  seller_fee_asset = "";
}

abbrev priced_trade : SettledTrade
priced_trade = record fresh_trade { buyer_fee_asset = "KRW"; seller_fee_asset = "KRW" }

priced : apply_trade_fee_policy (pos 0) fresh_trade ≡ accepted priced_trade
unfolding apply_trade_fee_policy ◌*ℤ◌
priced = refl

settlement-accepted_example :
    (plan : TradeSettlementPlan) × (plan_trade_settlement (pos 0) priced_trade bid 3 1
      ≡ accepted plan)
    × (validate_journal_input (trade_journal priced_trade plan) ≡ none)
settlement-accepted_example =
    settlement-accepted (pos 0) fresh_trade priced_trade bid 3 1 refl refl (λ h. refl) priced

held :
    hold_order_assets (pos 0) bid ≡ accepted (order_hold_journal bid (hold_amount_for (pos 0) bid))
unfolding hold_order_assets hold_amount_for ◌*ℤ◌ ◌+ℤ◌
held = refl

freed :
    release_order_assets bid (pos 24) "cancel"
    ≡ accepted (order_release_journal bid (pos 24) "cancel")
unfolding release_order_assets
freed = refl

holds-accepted_example :
    (validate_journal_input (order_hold_journal bid (hold_amount_for (pos 0) bid)) ≡ none)
    × (validate_journal_input (order_release_journal bid (pos 24) "cancel") ≡ none)
holds-accepted_example =
    holds-accepted (pos 0) bid (pos 24) "cancel"
      (order_hold_journal bid (hold_amount_for (pos 0) bid))
      (order_release_journal bid (pos 24) "cancel") refl held freed

abbrev half_filled : TradeFill
half_filled = record { filled_amount = pos 2; filled_quote_amount = pos 20; status = partial }

half_fills : apply_trade_fill bid (pos 2) (pos 20) ≡ accepted half_filled
unfolding apply_trade_fill ◌+ℤ◌
half_fills = refl

filled_takes_none : takes_settlement filled ≡ false
unfolding takes_settlement
filled_takes_none = refl

apply_trade_fill-bounded_example :
    (half_filled.filled_amount ≡ pos 0 +ℤ pos 2)
    × (half_filled.filled_quote_amount ≡ pos 0 +ℤ pos 20)
    × (ltb_ℤ (limit_of bid) (used_of bid half_filled) ≡ false)
    × Standing (used_of bid half_filled) (limit_of bid) half_filled.status
apply_trade_fill-bounded_example =
    apply_trade_fill-bounded bid (pos 2) (pos 20) half_filled half_fills
