-- ===== src/Settlement/Fees.antt =====
-- internal/service/fee.go. The rate that every function reads, `defaultTradingFeeRate`, is the
-- section's parameter: a decimal parsed from a text by the decimal package.
use go_exchange_back.Prelude.{◌||◌, not, if◌then◌else◌}
use go_exchange_back.Packages.{Packages}
use go_exchange_back.Settlement.Types.{SettledTrade, Checked, accepted, rejected, krw_asset_symbol}

pub data FeeError : Type 0 where
  price_or_quantity_not_positive invalid_fee_rate gross_not_positive fee_negative fee_too_high :
      FeeError

module _ ⦃pk : Packages⦄ where
  open pk use {Decimal, zero_decimal, one_decimal, add, sub, mul, quo, less_than}

  -- `amountAfterFee`.
  unfoldable pub amount_after_fee : Decimal → Decimal → Checked FeeError Decimal
  amount_after_fee gross fee =
      if not (less_than zero_decimal gross)
      then rejected gross_not_positive
      else if less_than fee zero_decimal
      then rejected fee_negative
      else if not (less_than zero_decimal (sub gross fee))
      then rejected fee_too_high
      else accepted (sub gross fee)

  -- `tradeQuoteAmount` of settlement_service.go.
  abbrev pub trade_quote_amount : SettledTrade → Decimal
  trade_quote_amount t = mul t.emitted.price t.emitted.quantity

  module _ (default_fee_rate : Decimal) where
    abbrev pub trading_fee_amount : Decimal → Decimal
    trading_fee_amount amount = mul amount default_fee_rate

    abbrev pub quote_amount_with_trading_fee : Decimal → Decimal
    quote_amount_with_trading_fee amount = add amount (trading_fee_amount amount)

    -- `applyTradeFeePolicy`: a trade that has a rate already is left as it is.
    unfoldable pub apply_trade_fee_policy : SettledTrade → Checked FeeError SettledTrade
    apply_trade_fee_policy t =
        if not (less_than zero_decimal t.emitted.quantity)
          || not (less_than zero_decimal t.emitted.price)
        then rejected price_or_quantity_not_positive
        else if less_than zero_decimal t.fee_rate
        then accepted t
        else if less_than default_fee_rate zero_decimal
            || not (less_than default_fee_rate one_decimal)
        then rejected invalid_fee_rate
        else accepted (record t {
          fee_rate = default_fee_rate;
          buyer_fee = trading_fee_amount (trade_quote_amount t);
          buyer_fee_asset = krw_asset_symbol;
          seller_fee = trading_fee_amount (trade_quote_amount t);
          seller_fee_asset = krw_asset_symbol;
        })
