-- ===== src/Settlement/Trades.antt =====
-- The journal of a settled trade: it balances in every asset.
use text.Mathlib.Text.{◌==◌ as str_eq}
use go_exchange_back.Prelude.{
  ℕ, ◌≤◌, length, ltb, ◌≡◌, refl, sym, ap, subst, ◌∙◌, true, false, none, inl, inr, Bool-cases,
  arith,
}
use go_exchange_back.Packages.{Packages}
use go_exchange_back.Packages.Laws.{le_trans, add-cancel, less-mul, le-mul, less-zero-sub}
use go_exchange_back.Matching.Types.{Order, is_market}
use go_exchange_back.Settlement.Types.{SettledTrade, accepted, krw_asset_symbol}
use go_exchange_back.Settlement.Fees.{
  amount_after_fee, trade_quote_amount, trading_fee_amount, quote_amount_with_trading_fee,
  apply_trade_fee_policy,
}
use go_exchange_back.Settlement.Postings.{
  trade_postings, reserved_buy_debit_amount, TradeSettlementPlan, plan_trade_settlement,
  trade_journal,
}
use go_exchange_back.Settlement.Journal.{check_postings, balances, validate_journal_input}
use go_exchange_back.Settlement.Balance.{add-zero, le-add}
use go_exchange_back.Settlement.Lines.{trade_postings-accepted}

module _ ⦃pk : Packages⦄ where
  open pk use {
    Decimal, zero_decimal, one_decimal, add, sub, mul, neg, less_than, less_irrefl, less_total,
    add_comm, add_assoc, zero-add, neg-add, sub-add, mul-add, mul_comm, mul-one, mul_pos,
  }

  mul-zero : (a : Decimal) → mul a zero_decimal ≡ zero_decimal
  mul-zero a = add-cancel (mul a zero_decimal) zero_decimal (mul a zero_decimal) (
      sym (mul-add a zero_decimal zero_decimal)
      ∙ rw (zero-add zero_decimal) (sym (zero-add (mul a zero_decimal))))

  -- With a rate that is not negative the fee grows with the amount.
  le-fee :
      (rate a b : Decimal)
      → less_than rate zero_decimal ≡ false
      → less_than b a ≡ false
      → less_than (mul b rate) (mul a rate) ≡ false
  le-fee rate a b h k = elim (Bool-cases (less_than zero_decimal rate)) [
    | inl e ↦ rw (mul_comm b rate, mul_comm a rate) (le-mul rate a b e k)
    | inr e ↦
        rw (less_total rate zero_decimal h e)
          (rw (mul-zero a, mul-zero b) (less_irrefl zero_decimal))
  ]

  abbrev fees_of : Decimal → SettledTrade → SettledTrade
  fees_of rate t = record t {
    fee_rate = rate;
    buyer_fee = trading_fee_amount rate (trade_quote_amount t);
    buyer_fee_asset = krw_asset_symbol;
    seller_fee = trading_fee_amount rate (trade_quote_amount t);
    seller_fee_asset = krw_asset_symbol;
  }

  -- What the policy has tested where it sets the fees.
  policy_lem :
      (rate : Decimal) (t t' : SettledTrade)
      → less_than zero_decimal t.fee_rate ≡ false
      → apply_trade_fee_policy rate t ≡ accepted t'
      → (fees_of rate t ≡ t')
        × (less_than zero_decimal t.emitted.quantity ≡ true)
        × (less_than zero_decimal t.emitted.price ≡ true)
        × (less_than rate zero_decimal ≡ false)
        × (less_than rate one_decimal ≡ true)
  unfolding apply_trade_fee_policy
  policy_lem rate t t' h e = ground arith

  net-pos :
      (rate q : Decimal)
      → less_than zero_decimal q ≡ true
      → less_than rate one_decimal ≡ true
      → less_than zero_decimal (sub q (trading_fee_amount rate q)) ≡ true
  net-pos rate q h k =
      less-zero-sub q (mul q rate)
      ∙ subst (λ x. less_than (mul q rate) x ≡ true) (mul-one q) (less-mul q rate one_decimal h k)

  fee_not_negative :
      (rate q : Decimal)
      → less_than zero_decimal q ≡ true
      → less_than rate zero_decimal ≡ false
      → less_than (trading_fee_amount rate q) zero_decimal ≡ false
  fee_not_negative rate q h k =
      subst (λ x. less_than (mul q rate) x ≡ false) (mul-zero q) (le-mul q zero_decimal rate h k)

  -- The buyer's hold for the traded quantity covers the price of the trade with its fee.
  reserve_covers :
      (rate : Decimal) (t : SettledTrade) (order : Order)
      → less_than rate zero_decimal ≡ false
      → less_than zero_decimal t.emitted.quantity ≡ true
      → (is_market order.order_type ≡ false → less_than order.price t.emitted.price ≡ false)
      → less_than
          (reserved_buy_debit_amount rate order t)
          (quote_amount_with_trading_fee rate (trade_quote_amount t))
        ≡ false
  unfolding reserved_buy_debit_amount
  reserve_covers rate t order hr hq price = elim (Bool-cases (is_market order.order_type)) [
    | inl e ↦ rw e (less_irrefl (quote_amount_with_trading_fee rate (trade_quote_amount t)))
    | inr e ↦
        let q = t.emitted.quantity in
        let quotes : less_than (mul order.price q) (mul t.emitted.price q) ≡ false =
          rw (mul_comm order.price q, mul_comm t.emitted.price q)
            (le-mul q t.emitted.price order.price hq (price e)) in
        rw e (
          le-add (mul t.emitted.price q) (mul order.price q) (mul (mul t.emitted.price q) rate)
            (mul (mul order.price q) rate) quotes
            (le-fee rate (mul t.emitted.price q) (mul order.price q) hr quotes))
  ]

  le_lt_pos :
      (a b : Decimal)
      → less_than zero_decimal a ≡ true
      → less_than b a ≡ false
      → less_than zero_decimal b ≡ true
  le_lt_pos a b h k = elim (Bool-cases (less_than zero_decimal b)) [
    | inl e ↦ e
    | inr e ↦ cc (le_trans a b zero_decimal k e)
  ]

  pub add-pos :
      (a b : Decimal)
      → less_than zero_decimal a ≡ true
      → less_than b zero_decimal ≡ false
      → less_than zero_decimal (add a b) ≡ true
  add-pos a b h k = le_lt_pos a (add a b) h (
      subst (λ x. less_than (add a b) x ≡ false) (add-zero a)
        (le-add a a zero_decimal b (less_irrefl a) k))

  valid_lem :
      (t : SettledTrade) (plan : TradeSettlementPlan)
      → 2 ≤ length plan.postings
      → check_postings plan.postings ≡ none
      → balances plan.postings plan.postings ≡ true
      → validate_journal_input (trade_journal t plan) ≡ none
  unfolding validate_journal_input trade_journal
  valid_lem t plan n h k =
      let long : ltb (length plan.postings) 2 ≡ false = ground arith in rw (long, h, k) refl

  length-trade_postings :
      (t : SettledTrade) (buyer seller : ℕ) (r d s : Decimal)
      → 2 ≤ length (trade_postings t buyer seller r d s)
  unfolding trade_postings
  length-trade_postings t buyer seller r d s = omega arith

  amount_after_fee_lem :
      (q fee : Decimal)
      → less_than zero_decimal q ≡ true
      → less_than fee zero_decimal ≡ false
      → less_than zero_decimal (sub q fee) ≡ true
      → amount_after_fee q fee ≡ accepted (sub q fee)
  unfolding amount_after_fee
  amount_after_fee_lem q fee h k n = rw (h, k, n) refl

  priced-accepted :
      (rate : Decimal) (t : SettledTrade) (order : Order) (buyer seller : ℕ)
      → str_eq t.emitted.coin_symbol "" ≡ false
      → (is_market order.order_type ≡ false → less_than order.price t.emitted.price ≡ false)
      → less_than zero_decimal t.emitted.quantity ≡ true
      → less_than zero_decimal t.emitted.price ≡ true
      → less_than rate zero_decimal ≡ false
      → less_than rate one_decimal ≡ true
      → (plan : TradeSettlementPlan) × (plan_trade_settlement rate
            (fees_of rate t)
            order
            buyer
            seller
          ≡ accepted plan)
        × (validate_journal_input (trade_journal (fees_of rate t) plan) ≡ none)
  unfolding plan_trade_settlement
  priced-accepted rate t order buyer seller k price hq hp h0 h1 =
      let q = trade_quote_amount t in
      let fee = trading_fee_amount rate q in
      let quote_pos : less_than zero_decimal q ≡ true =
        mul_pos t.emitted.price t.emitted.quantity hp hq in
      let fee_ok : less_than fee zero_decimal ≡ false = fee_not_negative rate q quote_pos h0 in
      let net_ok : less_than zero_decimal (sub q fee) ≡ true = net-pos rate q quote_pos h1 in
      let covers = reserve_covers rate (fees_of rate t) order h0 hq price in
      let r = reserved_buy_debit_amount rate order (fees_of rate t) in
      let fees_ok : less_than (add fee fee) zero_decimal ≡ false =
        subst (λ x. less_than (add fee fee) x ≡ false) (zero-add zero_decimal)
          (le-add zero_decimal fee zero_decimal fee fee_ok fee_ok) in
      let splits : add (sub q fee) (add fee fee) ≡ add q fee =
        sym (add_assoc (sub q fee) fee fee) ∙ ap (λ x. add x fee) (sub-add q fee) in
      let reserve_pos : less_than zero_decimal r ≡ true =
        le_lt_pos (add q fee) r (add-pos q fee quote_pos fee_ok) covers in
      let sound =
        trade_postings-accepted (fees_of rate t) buyer seller r (add q fee) (sub q fee) k hq
          reserve_pos net_ok covers fees_ok splits in
      let plan : TradeSettlementPlan = record {
        postings = trade_postings (fees_of rate t) buyer seller r (add q fee) (sub q fee);
        execution_debit = add q fee;
      } in
      (
        plan,
        rw (plan_trade_settlement, amount_after_fee_lem q fee quote_pos fee_ok net_ok) refl,
        valid_lem (fees_of rate t) plan
            (length-trade_postings (fees_of rate t) buyer seller r (add q fee) (sub q fee)) sound.0
            sound.1,
      )

  -- Let a trade come without a fee rate of its own, with a coin symbol, and let `applyTradeFeePolicy`
  -- price it. Then `planTradeSettlement` succeeds for every buy order that is a market order or whose
  -- limit is not below the trade's price, and the journal of its postings passes
  -- `validateJournalInput`: it balances in every asset and has no empty line.
  pub settlement-accepted :
      (rate : Decimal) (t t' : SettledTrade) (order : Order) (buyer seller : ℕ)
      → str_eq t.emitted.coin_symbol "" ≡ false
      → less_than zero_decimal t.fee_rate ≡ false
      → (is_market order.order_type ≡ false → less_than order.price t.emitted.price ≡ false)
      → apply_trade_fee_policy rate t ≡ accepted t'
      → (plan : TradeSettlementPlan) × (plan_trade_settlement rate t' order buyer seller
          ≡ accepted plan)
        × (validate_journal_input (trade_journal t' plan) ≡ none)
  settlement-accepted rate t t' order buyer seller k f price e =
      let (same, hq, hp, h0, h1) = policy_lem rate t t' f e in
      subst
        (λ x.
          (plan : TradeSettlementPlan) × (plan_trade_settlement rate x order buyer seller
            ≡ accepted plan)
          × (validate_journal_input (trade_journal x plan) ≡ none))
        same (priced-accepted rate t order buyer seller k price hq hp h0 h1)
