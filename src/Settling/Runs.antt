-- ===== src/Settling/Runs.antt =====
-- What is known of a call of `SettleTrade` that has applied its trade, or has found it again.
use go_exchange_back.Prelude.{
  ℕ, ◌≡◌, refl, sym, ap, subst, ◌∙◌, true, false, Option, none, some, inl, inr, ◌⊎◌,
}
use go_exchange_back.Packages.{Packages}
use go_exchange_back.Settlement.Types.{
  SettledTrade, Checked, accepted, >>=-accepted, or_error-accepted, guard,
}
use go_exchange_back.Settlement.Fees.{trade_quote_amount, apply_trade_fee_policy}
use go_exchange_back.Settlement.Fills.{TradeFill, apply_trade_fill}
use go_exchange_back.Settling.Tables.{
  StoredOrder, TradeDatabase, find_order, find_trade, insert_trade, mark_settled_outbox,
}
use go_exchange_back.Settling.Service.{
  SettlementError, payload_differs, fee_refused, SettlementResult, refused_by,
  prepare_trade_for_settlement, same_payload, check_orders, applied_result, duplicate_result,
  settle_inserted, settle_found, settle_trade,
}
use go_exchange_back.Settling.Parts.{
  refused_by-accepted, SameBooks, mark-SameBooks, Applies, apply_settlement-Applies,
}

module _ ⦃pk : Packages⦄ where
  open pk use {Decimal}

  -- The row of a trade that is inserted.
  abbrev pub inserted : TradeDatabase → SettledTrade → SettledTrade
  inserted db t = record t { id = db.next_trade_id }

  -- A settlement that has taken place: the locked orders, which are open, their fills, and the writes.
  pub record Settles (rate : Decimal) (t : SettledTrade) (db db' : TradeDatabase) : Type 0 where
    pub buyer : StoredOrder
    pub seller : StoredOrder
    pub bought : TradeFill
    pub sold : TradeFill
    pub found_buyer : find_order t.emitted.buy_order_id db.orders ≡ some buyer
    pub found_seller : find_order t.emitted.sell_order_id db.orders ≡ some seller
    pub checked : check_orders t buyer seller ≡ accepted tt
    pub buyer_fill :
        apply_trade_fill buyer.order t.emitted.quantity (trade_quote_amount t) ≡ accepted bought
    pub seller_fill :
        apply_trade_fill seller.order t.emitted.quantity (trade_quote_amount t) ≡ accepted sold
    pub writes : Applies rate t buyer seller bought sold db db'

  Applies-marked :
      (rate : Decimal) (t : SettledTrade) (buyer seller : StoredOrder) (bought sold : TradeFill)
      (db db' db'' : TradeDatabase)
      → Applies rate t buyer seller bought sold db db'
      → SameBooks db' db''
      → Applies rate t buyer seller bought sold db db''
  unfolding SameBooks
  Applies-marked rate t buyer seller bought sold db db' db'' a (ledgers, orders, trades) = record {
    plan = a.plan;
    entry = a.entry;
    created = a.created;
    planned = a.planned;
    recorded = rw ledgers a.recorded;
    orders_after = orders ∙ a.orders_after;
    trades_after = trades ∙ a.trades_after;
  }

  module _ (div : Decimal → Decimal → Decimal) (rate : Decimal) where
    settle_inserted-Settles :
        (t : SettledTrade) (event : ℕ) (db db' : TradeDatabase)
        → settle_inserted div rate t db ≡ accepted db'
        → Settles rate t db (mark_settled_outbox event db')
    unfolding settle_inserted
    settle_inserted-Settles t event db db' h =
        let (buyer, hb, h1) = >>=-accepted _ _ db' h in
        let (seller, hs, h2) = >>=-accepted _ _ db' h1 in
        let (u, hc, h3) = >>=-accepted (check_orders t buyer seller) _ db' h2 in
        let (bought, fb, h4) = >>=-accepted _ _ db' h3 in
        let (sold, fs, h5) = >>=-accepted _ _ db' h4 in
        record {
          buyer = buyer;
          seller = seller;
          bought = bought;
          sold = sold;
          found_buyer = or_error-accepted _ _ buyer hb;
          found_seller = or_error-accepted _ _ seller hs;
          checked = hc;
          buyer_fill = refused_by-accepted _ _ bought fb;
          seller_fill = refused_by-accepted _ _ sold fs;
          writes =
              Applies-marked rate t buyer seller bought sold db db' (mark_settled_outbox event db')
                (apply_settlement-Applies div rate t buyer seller bought sold db db' h5)
                (mark-SameBooks event db');
        }

    -- A call of `SettleTrade` that has applied its trade.
    unfoldable pub HasApplied : SettledTrade → TradeDatabase → TradeDatabase → ℕ → Type 0
    HasApplied t db db' id =
        (priced : SettledTrade) × (prepare_trade_for_settlement t ≡ accepted tt)
        × (apply_trade_fee_policy rate t ≡ accepted priced)
        × (find_trade priced.idempotency_key db.trades ≡ none)
        × (id ≡ db.next_trade_id)
        × Settles rate (inserted db priced) (insert_trade db priced) db'

    settle_found-Settles :
        (t : SettledTrade) (event id : ℕ) (db db' : TradeDatabase) (o : Option SettledTrade)
        → settle_found div rate t event db o ≡ accepted (db', applied_result id)
        → (o ≡ none)
          × (id ≡ db.next_trade_id)
          × Settles rate (inserted db t) (insert_trade db t) db'
    unfolding settle_found
    settle_found-Settles t event id db db' none h =
        let (settled, hs, h1) = >>=-accepted _ _ (db', applied_result id) h in
        let same : (mark_settled_outbox event settled, applied_result db.next_trade_id)
            ≡ (db', applied_result id) =
          cc in
        (
          refl,
          sym (ap (λ (x : TradeDatabase × SettlementResult). x.1.trade_id) same),
          subst (Settles rate (inserted db t) (insert_trade db t))
              (ap (λ (x : TradeDatabase × SettlementResult). x.0) same)
              (settle_inserted-Settles (inserted db t) event (insert_trade db t) settled hs),
        )
    settle_found-Settles t event id db db' (some old) h =
        let compared : Checked SettlementError Unit = guard (same_payload old t) payload_differs in
        let (u, fine, h1) = >>=-accepted compared _ (db', applied_result id) h in
        let same : (mark_settled_outbox event db, duplicate_result old) ≡ (db', applied_result id) =
          cc in
        let never : false ≡ true =
          ap (λ (x : TradeDatabase × SettlementResult). x.1.applied) same in
        cc

    pub settle_trade-HasApplied :
        (t : SettledTrade) (event id : ℕ) (db db' : TradeDatabase)
        → settle_trade div rate t event db ≡ accepted (db', applied_result id)
        → HasApplied t db db' id
    unfolding settle_trade HasApplied
    settle_trade-HasApplied t event id db db' h =
        let (u, hp, h1) =
          >>=-accepted (prepare_trade_for_settlement t) _ (db', applied_result id) h in
        let (priced, hf, h2) = >>=-accepted _ _ (db', applied_result id) h1 in
        let (absent, ids, settles) =
          settle_found-Settles priced event id db db' (find_trade priced.idempotency_key db.trades)
            h2 in
        (priced, hp, refused_by-accepted _ _ priced hf, absent, ids, settles)

    settle_found-cases :
        (t : SettledTrade) (event : ℕ) (db db' : TradeDatabase) (result : SettlementResult)
        (o : Option SettledTrade)
        → settle_found div rate t event db o ≡ accepted (db', result)
        → (result ≡ applied_result db.next_trade_id) ⊎ (db' ≡ mark_settled_outbox event db)
    unfolding settle_found
    settle_found-cases t event db db' result none h =
        let settling : Checked SettlementError TradeDatabase =
          settle_inserted div rate (inserted db t) (insert_trade db t) in
        let (settled, hs, h1) = >>=-accepted settling _ (db', result) h in
        let same : (mark_settled_outbox event settled, applied_result db.next_trade_id)
            ≡ (db', result) =
          cc in
        inl (sym (ap (λ (x : TradeDatabase × SettlementResult). x.1) same))
    settle_found-cases t event db db' result (some old) h =
        let compared : Checked SettlementError Unit = guard (same_payload old t) payload_differs in
        let (u, fine, h1) = >>=-accepted compared _ (db', result) h in
        let same : (mark_settled_outbox event db, duplicate_result old) ≡ (db', result) = cc in
        inr (sym (ap (λ (x : TradeDatabase × SettlementResult). x.0) same))

    -- A call either applies its trade under a new id, or changes only the outbox.
    pub settle_trade-cases :
        (t : SettledTrade) (event : ℕ) (db db' : TradeDatabase) (result : SettlementResult)
        → settle_trade div rate t event db ≡ accepted (db', result)
        → (result ≡ applied_result db.next_trade_id) ⊎ (db' ≡ mark_settled_outbox event db)
    unfolding settle_trade
    settle_trade-cases t event db db' result h =
        let (u, hp, h1) = >>=-accepted (prepare_trade_for_settlement t) _ (db', result) h in
        let pricing : Checked SettlementError SettledTrade =
          refused_by fee_refused (apply_trade_fee_policy rate t) in
        let (priced, hf, h2) = >>=-accepted pricing _ (db', result) h1 in
        settle_found-cases priced event db db' result (find_trade priced.idempotency_key db.trades)
          h2
