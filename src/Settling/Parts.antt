-- ===== src/Settling/Parts.antt =====
-- What each statement and each part of `SettleTrade` leaves in the tables.
use go_exchange_back.Prelude.{
  ℕ, ◌≡◌, refl, sym, ap, subst, ◌∙◌, Bool, some, inl, inr, arith, String, ◌==◌, any, map,
  Bool-cases,
}
use go_exchange_back.Packages.{Packages}
use go_exchange_back.Settlement.Types.{
  JournalInput, SettledTrade, Checked, accepted, rejected, >>=-accepted, or_error-accepted,
}
use go_exchange_back.Settlement.Postings.{TradeSettlementPlan, plan_trade_settlement, trade_journal}
use go_exchange_back.Settlement.Fills.{TradeFill}
use go_exchange_back.Ledger.Tables.{Database, JournalEntry}
use go_exchange_back.Ledger.Record.{LedgerError, record_journal}
use go_exchange_back.Settling.Tables.{
  StoredOrder, TradeDatabase, execute_row, update_order_execution, mark_settled_outbox,
}
use go_exchange_back.Settling.Statistics.{apply_avg_buy_price, clear_avg_buy_price_if_empty}
use go_exchange_back.Settling.Service.{SettlementError, refused_by, record_trade, apply_settlement}

module _ ⦃pk : Packages⦄ where
  open pk use {Decimal}

  pub refused_by-accepted :
      {E A : Type 0} (f : E → SettlementError) (m : Checked E A) (a : A)
      → refused_by f m ≡ accepted a
      → m ≡ accepted a
  refused_by-accepted f (accepted b) a h = cc
  refused_by-accepted f (rejected e) a h = cc

  -- The tables apart from the statistics and the outbox.
  unfoldable pub SameBooks : TradeDatabase → TradeDatabase → Type 0
  SameBooks db db' = (db'.ledger ≡ db.ledger) × (db'.orders ≡ db.orders) × (db'.trades ≡ db.trades)

  pub update_order_execution-lem :
      (id : ℕ) (fill : TradeFill) (db db' : TradeDatabase)
      → update_order_execution id fill db ≡ some db'
      → record db { orders = map (execute_row id fill) db.orders } ≡ db'
  unfolding update_order_execution
  update_order_execution-lem id fill db db' h =
      elim (Bool-cases (any (λ o. o.order.id == id) db.orders)) [
        | inl e ↦
            let whole : some (record db { orders = map (execute_row id fill) db.orders })
                ≡ some db' =
              rw e at h in
            cc
        | inr e ↦ cc (rw e at h)
      ]

  pub mark-SameBooks : (id : ℕ) (db : TradeDatabase) → SameBooks db (mark_settled_outbox id db)
  unfolding SameBooks mark_settled_outbox
  mark-SameBooks id db = elim (Bool-cases (id == 0)) [
    | inl e ↦ rw e (refl, refl, refl)
    | inr e ↦ rw e (refl, refl, refl)
  ]

  clear-SameBooks :
      (user : ℕ) (asset : String) (db : TradeDatabase)
      → SameBooks db (clear_avg_buy_price_if_empty user asset db)
  unfolding SameBooks clear_avg_buy_price_if_empty
  clear-SameBooks user asset db = ground arith

  avg-SameBooks :
      (div : Decimal → Decimal → Decimal) (user : ℕ) (asset : String) (quantity cost : Decimal)
      (db db' : TradeDatabase)
      → apply_avg_buy_price div user asset quantity cost db ≡ accepted db'
      → SameBooks db db'
  unfolding SameBooks apply_avg_buy_price
  avg-SameBooks div user asset quantity cost db db' h = ground arith

  record_trade-lem :
      (db db' : TradeDatabase) (input : JournalInput)
      → record_trade db input ≡ accepted db'
      → (entry : JournalEntry) × (created : Bool) × (record_journal db.ledger input
          ≡ accepted (db'.ledger, entry, created))
        × (db'.orders ≡ db.orders)
        × (db'.trades ≡ db.trades)
  unfolding record_trade
  record_trade-lem db db' input h = go (record_journal db.ledger input) refl
    where
      go :
          (m : Checked LedgerError (Database × JournalEntry × Bool))
          → record_journal db.ledger input ≡ m
          → (entry : JournalEntry) × (created : Bool) × (record_journal db.ledger input
              ≡ accepted (db'.ledger, entry, created))
            × (db'.orders ≡ db.orders)
            × (db'.trades ≡ db.trades)
      go (rejected e) m = cc (rw (record_trade, m) at h)
      go (accepted (ledger, e, created)) m =
          let whole : accepted (record db { ledger = ledger }) ≡ accepted db' =
            rw (record_trade, m) at h in
          let same : record db { ledger = ledger } ≡ db' = cc in
          subst
            (λ (x : TradeDatabase).
              (entry : JournalEntry) × (c : Bool) × (record_journal db.ledger input
                ≡ accepted (x.ledger, entry, c))
              × (x.orders ≡ db.orders)
              × (x.trades ≡ db.trades))
            same (e, created, m, refl, refl)

  -- A trade that is applied to two orders: its plan, its journal and the rows of the orders.
  pub record Applies (rate : Decimal) (t : SettledTrade) (buyer seller : StoredOrder)
      (bought sold : TradeFill) (db db' : TradeDatabase) : Type 0 where
    pub plan : TradeSettlementPlan
    pub entry : JournalEntry
    pub created : Bool
    pub planned :
        plan_trade_settlement rate t buyer.order buyer.order.user_id seller.order.user_id
        ≡ accepted plan
    pub recorded :
        record_journal db.ledger (trade_journal t plan) ≡ accepted (db'.ledger, entry, created)
    pub orders_after :
        db'.orders
        ≡ map (execute_row seller.order.id sold) (map (execute_row buyer.order.id bought) db.orders)
    pub trades_after : db'.trades ≡ db.trades

  module _ (div : Decimal → Decimal → Decimal) (rate : Decimal) where
    pub apply_settlement-Applies :
        (t : SettledTrade) (buyer seller : StoredOrder) (bought sold : TradeFill)
        (db db' : TradeDatabase)
        → apply_settlement div rate t buyer seller bought sold db ≡ accepted db'
        → Applies rate t buyer seller bought sold db db'
    unfolding apply_settlement SameBooks
    apply_settlement-Applies t buyer seller bought sold db db' h =
        let (plan, hp, h1) = >>=-accepted _ _ db' h in
        let (half, hh, h2) = >>=-accepted _ _ db' h1 in
        let (full, hf, h3) = >>=-accepted _ _ db' h2 in
        let (booked, hb, h4) = >>=-accepted _ _ db' h3 in
        let (priced, ha, h5) = >>=-accepted _ _ db' h4 in
        let (entry, created, rec, orders, trades) =
          record_trade-lem full booked (trade_journal t plan) hb in
        let first =
          update_order_execution-lem buyer.order.id bought db half
            (or_error-accepted _ _ half hh) in
        let second =
          update_order_execution-lem seller.order.id sold half full
            (or_error-accepted _ _ full hf) in
        let rows : full.orders
            ≡ map (execute_row seller.order.id sold)
                (map (execute_row buyer.order.id bought) db.orders) =
          ap (λ x. x.orders) (sym second)
          ∙ ap (λ x. map (execute_row seller.order.id sold) x.orders) (sym first) in
        let ledgers : full.ledger ≡ db.ledger =
          ap (λ x. x.ledger) (sym second) ∙ ap (λ x. x.ledger) (sym first) in
        let kept : full.trades ≡ db.trades =
          ap (λ x. x.trades) (sym second) ∙ ap (λ x. x.trades) (sym first) in
        let (l1, o1, t1) =
          avg-SameBooks div _ _ _ _ booked priced (refused_by-accepted _ _ priced ha) in
        let (l2, o2, t2) = clear-SameBooks seller.order.user_id t.emitted.coin_symbol priced in
        let last : clear_avg_buy_price_if_empty seller.order.user_id t.emitted.coin_symbol priced
            ≡ db' =
          cc in
        let at_end : db'.ledger ≡ booked.ledger = ap (λ x. x.ledger) (sym last) ∙ l2 ∙ l1 in
        record {
          plan = plan;
          entry = entry;
          created = created;
          planned = refused_by-accepted _ _ plan hp;
          recorded =
              subst
                (λ x.
                  record_journal x (trade_journal t plan) ≡ accepted (db'.ledger, entry, created))
                ledgers
                (subst
                  (λ x.
                    record_journal full.ledger (trade_journal t plan)
                    ≡ accepted (x, entry, created))
                  (sym at_end) rec);
          orders_after = ap (λ x. x.orders) (sym last) ∙ o2 ∙ o1 ∙ orders ∙ rows;
          trades_after = ap (λ x. x.trades) (sym last) ∙ t2 ∙ t1 ∙ trades ∙ kept;
        }
