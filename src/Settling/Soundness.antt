-- ===== src/Settling/Soundness.antt =====
-- The money of a settled trade, and what ties the table of trades to the ledger.
use text.Mathlib.Text.{◌==◌ as str_eq}
use go_exchange_back.Prelude.{
  ℕ, ◌≡◌, refl, sym, ap, subst, ◌∙◌, Bool, true, false, none, some, inl, inr, String, List, ◌∷◌,
  Bool-cases,
}
use go_exchange_back.Packages.{Packages}
use go_exchange_back.Settlement.Types.{SettledTrade, trade_key, accepted}
use go_exchange_back.Settlement.Fees.{apply_trade_fee_policy}
use go_exchange_back.Settlement.Postings.{TradeSettlementPlan, plan_trade_settlement, trade_journal}
use go_exchange_back.Ledger.Tables.{AccountKey, JournalEntry, Database}
use go_exchange_back.Ledger.Journals.{find_entry}
use go_exchange_back.Ledger.Posts.{Posts}
use go_exchange_back.Ledger.Invariant.{LedgerIsSound}
use go_exchange_back.Ledger.Promise.{
  view, add_lines, Recorded, record_journal-Recorded, record_journal-refines,
  record_journal-IsSound,
}
use go_exchange_back.Settling.Tables.{
  StoredOrder, TradeDatabase, find_order, find_trade, insert_trade, mark_settled_outbox,
}
use go_exchange_back.Settling.Service.{SettlementResult, applied_result, settle_trade}
use go_exchange_back.Settling.Parts.{SameBooks, mark-SameBooks}
use go_exchange_back.Settling.Runs.{
  inserted, Settles, HasApplied, settle_trade-HasApplied, settle_trade-cases,
}

module _ ⦃pk : Packages⦄ where
  open pk use {Decimal}

  -- Every journal of a trade stands for a row of `trades`.
  unfoldable pub TradesAreStored : TradeDatabase → Type 0
  TradesAreStored db =
      (key : String)
      → find_trade key db.trades ≡ none
      → find_entry (trade_key key) db.ledger.journals ≡ none

  -- Two facts about the tables: the ledger is sound, and it has no journal of an unknown trade.
  unfoldable pub BooksAreSound : TradeDatabase → Type 0
  BooksAreSound db = LedgerIsSound db.ledger × TradesAreStored db

  -- The journal of a trade whose key is new is new.
  is_created :
      (db db' : Database) (t : SettledTrade) (plan : TradeSettlementPlan) (entry : JournalEntry)
      (created : Bool)
      → find_entry (trade_key t.idempotency_key) db.journals ≡ none
      → Recorded db (trade_journal t plan) db' entry created
      → created ≡ true
  unfolding Recorded trade_journal
  is_created db db' t plan entry true absent r = refl
  is_created db db' t plan entry false absent (found, same) = cc

  journals_after :
      (db db' : Database) (t : SettledTrade) (plan : TradeSettlementPlan) (entry : JournalEntry)
      (key : String)
      → Recorded db (trade_journal t plan) db' entry true
      → str_eq t.idempotency_key key ≡ false
      → find_entry (trade_key key) db'.journals ≡ find_entry (trade_key key) db.journals
  unfolding Recorded Posts trade_journal find_entry
  journals_after db db' t plan entry key
        (absent, made, (ds, drafted, stored, js, next, sound', grows, v)) ne =
      ap (find_entry (trade_key key)) js ∙ rw ne refl

  other_key :
      (t : SettledTrade) (ts : List SettledTrade) (key : String)
      → find_trade key (t ∷ ts) ≡ none
      → (str_eq t.idempotency_key key ≡ false) × (find_trade key ts ≡ none)
  unfolding find_trade
  other_key t ts key h = elim (Bool-cases (str_eq t.idempotency_key key)) [
    | inl e ↦ cc (rw e at h)
    | inr e ↦ (e, rw e at h)
  ]

  -- The plan of a trade, and the balances that its postings lead to.
  unfoldable pub Books : Decimal → SettledTrade → TradeDatabase → TradeDatabase → Type 0
  Books rate t db db' =
      (buyer : StoredOrder) × (seller : StoredOrder) × (priced : SettledTrade)
      × (plan : TradeSettlementPlan) × (find_order priced.emitted.buy_order_id db.orders
          ≡ some buyer)
      × (find_order priced.emitted.sell_order_id db.orders ≡ some seller)
      × (apply_trade_fee_policy rate t ≡ accepted priced)
      × (plan_trade_settlement rate (inserted db priced) buyer.order buyer.order.user_id
            seller.order.user_id
          ≡ accepted plan)
      × ((k : AccountKey) → view db'.ledger k ≡ add_lines plan.postings (view db.ledger) k)

  module _ (div : Decimal → Decimal → Decimal) (rate : Decimal) where
    -- The ledger of a settlement that has taken place has a new journal.
    Settles-Recorded :
        (t : SettledTrade) (db db' : TradeDatabase) (s : Settles rate t db db')
        → LedgerIsSound db.ledger
        → find_entry (trade_key t.idempotency_key) db.ledger.journals ≡ none
        → (s.writes.created ≡ true)
          × Recorded db.ledger (trade_journal t s.writes.plan) db'.ledger s.writes.entry true
    Settles-Recorded t db db' s sound absent =
        let (valid, recorded) =
          record_journal-Recorded db.ledger db'.ledger (trade_journal t s.writes.plan)
            s.writes.entry s.writes.created sound s.writes.recorded in
        let new =
          is_created db.ledger db'.ledger t s.writes.plan s.writes.entry s.writes.created absent
            recorded in
        (
          new,
          subst (Recorded db.ledger (trade_journal t s.writes.plan) db'.ledger s.writes.entry) new
              recorded,
        )

    applied-BooksAreSound :
        (t : SettledTrade) (event id : ℕ) (db db' : TradeDatabase)
        → BooksAreSound db
        → settle_trade div rate t event db ≡ accepted (db', applied_result id)
        → BooksAreSound db'
    unfolding HasApplied BooksAreSound TradesAreStored
    applied-BooksAreSound t event id db db' (sound, stored) h =
        let (priced, prepared, policy, absent, ids, s) =
          settle_trade-HasApplied div rate t event id db db' h in
        let (new, recorded) =
          Settles-Recorded (inserted db priced) (insert_trade db priced) db' s sound
            (stored priced.idempotency_key absent) in
        (
          record_journal-IsSound db.ledger db'.ledger _ s.writes.entry s.writes.created sound
              s.writes.recorded,
          λ key none_after.
              let (ne, none_before) =
                other_key (inserted db priced) db.trades key
                  (subst (λ ts. find_trade key ts ≡ none) s.writes.trades_after none_after) in
              journals_after db.ledger db'.ledger (inserted db priced) s.writes.plan s.writes.entry
                key recorded ne
              ∙ stored key none_before,
        )

    marked-BooksAreSound :
        (event : ℕ) (db : TradeDatabase)
        → BooksAreSound db
        → BooksAreSound (mark_settled_outbox event db)
    unfolding BooksAreSound TradesAreStored SameBooks
    marked-BooksAreSound event db (sound, stored) =
        let (ledgers, orders, trades) = mark-SameBooks event db in
        (
          subst LedgerIsSound (sym ledgers) sound,
          λ key absent.
              ap (λ x. find_entry (trade_key key) x.journals) ledgers
              ∙ stored key (subst (λ ts. find_trade key ts ≡ none) trades absent),
        )

    -- Every call of `SettleTrade` that is not rolled back, whether it applies its trade or finds it
    -- again, keeps the ledger sound, and keeps it true that each trade journal of the ledger stands
    -- for a stored trade.
    pub settle_trade-BooksAreSound :
        (t : SettledTrade) (event : ℕ) (db db' : TradeDatabase) (result : SettlementResult)
        → BooksAreSound db
        → settle_trade div rate t event db ≡ accepted (db', result)
        → BooksAreSound db'
    settle_trade-BooksAreSound t event db db' result sound h =
        elim (settle_trade-cases div rate t event db db' result h) [
          | inl same ↦
              applied-BooksAreSound t event db.next_trade_id db db' sound
                (subst (λ r. settle_trade div rate t event db ≡ accepted (db', r)) same h)
          | inr same ↦ subst BooksAreSound (sym same) (marked-BooksAreSound event db sound)
        ]

    -- On sound books, a trade that `SettleTrade` applies moves money exactly by its plan: the balance
    -- under every account key changes by the lines of `planTradeSettlement` for the trade with its
    -- fees and for the users of its two orders, and by nothing else.
    pub settle_trade-Books :
        (t : SettledTrade) (event id : ℕ) (db db' : TradeDatabase)
        → BooksAreSound db
        → settle_trade div rate t event db ≡ accepted (db', applied_result id)
        → Books rate t db db'
    unfolding HasApplied BooksAreSound TradesAreStored Books trade_journal
    settle_trade-Books t event id db db' (sound, stored) h =
        let (priced, prepared, policy, absent, ids, s) =
          settle_trade-HasApplied div rate t event id db db' h in
        let (new, recorded) =
          Settles-Recorded (inserted db priced) (insert_trade db priced) db' s sound
            (stored priced.idempotency_key absent) in
        (
          s.buyer,
          s.seller,
          priced,
          s.writes.plan,
          s.found_buyer,
          s.found_seller,
          policy,
          s.writes.planned,
          λ k.
              record_journal-refines db.ledger db'.ledger
                (trade_journal (inserted db priced) s.writes.plan) s.writes.entry s.writes.created k
                sound s.writes.recorded
              ∙ rw new refl,
        )
