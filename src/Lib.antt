-- ===== src/Lib.antt =====
-- Verification of the exchange backend: the matching engine and the bookkeeping of its trades.
--
-- The program. Orders come by HTTP, their assets are held in a double-entry ledger, and a matching
-- engine of several shards, one goroutine each, matches them. The engine emits execution events on a
-- channel; settlement turns each trade into a journal of the ledger. The development follows that path.
--
-- Which file models which part:
--   Prelude          names and lemmas that the modules share, and signed integers (Prelude/Int).
--   Packages         the third-party packages as an interface: decimals (shopspring/decimal), the deque
--                    of a price level (gammazero/deque), the tree of levels (google/btree). Its laws
--                    state their documented behaviour; decimals are taken up to `Equal`. Packages/Int
--                    is an instance over whole numbers, on which the examples run.
--   Matching/Types   internal/matching/order.go, internal/model/order.go and trade.go, and the command
--                    and event types of internal/matching/engine.go.
--   Matching/Book    internal/matching/orderbook.go: `NewOrderBook`, `AddOrder`, `RemoveOrder`.
--   Matching/Find    engine.go, the searches `bestMatchable*` and `bestMarket*`.
--   Matching/Emit    engine.go, `emitTrade` to `nextTradeEvent`: channels, reservations and panics.
--   Matching/Sweep   engine.go, `matchBuy`, `matchSell`, `matchMarketBuy`, `matchMarketSell`,
--                    `matchSlice`, `finishOrder`. The four loops are one loop with the four tests and
--                    bodies of the source.
--   Matching/Engine  engine.go, the state of `MatchingEngine`, `GetOrderBook`, the capacity tests and
--                    `cancelPhase`.
--   Matching/Snapshot  engine.go, the snapshots of a book and their cache.
--   Matching/Scheduler engine.go, `runTurn` with its phases and selects.
--   Matching/Quantum internal/matching/quantum_config.go.
--   Matching/Sharding internal/matching/sharded.go, `shardFor`.
--   Settlement       internal/service/fee.go, order_ledger.go, `validateJournalInput` of
--                    ledger_service.go, parts of settlement_service.go and hold_coordinator.go.
--   Ledger           internal/service/ledger_service.go, `Record`, `assertSameJournal` and `Reverse`,
--                    with internal/repository/account_repository.go and journal_repository.go: tables
--                    (Tables), statements (Accounts, Journals) and operations (Record). The proofs are
--                    in Keys to Reversal; Promise states the abstract ledger.
--   Settling         `SettleTrade` of settlement_service.go over the tables of orders, trades, the ledger,
--                    average prices and the outbox: tables with the statements of
--                    internal/repository/order_repository.go (Tables), `applyAvgBuyPrice` and
--                    `clearAvgBuyPriceIfEmpty` of order_ledger.go (Statistics) and the transaction
--                    (Service). The proofs are in Parts to Again.
--   Transfers        internal/model/transfer.go, internal/service/transfer_service.go and
--                    internal/repository/transfer_repository.go: the updates of a row (Requests), the
--                    journals (Confirm), the intervals (Schedule), the operations (Service, Intake) and
--                    their sequences (Steps, History, Booked). The ids of rows are drawn from a
--                    sequence, which the theorems on sequences state as `IsNumbered`.
--   Tests            concrete books, engines and trades on which the theorems are applied.
--
-- Correspondence. State is a record that each operation takes and returns. A price level that the
-- source changes in place is here replaced in its tree. Books are pointers that two symbols may share:
-- they live in a store, and a symbol maps to an address. Code that may panic returns an `Outcome`; a
-- loop on fuel returns `none` where the fuel runs out. A `select` is a function of the case that it
-- takes, and the ticker and that case are arguments of a turn.
--
-- The database is a record of tables and each repository function is the statement that it sends. A
-- table is a list of rows; accounts and journals have the newest row first, postings are in the order of
-- their ids. Callers roll a transaction back on an error, so a function that is rejected returns no
-- tables. Go maps of sums are sums over the rows. Postings are compared as sorted lists, whose amounts
-- are sorted by value here and by their text in the source: both line up equal lists. What the outside
-- world answers to a transfer, and the time, are arguments.
--
-- Fuel. A matching loop gets one round for each resting order of the book and two more: a round that
-- makes a trade uses up a resting order or the incoming one. The cancellation phase gets one round for
-- each waiting command and one more, since each round takes one.
--
-- Not modelled: the observers and all times; nil engines, nil orders and a nil book; the choice of an
-- engine's id, whose event ids are kept as the pair of id and number; the error value of `QuoRem` by
-- zero, since a valid book has positive prices; waiting on a blocking send, which is taken to be
-- received in time; orders and commands that arrive during a phase, which the next turn finds; the
-- close of the output channels, which is a flag of the turn; the forwarding goroutines of the shards;
-- failures of the database, locks of rows, a competing insert of the same trade, checks that
-- the migrations add to the tables, and the HTTP layer; the trimming and parsing of the texts of a
-- transfer request, and the trimming of a trade's texts with the idempotency key that is derived where
-- a trade has none. The fee rate and the division of decimals are parameters of the settlement
-- functions. Texts that the source formats as keys are kept as their parts.
pub mod Prelude
pub mod Packages
pub mod Matching
pub mod Settlement
pub mod Ledger
pub mod Settling
pub mod Transfers
pub mod Tests
