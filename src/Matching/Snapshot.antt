-- ===== src/Matching/Snapshot.antt =====
-- engine.go, the snapshots: what is built from a book, cached at the ticker and cut for a request.
pub mod Depth
use text.Mathlib.Text.{◌==◌ as str_eq}
use go_exchange_back.Prelude.{
  ℕ, ◌≡◌, Bool, true, false, Option, none, some, String, List, [], ◌∷◌, ◌++◌, reverse, leb, ltb,
  if◌then◌else◌, length, take,
}
use go_exchange_back.Prelude.Int.{ℤ, pos, negsuc, ltb_ℤ, pos_part}
use go_exchange_back.Packages.{Packages}
use go_exchange_back.Matching.Types.{Order, OrderBook}
use go_exchange_back.Matching.Emit.{Channel, try_send}
use go_exchange_back.Matching.Engine.{
  PriceLevelData, OrderBookSnapshot, MatchingEngine, get_order_book, book_at, lookup,
}

module _ ⦃pk : Packages⦄ where
  open pk use {Decimal, Deque, Tree, items, levels, zero_decimal, add, less_than}

  abbrev pub default_snapshot_depth : ℕ
  default_snapshot_depth = 30

  unfoldable pub normalize_snapshot_depth : ℤ → ℕ
  normalize_snapshot_depth depth =
      if ltb_ℤ (pos 0) depth then pos_part depth else default_snapshot_depth

  -- `qty` after the loop over a level's orders.
  unfoldable pub level_quantity : Decimal → List Order → Decimal
  level_quantity qty [] = qty
  level_quantity qty (o ∷ os) = level_quantity (add qty o.amount) os

  -- The callback of `Ascend` and `Descend`, with the levels collected so far.
  unfoldable pub collect :
      ℕ → List PriceLevelData → List (Decimal × Deque Order) → List PriceLevelData
  collect depth acc [] = acc
  collect depth acc ((price, orders) ∷ rest) =
      let qty = level_quantity zero_decimal (items orders) in
      let more =
        collect depth
          (if less_than zero_decimal qty
            then acc ++ record { price = price; quantity = qty } ∷ []
            else acc)
          rest in
      if leb depth (length acc) then acc else more

  unfoldable pub snapshot_of : String → OrderBook → ℕ → OrderBookSnapshot
  unfolding collect
  snapshot_of symbol book depth = record {
    coin_symbol = symbol;
    asks = collect depth [] (levels book.sell_orders);
    bids = collect depth [] (reverse (levels book.buy_orders));
  }

  -- `GetOrderBookSnapshotWithDepth`; asking for the book of a new symbol registers it.
  unfoldable pub get_order_book_snapshot_with_depth :
      MatchingEngine → String → ℤ → OrderBookSnapshot × MatchingEngine
  get_order_book_snapshot_with_depth e symbol depth =
      let (address, e₁) = get_order_book e symbol in
      (snapshot_of symbol (book_at e₁ address) (normalize_snapshot_depth depth), e₁)

  unfoldable pub store_snapshot :
      String
      → OrderBookSnapshot
      → List (String × OrderBookSnapshot)
      → List (String × OrderBookSnapshot)
  store_snapshot symbol snapshot [] = (symbol, snapshot) ∷ []
  store_snapshot symbol snapshot ((j, s) ∷ cache) =
      if str_eq symbol j
      then (j, snapshot) ∷ cache
      else (j, s) ∷ store_snapshot symbol snapshot cache

  -- One symbol of `flushSnapshots`; a full channel is skipped.
  unfoldable pub flush_symbol : MatchingEngine → String → MatchingEngine
  flush_symbol e symbol =
      let (snapshot, e₁) =
        get_order_book_snapshot_with_depth e symbol (pos default_snapshot_depth) in
      record e₁ {
        snapshot_cache = store_snapshot symbol snapshot e₁.snapshot_cache;
        snapshot_ch = try_send e₁.snapshot_ch snapshot;
      }

  unfoldable pub flush_all : MatchingEngine → List String → MatchingEngine
  flush_all e [] = e
  flush_all e (symbol ∷ symbols) = flush_all (flush_symbol e symbol) symbols

  -- `flushSnapshots`; Go walks the set in any order, here it is the list's.
  unfoldable pub flush_snapshots : MatchingEngine → MatchingEngine
  flush_snapshots e = record (flush_all e e.dirty_symbols) { dirty_symbols = [] }

  unfoldable pub truncate_snapshot : OrderBookSnapshot → ℕ → OrderBookSnapshot
  truncate_snapshot s depth = record s { asks = take depth s.asks; bids = take depth s.bids }

  unfoldable pub load_snapshot : MatchingEngine → String → OrderBookSnapshot
  load_snapshot e symbol = elim (lookup symbol e.snapshot_cache) [
    | some s ↦ s
    | none ↦ record { coin_symbol = symbol; asks = []; bids = [] }
  ]

  -- The depth is at most the one that the cache was built with.
  unfoldable pub request_order_book_snapshot : MatchingEngine → String → ℤ → OrderBookSnapshot
  request_order_book_snapshot e symbol depth =
      let n = normalize_snapshot_depth depth in
      truncate_snapshot (load_snapshot e symbol)
        (if ltb default_snapshot_depth n then default_snapshot_depth else n)
