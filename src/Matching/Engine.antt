-- ===== src/Matching/Engine.antt =====
-- engine.go: the state of `MatchingEngine`, its books by symbol, the capacity tests and
-- cancellation. Books are pointers that two names may share, so they live in a store and a name maps
-- to an address; address 0 is the default book `me.OrderBook`. The metric observers are left out.
pub mod Control
pub mod Cancels
pub mod Books
use text.Mathlib.Text.{◌==◌ as str_eq}
use go_exchange_back.Prelude.{
  ℕ, zero, suc, ◌+◌, ◌-◌, ◌*◌, ◌/◌, ◌^◌, ◌≡◌, Bool, true, false, ◌&&◌, ◌||◌, not, Option, none,
  some, String, List, [], ◌∷◌, ◌++◌, ltb, leb, ◌==◌, if◌then◌else◌, length, get_elem?, set,
}
use go_exchange_back.Packages.{Packages}
use go_exchange_back.Matching.Types.{
  Order, OrderBook, OrderSide, buy, sell, other_side, CancelOrderCommand, CancelError,
  order_not_found, invalid_command, backpressured, CancelOrderResult,
}
use go_exchange_back.Matching.Book.{new_order_book, remove_order}
use go_exchange_back.Matching.Emit.{
  Channel, len, Emitter, Outcome, returns, panics, ◌>>=◌, begin_reservation, end_reservation,
  emit_order_cancelled,
}

module _ ⦃pk : Packages⦄ where
  open pk use {Decimal, zero_decimal, less_than}

  pub record PriceLevelData : Type 0 where
    pub price : Decimal
    pub quantity : Decimal

  pub record OrderBookSnapshot : Type 0 where
    pub coin_symbol : String
    pub asks : List PriceLevelData
    pub bids : List PriceLevelData

  -- The order, the address of its book, and the trades so far.
  pub record ActiveSweep : Type 0 where
    pub order : Order
    pub book : ℕ
    pub trades : ℕ

  -- `parked` says that `parkStartedAt` is set, `stop_requested` that `stopCh` is closed, and
  -- `replies` are the answers to cancellations, latest first.
  pub record MatchingEngine : Type 0 where
    pub books : List OrderBook
    pub order_books : List (String × ℕ)
    pub order_ch : Channel Order
    pub cancel_ch : Channel CancelOrderCommand
    pub snapshot_ch : Channel OrderBookSnapshot
    pub emitter : Emitter
    pub max_matches_per_turn : ℕ
    pub max_consecutive_cancels : ℕ
    pub active_sweep : Option ActiveSweep
    pub shutting_down : Bool
    pub cancels_since_progress : ℕ
    pub pending_cancel : Option CancelOrderCommand
    pub pending_order : Option Order
    pub ticker_due : Bool
    pub parked : Bool
    pub stop_requested : Bool
    pub dirty_symbols : List String
    pub snapshot_cache : List (String × OrderBookSnapshot)
    pub replies : List (CancelOrderCommand × CancelOrderResult)

  abbrev buffered : {A : Type 0} → ℕ → Channel A
  buffered n = record { capacity = n; queue = [] }

  -- `NewMatchingEngine`, with the text of `newEngineID`.
  unfoldable pub new_matching_engine : String → MatchingEngine
  new_matching_engine engine_id = record {
    books = new_order_book ∷ [];
    order_books = [];
    order_ch = buffered 1024;
    cancel_ch = buffered 1024;
    snapshot_ch = buffered 256;
    emitter = record {
      engine_id = engine_id;
      trade_seq = 0;
      trade_ch = buffered 1024;
      execution_ch = some (buffered 1024);
      reservation_active = false;
      reservation_remaining = 0;
    };
    max_matches_per_turn = 128;
    max_consecutive_cancels = 8;
    active_sweep = none;
    shutting_down = false;
    cancels_since_progress = 0;
    pending_cancel = none;
    pending_order = none;
    ticker_due = false;
    parked = false;
    stop_requested = false;
    dirty_symbols = [];
    snapshot_cache = [];
    replies = [];
  }

  abbrev pub lookup {ℓ} : {A : Type ℓ} → String → List (String × A) → Option A
  lookup k [] = none
  lookup k ((j, a) ∷ l) = if str_eq k j then some a else lookup k l

  -- `GetOrderBook`: the address, and the engine with the symbol registered. The first symbol of all
  -- gets the default book.
  unfoldable pub get_order_book : MatchingEngine → String → ℕ × MatchingEngine
  get_order_book e symbol =
      if str_eq symbol "" then (0, e) else elim (lookup symbol e.order_books) [
        | some address ↦ (address, e)
        | none ↦ elim e.order_books [
          | [] ↦ (0, record e { order_books = (symbol, 0) ∷ [] })
          | _ ∷ _ ↦ (
            length e.books,
            record e {
              books = e.books ++ new_order_book ∷ [];
              order_books = (symbol, length e.books) ∷ e.order_books;
            },
          )
        ]
      ]

  abbrev pub book_at : MatchingEngine → ℕ → OrderBook
  book_at e address = elim (get_elem? e.books address) [ none ↦ new_order_book | some b ↦ b ]

  abbrev pub set_book : MatchingEngine → ℕ → OrderBook → MatchingEngine
  set_book e address book = record e { books = set e.books address book }

  -- A nil channel has room without end: `math.MaxInt`.
  unfoldable pub free : Emitter → ℕ
  free em = elim em.execution_ch [ none ↦ 2 ^ 63 - 1 | some c ↦ c.capacity - len c ]

  -- `free() - 1 - maxConsecutiveCancels >= maxMatchesPerTurn` over the integers.
  unfoldable pub has_slice_capacity : MatchingEngine → Bool
  has_slice_capacity e =
      leb (e.max_matches_per_turn + 1 + e.max_consecutive_cancels) (free e.emitter)

  unfoldable pub slice_blocked_now : MatchingEngine → Bool
  slice_blocked_now e = elim e.active_sweep [ none ↦ false | some s ↦ not (has_slice_capacity e) ]

  -- Three quarters of the capacity, rounded down: exact in a float64 below 2 ^ 51.
  unfoldable pub emit_backpressured : Emitter → Bool
  emit_backpressured em = elim em.execution_ch [
    | none ↦ false
    | some c ↦ not (c.capacity == 0) && leb (c.capacity * 3 / 4) (len c)
  ]

  unfoldable pub contains : String → List String → Bool
  contains k [] = false
  contains k (j ∷ l) = str_eq k j || contains k l

  -- The dirty symbols are a set.
  unfoldable pub mark_dirty : String → MatchingEngine → MatchingEngine
  unfolding contains
  mark_dirty symbol e =
      if contains symbol e.dirty_symbols
      then e
      else record e { dirty_symbols = symbol ∷ e.dirty_symbols }

  unfoldable pub reply : CancelOrderCommand → CancelOrderResult → MatchingEngine → MatchingEngine
  reply cmd result e =
      if cmd.wants_reply then record e { replies = (cmd, result) ∷ e.replies } else e

  abbrev pub failed : CancelError → CancelOrderResult
  failed err = record { removed = false; error = some err }

  unfoldable pub command_is_valid : CancelOrderCommand → Bool
  command_is_valid cmd =
      not (cmd.order_id == 0 || str_eq cmd.coin_symbol "" || less_than cmd.price zero_decimal)
      && elim cmd.side [ buy ↦ true | sell ↦ true | other_side s ↦ false ]

  -- `handleCancel`.
  unfoldable pub handle_cancel :
      MatchingEngine → CancelOrderCommand → MatchingEngine × CancelOrderResult
  handle_cancel e cmd =
      if command_is_valid cmd
      then (let (address, e₁) = get_order_book e cmd.coin_symbol in
          let (book, removed) = remove_order (book_at e₁ address) cmd.side cmd.price cmd.order_id in
          if removed
          then (set_book e₁ address book, record { removed = true; error = none })
          else (e₁, failed order_not_found))
      else (e, failed invalid_command)

  -- Out of the book, then the event, then the answer.
  unfoldable pub process_cancel : MatchingEngine → CancelOrderCommand → Outcome MatchingEngine
  process_cancel e cmd =
      let (e₁, result) = handle_cancel e cmd in
      let dirty = mark_dirty cmd.coin_symbol e₁ in
      if result.removed
      then (emit_order_cancelled (begin_reservation 1 e₁.emitter) cmd >>= λ em.
          returns (reply cmd result (record dirty { emitter = end_reservation em })))
      else returns (reply cmd result e₁)

  unfoldable pub reject_cancel : MatchingEngine → CancelOrderCommand → MatchingEngine
  reject_cancel e cmd = reply cmd (failed backpressured) e

  -- The latched command first, then the channel.
  unfoldable pub take_cancel : MatchingEngine → Option (CancelOrderCommand × MatchingEngine)
  take_cancel e = elim e.pending_cancel [
    | some cmd ↦ some (cmd, record e { pending_cancel = none })
    | none ↦ elim e.cancel_ch.queue [
      | [] ↦ none
      | cmd ∷ rest ↦ some (cmd, record e { cancel_ch = record e.cancel_ch { queue = rest } })
    ]
  ]

  -- What the loop of `cancelPhase` decides before it takes a command.
  pub data Decision : Type 0 where
    process reject leave : Decision

  unfoldable pub decide_cancel : MatchingEngine → Decision
  decide_cancel e =
      let quota_left = ltb e.cancels_since_progress e.max_consecutive_cancels in
      if quota_left && leb 1 (free e.emitter)
      then process
      else if free e.emitter == 0 || (slice_blocked_now e && not quota_left)
      then reject
      else leave

  -- One round of the loop: `none` where the source returns, else the reject budget and the engine.
  unfoldable pub cancel_round : ℕ → MatchingEngine → Option (Outcome (ℕ × MatchingEngine))
  cancel_round budget e = elim (decide_cancel e) [
    | leave ↦ none
    | process ↦ elim (take_cancel e) [
      | none ↦ none
      | some (cmd, e₁) ↦ some (
          process_cancel e₁ cmd >>= λ e₂.
          returns (budget, record e₂ { cancels_since_progress = e₂.cancels_since_progress + 1 }))
    ]
    | reject ↦ if budget == 0 then none else elim (take_cancel e) [
      | none ↦ none
      | some (cmd, e₁) ↦ some (returns (budget - 1, reject_cancel e₁ cmd))
    ]
  ]

  unfoldable pub cancel_loop : ℕ → ℕ → MatchingEngine → Option (Outcome MatchingEngine)
  cancel_loop zero budget e = none
  cancel_loop (suc fuel) budget e =
      let go_on : ℕ × MatchingEngine → Option (Outcome MatchingEngine) =
        λ r. cancel_loop fuel r.0 r.1 in
      elim (cancel_round budget e) [
        | none ↦ some (returns e)
        | some panics ↦ some panics
        | some (returns r) ↦ go_on r
      ]

  -- The commands that wait. Commands that arrive during the phase are left to the next one.
  unfoldable pub waiting_cancels : MatchingEngine → ℕ
  waiting_cancels e = len e.cancel_ch + elim e.pending_cancel [ none ↦ 0 | some c ↦ 1 ]

  -- `cancelPhase`.
  unfoldable pub cancel_phase : MatchingEngine → Option (Outcome MatchingEngine)
  cancel_phase e = cancel_loop (waiting_cancels e + 1) (waiting_cancels e) e
