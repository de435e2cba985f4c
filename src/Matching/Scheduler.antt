-- ===== src/Matching/Scheduler.antt =====
-- engine.go, `Start` to `runSlice`: one turn of the engine's loop. What the environment decides,
-- whether the ticker has fired and which ready case a blocking `select` takes, is an argument.
pub mod Turns
pub mod Intake
use go_exchange_back.Prelude.{
  ℕ, ◌+◌, ◌≡◌, Bool, true, false, ◌&&◌, ◌||◌, not, Option, none, some, List, [], ◌∷◌, leb,
  if◌then◌else◌,
}
use go_exchange_back.Packages.{Packages}
use go_exchange_back.Matching.Types.{Order, OrderBook, CancelOrderCommand}
use go_exchange_back.Matching.Emit.{
  Channel, Emitter, Outcome, returns, panics, begin_reservation, end_reservation,
}
use go_exchange_back.Matching.Sweep.{Sweep, match_slice, finish_order, order_is_admissible}
use go_exchange_back.Matching.Engine.{
  MatchingEngine, ActiveSweep, get_order_book, book_at, set_book, has_slice_capacity,
  slice_blocked_now, emit_backpressured, mark_dirty, cancel_phase,
}
use go_exchange_back.Matching.Snapshot.{flush_snapshots}

-- A run that may panic; `none` only where a loop's fuel ran out.
abbrev pub Run : Type 0 → Type 0
Run A = Option (Outcome A)

infixl 5 ◌>>=◌
abbrev pub ◌>>=◌ : {A B : Type 0} → Run A → (A → Run B) → Run B
none >>= f = none
some panics >>= f = some panics
some (returns a) >>= f = f a

-- The case that a blocking select takes. One that is not ready leaves the engine waiting.
pub data Choice : Type 0 where
  on_cancel on_order on_ticker on_stop on_capacity : Choice

abbrev pub is_some : {A : Type 0} → Option A → Bool
is_some none = false
is_some (some a) = true

abbrev pub done : {A : Type 0} → A → Run A
done a = some (returns a)

module _ ⦃pk : Packages⦄ where
  unfoldable pub latch_stop : MatchingEngine → MatchingEngine
  latch_stop e = record e { shutting_down = true }

  -- The first command of `CancelCh`, latched.
  unfoldable pub latch_cancel : MatchingEngine → Option MatchingEngine
  latch_cancel e = elim e.cancel_ch.queue [
    | [] ↦ none
    | cmd ∷ rest ↦
        some
          (record e { pending_cancel = some cmd; cancel_ch = record e.cancel_ch { queue = rest } })
  ]

  unfoldable pub latch_order : MatchingEngine → Option MatchingEngine
  latch_order e = elim e.order_ch.queue [
    | [] ↦ none
    | order ∷ rest ↦
        some
          (record e { pending_order = some order; order_ch = record e.order_ch { queue = rest } })
  ]

  abbrev pub or_waits : MatchingEngine → Option MatchingEngine → MatchingEngine
  or_waits e none = e
  or_waits e (some e') = e'

  -- `parkSelect`: no new order passes the active sweep, and a closed stop channel is taken once.
  unfoldable pub park_select : Choice → MatchingEngine → MatchingEngine
  park_select on_cancel e = or_waits e (latch_cancel e)
  park_select on_order e = e
  park_select on_ticker e = record e { ticker_due = true }
  park_select on_stop e = if e.stop_requested && not e.shutting_down then latch_stop e else e
  park_select on_capacity e = e

  -- The select of step 8.
  unfoldable pub idle_select : Choice → MatchingEngine → MatchingEngine
  idle_select on_cancel e = or_waits e (latch_cancel e)
  idle_select on_order e = if emit_backpressured e.emitter then e else or_waits e (latch_order e)
  idle_select on_ticker e = record e { ticker_due = true }
  idle_select on_stop e = if e.stop_requested then latch_stop e else e
  idle_select on_capacity e = e

  unfoldable pub latch_one_non_blocking : MatchingEngine → Option MatchingEngine
  latch_one_non_blocking e = elim (latch_cancel e) [ some e' ↦ some e' | none ↦ latch_order e ]

  -- `admit` with `admitOrder`: an order that cannot match is finished at once.
  unfoldable pub admit : MatchingEngine → Order → MatchingEngine
  admit e order =
      if order_is_admissible order
      then (let (address, e₁) = get_order_book e order.coin_symbol in
          record e₁ { active_sweep = some (record { order = order; book = address; trades = 0 }) })
      else e

  abbrev pub no_cancels : MatchingEngine → MatchingEngine
  no_cancels e = record e { cancels_since_progress = 0 }

  -- `admitPhase`: a latched order goes before the test of back pressure.
  unfoldable pub admit_phase : MatchingEngine → MatchingEngine
  admit_phase e = elim e.pending_order [
    | some order ↦ no_cancels (admit (record e { pending_order = none }) order)
    | none ↦
        if not e.shutting_down && emit_backpressured e.emitter
        then no_cancels e
        else elim e.order_ch.queue [
          | [] ↦ no_cancels e
          | order ∷ rest ↦
              no_cancels (admit (record e { order_ch = record e.order_ch { queue = rest } }) order)
        ]
  ]

  -- The engine after the trades of a slice.
  abbrev pub after_slice : MatchingEngine → ActiveSweep → Sweep → MatchingEngine
  after_slice e sweep s =
      let e₁ = record (set_book e sweep.book s.book) { emitter = s.emitter } in
      if leb 1 s.trades then mark_dirty sweep.order.coin_symbol e₁ else e₁

  -- The end of the last slice: what is left of the order goes to the book or is reported.
  unfoldable pub finish_slice : MatchingEngine → ActiveSweep → Sweep → Outcome MatchingEngine
  finish_slice e sweep s = elim (finish_order s.book s.order s.emitter) [
    | panics ↦ panics
    | returns (book, em, rests) ↦
        let e₁ = after_slice e sweep s in
        let e₂ = if rests then mark_dirty sweep.order.coin_symbol e₁ else e₁ in
        returns (record (set_book e₂ sweep.book book) {
          emitter = end_reservation em;
          active_sweep = none;
        })
  ]

  unfoldable pub yield_slice : MatchingEngine → ActiveSweep → Sweep → MatchingEngine
  yield_slice e sweep s = record (after_slice e sweep s) {
    emitter = end_reservation s.emitter;
    active_sweep =
        some (record { order = s.order; book = sweep.book; trades = sweep.trades + s.trades });
  }

  -- `runSlice`: the reservation is for the trades and one `MarketOrderDone`.
  unfoldable pub run_slice : MatchingEngine → ActiveSweep → Run MatchingEngine
  run_slice e sweep =
      match_slice (book_at e sweep.book) sweep.order
        (begin_reservation (e.max_matches_per_turn + 1) e.emitter) e.max_matches_per_turn
      >>= λ r. if r.1 then some (finish_slice e sweep r.0) else done (yield_slice e sweep r.0)

  -- Step 2.
  unfoldable pub ticker_phase : Bool → MatchingEngine → MatchingEngine
  ticker_phase tick e =
      if e.ticker_due
      then flush_snapshots (record e { ticker_due = false })
      else if tick
      then flush_snapshots e
      else e

  -- Step 3. Progress lets cancellations start anew.
  unfoldable pub slice_phase : MatchingEngine → Run MatchingEngine
  slice_phase e = elim e.active_sweep [
    | none ↦ done e
    | some sweep ↦
        if has_slice_capacity e
        then (run_slice (record e { parked = false }) sweep >>= λ e'. done (no_cancels e'))
        else done e
  ]

  -- Step 4.
  unfoldable pub stop_phase : MatchingEngine → MatchingEngine
  stop_phase e = if not e.shutting_down && e.stop_requested then latch_stop e else e

  abbrev pub has_work : MatchingEngine → Bool
  has_work e =
      is_some e.active_sweep || is_some e.pending_cancel || is_some e.pending_order || e.ticker_due

  -- Steps 6 to 8; the flag says that the loop has ended and closed its channels.
  unfoldable pub wait_phase : Choice → MatchingEngine → MatchingEngine × Bool
  wait_phase choice e =
      if slice_blocked_now e && not (is_some e.pending_cancel)
      then (park_select choice (record e { parked = true }), false)
      else if has_work e
      then (e, false)
      else if e.shutting_down
      then elim (latch_one_non_blocking e) [
        | some e' ↦ (e', false)
        | none ↦ (flush_snapshots e, true)
      ]
      else (idle_select choice e, false)

  -- `runTurn`. Admission goes by whether a sweep was active when the turn began.
  unfoldable pub run_turn : Bool → Choice → MatchingEngine → Run (MatchingEngine × Bool)
  run_turn tick choice e = cancel_phase e >>= λ e₁. slice_phase (ticker_phase tick e₁) >>= λ e₂.
      let e₃ = stop_phase e₂ in
      done (wait_phase choice (if is_some e.active_sweep then e₃ else admit_phase e₃))
