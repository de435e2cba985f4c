-- ===== src/Matching/Scheduler/Turns.antt =====
-- What a turn of the engine's loop does with a sweep in progress.
use go_exchange_back.Prelude.{
  suc, ◌+◌, ◌<◌, ◌≡◌, refl, ap, Bool, true, false, inl, inr, none, some, if◌then◌else◌, subst,
  arith, Bool-cases,
}
use go_exchange_back.Packages.{Packages}
use go_exchange_back.Matching.Types.{Order, OrderBook, is_market}
use go_exchange_back.Matching.Book.{add_order}
use go_exchange_back.Matching.Book.Invariant.{BookIsValid}
use go_exchange_back.Matching.Emit.{Emitter, returns, begin_reservation, end_reservation}
use go_exchange_back.Matching.Emit.Reservation.{
  CanSend, begin_reservation-CanSend, emit_market_order_done-returns,
}
use go_exchange_back.Matching.Sweep.{Sweep, finish_order, is_positive}
use go_exchange_back.Matching.Sweep.Slicing.{slice_returns}
use go_exchange_back.Matching.Engine.{
  MatchingEngine, ActiveSweep, set_book, mark_dirty, book_at, has_slice_capacity,
}
use go_exchange_back.Matching.Engine.Control.{free_lem}
use go_exchange_back.Matching.Scheduler.{after_slice, finish_slice, yield_slice, run_slice}

module _ ⦃pk : Packages⦄ where
  finish_order_returns :
      (book : OrderBook) (order : Order) (em : Emitter)
      → CanSend em 1
      → (r : OrderBook × Emitter × Bool) × (finish_order book order em ≡ returns r)
  unfolding finish_order
  finish_order_returns book order em h = elim (Bool-cases (is_market order.order_type)) [
    | inl m ↦
        let (em', sent, _) = emit_market_order_done-returns em order 0 h in
        ((book, em', false), rw (finish_order, m, sent) refl)
    | inr m ↦ elim (Bool-cases (is_positive order.amount)) [
      | inl p ↦ ((add_order book order, em, true), rw (finish_order, m, p) refl)
      | inr p ↦ ((book, em, false), rw (finish_order, m, p) refl)
    ]
  ]

  reserved :
      (e : MatchingEngine)
      → has_slice_capacity e ≡ true
      → CanSend
          (begin_reservation (e.max_matches_per_turn + 1) e.emitter)
          (suc e.max_matches_per_turn)
  unfolding has_slice_capacity
  reserved e h =
      let can =
        begin_reservation-CanSend (e.max_matches_per_turn + 1) e.emitter (λ c d.
          free_lem e.emitter (e.max_matches_per_turn + 1) c (ground arith) (omega arith) d) in
      subst (λ n. CanSend (begin_reservation (e.max_matches_per_turn + 1) e.emitter) n)
        (omega arith) can

  abbrev pub finished :
      MatchingEngine → ActiveSweep → Sweep → OrderBook × Emitter × Bool → MatchingEngine
  finished e sweep s r =
      let e₁ = after_slice e sweep s in
      let e₂ = if r.2 then mark_dirty sweep.order.coin_symbol e₁ else e₁ in
      record (set_book e₂ sweep.book r.0) { emitter = end_reservation r.1; active_sweep = none }

  pub finish_slice-returns :
      (e : MatchingEngine) (sweep : ActiveSweep) (s : Sweep) (r : OrderBook × Emitter × Bool)
      → finish_order s.book s.order s.emitter ≡ returns r
      → finish_slice e sweep s ≡ returns (finished e sweep s r)
  unfolding finish_slice
  finish_slice-returns e sweep s r h = rw (finish_slice, h) refl

  -- A slice that starts with the capacity that the scheduler asks for, on a valid book and with a
  -- positive budget, ends and never panics on its reservation.
  pub run_slice-returns :
      (e : MatchingEngine) (sweep : ActiveSweep)
      → BookIsValid (book_at e sweep.book)
      → 0 < e.max_matches_per_turn
      → has_slice_capacity e ≡ true
      → (e' : MatchingEngine) × (run_slice e sweep ≡ some (returns e'))
  unfolding run_slice
  run_slice-returns e sweep v pos h =
      let (s, d, ran, left) =
        slice_returns (book_at e sweep.book) sweep.order
          (begin_reservation (e.max_matches_per_turn + 1) e.emitter) e.max_matches_per_turn v pos
          (reserved e h) in
      let (r, rests) = finish_order_returns s.book s.order s.emitter left in
      elim (Bool-cases d) [
        | inl b ↦ (
          finished e sweep s r,
          rw (run_slice, ran, b) (ap (λ x. some x) (finish_slice-returns e sweep s r rests)),
        )
        | inr b ↦ (yield_slice e sweep s, rw (run_slice, ran, b) refl)
      ]
