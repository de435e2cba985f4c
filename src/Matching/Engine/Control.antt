-- ===== src/Matching/Engine/Control.antt =====
-- What a cancellation changes of the queues and the counters: nothing.
use text.Mathlib.Text.{◌==◌ as str_eq}
use go_exchange_back.Prelude.{
  ℕ, ◌+◌, ◌-◌, ◌≤◌, ◌≡◌, refl, sym, ap, ◌∙◌, inl, inr, Option, some, String, arith, Bool-cases,
  Option-cases, List-cases,
}
use go_exchange_back.Packages.{Packages}
use go_exchange_back.Matching.Types.{ExecutionEvent, Order, CancelOrderCommand, CancelOrderResult}
use go_exchange_back.Matching.Emit.{
  Channel, len, Emitter, returns, begin_reservation, end_reservation,
}
use go_exchange_back.Matching.Book.{remove_order}
use go_exchange_back.Matching.Emit.Reservation.{
  begin_reservation-CanSend, emit_order_cancelled-returns,
}
use go_exchange_back.Matching.Engine.{
  MatchingEngine, ActiveSweep, get_order_book, free, mark_dirty, reply, handle_cancel,
  process_cancel, reject_cancel, lookup, contains, command_is_valid, book_at,
}

module _ ⦃pk : Packages⦄ where
  -- What the phases read of the queues and the counters.
  pub record Control : Type 0 where
    pub order_ch : Channel Order
    pub pending_order : Option Order
    pub cancel_ch : Channel CancelOrderCommand
    pub pending_cancel : Option CancelOrderCommand
    pub active_sweep : Option ActiveSweep
    pub cancels_since_progress : ℕ
    pub max_consecutive_cancels : ℕ
    pub max_matches_per_turn : ℕ

  abbrev pub control : MatchingEngine → Control
  control e = record {
    order_ch = e.order_ch;
    pending_order = e.pending_order;
    cancel_ch = e.cancel_ch;
    pending_cancel = e.pending_cancel;
    active_sweep = e.active_sweep;
    cancels_since_progress = e.cancels_since_progress;
    max_consecutive_cancels = e.max_consecutive_cancels;
    max_matches_per_turn = e.max_matches_per_turn;
  }

  pub get_order_book-control :
      (e : MatchingEngine) (symbol : String)
      → (control (get_order_book e symbol).1 ≡ control e)
        × ((get_order_book e symbol).1.emitter ≡ e.emitter)
  unfolding get_order_book
  get_order_book-control e symbol = elim (Bool-cases (str_eq symbol "")) [
    | inl h ↦ rw h (refl, refl)
    | inr h ↦ elim (Option-cases (lookup symbol e.order_books)) [
      | inl n ↦ elim (List-cases e.order_books) [
        | inl l ↦ rw (h, n, l) (refl, refl)
        | inr (x, xs, l) ↦ rw (h, n, l) (refl, refl)
      ]
      | inr (a, n) ↦ rw (h, n) (refl, refl)
    ]
  ]

  pub mark_dirty-control :
      (e : MatchingEngine) (symbol : String)
      → (control (mark_dirty symbol e) ≡ control e) × ((mark_dirty symbol e).emitter ≡ e.emitter)
  unfolding mark_dirty
  mark_dirty-control e symbol = elim (Bool-cases (contains symbol e.dirty_symbols)) [
    | inl h ↦ rw h (refl, refl)
    | inr h ↦ rw h (refl, refl)
  ]

  reply-control :
      (cmd : CancelOrderCommand) (result : CancelOrderResult) (e : MatchingEngine)
      → control (reply cmd result e) ≡ control e
  unfolding reply
  reply-control cmd result e = elim (Bool-cases cmd.wants_reply) [
    | inl h ↦ rw h refl
    | inr h ↦ rw h refl
  ]

  handle_cancel-control :
      (e : MatchingEngine) (cmd : CancelOrderCommand)
      → (control (handle_cancel e cmd).0 ≡ control e)
        × ((handle_cancel e cmd).0.emitter ≡ e.emitter)
  unfolding handle_cancel
  handle_cancel-control e cmd =
      let found = get_order_book-control e cmd.coin_symbol in
      elim (Bool-cases (command_is_valid cmd)) [
        | inl v ↦
            let book =
              remove_order
                (book_at (get_order_book e cmd.coin_symbol).1 (get_order_book e cmd.coin_symbol).0)
                cmd.side cmd.price cmd.order_id in
            elim (Bool-cases book.1) [ inl h ↦ rw (v, h) found | inr h ↦ rw (v, h) found ]
        | inr v ↦ rw v (refl, refl)
      ]

  pub free_lem :
      (em : Emitter) (n : ℕ) (c : Channel ExecutionEvent)
      → n ≤ free em
      → 1 ≤ n
      → em.execution_ch ≡ some c
      → n + len c ≤ c.capacity
  unfolding free
  free_lem em n c h k e = let left : n ≤ c.capacity - len c = rw e at h in omega arith

  -- With a free place the one event of a cancellation is sent.
  pub process_cancel-returns :
      (e : MatchingEngine) (cmd : CancelOrderCommand)
      → 1 ≤ free e.emitter
      → (e' : MatchingEngine) × (process_cancel e cmd ≡ returns e') × (control e' ≡ control e)
  unfolding process_cancel
  process_cancel-returns e cmd room =
      let e₁ = (handle_cancel e cmd).0 in
      let result = (handle_cancel e cmd).1 in
      let (same, emits) = handle_cancel-control e cmd in
      elim (Bool-cases result.removed) [
        | inl r ↦
            let can = begin_reservation-CanSend 1 e₁.emitter (λ c d.
              free_lem e.emitter 1 c room (omega arith)
                (sym (ap (λ x. x.execution_ch) emits) ∙ d)) in
            let (em, sent, _) =
              emit_order_cancelled-returns (begin_reservation 1 e₁.emitter) cmd 0 can in
            (
              reply cmd result
                  (record (mark_dirty cmd.coin_symbol e₁) { emitter = end_reservation em }),
              rw (r, sent) refl,
              reply-control cmd result _ ∙ (mark_dirty-control e₁ cmd.coin_symbol).0 ∙ same,
            )
        | inr r ↦ (reply cmd result e₁, rw r refl, reply-control cmd result e₁ ∙ same)
      ]

  pub reject_cancel-control :
      (cmd : CancelOrderCommand) (e : MatchingEngine) → control (reject_cancel e cmd) ≡ control e
  unfolding reject_cancel
  reject_cancel-control cmd e = reply-control cmd _ e

  -- What cancellations leave alone.
  pub record Intake : Type 0 where
    pub order_ch : Channel Order
    pub pending_order : Option Order
    pub active_sweep : Option ActiveSweep
    pub max_consecutive_cancels : ℕ
    pub max_matches_per_turn : ℕ

  abbrev pub intake_of : Control → Intake
  intake_of c = record {
    order_ch = c.order_ch;
    pending_order = c.pending_order;
    active_sweep = c.active_sweep;
    max_consecutive_cancels = c.max_consecutive_cancels;
    max_matches_per_turn = c.max_matches_per_turn;
  }

  abbrev pub intake : MatchingEngine → Intake
  intake e = intake_of (control e)
