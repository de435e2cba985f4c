-- ===== src/Matching/Emit/Reservation.antt =====
-- What an emission does to the channel, and when a reservation rules the panics out.
use go_exchange_back.Prelude.{
  ℕ, suc, ◌+◌, ◌-◌, ◌≤◌, ◌≡◌, true, inl, inr, Option, none, some, String, List, [], ◌∷◌, ◌++◌,
  arith, length-append, Bool-cases, Option-cases,
}
use go_exchange_back.Packages.{Packages}
use go_exchange_back.Matching.Types.{
  Order, Trade, ExecutionEvent, trade, order_cancelled, CancelOrderCommand,
}
use go_exchange_back.Matching.Emit.{
  Channel, len, put, Outcome, returns, Emitter, send_execution, send_if_open, next_trade_event,
  new_trade, emit_trade, emit_market_order_done, emit_order_cancelled, begin_reservation,
}

module _ ⦃pk : Packages⦄ where
  open pk use {Decimal}

  -- The channel with more events at its end; a nil channel stays nil.
  abbrev pub append_events :
      Option (Channel ExecutionEvent) → List ExecutionEvent → Option (Channel ExecutionEvent)
  append_events none es = none
  append_events (some c) es = some (record c { queue = c.queue ++ es })

  -- In a reservation `n` more sends find both budget and room.
  abbrev Room : Option (Channel ExecutionEvent) → ℕ → ℕ → Type 0
  Room none n remaining = Unit
  Room (some c) n remaining = (n ≤ remaining) × (remaining + len c ≤ c.capacity)

  abbrev pub CanSend : Emitter → ℕ → Type 0
  CanSend em n = em.reservation_active ≡ true → Room em.execution_ch n em.reservation_remaining

  -- The event is the last of the channel and nothing else has changed but the budget.
  pub record Sent (em em' : Emitter) (es : List ExecutionEvent) : Type 0 where
    pub queue : em'.execution_ch ≡ append_events em.execution_ch es
    pub same_id : em'.engine_id ≡ em.engine_id
    pub same_seq : em'.trade_seq ≡ em.trade_seq
    pub same_active : em'.reservation_active ≡ em.reservation_active

  pub send_if_open-Sent :
      (em em' : Emitter) (e : ExecutionEvent)
      → send_if_open em e ≡ returns em'
      → Sent em em' (e ∷ [])
  unfolding send_if_open send_execution
  send_if_open-Sent em em' e h = ground arith

  pub send_if_open-returns :
      (em : Emitter) (e : ExecutionEvent) (n : ℕ)
      → CanSend em (suc n)
      → (em' : Emitter) × (send_if_open em e ≡ returns em') × CanSend em' n
  unfolding send_if_open send_execution
  send_if_open-returns em e n h = elim (Option-cases em.execution_ch) [
    | inl d ↦ (em, ground arith, λ a. rw d tt)
    | inr (c, d) ↦ elim (Bool-cases em.reservation_active) [
      | inl a ↦
          let enough : (suc n ≤ em.reservation_remaining)
              × (em.reservation_remaining + len c ≤ c.capacity) =
            rw d at (h a) in
          (
            record em {
              execution_ch = some (put c e);
              reservation_remaining = em.reservation_remaining - 1;
            },
            ground arith,
            λ _. (omega arith, omega (arith, length-append c.queue (e ∷ []))),
          )
      | inr a ↦ (record em { execution_ch = some (put c e) }, ground arith, λ q. cc)
    ]
  ]

  -- The trade that a match emits, numbered next.
  abbrev pub next_trade : Emitter → String → Decimal → Decimal → ℕ → ℕ → Trade
  next_trade em coin_symbol price quantity buyer seller = record {
    engine_sequence = em.trade_seq + 1;
    engine_event_id = record { engine_id = em.engine_id; sequence = em.trade_seq + 1 };
    coin_symbol = coin_symbol;
    price = price;
    quantity = quantity;
    buy_order_id = buyer;
    sell_order_id = seller;
  }

  -- `emitTrade(newTrade(…))`: the next number is used up, and the trade is the next event.
  pub record Traded (em em' : Emitter) (t : Trade) : Type 0 where
    pub queue : em'.execution_ch ≡ append_events em.execution_ch (trade t ∷ [])
    pub same_id : em'.engine_id ≡ em.engine_id
    pub next_seq : em'.trade_seq ≡ em.trade_seq + 1
    pub same_active : em'.reservation_active ≡ em.reservation_active

  module _ (em : Emitter) (coin_symbol : String) (price quantity : Decimal) (buyer seller : ℕ) where
    abbrev pub emit_next : Outcome Emitter
    emit_next =
        let (t, em₁) = new_trade em coin_symbol price quantity buyer seller in emit_trade em₁ t

    pub emit_trade-Traded :
        (em' : Emitter)
        → emit_next ≡ returns em'
        → Traded em em' (next_trade em coin_symbol price quantity buyer seller)
    unfolding emit_trade new_trade next_trade_event
    emit_trade-Traded em' h =
        let sent = send_if_open-Sent _ em' _ h in
        record {
          queue = sent.queue;
          same_id = sent.same_id;
          next_seq = sent.same_seq;
          same_active = sent.same_active;
        }

    pub emit_trade-returns :
        (n : ℕ) → CanSend em (suc n) → (em' : Emitter) × (emit_next ≡ returns em') × CanSend em' n
    unfolding emit_trade new_trade next_trade_event
    emit_trade-returns n h = send_if_open-returns _ _ n h

  pub emit_market_order_done-returns :
      (em : Emitter) (order : Order) (n : ℕ)
      → CanSend em (suc n)
      → (em' : Emitter) × (emit_market_order_done em order ≡ returns em') × CanSend em' n
  unfolding emit_market_order_done
  emit_market_order_done-returns em order n h = send_if_open-returns em _ n h

  abbrev pub cancelled : Emitter → CancelOrderCommand → ExecutionEvent
  cancelled em cmd = order_cancelled (record {
    command_id = cmd.command_id;
    order_id = cmd.order_id;
    coin_symbol = cmd.coin_symbol;
    side = cmd.side;
    engine_event_id = record { engine_id = em.engine_id; sequence = em.trade_seq + 1 };
  })

  send_if_open-some :
      (em : Emitter) (c : Channel ExecutionEvent) (e : ExecutionEvent)
      → em.execution_ch ≡ some c
      → send_if_open em e ≡ send_execution em c e
  unfolding send_if_open
  send_if_open-some em c e d = ground arith

  pub emit_order_cancelled-returns :
      (em : Emitter) (cmd : CancelOrderCommand) (n : ℕ)
      → CanSend em (suc n)
      → (em' : Emitter) × (emit_order_cancelled em cmd ≡ returns em') × CanSend em' n
  unfolding emit_order_cancelled next_trade_event
  emit_order_cancelled-returns em cmd n h = elim (Option-cases em.execution_ch) [
    | inl d ↦ (em, ground arith, λ a. rw d tt)
    | inr (c, d) ↦
        let em₁ : Emitter = record em { trade_seq = em.trade_seq + 1 } in
        let (em', sent, left) = send_if_open-returns em₁ (cancelled em cmd) n h in
        (em', ground (arith, sent, send_if_open-some em₁ c (cancelled em cmd) d), left)
  ]

  -- A reservation for which there is room at its begin.
  pub begin_reservation-CanSend :
      (n : ℕ) (em : Emitter)
      → ((c : Channel ExecutionEvent) → em.execution_ch ≡ some c → n + len c ≤ c.capacity)
      → CanSend (begin_reservation n em) n
  unfolding begin_reservation
  begin_reservation-CanSend n em h _ = elim (Option-cases em.execution_ch) [
    | inl d ↦ rw d tt
    | inr (c, d) ↦ let enough = h c d in rw d (omega arith, enough)
  ]
