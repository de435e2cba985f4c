-- ===== src/Matching/Emit.antt =====
-- engine.go, `emitTrade` to `nextTradeEvent`: events go to ExecutionCh, inside a reservation
-- without waiting and outside one by a blocking send.
pub mod Reservation
use go_exchange_back.Prelude.{
  ℕ, suc, ◌+◌, ◌-◌, ◌≡◌, Bool, true, false, Option, none, some, String, List, [], ◌∷◌, ◌++◌, ltb,
  length, if◌then◌else◌,
}
use go_exchange_back.Packages.{Packages}
use go_exchange_back.Matching.Types.{
  Order, Trade, EventId, ExecutionEvent, trade, market_order_done, order_cancelled,
  CancelOrderCommand,
}

-- A buffered channel: what was sent and not yet received, oldest first.
pub record Channel (A : Type 0) : Type 0 where
  pub capacity : ℕ
  pub queue : List A

abbrev pub len : {A : Type 0} → Channel A → ℕ
len c = length c.queue

-- A run of engine code: it comes back, or it panics.
pub data Outcome (A : Type 0) : Type 0 where
  returns : A → Outcome A
  panics : Outcome A

infixl 5 ◌>>=◌
abbrev pub ◌>>=◌ : {A B : Type 0} → Outcome A → (A → Outcome B) → Outcome B
returns a >>= f = f a
panics >>= f = panics

module _ ⦃pk : Packages⦄ where
  open pk use {Decimal}

  -- The engine's fields that emission reads and writes. `execution_ch` is `none` for a nil channel.
  pub record Emitter : Type 0 where
    pub engine_id : String
    pub trade_seq : ℕ
    pub trade_ch : Channel Trade
    pub execution_ch : Option (Channel ExecutionEvent)
    pub reservation_active : Bool
    pub reservation_remaining : ℕ

  unfoldable pub begin_reservation : ℕ → Emitter → Emitter
  begin_reservation budget em = record em {
    reservation_active = true;
    reservation_remaining = budget;
  }

  unfoldable pub end_reservation : Emitter → Emitter
  end_reservation em = record em { reservation_active = false; reservation_remaining = 0 }

  -- A send that finds no room is dropped: `select` with a `default`.
  unfoldable pub try_send : {A : Type 0} → Channel A → A → Channel A
  try_send c a = if ltb (len c) c.capacity then record c { queue = c.queue ++ a ∷ [] } else c

  -- A blocking send has been received in time, so the queue may pass the capacity here; where no
  -- one receives, the source waits for ever.
  abbrev pub put : {A : Type 0} → Channel A → A → Channel A
  put c a = record c { queue = c.queue ++ a ∷ [] }

  unfoldable pub send_reserved : Emitter → Channel ExecutionEvent → ExecutionEvent → Outcome Emitter
  send_reserved em c event =
      if ltb 0 em.reservation_remaining
      then (if ltb (len c) c.capacity
          then returns (record em {
            execution_ch = some (put c event);
            reservation_remaining = em.reservation_remaining - 1;
          })
          else panics)
      else panics

  -- `sendExecution` on a channel that is not nil.
  unfoldable pub send_execution :
      Emitter → Channel ExecutionEvent → ExecutionEvent → Outcome Emitter
  unfolding send_reserved
  send_execution em c event =
      if em.reservation_active
      then send_reserved em c event
      else returns (record em { execution_ch = some (put c event) })

  -- The guards `me.ExecutionCh == nil` of the three emitters.
  unfoldable pub send_if_open : Emitter → ExecutionEvent → Outcome Emitter
  send_if_open em event = elim em.execution_ch [
    | none ↦ returns em
    | some c ↦ send_execution em c event
  ]

  unfoldable pub next_trade_event : Emitter → EventId × Emitter
  next_trade_event em =
      let n = em.trade_seq + 1 in
      (record { engine_id = em.engine_id; sequence = n }, record em { trade_seq = n })

  unfoldable pub new_trade : Emitter → String → Decimal → Decimal → ℕ → ℕ → Trade × Emitter
  unfolding next_trade_event
  new_trade em coin_symbol price quantity buy_order_id sell_order_id =
      let (event_id, em') = next_trade_event em in
      (
        record {
          engine_sequence = event_id.sequence;
          engine_event_id = event_id;
          coin_symbol = coin_symbol;
          price = price;
          quantity = quantity;
          buy_order_id = buy_order_id;
          sell_order_id = sell_order_id;
        },
        em',
      )

  unfoldable pub emit_trade : Emitter → Trade → Outcome Emitter
  unfolding try_send
  emit_trade em t = send_if_open (record em { trade_ch = try_send em.trade_ch t }) (trade t)

  unfoldable pub emit_market_order_done : Emitter → Order → Outcome Emitter
  emit_market_order_done em order = send_if_open em (
      market_order_done (record {
        order_id = order.id;
        coin_symbol = order.coin_symbol;
        side = order.side;
        filled_amount = order.filled_amount;
        filled_quote_amount = order.filled_quote_amount;
        remaining_amount = order.amount;
        remaining_quote_amount = order.quote_amount;
      }))

  -- The number is taken only where there is a channel.
  unfoldable pub emit_order_cancelled : Emitter → CancelOrderCommand → Outcome Emitter
  unfolding next_trade_event
  emit_order_cancelled em cmd = elim em.execution_ch [
    | none ↦ returns em
    | some c ↦
        let (event_id, em') = next_trade_event em in
        send_execution em' c (
          order_cancelled (record {
            command_id = cmd.command_id;
            order_id = cmd.order_id;
            coin_symbol = cmd.coin_symbol;
            side = cmd.side;
            engine_event_id = event_id;
          }))
  ]
