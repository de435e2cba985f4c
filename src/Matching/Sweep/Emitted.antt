-- ===== src/Matching/Sweep/Emitted.antt =====
-- What the events of a sweep are: trades of the incoming order with orders of the book.
use mathlib.Core.List.{append_assoc, append-nil}
use go_exchange_back.Prelude.{
  ℕ, ◌+◌, ◌≡◌, refl, sym, ap, ◌∙◌, true, false, Option, none, some, String, List, [], ◌∷◌, ◌++◌,
  map, arith, length, length-append, All, All-append, get_elem?, ◌==◌,
}
use go_exchange_back.Packages.{Packages}
use go_exchange_back.Matching.Types.{
  Order, OrderBook, Trade, ExecutionEvent, trade, buy, sell, is_market,
}
use go_exchange_back.Matching.Find.{is_self_trade}
use go_exchange_back.Matching.Find.Best.{IsOwn, foreign_lem}
use go_exchange_back.Matching.Emit.{Channel, Emitter}
use go_exchange_back.Matching.Emit.Reservation.{append_events}
use go_exchange_back.Matching.Sweep.{is_positive, Fill, Loop, Sweep}
use go_exchange_back.Matching.Sweep.Origins.{HasOrigin}
use go_exchange_back.Matching.Sweep.Loops.{Recorded, trade_of}

module _ ⦃pk : Packages⦄ where
  open pk use {Decimal, Deque, Tree, items, get_level, add, less_than}

  pub append_events_append :
      (c : Option (Channel ExecutionEvent)) (xs ys : List ExecutionEvent)
      → append_events (append_events c xs) ys ≡ append_events c (xs ++ ys)
  append_events_append none xs ys = refl
  append_events_append (some c) xs ys = rw append_assoc

  pub append_events-nil : (c : Option (Channel ExecutionEvent)) → append_events c [] ≡ c
  append_events-nil none = refl
  append_events-nil (some c) = rw append-nil

  -- Consecutive numbers after `n`, each with the engine's id.
  abbrev pub Numbered : String → ℕ → List Trade → Type 0
  Numbered id n [] = Unit
  Numbered id n (t ∷ ts) =
      (t.engine_sequence ≡ n + 1)
      × (t.engine_event_id ≡ record { engine_id = id; sequence = n + 1 })
      × Numbered id (n + 1) ts

  pub Numbered-snoc :
      (id : String) (n m : ℕ) (ts : List Trade) (t : Trade)
      → Numbered id n ts
      → m ≡ n + length ts
      → t.engine_sequence ≡ m + 1
      → t.engine_event_id ≡ record { engine_id = id; sequence = m + 1 }
      → Numbered id n (ts ++ t ∷ [])
  Numbered-snoc id n m [] t h sum a b =
      let same : m ≡ n = omega arith in (rw (← same) a, rw (← same) b, tt)
  Numbered-snoc id n m (x ∷ ts) t h sum a b =
      (h.0, h.1, Numbered-snoc id (n + 1) m ts t h.2 (omega arith) a b)

  pub map-snoc :
      (ts : List Trade) (t : Trade) → map trade (ts ++ t ∷ []) ≡ map trade ts ++ trade t ∷ []
  map-snoc [] t = refl
  map-snoc (x ∷ ts) t = rw (map-snoc ts t)

  -- An amount that has grown by the quantities of the trades.
  abbrev pub grown_by : List Trade → Decimal → Decimal
  grown_by [] amount = amount
  grown_by (t ∷ ts) amount = grown_by ts (add amount t.quantity)

  pub grown_by-snoc :
      (ts : List Trade) (t : Trade) (amount : Decimal)
      → grown_by (ts ++ t ∷ []) amount ≡ add (grown_by ts amount) t.quantity
  grown_by-snoc [] t amount = refl
  grown_by-snoc (x ∷ ts) t amount = grown_by-snoc ts t (add amount x.quantity)

  -- The events of a sweep since `em`: its trades, as many as it counts, numbered on from the last
  -- number, each as `Q` says, whose quantities are what the order has filled since `start`.
  pub record Emits (Q : Trade → Type 0) (start : Decimal) (em : Emitter) (s : Sweep) : Type 0 where
    pub trade_list : List Trade
    pub queue : s.emitter.execution_ch ≡ append_events em.execution_ch (map trade trade_list)
    pub count : length trade_list ≡ s.trades
    pub numbers : Numbered em.engine_id em.trade_seq trade_list
    pub last_number : s.emitter.trade_seq ≡ em.trade_seq + length trade_list
    pub same_id : s.emitter.engine_id ≡ em.engine_id
    pub filled : s.order.filled_amount ≡ grown_by trade_list start
    pub each : All Q trade_list

  pub Emits-step :
      (Q : Trade → Type 0) (start : Decimal) (em : Emitter) (l : Loop) (s s' : Sweep) (f : Fill)
      → Emits Q start em s
      → Recorded l s f s'
      → f.order.filled_amount ≡ add s.order.filled_amount f.quantity
      → Q (trade_of l s.emitter f)
      → Emits Q start em s'
  Emits-step Q start em l s s' f h rec fills q =
      let t = trade_of l s.emitter f in
      record {
        trade_list = h.trade_list ++ t ∷ [];
        queue =
            rec.traded.queue
            ∙ ap (λ c. append_events c (trade t ∷ [])) h.queue
            ∙ append_events_append em.execution_ch (map trade h.trade_list) (trade t ∷ [])
            ∙ ap (append_events em.execution_ch) (sym (map-snoc h.trade_list t));
        count = omega (arith, length-append h.trade_list (t ∷ []), h.count, rec.trades_lem);
        numbers =
            Numbered-snoc em.engine_id em.trade_seq s.emitter.trade_seq h.trade_list t h.numbers
              h.last_number refl (rw h.same_id);
        last_number =
            omega (arith, rec.traded.next_seq, h.last_number, length-append h.trade_list (t ∷ []));
        same_id = rec.traded.same_id ∙ h.same_id;
        filled =
            ap (λ o. o.filled_amount) rec.order_lem
            ∙ fills
            ∙ ap (λ x. add x f.quantity) h.filled
            ∙ sym (grown_by-snoc h.trade_list t start);
        each = All-append Q h.trade_list (t ∷ []) h.each (q, tt);
      }

  -- An order of another user with the id stands on the side of the book at the price.
  abbrev pub IsOffered : Tree (Deque Order) → Order → Decimal → ℕ → Type 0
  IsOffered t order price id =
      (resting : Order) × (orders : Deque Order) × (i : ℕ) × (get_level t price ≡ some orders)
      × (get_elem? (items orders) i ≡ some resting)
      × (resting.id ≡ id)
      × ¬ IsOwn order resting

  -- A trade of the incoming order with a resting order of the book: of its symbol and a positive
  -- quantity, with each order on its own side of the trade, at the price at which the other one
  -- rests, and within the incoming order's limit unless it is a market order.
  pub record IsTradeOf (book : OrderBook) (order : Order) (t : Trade) : Type 0 where
    pub symbol : t.coin_symbol ≡ order.coin_symbol
    pub positive : is_positive t.quantity ≡ true
    pub buyer :
        order.side ≡ buy
        → (t.buy_order_id ≡ order.id) × IsOffered book.sell_orders order t.price t.sell_order_id
    pub seller :
        order.side ≡ sell
        → (t.sell_order_id ≡ order.id) × IsOffered book.buy_orders order t.price t.buy_order_id
    pub buy_limit :
        order.side ≡ buy
        → is_market order.order_type ≡ false
        → less_than order.price t.price ≡ false
    pub sell_limit :
        order.side ≡ sell
        → is_market order.order_type ≡ false
        → less_than t.price order.price ≡ false

  -- What a trade's resting order was at the start.
  pub offered :
      (t : Tree (Deque Order)) (order order' o : Order) (price : Decimal)
      → order'.user_id ≡ order.user_id
      → is_self_trade order' o ≡ false
      → HasOrigin t price o
      → IsOffered t order price o.id
  offered t order order' o price user other (was, orders, i, at_level, at_index, ids, users) = (
    was,
    orders,
    i,
    at_level,
    at_index,
    sym ids,
    λ (same, someone).
        foreign_lem order' o other (users ∙ same ∙ sym user, ap (λ u. u == 0) user ∙ someone),
  )
