-- ===== src/Matching/Sweep/Loops.antt =====
-- Rules for the match loop: an invariant of its rounds, the reason why it ends, and when its
-- emissions cannot panic.
use go_exchange_back.Prelude.{
  ℕ, zero, suc, ◌+◌, ◌-◌, ◌≤◌, ◌<◌, ◌≡◌, refl, sym, ◌∙◌, subst, Bool, true, false, ◌&&◌, ◌⊎◌, inl,
  inr, none, some, arith, ltb, leb, if◌then◌else◌, Bool-cases, Option-cases, some_eq,
}
use go_exchange_back.Packages.{Packages}
use go_exchange_back.Matching.Types.{
  Order, OrderBook, Trade, OrderSide, buy, sell, other_side, OrderType, is_market,
}
use go_exchange_back.Matching.Emit.{len, Emitter, Outcome, returns, panics}
use go_exchange_back.Matching.Emit.Reservation.{
  CanSend, Traded, next_trade, emit_next, emit_trade-Traded, emit_trade-returns,
}
use go_exchange_back.Matching.Sweep.{
  Fill, Loop, Sweep, trade_ids, record_fill, run_loop, match_buy, match_sell, match_market_buy,
  match_market_sell, loop_for, sweep_of, match_slice, resting_orders,
}

pub Outcome-cases : {A : Type 0} (o : Outcome A) → (o ≡ panics) ⊎ ((a : A) × (o ≡ returns a))
Outcome-cases panics = inl refl
Outcome-cases (returns a) = inr (a, refl)

module _ ⦃pk : Packages⦄ where
  -- The trade of a round, as the emitter numbers it.
  abbrev pub trade_of : Loop → Emitter → Fill → Trade
  trade_of l em f =
      next_trade em f.order.coin_symbol f.price f.quantity (trade_ids l.buyer_is_incoming f).0
        (trade_ids l.buyer_is_incoming f).1

  -- A recorded trade is the next event, and the sweep goes on with the fill's book and order.
  pub record Recorded (l : Loop) (s : Sweep) (f : Fill) (s' : Sweep) : Type 0 where
    pub book_lem : s'.book ≡ f.book
    pub order_lem : s'.order ≡ f.order
    pub trades_lem : s'.trades ≡ s.trades + 1
    pub traded : Traded s.emitter s'.emitter (trade_of l s.emitter f)

  pub record_fill-Recorded :
      (l : Loop) (s : Sweep) (f : Fill) (s' : Sweep)
      → record_fill l s f ≡ returns s'
      → Recorded l s f s'
  unfolding record_fill
  record_fill-Recorded l s f s' e =
      let ids = trade_ids l.buyer_is_incoming f in
      let emitted = emit_next s.emitter f.order.coin_symbol f.price f.quantity ids.0 ids.1 in
      elim (Outcome-cases emitted) [
        | inl d ↦ cc (rw d at e)
        | inr (em, d) ↦
            let after : Sweep = record {
              book = f.book;
              order = f.order;
              emitter = em;
              trades = s.trades + 1;
            } in
            let result : returns after ≡ returns s' = rw d at e in
            let same : after ≡ s' = cc result in
            rw (← same) (record {
              book_lem = refl;
              order_lem = refl;
              trades_lem = refl;
              traded =
                  emit_trade-Traded s.emitter f.order.coin_symbol f.price f.quantity ids.0 ids.1 em
                    d;
            })
      ]

  pub record_fill-returns :
      (l : Loop) (s : Sweep) (f : Fill) (n : ℕ)
      → CanSend s.emitter (suc n)
      → (s' : Sweep) × (record_fill l s f ≡ returns s') × CanSend s'.emitter n
  unfolding record_fill
  record_fill-returns l s f n h =
      let ids = trade_ids l.buyer_is_incoming f in
      let (em, e, left) =
        emit_trade-returns s.emitter f.order.coin_symbol f.price f.quantity ids.0 ids.1 n h in
      (record { book = f.book; order = f.order; emitter = em; trades = s.trades + 1 }, rw e, left)

  -- The cases of one turn of the loop: it ends, or a trade is made and recorded.
  pub data Turn (l : Loop) (budget : ℕ) (s : Sweep) : Type 0 where
    sated : l.wants s.order ≡ false → Turn l budget s
    spent : l.wants s.order ≡ true → 0 < budget → budget ≤ s.trades → Turn l budget s
    unmatched :
        l.wants s.order ≡ true
        → (0 < budget → s.trades < budget)
        → l.round s.book s.order ≡ none
        → Turn l budget s
    trades :
        l.wants s.order ≡ true
        → (0 < budget → s.trades < budget)
        → (f : Fill) → l.round s.book s.order ≡ some f
        → Turn l budget s

  pub turn : (l : Loop) (budget : ℕ) (s : Sweep) → Turn l budget s
  turn l budget s = elim (Bool-cases (l.wants s.order)) [
    | inr w ↦ sated w
    | inl w ↦ elim (Bool-cases (ltb 0 budget && leb budget s.trades)) [
      | inl b ↦ spent w (ground arith) (ground arith)
      | inr b ↦ elim (Option-cases (l.round s.book s.order)) [
        | inl r ↦ unmatched w (ground arith) r
        | inr (f, r) ↦ trades w (ground arith) f r
      ]
    ]
  ]

  pub run_loop-zero : (l : Loop) (budget : ℕ) (s : Sweep) → run_loop zero l budget s ≡ none
  unfolding run_loop
  run_loop-zero l budget s = refl

  pub run_loop-sated :
      (fuel : ℕ) (l : Loop) (budget : ℕ) (s : Sweep)
      → l.wants s.order ≡ false
      → run_loop (suc fuel) l budget s ≡ some (returns (s, true))
  unfolding run_loop
  run_loop-sated fuel l budget s w = rw w

  pub run_loop-spent :
      (fuel : ℕ) (l : Loop) (budget : ℕ) (s : Sweep)
      → l.wants s.order ≡ true
      → 0 < budget
      → budget ≤ s.trades
      → run_loop (suc fuel) l budget s ≡ some (returns (s, false))
  unfolding run_loop
  run_loop-spent fuel l budget s w p q =
      let test : (ltb 0 budget && leb budget s.trades) ≡ true = ground arith in rw (w, test)

  pub run_loop-unmatched :
      (fuel : ℕ) (l : Loop) (budget : ℕ) (s : Sweep)
      → l.wants s.order ≡ true
      → (0 < budget → s.trades < budget)
      → l.round s.book s.order ≡ none
      → run_loop (suc fuel) l budget s ≡ some (returns (s, true))
  unfolding run_loop
  run_loop-unmatched fuel l budget s w b r =
      let test : (ltb 0 budget && leb budget s.trades) ≡ false = ground arith in rw (w, test, r)

  pub run_loop-panics :
      (fuel : ℕ) (l : Loop) (budget : ℕ) (s : Sweep) (f : Fill)
      → l.wants s.order ≡ true
      → (0 < budget → s.trades < budget)
      → l.round s.book s.order ≡ some f
      → record_fill l s f ≡ panics
      → run_loop (suc fuel) l budget s ≡ some panics
  unfolding run_loop
  run_loop-panics fuel l budget s f w b r e =
      let test : (ltb 0 budget && leb budget s.trades) ≡ false = ground arith in rw (w, test, r, e)

  pub run_loop-trades :
      (fuel : ℕ) (l : Loop) (budget : ℕ) (s s' : Sweep) (f : Fill)
      → l.wants s.order ≡ true
      → (0 < budget → s.trades < budget)
      → l.round s.book s.order ≡ some f
      → record_fill l s f ≡ returns s'
      → run_loop (suc fuel) l budget s ≡ run_loop fuel l budget s'
  unfolding run_loop
  run_loop-trades fuel l budget s s' f w b r e =
      let test : (ltb 0 budget && leb budget s.trades) ≡ false = ground arith in rw (w, test, r, e)

  -- Why a loop has ended, by its flag.
  abbrev pub Ended : Loop → ℕ → Sweep → Bool → Type 0
  Ended l budget s true = (l.wants s.order ≡ false) ⊎ (l.round s.book s.order ≡ none)
  Ended l budget s false = (l.wants s.order ≡ true) × (0 < budget) × (budget ≤ s.trades)

  -- The loop rule: what every round keeps holds at the end, and the end has its reason.
  pub loop_inv :
      (l : Loop) (budget : ℕ) (P : Sweep → Type 0)
      → ((s s' : Sweep) (f : Fill)
          → P s
          → l.wants s.order ≡ true
          → (0 < budget → s.trades < budget)
          → l.round s.book s.order ≡ some f
          → Recorded l s f s'
          → P s')
      → (fuel : ℕ) (s s' : Sweep) (d : Bool) → run_loop fuel l budget s ≡ some (returns (s', d))
      → P s
      → P s' × Ended l budget s' d
  loop_inv l budget P keep zero s s' d e p = cc (run_loop-zero l budget s)
  loop_inv l budget P keep (suc fuel) s s' d e p = elim (turn l budget s) [
    | sated w ↦ finish s true (inl w) p (run_loop-sated fuel l budget s w)
    | spent w b c ↦ finish s false (w, b, c) p (run_loop-spent fuel l budget s w b c)
    | unmatched w b r ↦ finish s true (inr r) p (run_loop-unmatched fuel l budget s w b r)
    | trades w b f r ↦ elim (Outcome-cases (record_fill l s f)) [
      | inl x ↦ cc (rw (run_loop-panics fuel l budget s f w b r x) at e)
      | inr (s₁, x) ↦
          loop_inv l budget P keep fuel s₁ s' d
            (rw (run_loop-trades fuel l budget s s₁ f w b r x) at e)
            (keep s s₁ f p w b r (record_fill-Recorded l s f s₁ x))
    ]
  ]
    where
      finish :
          (s₁ : Sweep) (d₁ : Bool)
          → Ended l budget s₁ d₁
          → P s₁
          → run_loop (suc fuel) l budget s ≡ some (returns (s₁, d₁))
          → P s' × Ended l budget s' d
      finish s₁ d₁ end p₁ x =
          let whole : returns (s₁, d₁) ≡ returns (s', d) = some_eq (rw x at e) in
          let same_s : s₁ ≡ s' = cc whole in
          let same_d : d₁ ≡ d = cc whole in rw (← same_s, ← same_d) (p₁, end)

  pub less_room : (em : Emitter) (n : ℕ) → CanSend em (suc n) → CanSend em 1
  less_room em n h a = elim (Option-cases em.execution_ch) [
    | inl d ↦ rw d tt
    | inr (c, d) ↦
        let enough : (suc n ≤ em.reservation_remaining)
            × (em.reservation_remaining + len c ≤ c.capacity) =
          rw d at (h a) in
        rw d (omega arith, enough.1)
  ]

  -- A reservation of one send more than the budget left keeps the loop from panicking, and one send
  -- is left over at its end.
  pub run_loop-CanSend :
      (l : Loop) (budget : ℕ)
      → 0 < budget
      → (fuel : ℕ) (s : Sweep) (n : ℕ) (r : Outcome (Sweep × Bool)) → s.trades + n ≡ budget
      → CanSend s.emitter (suc n)
      → run_loop fuel l budget s ≡ some r
      → (s' : Sweep) × (d : Bool) × (r ≡ returns (s', d)) × CanSend s'.emitter 1
  run_loop-CanSend l budget pos zero s n r sum h e = cc (run_loop-zero l budget s)
  run_loop-CanSend l budget pos (suc fuel) s n r sum h e = elim (turn l budget s) [
    | sated w ↦
        (s, true, some_eq (sym e ∙ run_loop-sated fuel l budget s w), less_room s.emitter n h)
    | spent w b c ↦
        (s, false, some_eq (sym e ∙ run_loop-spent fuel l budget s w b c), less_room s.emitter n h)
    | unmatched w b x ↦ (
      s,
      true,
      some_eq (sym e ∙ run_loop-unmatched fuel l budget s w b x),
      less_room s.emitter n h,
    )
    | trades w b f x ↦
        let m : n ≡ suc (n - 1) = omega arith in
        let (s₁, done, left) = record_fill-returns l s f n h in
        run_loop-CanSend l budget pos fuel s₁ (n - 1) r
          (omega (arith, (record_fill-Recorded l s f s₁ done).trades_lem)) (rw m at left)
          (rw (run_loop-trades fuel l budget s s₁ f w b x done) at e)
  ]

  -- The loop of an order, with what its side and type say.
  pub loop_for_cases :
      (P : Loop → Type 0) (side : OrderSide) (order_type : OrderType)
      → (side ≡ buy → is_market order_type ≡ true → P match_market_buy)
      → (side ≡ buy → is_market order_type ≡ false → P match_buy)
      → (side ≡ sell → is_market order_type ≡ true → P match_market_sell)
      → (side ≡ sell → is_market order_type ≡ false → P match_sell)
      → (l : Loop) → loop_for side order_type ≡ some l
      → P l
  unfolding loop_for
  loop_for_cases P buy t mb b ms s l e = elim (Bool-cases (is_market t)) [
    | inl m ↦
        let same : some match_market_buy ≡ some l = rw m at e in subst P (some_eq same) (mb refl m)
    | inr m ↦ let same : some match_buy ≡ some l = rw m at e in subst P (some_eq same) (b refl m)
  ]
  loop_for_cases P sell t mb b ms s l e = elim (Bool-cases (is_market t)) [
    | inl m ↦
        let same : some match_market_sell ≡ some l = rw m at e in subst P (some_eq same) (ms refl m)
    | inr m ↦ let same : some match_sell ≡ some l = rw m at e in subst P (some_eq same) (s refl m)
  ]
  loop_for_cases P (other_side x) t mb b ms s l e = cc

  -- A slice is a run of the order's loop, or nothing for an unknown side.
  pub match_slice_loop :
      (book : OrderBook) (order : Order) (em : Emitter) (budget : ℕ) (l : Loop)
      → loop_for order.side order.order_type ≡ some l
      → match_slice book order em budget
        ≡ run_loop (resting_orders book + 2) l budget (sweep_of book order em)
  unfolding match_slice
  match_slice_loop book order em budget l e = rw (e, match_slice)

  pub match_slice-none :
      (book : OrderBook) (order : Order) (em : Emitter) (budget : ℕ)
      → loop_for order.side order.order_type ≡ none
      → match_slice book order em budget ≡ some (returns (sweep_of book order em, true))
  unfolding match_slice
  match_slice-none book order em budget e = rw (e, match_slice)

  -- Which loop runs.
  pub loop_for_buy :
      (side : OrderSide) (t : OrderType)
      → side ≡ buy
      → loop_for side t ≡ some (if is_market t then match_market_buy else match_buy)
  unfolding loop_for
  loop_for_buy side t e = rw (e, loop_for)

  pub loop_for_sell :
      (side : OrderSide) (t : OrderType)
      → side ≡ sell
      → loop_for side t ≡ some (if is_market t then match_market_sell else match_sell)
  unfolding loop_for
  loop_for_sell side t e = rw (e, loop_for)
