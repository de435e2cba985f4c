-- ===== src/Matching/Sweep/Termination.antt =====
-- The match loops end: the fuel that `match_slice` gives is enough for every book.
use go_exchange_back.Prelude.{
  ℕ, zero, suc, ◌+◌, ◌≤◌, ◌≡◌, ◌∙◌, Bool, true, false, ◌⊎◌, inl, inr, none, some, arith, length,
  Bool-cases, Option-cases,
}
use go_exchange_back.Packages.{Packages}
use go_exchange_back.Matching.Types.{Order, OrderBook}
use go_exchange_back.Matching.Book.Invariant.{BookIsValid}
use go_exchange_back.Matching.Book.Contents.{contents}
use go_exchange_back.Matching.Emit.{Emitter, Outcome}
use go_exchange_back.Matching.Sweep.{
  is_positive, Fill, Loop, Sweep, record_fill, run_loop, match_buy, match_sell, match_market_buy,
  match_market_sell, loop_for, sweep_of, match_slice, resting_orders,
}
use go_exchange_back.Matching.Sweep.Take.{count_orders-length}
use go_exchange_back.Matching.Sweep.Rounds.{
  sells, buys, match_buy-BuyRound, match_sell-SellRound, match_market_buy-MarketBuyRound,
  match_market_sell-MarketSellRound,
}
use go_exchange_back.Matching.Sweep.MarketBuy.{market_buy_stops}
use go_exchange_back.Matching.Sweep.Loops.{
  Outcome-cases, sated, spent, unmatched, trades, turn, record_fill-Recorded, run_loop-sated,
  run_loop-spent, run_loop-unmatched, run_loop-panics, run_loop-trades, loop_for_cases,
  match_slice_loop, match_slice-none,
}

module _ ⦃pk : Packages⦄ where
  open pk use {Deque, Tree, sub, levels}

  abbrev Result : ℕ → Loop → ℕ → Sweep → Type 0
  Result fuel l budget s = (r : Outcome (Sweep × Bool)) × (run_loop fuel l budget s ≡ some r)

  -- One more turn is the last one.
  last_turn :
      (l : Loop) (budget fuel : ℕ) (s : Sweep)
      → (l.wants s.order ≡ false) ⊎ (l.round s.book s.order ≡ none)
      → 1 ≤ fuel
      → Result fuel l budget s
  last_turn l budget zero s h pos = absurd (omega arith)
  last_turn l budget (suc fuel) s h pos = elim (turn l budget s) [
    | sated w ↦ (_, run_loop-sated fuel l budget s w)
    | spent w b c ↦ (_, run_loop-spent fuel l budget s w b c)
    | unmatched w b r ↦ (_, run_loop-unmatched fuel l budget s w b r)
    | trades w b f r ↦ elim h [ inl x ↦ cc | inr x ↦ cc ]
  ]

  -- A round takes an order out of the book, or it is the last one.
  abbrev pub Progress : Loop → (OrderBook → ℕ) → (OrderBook → Type 0) → Type 0
  Progress l size Valid =
      (book : OrderBook) (order : Order) (f : Fill)
      → Valid book
      → l.wants order ≡ true
      → l.round book order ≡ some f
      → Valid f.book
        × ((suc (size f.book) ≡ size book)
            ⊎ ((l.wants f.order ≡ false) ⊎ (l.round f.book f.order ≡ none)))

  run_loop_ends :
      (l : Loop) (size : OrderBook → ℕ) (Valid : OrderBook → Type 0)
      → Progress l size Valid
      → (budget fuel : ℕ) (s : Sweep) → Valid s.book
      → size s.book + 2 ≤ fuel
      → Result fuel l budget s
  run_loop_ends l size Valid progress budget zero s v h = absurd (omega arith)
  run_loop_ends l size Valid progress budget (suc fuel) s v h = elim (turn l budget s) [
    | sated w ↦ (_, run_loop-sated fuel l budget s w)
    | spent w b c ↦ (_, run_loop-spent fuel l budget s w b c)
    | unmatched w b r ↦ (_, run_loop-unmatched fuel l budget s w b r)
    | trades w b f r ↦ elim (Outcome-cases (record_fill l s f)) [
      | inl x ↦ (_, run_loop-panics fuel l budget s f w b r x)
      | inr (s₁, x) ↦
          let rec = record_fill-Recorded l s f s₁ x in
          let step = run_loop-trades fuel l budget s s₁ f w b r x in
          let (v₁, next) = progress s.book s.order f v w r in
          let (o, e) : Result fuel l budget s₁ = elim next [
            | inl less ↦
                run_loop_ends l size Valid progress budget fuel s₁ (rw rec.book_lem v₁)
                  (rw rec.book_lem (omega arith))
            | inr done ↦
                last_turn l budget fuel s₁ (rw (rec.book_lem, rec.order_lem) done) (omega arith)
          ] in
          (o, step ∙ e)
    ]
  ]

  abbrev pub size_of : (OrderBook → Tree (Deque Order)) → OrderBook → ℕ
  size_of side book = length (contents (levels (side book)))

  pub match_buy-Progress : Progress match_buy (size_of sells) BookIsValid
  unfolding match_buy
  match_buy-Progress book order f v w e =
      let (t, limit, fits, after, runs_out) = match_buy-BuyRound book order f e in
      (
        t.valid v,
        elim (Bool-cases (is_positive (sub f.resting.amount f.quantity))) [
          | inl left ↦ inr (inl (runs_out left))
          | inr gone ↦ inl (t.fewer gone)
        ],
      )

  pub match_sell-Progress : Progress match_sell (size_of buys) BookIsValid
  unfolding match_sell
  match_sell-Progress book order f v w e =
      let (t, limit, fits, after, runs_out) = match_sell-SellRound book order f e in
      (
        t.valid v,
        elim (Bool-cases (is_positive (sub f.resting.amount f.quantity))) [
          | inl left ↦ inr (inl (runs_out left))
          | inr gone ↦ inl (t.fewer gone)
        ],
      )

  pub match_market_sell-Progress : Progress match_market_sell (size_of buys) BookIsValid
  unfolding match_market_sell
  match_market_sell-Progress book order f v w e =
      let (t, fits, after, runs_out) = match_market_sell-MarketSellRound book order f e in
      (
        t.valid v,
        elim (Bool-cases (is_positive (sub f.resting.amount f.quantity))) [
          | inl left ↦ inr (inl (runs_out left))
          | inr gone ↦ inl (t.fewer gone)
        ],
      )

  pub match_market_buy-Progress : Progress match_market_buy (size_of sells) BookIsValid
  unfolding match_market_buy
  match_market_buy-Progress book order f v w e =
      let (t, fits, after) = match_market_buy-MarketBuyRound book order f e in
      (
        t.valid v,
        elim (Bool-cases (is_positive (sub f.resting.amount f.quantity))) [
          | inl left ↦ inr (inr (market_buy_stops book order f v w e left))
          | inr gone ↦ inl (t.fewer gone)
        ],
      )

  pub enough_fuel :
      (book : OrderBook)
      → (size_of sells book + 2 ≤ resting_orders book + 2)
        × (size_of buys book + 2 ≤ resting_orders book + 2)
  unfolding resting_orders
  enough_fuel book =
      let a = count_orders-length (levels book.sell_orders) in
      let b = count_orders-length (levels book.buy_orders) in
      (omega (arith, a, b), omega (arith, a, b))

  -- On a valid book every slice ends, for each side and type of order and for each budget: the fuel
  -- that `match_slice` gives its loop never runs out.
  pub match_slice-ends :
      (book : OrderBook) (order : Order) (em : Emitter) (budget : ℕ)
      → BookIsValid book
      → (r : Outcome (Sweep × Bool)) × (match_slice book order em budget ≡ some r)
  match_slice-ends book order em budget v =
      elim (Option-cases (loop_for order.side order.order_type)) [
        | inl n ↦ (_, match_slice-none book order em budget n)
        | inr (l, n) ↦
            let fuel = resting_orders book + 2 in
            let start = sweep_of book order em in
            let run =
              loop_for_cases (λ k. Result fuel k budget start) order.side order.order_type
                (λ _ _.
                  run_loop_ends match_market_buy (size_of sells) BookIsValid
                    match_market_buy-Progress budget fuel start v (enough_fuel book).0)
                (λ _ _.
                  run_loop_ends match_buy (size_of sells) BookIsValid match_buy-Progress budget fuel
                    start v (enough_fuel book).0)
                (λ _ _.
                  run_loop_ends match_market_sell (size_of buys) BookIsValid
                    match_market_sell-Progress budget fuel start v (enough_fuel book).1)
                (λ _ _.
                  run_loop_ends match_sell (size_of buys) BookIsValid match_sell-Progress budget
                    fuel start v (enough_fuel book).1)
                l n in
            (run.0, match_slice_loop book order em budget l n ∙ run.1)
      ]
