-- ===== src/Matching/Sweep/Resume.antt =====
-- A sweep in slices ends as the sweep in one piece does.
use go_exchange_back.Prelude.{
  ℕ, zero, suc, ◌+◌, ◌<◌, ◌≡◌, refl, sym, ap, ◌∙◌, Bool, true, false, inl, inr, ◌⊎◌, Option, none,
  some, arith, Option-cases, Bool-cases, some_eq,
}
use go_exchange_back.Packages.{Packages}
use go_exchange_back.Matching.Types.{Order, OrderBook}
use go_exchange_back.Matching.Book.Invariant.{BookIsValid}
use go_exchange_back.Matching.Emit.{Emitter, Outcome, returns, panics}
use go_exchange_back.Matching.Sweep.{
  Fill, Loop, Sweep, run_loop, take_base, match_slice, loop_for, sweep_of, resting_orders,
  match_buy, match_sell, match_market_buy, match_market_sell,
}
use go_exchange_back.Matching.Sweep.Rounds.{
  match_buy-BuyRound, match_sell-SellRound, match_market_buy-MarketBuyRound,
  match_market_sell-MarketSellRound, pay_quote, earn_quote,
}
use go_exchange_back.Matching.Sweep.Loops.{
  Outcome-cases, Recorded, loop_inv, loop_for_cases, match_slice_loop, match_slice-none,
}
use go_exchange_back.Matching.Sweep.Termination.{match_slice-ends}
use go_exchange_back.Matching.Sweep.Slices.{run_loop_more, run_loop-Resumes, Alike, run_loop_count}

module _ ⦃pk : Packages⦄ where
  abbrev SameLoop : Order → Sweep → Type 0
  SameLoop order s =
      BookIsValid s.book × (s.order.side ≡ order.side) × (s.order.order_type ≡ order.order_type)

  abbrev KeepsLoop : Loop → Type 0
  KeepsLoop l =
      (order : Order) (budget : ℕ) (s s' : Sweep) (f : Fill)
      → SameLoop order s
      → l.wants s.order ≡ true
      → (0 < budget → s.trades < budget)
      → l.round s.book s.order ≡ some f
      → Recorded l s f s'
      → SameLoop order s'

  keep_buy : KeepsLoop match_buy
  unfolding take_base
  keep_buy order budget s s' f (v, a, b) w x e rec =
      let (t, limit, fits, after, out) = match_buy-BuyRound s.book s.order f e in
      (rw rec.book_lem (t.valid v), rw (rec.order_lem, after) a, rw (rec.order_lem, after) b)

  keep_sell : KeepsLoop match_sell
  unfolding take_base
  keep_sell order budget s s' f (v, a, b) w x e rec =
      let (t, limit, fits, after, out) = match_sell-SellRound s.book s.order f e in
      (rw rec.book_lem (t.valid v), rw (rec.order_lem, after) a, rw (rec.order_lem, after) b)

  keep_market_buy : KeepsLoop match_market_buy
  unfolding pay_quote
  keep_market_buy order budget s s' f (v, a, b) w x e rec =
      let (t, fits, after) = match_market_buy-MarketBuyRound s.book s.order f e in
      (rw rec.book_lem (t.valid v), rw (rec.order_lem, after) a, rw (rec.order_lem, after) b)

  keep_market_sell : KeepsLoop match_market_sell
  unfolding take_base earn_quote
  keep_market_sell order budget s s' f (v, a, b) w x e rec =
      let (t, fits, after, out) = match_market_sell-MarketSellRound s.book s.order f e in
      (rw rec.book_lem (t.valid v), rw (rec.order_lem, after) a, rw (rec.order_lem, after) b)

  -- A slice leaves a valid book, and an order of the same side and type.
  pub match_slice-SameLoop :
      (book : OrderBook) (order : Order) (em : Emitter) (budget : ℕ) (s : Sweep) (d : Bool)
      → BookIsValid book
      → match_slice book order em budget ≡ some (returns (s, d))
      → SameLoop order s
  match_slice-SameLoop book order em budget s d v e =
      elim (Option-cases (loop_for order.side order.order_type)) [
        | inl n ↦
            let whole : returns (sweep_of book order em, true) ≡ returns (s, d) =
              some_eq (sym (match_slice-none book order em budget n) ∙ e) in
            let same : sweep_of book order em ≡ s = cc whole in rw (← same) (v, refl, refl)
        | inr (l, n) ↦
            let keeps =
              loop_for_cases KeepsLoop order.side order.order_type (λ _ _. keep_market_buy)
                (λ _ _. keep_buy) (λ _ _. keep_market_sell) (λ _ _. keep_sell) l n in
            (loop_inv l budget (SameLoop order) (keeps order budget) (resting_orders book + 2)
              (sweep_of book order em) s d (sym (match_slice_loop book order em budget l n) ∙ e)
              (v, refl, refl)).0
      ]

  -- The scheduler's slices of one sweep with nothing done in between.
  unfoldable pub run_slices : ℕ → ℕ → OrderBook → Order → Emitter → Option (Outcome (Sweep × Bool))
  run_slices zero budget book order em = none
  run_slices (suc n) budget book order em =
      let go_on : Sweep × Bool → Option (Outcome (Sweep × Bool)) = λ r. elim r.1 [
        | true ↦ some (returns r)
        | false ↦ run_slices n budget r.0.book r.0.order r.0.emitter
      ] in
      elim (match_slice book order em budget) [
        | none ↦ none
        | some panics ↦ some panics
        | some (returns r) ↦ go_on r
      ]

  -- One slice and then the rest in one piece.
  slice_then_rest :
      (book : OrderBook) (order : Order) (em : Emitter) (budget : ℕ) (s₁ s : Sweep)
      → BookIsValid book
      → match_slice book order em budget ≡ some (returns (s₁, false))
      → match_slice s₁.book s₁.order s₁.emitter 0 ≡ some (returns (s, true))
      → (r : Outcome (Sweep × Bool)) × (match_slice book order em 0 ≡ some r)
        × Alike (returns (s, true)) r
  slice_then_rest book order em budget s₁ s v e rest =
      elim (Option-cases (loop_for order.side order.order_type)) [
        | inl n ↦
            let whole : returns (sweep_of book order em, true) ≡ returns (s₁, false) =
              some_eq (sym (match_slice-none book order em budget n) ∙ e) in
            absurd (cc whole)
        | inr (l, n) ↦
            let (v₁, side, type) = match_slice-SameLoop book order em budget s₁ false v e in
            let n₁ : loop_for s₁.order.side s₁.order.order_type ≡ some l = rw (side, type) n in
            let fuel₁ = resting_orders s₁.book + 2 in
            let (r, x, like) =
              run_loop_count l fuel₁ (sweep_of s₁.book s₁.order s₁.emitter) s₁.trades
                (returns (s, true))
                (sym (match_slice_loop s₁.book s₁.order s₁.emitter 0 l n₁) ∙ rest) in
            let fuel = resting_orders book + 2 in
            let start = sweep_of book order em in
            let joined : run_loop (fuel + fuel₁) l 0 start ≡ some r =
              run_loop-Resumes l budget fuel start s₁ false
                (sym (match_slice_loop book order em budget l n) ∙ e) fuel₁ r x in
            let (r₀, y) = match_slice-ends book order em 0 v in
            let long : run_loop (fuel + fuel₁) l 0 start ≡ some r₀ =
              run_loop_more l 0 fuel (fuel + fuel₁) start r₀ (omega arith)
                (sym (match_slice_loop book order em 0 l n) ∙ y) in
            let same : r₀ ≡ r = some_eq (sym long ∙ joined) in (r, y ∙ ap some same, like)
      ]

  -- A slice that is done is the whole.
  slice_done :
      (book : OrderBook) (order : Order) (em : Emitter) (budget : ℕ) (s : Sweep)
      → match_slice book order em budget ≡ some (returns (s, true))
      → match_slice book order em 0 ≡ some (returns (s, true))
  slice_done book order em budget s e = elim (Option-cases (loop_for order.side order.order_type)) [
    | inl n ↦ match_slice-none book order em 0 n ∙ sym (match_slice-none book order em budget n) ∙ e
    | inr (l, n) ↦
        match_slice_loop book order em 0 l n
        ∙ run_loop-Resumes l budget (resting_orders book + 2) (sweep_of book order em) s true
            (sym (match_slice_loop book order em budget l n) ∙ e)
  ]

  Alike-trans :
      (s s' : Sweep) (r : Outcome (Sweep × Bool))
      → Alike (returns (s, true)) (returns (s', true))
      → Alike (returns (s', true)) r
      → Alike (returns (s, true)) r
  Alike-trans s s' (returns (t, d)) (a, b, c, x) (a', b', c', y) = (a ∙ a', b ∙ b', c ∙ c', y)
  Alike-trans s s' panics h k = k

  -- The cases of one call in `run_slices`.
  slices_step :
      (n budget : ℕ) (book : OrderBook) (order : Order) (em : Emitter) (s : Sweep)
      → run_slices (suc n) budget book order em ≡ some (returns (s, true))
      → (match_slice book order em budget ≡ some (returns (s, true)))
        ⊎ ((s₁ : Sweep) × (match_slice book order em budget ≡ some (returns (s₁, false)))
            × (run_slices n budget s₁.book s₁.order s₁.emitter ≡ some (returns (s, true))))
  unfolding run_slices
  slices_step n budget book order em s e = elim (Option-cases (match_slice book order em budget)) [
    | inl x ↦ cc (rw (x, run_slices) at e)
    | inr (o, x) ↦ elim (Outcome-cases o) [
      | inl p ↦ cc (rw (x, p, run_slices) at e)
      | inr ((s₁, d), p) ↦ elim (Bool-cases d) [
        | inl y ↦
            let whole : some (returns (s₁, d)) ≡ some (returns (s, true)) =
              rw (x, p, y, run_slices) at e in
            inl (x ∙ ap some p ∙ whole)
        | inr y ↦
            inr (
              s₁,
              x ∙ ap some p ∙ ap (λ b. some (returns (s₁, b))) y,
              rw (x, p, y, run_slices) at e,
            )
      ]
    ]
  ]

  -- A sweep that is cut into slices of any budget, and resumed on the book, the order and the events
  -- that each slice leaves, ends on the same book, with the same order, the same event numbers and the
  -- same channels as one call of `matchSlice` without a budget, which is what `Match` makes.
  pub run_slices-match_slice :
      (n budget : ℕ) (book : OrderBook) (order : Order) (em : Emitter) (s : Sweep)
      → BookIsValid book
      → run_slices n budget book order em ≡ some (returns (s, true))
      → (s' : Sweep) × (match_slice book order em 0 ≡ some (returns (s', true)))
        × (s'.book ≡ s.book)
        × (s'.order ≡ s.order)
        × (s'.emitter ≡ s.emitter)
  unfolding run_slices
  run_slices-match_slice zero budget book order em s v e = cc
  run_slices-match_slice (suc n) budget book order em s v e =
      elim (slices_step n budget book order em s e) [
        | inl x ↦ (s, slice_done book order em budget s x, refl, refl, refl)
        | inr (s₁, x, rest) ↦
            let v₁ = (match_slice-SameLoop book order em budget s₁ false v x).0 in
            let (s', y, a, b, c) =
              run_slices-match_slice n budget s₁.book s₁.order s₁.emitter s v₁ rest in
            let (r, z, like) = slice_then_rest book order em budget s₁ s' v x y in
            elim (Outcome-cases r) [
              | inl p ↦ absurd (rw p at like)
              | inr ((t, d), p) ↦
                  let (a', b', c', d') = rw p at like in
                  (
                    t,
                    z ∙ ap some p ∙ ap (λ q. some (returns (t, q))) (sym d'),
                    sym a' ∙ a,
                    sym b' ∙ b,
                    sym c' ∙ c,
                  )
            ]
      ]
