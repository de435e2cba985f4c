-- ===== src/Matching/Sweep/Slicing.antt =====
-- The slices of a sweep: each one comes back, and so many of them finish the sweep.
use go_exchange_back.Prelude.{
  ℕ, zero, suc, ◌+◌, ◌≤◌, ◌<◌, ◌≡◌, refl, sym, ap, ◌∙◌, Bool, true, false, inl, inr, ◌⊎◌, none,
  some, arith, Bool-cases, Option-cases,
}
use go_exchange_back.Packages.{Packages}
use go_exchange_back.Matching.Types.{Order, OrderBook}
use go_exchange_back.Matching.Book.Invariant.{BookIsValid}
use go_exchange_back.Matching.Emit.{Emitter, returns}
use go_exchange_back.Matching.Emit.Reservation.{CanSend}
use go_exchange_back.Matching.Sweep.{
  Loop, Sweep, run_loop, match_slice, loop_for, sweep_of, match_buy, match_sell, match_market_buy,
  match_market_sell, resting_orders,
}
use go_exchange_back.Matching.Sweep.Loops.{
  Ended, loop_inv, less_room, run_loop-CanSend, run_loop-sated, run_loop-unmatched, loop_for_cases,
  match_slice_loop, match_slice-none,
}
use go_exchange_back.Matching.Sweep.Rounds.{sells, buys}
use go_exchange_back.Matching.Sweep.Termination.{
  Progress, size_of, match_buy-Progress, match_sell-Progress, match_market_buy-Progress,
  match_market_sell-Progress, enough_fuel, match_slice-ends,
}
use go_exchange_back.Matching.Sweep.Resume.{run_slices, match_slice-SameLoop}

module _ ⦃pk : Packages⦄ where
  pub slice_returns :
      (book : OrderBook) (order : Order) (em : Emitter) (budget : ℕ)
      → BookIsValid book
      → 0 < budget
      → CanSend em (suc budget)
      → (s : Sweep) × (d : Bool) × (match_slice book order em budget ≡ some (returns (s, d)))
        × CanSend s.emitter 1
  slice_returns book order em budget v pos h =
      elim (Option-cases (loop_for order.side order.order_type)) [
        | inl n ↦ (
          sweep_of book order em,
          true,
          match_slice-none book order em budget n,
          less_room em budget h,
        )
        | inr (l, n) ↦
            let (r, e) = match_slice-ends book order em budget v in
            let (s, d, same, left) =
              run_loop-CanSend l budget pos (resting_orders book + 2) (sweep_of book order em)
                budget r (omega arith) h (sym (match_slice_loop book order em budget l n) ∙ e) in
            (s, d, e ∙ ap (λ x. some x) same, left)
      ]

  -- The loop has nothing more to do.
  abbrev Stops : Loop → Sweep → Type 0
  Stops l s = (l.wants s.order ≡ false) ⊎ (l.round s.book s.order ≡ none)

  -- Each trade of a run has taken an order out of the book, or the run is over.
  abbrev Shrunk : Loop → (OrderBook → ℕ) → Sweep → Sweep → Type 0
  Shrunk l size s₀ s =
      BookIsValid s.book
      × (s.emitter.reservation_active ≡ s₀.emitter.reservation_active)
      × ((size s.book + s.trades ≡ size s₀.book) ⊎ Stops l s)

  run_loop-Shrunk :
      (l : Loop) (size : OrderBook → ℕ)
      → Progress l size BookIsValid
      → (fuel budget : ℕ) (s₀ s : Sweep) (d : Bool) → BookIsValid s₀.book
      → s₀.trades ≡ 0
      → run_loop fuel l budget s₀ ≡ some (returns (s, d))
      → Shrunk l size s₀ s × Ended l budget s d
  run_loop-Shrunk l size progress fuel budget s₀ s d v z e =
      loop_inv l budget (Shrunk l size s₀)
        (λ x y f (valid, active, sizes) w b r rec.
          let (valid₁, next) = progress x.book x.order f valid w r in
          (
            rw rec.book_lem valid₁,
            rec.traded.same_active ∙ active,
            elim sizes [
              | inr stop ↦ elim stop [ inl a ↦ cc | inr a ↦ cc ]
              | inl sum ↦ elim next [
                | inl less ↦ inl (rw (rec.book_lem, rec.trades_lem) (omega arith))
                | inr done ↦ inr (rw (rec.book_lem, rec.order_lem) done)
              ]
            ],
          ))
        fuel s₀ s d e (v, refl, inl (omega arith))

  run_slices-more :
      (n budget : ℕ) (book : OrderBook) (order : Order) (em : Emitter) (s : Sweep)
      → match_slice book order em budget ≡ some (returns (s, false))
      → run_slices (suc n) budget book order em ≡ run_slices n budget s.book s.order s.emitter
  unfolding run_slices
  run_slices-more n budget book order em s e = rw (run_slices, e) refl

  run_slices-last :
      (n budget : ℕ) (book : OrderBook) (order : Order) (em : Emitter) (s : Sweep)
      → match_slice book order em budget ≡ some (returns (s, true))
      → run_slices (suc n) budget book order em ≡ some (returns (s, true))
  unfolding run_slices
  run_slices-last n budget book order em s e = rw (run_slices, e) refl

  abbrev Finishes : ℕ → ℕ → OrderBook → Order → Emitter → Type 0
  Finishes n budget book order em =
      (s : Sweep) × (run_slices n budget book order em ≡ some (returns (s, true)))

  halt_at_once :
      (l : Loop) (fuel budget : ℕ) (s : Sweep)
      → 0 < budget
      → s.trades ≡ 0
      → Stops l s
      → run_loop (suc fuel) l budget s ≡ some (returns (s, true))
  halt_at_once l fuel budget s pos z stop = elim (Bool-cases (l.wants s.order)) [
    | inr w ↦ run_loop-sated fuel l budget s w
    | inl w ↦ elim stop [
      | inl x ↦ cc
      | inr r ↦ run_loop-unmatched fuel l budget s w (λ _. omega arith) r
    ]
  ]

  -- A sweep that has stopped needs one more slice, which makes no trade.
  stopped_slice :
      (l : Loop) (n budget : ℕ) (book : OrderBook) (order : Order) (em : Emitter)
      → loop_for order.side order.order_type ≡ some l
      → 0 < budget
      → 1 ≤ n
      → Stops l (sweep_of book order em)
      → Finishes n budget book order em
  stopped_slice l zero budget book order em k pos h stop = absurd (omega arith)
  stopped_slice l (suc n) budget book order em k pos h stop =
      let start = sweep_of book order em in
      let more : resting_orders book + 2 ≡ suc (resting_orders book + 1) = omega arith in
      let whole : match_slice book order em budget ≡ some (returns (start, true)) =
        match_slice_loop book order em budget l k
        ∙ ap (λ fuel. run_loop fuel l budget start) more
        ∙ halt_at_once l (resting_orders book + 1) budget start pos refl stop in
      (start, run_slices-last n budget book order em start whole)

  unreserved : (em : Emitter) (n : ℕ) → em.reservation_active ≡ false → CanSend em n
  unreserved em n h a = cc

  run_slices_finish :
      (l : Loop) (size : OrderBook → ℕ)
      → Progress l size BookIsValid
      → (n budget : ℕ) (book : OrderBook) (order : Order) (em : Emitter)
      → loop_for order.side order.order_type ≡ some l
      → BookIsValid book
      → 0 < budget
      → em.reservation_active ≡ false
      → size book + 2 ≤ n
      → Finishes n budget book order em
  run_slices_finish l size progress zero budget book order em k v pos free enough =
      absurd (omega arith)
  run_slices_finish l size progress (suc n) budget book order em k v pos free enough =
      let (s, d, ran, _) =
        slice_returns book order em budget v pos (unreserved em (suc budget) free) in
      let run : run_loop (resting_orders book + 2) l budget (sweep_of book order em)
          ≡ some (returns (s, d)) =
        sym (match_slice_loop book order em budget l k) ∙ ran in
      let ((valid, active, sizes), ended) =
        run_loop-Shrunk l size progress (resting_orders book + 2) budget (sweep_of book order em) s
          d v refl run in
      let (_, side, type) = match_slice-SameLoop book order em budget s d v ran in
      let k₁ : loop_for s.order.side s.order.order_type ≡ some l = rw (side, type) k in
      elim (Bool-cases d) [
        | inl b ↦ (s, run_slices-last n budget book order em s (rw b at ran))
        | inr b ↦
            let ran₁ : match_slice book order em budget ≡ some (returns (s, false)) = rw b at ran in
            let spent_all : Ended l budget s false = rw b at ended in
            let (s', rest) : Finishes n budget s.book s.order s.emitter = elim sizes [
              | inl sum ↦
                  run_slices_finish l size progress n budget s.book s.order s.emitter k₁ valid pos
                    (active ∙ free) (omega (arith, spent_all.1, spent_all.2))
              | inr stop ↦
                  stopped_slice l n budget s.book s.order s.emitter k₁ pos (omega arith) stop
            ] in
            (s', run_slices-more n budget book order em s ran₁ ∙ rest)
      ]

  -- On a valid book, with a positive budget and outside a reservation, as many slices as there are
  -- resting orders, and two more, finish the sweep of every order: the last one reports that it is
  -- done.
  pub run_slices-returns :
      (n budget : ℕ) (book : OrderBook) (order : Order) (em : Emitter)
      → BookIsValid book
      → 0 < budget
      → em.reservation_active ≡ false
      → resting_orders book + 2 ≤ n
      → (s : Sweep) × (run_slices n budget book order em ≡ some (returns (s, true)))
  run_slices-returns n budget book order em v pos free enough =
      let (in_sells, in_buys) = enough_fuel book in
      elim (Option-cases (loop_for order.side order.order_type)) [
        | inl k ↦ no_loop n budget book order em k (omega arith)
        | inr (l, k) ↦
            loop_for_cases
              (λ x. loop_for order.side order.order_type ≡ some x → Finishes n budget book order em)
              order.side order.order_type
              (λ _ _ j.
                run_slices_finish match_market_buy (size_of sells) match_market_buy-Progress n
                  budget book order em j v pos free (omega arith))
              (λ _ _ j.
                run_slices_finish match_buy (size_of sells) match_buy-Progress n budget book order
                  em j v pos free (omega arith))
              (λ _ _ j.
                run_slices_finish match_market_sell (size_of buys) match_market_sell-Progress n
                  budget book order em j v pos free (omega arith))
              (λ _ _ j.
                run_slices_finish match_sell (size_of buys) match_sell-Progress n budget book order
                  em j v pos free (omega arith))
              l k k
      ]
    where
      no_loop :
          (n budget : ℕ) (book : OrderBook) (order : Order) (em : Emitter)
          → loop_for order.side order.order_type ≡ none
          → 1 ≤ n
          → Finishes n budget book order em
      no_loop zero budget book order em k h = absurd (omega arith)
      no_loop (suc n) budget book order em k h = (
        sweep_of book order em,
        run_slices-last n budget book order em (sweep_of book order em)
            (match_slice-none book order em budget k),
      )
