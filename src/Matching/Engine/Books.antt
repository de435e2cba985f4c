-- ===== src/Matching/Engine/Books.antt =====
-- Cancellations keep every book of the engine valid.
use text.Mathlib.Text.{◌==◌ as str_eq}
use go_exchange_back.Prelude.{
  ℕ, zero, suc, ◌+◌, ◌-◌, ◌≡◌, refl, sym, ap, ◌∙◌, subst, inl, inr, some, String, [], ◌∷◌, ◌==◌,
  get_elem?, All, All-append, All-set, All-get_elem?, Bool-cases, Option-cases, List-cases, arith,
}
use go_exchange_back.Packages.{Packages}
use go_exchange_back.Matching.Types.{CancelOrderCommand, CancelOrderResult}
use go_exchange_back.Matching.Book.{new_order_book, remove_order}
use go_exchange_back.Matching.Book.Invariant.{BookIsValid, remove_order-BookIsValid}
use go_exchange_back.Matching.Emit.{
  returns, begin_reservation, end_reservation, emit_order_cancelled,
}
use go_exchange_back.Matching.Sweep.Loops.{Outcome-cases}
use go_exchange_back.Matching.Engine.Cancels.{Decision-cases}
use go_exchange_back.Matching.Engine.{
  MatchingEngine, get_order_book, book_at, mark_dirty, contains, reply, command_is_valid,
  handle_cancel, process_cancel, reject_cancel, take_cancel, decide_cancel, cancel_round,
  cancel_loop, cancel_phase, lookup, process, reject, waiting_cancels,
}

module _ ⦃pk : Packages⦄ where
  open pk use {levels-new_tree}

  abbrev pub BooksAreValid : MatchingEngine → Type 0
  BooksAreValid e = All BookIsValid e.books

  new_order_book-BookIsValid : BookIsValid new_order_book
  unfolding new_order_book
  new_order_book-BookIsValid = record {
    buys = rw levels-new_tree tt;
    sells = rw levels-new_tree tt;
  }

  book_at-BookIsValid : (e : MatchingEngine) (i : ℕ) → BooksAreValid e → BookIsValid (book_at e i)
  book_at-BookIsValid e i v = elim (Option-cases (get_elem? e.books i)) [
    | inl n ↦ rw (book_at, n) new_order_book-BookIsValid
    | inr (b, n) ↦ rw (book_at, n) (All-get_elem? BookIsValid e.books i b v n)
  ]

  get_order_book-BooksAreValid :
      (e : MatchingEngine) (symbol : String)
      → BooksAreValid e
      → BooksAreValid (get_order_book e symbol).1
  unfolding get_order_book
  get_order_book-BooksAreValid e symbol v = elim (Bool-cases (str_eq symbol "")) [
    | inl h ↦ rw h v
    | inr h ↦ elim (Option-cases (lookup symbol e.order_books)) [
      | inl n ↦ elim (List-cases e.order_books) [
        | inl l ↦ rw (h, n, l) v
        | inr (x, xs, l) ↦
            rw (h, n, l)
              (All-append BookIsValid e.books (new_order_book ∷ []) v
                (new_order_book-BookIsValid, tt))
      ]
      | inr (a, n) ↦ rw (h, n) v
    ]
  ]

  handle_cancel-BooksAreValid :
      (e : MatchingEngine) (cmd : CancelOrderCommand)
      → BooksAreValid e
      → BooksAreValid (handle_cancel e cmd).0
  unfolding handle_cancel
  handle_cancel-BooksAreValid e cmd v =
      let e₁ = (get_order_book e cmd.coin_symbol).1 in
      let address = (get_order_book e cmd.coin_symbol).0 in
      let v₁ = get_order_book-BooksAreValid e cmd.coin_symbol v in
      let book = remove_order (book_at e₁ address) cmd.side cmd.price cmd.order_id in
      elim (Bool-cases (command_is_valid cmd)) [
        | inl c ↦ elim (Bool-cases book.1) [
          | inl h ↦
              rw (c, h)
                (All-set BookIsValid e₁.books address book.0 v₁
                  (remove_order-BookIsValid (book_at e₁ address) cmd.side cmd.price cmd.order_id
                    (book_at-BookIsValid e₁ address v₁)).0)
          | inr h ↦ rw (c, h) v₁
        ]
        | inr c ↦ rw c v
      ]

  books_reply :
      (cmd : CancelOrderCommand) (result : CancelOrderResult) (e : MatchingEngine)
      → (reply cmd result e).books ≡ e.books
  unfolding reply
  books_reply cmd result e = elim (Bool-cases cmd.wants_reply) [
    | inl h ↦ rw h refl
    | inr h ↦ rw h refl
  ]

  books_mark_dirty : (symbol : String) (e : MatchingEngine) → (mark_dirty symbol e).books ≡ e.books
  unfolding mark_dirty
  books_mark_dirty symbol e = elim (Bool-cases (contains symbol e.dirty_symbols)) [
    | inl h ↦ rw h refl
    | inr h ↦ rw h refl
  ]

  process_cancel-BooksAreValid :
      (e e' : MatchingEngine) (cmd : CancelOrderCommand)
      → process_cancel e cmd ≡ returns e'
      → BooksAreValid e
      → BooksAreValid e'
  unfolding process_cancel
  process_cancel-BooksAreValid e e' cmd h v =
      let e₁ = (handle_cancel e cmd).0 in
      let result = (handle_cancel e cmd).1 in
      let v₁ = handle_cancel-BooksAreValid e cmd v in
      elim (Bool-cases result.removed) [
        | inl r ↦ elim (Outcome-cases (emit_order_cancelled (begin_reservation 1 e₁.emitter) cmd)) [
          | inl p ↦ cc (rw (process_cancel, r, p) at h)
          | inr (em, p) ↦
              let sent : MatchingEngine = record (mark_dirty cmd.coin_symbol e₁) {
                emitter = end_reservation em;
              } in
              let whole : returns (reply cmd result sent) ≡ returns e' =
                rw (process_cancel, r, p) at h in
              let same : reply cmd result sent ≡ e' = cc whole in
              let books : (reply cmd result sent).books ≡ e₁.books =
                books_reply cmd result sent ∙ books_mark_dirty cmd.coin_symbol e₁ in
              subst BooksAreValid same (subst (All BookIsValid) (sym books) v₁)
        ]
        | inr r ↦
            let whole : returns (reply cmd result e₁) ≡ returns e' = rw (process_cancel, r) at h in
            let same : reply cmd result e₁ ≡ e' = cc whole in
            subst BooksAreValid same (subst (All BookIsValid) (sym (books_reply cmd result e₁)) v₁)
      ]

  books_take_cancel :
      (e e' : MatchingEngine) (cmd : CancelOrderCommand)
      → take_cancel e ≡ some (cmd, e')
      → e'.books ≡ e.books
  unfolding take_cancel
  books_take_cancel e e' cmd h = ground arith

  process_round-BooksAreValid :
      (budget b : ℕ) (e e' : MatchingEngine)
      → decide_cancel e ≡ process
      → cancel_round budget e ≡ some (returns (b, e'))
      → BooksAreValid e
      → BooksAreValid e'
  unfolding cancel_round
  process_round-BooksAreValid budget b e e' d h v = elim (Option-cases (take_cancel e)) [
    | inl t ↦ cc (rw (cancel_round, d, t) at h)
    | inr ((cmd, e₁), t) ↦
        let v₁ : BooksAreValid e₁ =
          subst (All BookIsValid) (sym (books_take_cancel e e₁ cmd t)) v in
        elim (Outcome-cases (process_cancel e₁ cmd)) [
          | inl p ↦ cc (rw (cancel_round, d, t, p) at h)
          | inr (e₂, p) ↦
              let e₃ : MatchingEngine = record e₂ {
                cancels_since_progress = e₂.cancels_since_progress + 1;
              } in
              let whole : some (returns (budget, e₃)) ≡ some (returns (b, e')) =
                rw (cancel_round, d, t, p) at h in
              let same : e₃ ≡ e' = cc whole in
              subst BooksAreValid same (process_cancel-BooksAreValid e₁ e₂ cmd p v₁)
        ]
  ]

  reject_round-BooksAreValid :
      (budget b : ℕ) (e e' : MatchingEngine)
      → decide_cancel e ≡ reject
      → cancel_round budget e ≡ some (returns (b, e'))
      → BooksAreValid e
      → BooksAreValid e'
  unfolding cancel_round reject_cancel
  reject_round-BooksAreValid budget b e e' d h v = elim (Bool-cases (budget == 0)) [
    | inl z ↦ cc (rw (cancel_round, d, z) at h)
    | inr z ↦ elim (Option-cases (take_cancel e)) [
      | inl t ↦ cc (rw (cancel_round, d, z, t) at h)
      | inr ((cmd, e₁), t) ↦
          let whole : some (returns (budget - 1, reject_cancel e₁ cmd)) ≡ some (returns (b, e')) =
            rw (cancel_round, d, z, t) at h in
          let same : reject_cancel e₁ cmd ≡ e' = cc whole in
          let books : (reject_cancel e₁ cmd).books ≡ e.books =
            books_reply cmd _ e₁ ∙ books_take_cancel e e₁ cmd t in
          subst BooksAreValid same (subst (All BookIsValid) (sym books) v)
    ]
  ]

  cancel_round-BooksAreValid :
      (budget b : ℕ) (e e' : MatchingEngine)
      → cancel_round budget e ≡ some (returns (b, e'))
      → BooksAreValid e
      → BooksAreValid e'
  unfolding cancel_round
  cancel_round-BooksAreValid budget b e e' h v = elim (Decision-cases (decide_cancel e)) [
    | inl d ↦ process_round-BooksAreValid budget b e e' d h v
    | inr (inl d) ↦ reject_round-BooksAreValid budget b e e' d h v
    | inr (inr d) ↦ cc (rw (cancel_round, d) at h)
  ]

  cancel_loop-BooksAreValid :
      (fuel budget : ℕ) (e e' : MatchingEngine)
      → cancel_loop fuel budget e ≡ some (returns e')
      → BooksAreValid e
      → BooksAreValid e'
  unfolding cancel_loop
  cancel_loop-BooksAreValid zero budget e e' h v = cc
  cancel_loop-BooksAreValid (suc fuel) budget e e' h v =
      elim (Option-cases (cancel_round budget e)) [
        | inl n ↦
            let whole : some (returns e) ≡ some (returns e') = rw (cancel_loop, n) at h in
            let same : e ≡ e' = cc whole in subst BooksAreValid same v
        | inr (o, n) ↦ elim (Outcome-cases o) [
          | inl p ↦ cc (rw (cancel_loop, n, p) at h)
          | inr ((b, e₁), p) ↦
              cancel_loop-BooksAreValid fuel b e₁ e' (rw (cancel_loop, n, p) at h)
                (cancel_round-BooksAreValid budget b e e₁ (n ∙ ap (λ x. some x) p) v)
        ]
      ]

  -- If every book of the engine is valid before `cancelPhase`, then every book is valid after it,
  -- those that a command for a new symbol has registered included.
  pub cancel_phase-BooksAreValid :
      (e e' : MatchingEngine)
      → cancel_phase e ≡ some (returns e')
      → BooksAreValid e
      → BooksAreValid e'
  unfolding cancel_phase
  cancel_phase-BooksAreValid e e' h v =
      cancel_loop-BooksAreValid (waiting_cancels e + 1) (waiting_cancels e) e e' h v
