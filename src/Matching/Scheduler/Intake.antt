-- ===== src/Matching/Scheduler/Intake.antt =====
-- A turn takes no order from the queue past an active sweep.
use go_exchange_back.Prelude.{
  ◌+◌, ◌≡◌, refl, sym, ap, ◌∙◌, Bool, true, false, ◌&&◌, not, inl, inr, ◌⊎◌, Option, none, some,
  String, List, [], ◌∷◌, leb, if◌then◌else◌, arith, Bool-cases, Option-cases, some_eq, List-cases,
}
use go_exchange_back.Packages.{Packages}
use go_exchange_back.Matching.Types.{Order}
use go_exchange_back.Matching.Emit.{
  Channel, Outcome, returns, panics, begin_reservation, end_reservation,
}
use go_exchange_back.Matching.Sweep.{Sweep, match_slice, finish_order}
use go_exchange_back.Matching.Engine.{
  MatchingEngine, ActiveSweep, set_book, book_at, mark_dirty, has_slice_capacity, slice_blocked_now,
  emit_backpressured,
}
use go_exchange_back.Matching.Engine.Control.{
  intake, intake_of, get_order_book-control, mark_dirty-control,
}
use go_exchange_back.Matching.Engine.Cancels.{Ended, cancel_phase-Ended}
use go_exchange_back.Matching.Snapshot.{
  get_order_book_snapshot_with_depth, flush_symbol, flush_all, flush_snapshots,
}
use go_exchange_back.Matching.Scheduler.Turns.{finished, finish_slice-returns}
use go_exchange_back.Matching.Scheduler.{
  Run, ◌>>=◌, Choice, on_cancel, on_order, on_ticker, on_stop, on_capacity, after_slice,
  finish_slice, yield_slice, run_slice, latch_stop, latch_cancel, latch_order,
  latch_one_non_blocking, park_select, idle_select, admit_phase, ticker_phase, slice_phase,
  stop_phase, wait_phase, run_turn, is_some, or_waits, has_work, no_cancels, done,
}

module _ ⦃pk : Packages⦄ where
  -- The orders that wait, in the channel and latched.
  abbrev pub orders : MatchingEngine → Channel Order × Option Order
  orders e = (e.order_ch, e.pending_order)

  >>=_inv :
      {A B : Type 0} (m : Run A) (f : A → Run B) (b : B)
      → (m >>= f) ≡ some (returns b)
      → (a : A) × (m ≡ some (returns a)) × (f a ≡ some (returns b))
  >>=_inv none f b h = cc
  >>=_inv (some panics) f b h = cc
  >>=_inv (some (returns a)) f b h = (a, refl, h)

  if_same :
      {A B : Type 0} (f : A → B) (b : Bool) (x y : A) (z : B)
      → f x ≡ z
      → f y ≡ z
      → f (if b then x else y) ≡ z
  if_same f true x y z p q = p
  if_same f false x y z p q = q

  Outcome-cases : {A : Type 0} (o : Outcome A) → (o ≡ panics) ⊎ ((a : A) × (o ≡ returns a))
  Outcome-cases panics = inl refl
  Outcome-cases (returns a) = inr (a, refl)

  mark_dirty-orders :
      (e : MatchingEngine) (symbol : String) → orders (mark_dirty symbol e) ≡ orders e
  mark_dirty-orders e symbol =
      ap (λ c. (c.order_ch, c.pending_order)) (mark_dirty-control e symbol).0

  yield_slice-orders :
      (e : MatchingEngine) (sweep : ActiveSweep) (s : Sweep)
      → orders (yield_slice e sweep s) ≡ orders (after_slice e sweep s)
  unfolding yield_slice
  yield_slice-orders e sweep s = refl

  flush_all-intake :
      (symbols : List String) (e : MatchingEngine) → intake (flush_all e symbols) ≡ intake e
  unfolding flush_all flush_symbol get_order_book_snapshot_with_depth
  flush_all-intake [] e = refl
  flush_all-intake (symbol ∷ symbols) e =
      flush_all-intake symbols (flush_symbol e symbol)
      ∙ ap (λ c. intake_of c) (get_order_book-control e symbol).0

  flush_snapshots-intake : (e : MatchingEngine) → intake (flush_snapshots e) ≡ intake e
  unfolding flush_snapshots
  flush_snapshots-intake e = flush_all-intake e.dirty_symbols e

  ticker_phase-intake : (tick : Bool) (e : MatchingEngine) → intake (ticker_phase tick e) ≡ intake e
  unfolding ticker_phase
  ticker_phase-intake tick e =
      if_same intake e.ticker_due (flush_snapshots (record e { ticker_due = false })) _ (intake e)
        (flush_snapshots-intake (record e { ticker_due = false }))
        (if_same intake tick (flush_snapshots e) e (intake e) (flush_snapshots-intake e) refl)

  after_slice-orders :
      (e : MatchingEngine) (sweep : ActiveSweep) (s : Sweep)
      → orders (after_slice e sweep s) ≡ orders e
  after_slice-orders e sweep s =
      let e₁ = record (set_book e sweep.book s.book) { emitter = s.emitter } in
      if_same orders (leb 1 s.trades) (mark_dirty sweep.order.coin_symbol e₁) e₁ (orders e)
        (mark_dirty-orders e₁ sweep.order.coin_symbol) refl

  finish_slice-orders :
      (e e' : MatchingEngine) (sweep : ActiveSweep) (s : Sweep)
      → finish_slice e sweep s ≡ returns e'
      → orders e' ≡ orders e
  unfolding finish_slice
  finish_slice-orders e e' sweep s h =
      elim (Outcome-cases (finish_order s.book s.order s.emitter)) [
        | inl p ↦ cc (rw (finish_slice, p) at h)
        | inr (r, p) ↦
            let e₁ = after_slice e sweep s in
            let e₂ = if r.2 then mark_dirty sweep.order.coin_symbol e₁ else e₁ in
            let whole : returns (record (set_book e₂ sweep.book r.0) {
              emitter = end_reservation r.1;
              active_sweep = none;
            })
                ≡ returns e' =
              sym (finish_slice-returns e sweep s r p) ∙ h in
            let same : finished e sweep s r ≡ e' = cc whole in
            ap orders (sym same)
            ∙ if_same orders r.2 (mark_dirty sweep.order.coin_symbol e₁) e₁ (orders e)
                (mark_dirty-orders e₁ sweep.order.coin_symbol ∙ after_slice-orders e sweep s)
                (after_slice-orders e sweep s)
      ]

  run_slice-orders :
      (e e' : MatchingEngine) (sweep : ActiveSweep)
      → run_slice e sweep ≡ some (returns e')
      → orders e' ≡ orders e
  unfolding run_slice
  run_slice-orders e e' sweep h =
      let ((s, d), ran, last) =
        >>=_inv
          (match_slice (book_at e sweep.book) sweep.order
            (begin_reservation (e.max_matches_per_turn + 1) e.emitter) e.max_matches_per_turn)
          (λ (r : Sweep × Bool).
            if r.1 then some (finish_slice e sweep r.0) else done (yield_slice e sweep r.0))
          e' h in
      elim (Bool-cases d) [
        | inl b ↦ finish_slice-orders e e' sweep s (some_eq (rw b at last))
        | inr b ↦
            let whole : some (returns (yield_slice e sweep s)) ≡ some (returns e') = rw b at last in
            let same : yield_slice e sweep s ≡ e' = cc whole in
            ap orders (sym same) ∙ yield_slice-orders e sweep s ∙ after_slice-orders e sweep s
      ]

  slice_phase-orders :
      (e e' : MatchingEngine) → slice_phase e ≡ some (returns e') → orders e' ≡ orders e
  unfolding slice_phase
  slice_phase-orders e e' h = elim (Option-cases e.active_sweep) [
    | inl a ↦
        let whole : some (returns e) ≡ some (returns e') = rw (slice_phase, a) at h in
        let same : e ≡ e' = cc whole in ap orders (sym same)
    | inr (sweep, a) ↦ elim (Bool-cases (has_slice_capacity e)) [
      | inl c ↦
          let (e₁, ran, last) =
            >>=_inv (run_slice (record e { parked = false }) sweep)
              (λ (x : MatchingEngine). done (no_cancels x)) e' (rw (slice_phase, a, c) at h) in
          let same : no_cancels e₁ ≡ e' = cc last in
          ap orders (sym same) ∙ run_slice-orders (record e { parked = false }) e₁ sweep ran
      | inr c ↦
          let whole : some (returns e) ≡ some (returns e') = rw (slice_phase, a, c) at h in
          let same : e ≡ e' = cc whole in ap orders (sym same)
    ]
  ]

  -- What the waiting steps leave alone while a sweep is active.
  abbrev held : MatchingEngine → (Channel Order × Option Order) × Option ActiveSweep
  held e = (orders e, e.active_sweep)

  stop_phase-held : (e : MatchingEngine) → held (stop_phase e) ≡ held e
  unfolding stop_phase latch_stop
  stop_phase-held e =
      if_same held (not e.shutting_down && e.stop_requested) (latch_stop e) e (held e) refl refl

  latch_cancel-held : (e : MatchingEngine) → held (or_waits e (latch_cancel e)) ≡ held e
  unfolding latch_cancel
  latch_cancel-held e = elim (List-cases e.cancel_ch.queue) [
    | inl h ↦ rw h refl
    | inr (c, rest, h) ↦ rw h refl
  ]

  park_select-held : (choice : Choice) (e : MatchingEngine) → held (park_select choice e) ≡ held e
  unfolding park_select latch_stop
  park_select-held on_cancel e = latch_cancel-held e
  park_select-held on_order e = refl
  park_select-held on_ticker e = refl
  park_select-held on_stop e =
      if_same held (e.stop_requested && not e.shutting_down) (latch_stop e) e (held e) refl refl
  park_select-held on_capacity e = refl

  abbrev sweep_after : MatchingEngine × Bool → Option ActiveSweep
  sweep_after r = r.0.active_sweep

  latch_order-sweep :
      (e : MatchingEngine) → (or_waits e (latch_order e)).active_sweep ≡ e.active_sweep
  unfolding latch_order
  latch_order-sweep e = elim (List-cases e.order_ch.queue) [
    | inl h ↦ rw h refl
    | inr (o, rest, h) ↦ rw h refl
  ]

  idle_select-sweep :
      (choice : Choice) (e : MatchingEngine) → (idle_select choice e).active_sweep ≡ e.active_sweep
  unfolding idle_select latch_stop
  idle_select-sweep on_cancel e = ap (λ x. x.1) (latch_cancel-held e)
  idle_select-sweep on_order e =
      if_same (λ x. x.active_sweep) (emit_backpressured e.emitter) e (or_waits e (latch_order e))
        e.active_sweep refl (latch_order-sweep e)
  idle_select-sweep on_ticker e = refl
  idle_select-sweep on_stop e =
      if_same (λ x. x.active_sweep) e.stop_requested (latch_stop e) e e.active_sweep refl refl
  idle_select-sweep on_capacity e = refl

  latched_sweep :
      (e e' : MatchingEngine)
      → latch_one_non_blocking e ≡ some e'
      → e'.active_sweep ≡ e.active_sweep
  unfolding latch_one_non_blocking latch_cancel latch_order
  latched_sweep e e' h = ground arith

  drained_sweep :
      (e : MatchingEngine)
      → sweep_after (elim (latch_one_non_blocking e) as (λ _. MatchingEngine × Bool) [
        | some e' ↦ (e', false)
        | none ↦ (flush_snapshots e, true)
      ])
        ≡ e.active_sweep
  drained_sweep e = elim (Option-cases (latch_one_non_blocking e)) [
    | inl h ↦ rw h (ap (λ i. i.active_sweep) (flush_snapshots-intake e))
    | inr (e', h) ↦ rw h (latched_sweep e e' h)
  ]

  -- The wait starts no sweep and ends none.
  wait_phase-sweep :
      (choice : Choice) (e : MatchingEngine) → (wait_phase choice e).0.active_sweep ≡ e.active_sweep
  unfolding wait_phase
  wait_phase-sweep choice e =
      if_same sweep_after (slice_blocked_now e && not (is_some e.pending_cancel)) _ _ _
        (ap (λ x. x.1) (park_select-held choice (record e { parked = true })))
        (if_same sweep_after (has_work e) _ _ _ refl (
          if_same sweep_after e.shutting_down _ _ _ (drained_sweep e) (idle_select-sweep choice e)))

  wait_phase-held :
      (choice : Choice) (e : MatchingEngine)
      → is_some e.active_sweep ≡ true
      → held (wait_phase choice e).0 ≡ held e
  unfolding wait_phase
  wait_phase-held choice e h =
      let busy : has_work e ≡ true = rw h refl in
      if_same (λ (r : MatchingEngine × Bool). held r.0)
        (slice_blocked_now e && not (is_some e.pending_cancel)) _ _ _
        (park_select-held choice (record e { parked = true })) (rw busy refl)

  -- While a sweep is active when a turn begins and still when it ends, the turn takes no order: the
  -- order channel and the latched order are as before, so no later order passes the one that is
  -- being matched.
  pub run_turn-orders :
      (tick : Bool) (choice : Choice) (e e' : MatchingEngine) (stopped : Bool)
      → run_turn tick choice e ≡ some (returns (e', stopped))
      → is_some e.active_sweep ≡ true
      → is_some e'.active_sweep ≡ true
      → (e'.order_ch ≡ e.order_ch) × (e'.pending_order ≡ e.pending_order)
  unfolding run_turn Ended
  run_turn-orders tick choice e e' stopped h before after =
      let (e₁, same₁, kept₁, _) = cancel_phase-Ended e in
      let (e₂, ran, last) =
        >>=_inv (slice_phase (ticker_phase tick e₁))
          (λ (x : MatchingEngine). done (
            wait_phase choice
              (if is_some e.active_sweep then stop_phase x else admit_phase (stop_phase x))))
          (e', stopped) (rw same₁ at h) in
      let whole : returns (wait_phase choice (stop_phase e₂)) ≡ returns (e', stopped) =
        some_eq (rw before at last) in
      let waited : wait_phase choice (stop_phase e₂) ≡ (e', stopped) = cc whole in
      let ended : (wait_phase choice (stop_phase e₂)).0 ≡ e' = ap (λ x. x.0) waited in
      let active : is_some (stop_phase e₂).active_sweep ≡ true =
        ap is_some (sym (wait_phase-sweep choice (stop_phase e₂)) ∙ ap (λ x. x.active_sweep) ended)
        ∙ after in
      let same : orders e' ≡ orders e =
        ap orders (sym ended)
        ∙ ap (λ x. x.0) (wait_phase-held choice (stop_phase e₂) active ∙ stop_phase-held e₂)
        ∙ slice_phase-orders (ticker_phase tick e₁) e₂ ran
        ∙ ap (λ i. (i.order_ch, i.pending_order)) (ticker_phase-intake tick e₁ ∙ kept₁) in
      (ap (λ x. x.0) same, ap (λ x. x.1) same)
