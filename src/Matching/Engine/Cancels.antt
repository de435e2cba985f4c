-- ===== src/Matching/Engine/Cancels.antt =====
-- The cancellation phase: it ends, never panics, and keeps its quota.
use go_exchange_back.Prelude.{
  ℕ, zero, suc, ◌+◌, ◌-◌, ◌≤◌, ◌<◌, ◌≡◌, refl, sym, ap, ◌∙◌, false, inl, inr, ◌⊎◌, Option, none,
  some, ◌==◌, arith, Bool-cases, Option-cases, List-cases,
}
use go_exchange_back.Packages.{Packages}
use go_exchange_back.Matching.Types.{CancelOrderCommand}
use go_exchange_back.Matching.Emit.{Outcome, returns}
use go_exchange_back.Matching.Engine.{
  MatchingEngine, free, reject_cancel, take_cancel, Decision, process, reject, leave, decide_cancel,
  cancel_round, cancel_loop, waiting_cancels, cancel_phase,
}
use go_exchange_back.Matching.Engine.Control.{
  process_cancel-returns, reject_cancel-control, intake_of, intake,
}

module _ ⦃pk : Packages⦄ where
  waiting_lem :
      (e e' : MatchingEngine)
      → e'.cancel_ch ≡ e.cancel_ch
      → e'.pending_cancel ≡ e.pending_cancel
      → waiting_cancels e' ≡ waiting_cancels e
  unfolding waiting_cancels
  waiting_lem e e' h k = cc

  -- Taking a command leaves one command less.
  Taken : MatchingEngine → CancelOrderCommand → MatchingEngine → Type 0
  Taken e cmd e' =
      (take_cancel e ≡ some (cmd, e'))
      × (waiting_cancels e ≡ suc (waiting_cancels e'))
      × (intake e' ≡ intake e)
      × (e'.emitter ≡ e.emitter)
      × (e'.cancels_since_progress ≡ e.cancels_since_progress)

  take_cancel-cases :
      (e : MatchingEngine)
      → (take_cancel e ≡ none)
        ⊎ ((cmd : CancelOrderCommand) × (e' : MatchingEngine) × Taken e cmd e')
  unfolding take_cancel waiting_cancels Taken
  take_cancel-cases e = elim (Option-cases e.pending_cancel) [
    | inr (cmd, p) ↦
        inr (
          cmd,
          record e { pending_cancel = none },
          (rw p refl, rw p (omega arith), refl, refl, refl),
        )
    | inl p ↦ elim (List-cases e.cancel_ch.queue) [
      | inl q ↦ inl (rw (p, q) refl)
      | inr (cmd, rest, q) ↦ inr (
        cmd,
        record e { cancel_ch = record e.cancel_ch { queue = rest } },
        (rw (p, q) refl, rw (p, q) (omega arith), refl, refl, refl),
      )
    ]
  ]

  decide_cancel-process :
      (e : MatchingEngine)
      → decide_cancel e ≡ process
      → (e.cancels_since_progress < e.max_consecutive_cancels) × (1 ≤ free e.emitter)
  unfolding decide_cancel
  decide_cancel-process e h = ground arith

  -- The counter stays, or is within the quota.
  pub InQuota : MatchingEngine → MatchingEngine → Type 0
  InQuota e e' =
      (e'.cancels_since_progress ≡ e.cancels_since_progress)
      ⊎ (e'.cancels_since_progress ≤ e.max_consecutive_cancels)

  Stepped : ℕ → MatchingEngine → ℕ → MatchingEngine → Type 0
  Stepped budget e budget' e' =
      (cancel_round budget e ≡ some (returns (budget', e')))
      × (waiting_cancels e ≡ suc (waiting_cancels e'))
      × (intake e' ≡ intake e)
      × InQuota e e'

  pub Decision-cases : (d : Decision) → (d ≡ process) ⊎ ((d ≡ reject) ⊎ (d ≡ leave))
  Decision-cases process = inl refl
  Decision-cases reject = inr (inl refl)
  Decision-cases leave = inr (inr refl)

  process_round :
      (budget : ℕ) (e e₁ : MatchingEngine) (cmd : CancelOrderCommand)
      → decide_cancel e ≡ process
      → Taken e cmd e₁
      → (e' : MatchingEngine) × Stepped budget e budget e'
  unfolding cancel_round Taken Stepped InQuota
  process_round budget e e₁ cmd d (t, w, same, emits, kept) =
      let (quota, room) = decide_cancel-process e d in
      let (e₂, ran, frame) = process_cancel-returns e₁ cmd (rw emits room) in
      let e₃ : MatchingEngine = record e₂ {
        cancels_since_progress = e₂.cancels_since_progress + 1;
      } in
      let left : waiting_cancels e₃ ≡ waiting_cancels e₁ =
        waiting_lem e₁ e₃ (ap (λ c. c.cancel_ch) frame) (ap (λ c. c.pending_cancel) frame) in
      let counted : e₂.cancels_since_progress ≡ e.cancels_since_progress =
        ap (λ c. c.cancels_since_progress) frame ∙ kept in
      (
        e₃,
        (
          rw (cancel_round, d, t, ran) refl,
          w ∙ ap (λ n. suc n) (sym left),
          ap intake_of frame ∙ same,
          inr (omega arith),
        ),
      )

  reject_round :
      (budget : ℕ) (e e₁ : MatchingEngine) (cmd : CancelOrderCommand)
      → decide_cancel e ≡ reject
      → (budget == 0) ≡ false
      → Taken e cmd e₁
      → Stepped budget e (budget - 1) (reject_cancel e₁ cmd)
  unfolding cancel_round Taken Stepped InQuota
  reject_round budget e e₁ cmd d b (t, w, same, emits, kept) =
      let frame = reject_cancel-control cmd e₁ in
      (
        rw (cancel_round, d, b, t) refl,
        w
            ∙ ap (λ n. suc n)
                (sym (
                  waiting_lem e₁ (reject_cancel e₁ cmd) (ap (λ c. c.cancel_ch) frame)
                    (ap (λ c. c.pending_cancel) frame))),
        ap intake_of frame ∙ same,
        inl (ap (λ c. c.cancels_since_progress) frame ∙ kept),
      )

  -- A round ends the phase or takes a command.
  cancel_round-cases :
      (budget : ℕ) (e : MatchingEngine)
      → (cancel_round budget e ≡ none)
        ⊎ ((budget' : ℕ) × (e' : MatchingEngine) × Stepped budget e budget' e')
  unfolding cancel_round
  cancel_round-cases budget e = elim (Decision-cases (decide_cancel e)) [
    | inr (inr d) ↦ inl (rw (cancel_round, d) refl)
    | inl d ↦ elim (take_cancel-cases e) [
      | inl t ↦ inl (rw (cancel_round, d, t) refl)
      | inr (cmd, e₁, t) ↦
          let (e', ran) = process_round budget e e₁ cmd d t in inr (budget, e', ran)
    ]
    | inr (inl d) ↦ elim (Bool-cases (budget == 0)) [
      | inl b ↦ inl (rw (cancel_round, d, b) refl)
      | inr b ↦ elim (take_cancel-cases e) [
        | inl t ↦ inl (rw (cancel_round, d, b, t) refl)
        | inr (cmd, e₁, t) ↦
            inr (budget - 1, reject_cancel e₁ cmd, reject_round budget e e₁ cmd d b t)
      ]
    ]
  ]

  unfoldable pub Ended : MatchingEngine → Option (Outcome MatchingEngine) → Type 0
  Ended e r =
      (e' : MatchingEngine) × (r ≡ some (returns e')) × (intake e' ≡ intake e) × InQuota e e'

  cancel_loop-Ended :
      (fuel budget : ℕ) (e : MatchingEngine)
      → waiting_cancels e < fuel
      → Ended e (cancel_loop fuel budget e)
  unfolding cancel_loop Ended InQuota Stepped
  cancel_loop-Ended zero budget e h = absurd (omega arith)
  cancel_loop-Ended (suc fuel) budget e h = elim (cancel_round-cases budget e) [
    | inl n ↦ (e, rw (cancel_loop, n) refl, refl, inl refl)
    | inr (budget', e₁, (run, w, same, quota)) ↦
        let (e₂, ran, same₂, quota₂) = cancel_loop-Ended fuel budget' e₁ (omega arith) in
        let kept : e₁.max_consecutive_cancels ≡ e.max_consecutive_cancels =
          ap (λ i. i.max_consecutive_cancels) same in
        (e₂, rw (cancel_loop, run) ran, same₂ ∙ same, ground arith)
  ]

  -- `cancelPhase` ends after at most one round for each waiting command and one more, never panics
  -- on a reservation, and leaves the order channel, the latched order, the active sweep and the
  -- limits as they were. The count of cancellations since the last progress is as before or within
  -- the quota.
  pub cancel_phase-Ended : (e : MatchingEngine) → Ended e (cancel_phase e)
  unfolding cancel_phase
  cancel_phase-Ended e =
      cancel_loop-Ended (waiting_cancels e + 1) (waiting_cancels e) e (omega arith)
