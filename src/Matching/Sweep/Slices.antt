-- ===== src/Matching/Sweep/Slices.antt =====
-- Cutting a sweep into slices changes nothing: `matchSlice` with a budget, resumed until it is done,
-- against one call without a budget.
use go_exchange_back.Prelude.{
  ℕ, zero, suc, ◌+◌, ◌≤◌, ◌<◌, ◌≡◌, refl, sym, ◌∙◌, subst, Bool, true, false, inl, inr, some, arith,
  some_eq,
}
use go_exchange_back.Packages.{Packages}
use go_exchange_back.Matching.Emit.{Outcome, returns, panics}
use go_exchange_back.Matching.Sweep.{Fill, Loop, Sweep, record_fill, run_loop}
use go_exchange_back.Matching.Sweep.Loops.{
  Outcome-cases, sated, spent, unmatched, trades, turn, run_loop-zero, run_loop-sated,
  run_loop-spent, run_loop-unmatched, run_loop-panics, run_loop-trades,
}

module _ ⦃pk : Packages⦄ where
  -- More fuel than was needed gives the same result.
  pub run_loop_more :
      (l : Loop) (budget fuel more : ℕ) (s : Sweep) (r : Outcome (Sweep × Bool))
      → fuel ≤ more
      → run_loop fuel l budget s ≡ some r
      → run_loop more l budget s ≡ some r
  run_loop_more l budget zero more s r h e = cc (run_loop-zero l budget s)
  run_loop_more l budget (suc fuel) zero s r h e = absurd (omega arith)
  run_loop_more l budget (suc fuel) (suc more) s r h e = elim (turn l budget s) [
    | sated w ↦ run_loop-sated more l budget s w ∙ sym (run_loop-sated fuel l budget s w) ∙ e
    | spent w b c ↦
        run_loop-spent more l budget s w b c ∙ sym (run_loop-spent fuel l budget s w b c) ∙ e
    | unmatched w b x ↦
        run_loop-unmatched more l budget s w b x
        ∙ sym (run_loop-unmatched fuel l budget s w b x)
        ∙ e
    | trades w b f x ↦ elim (Outcome-cases (record_fill l s f)) [
      | inl p ↦
          run_loop-panics more l budget s f w b x p
          ∙ sym (run_loop-panics fuel l budget s f w b x p)
          ∙ e
      | inr (s₁, p) ↦
          run_loop-trades more l budget s s₁ f w b x p
          ∙ run_loop_more l budget fuel more s₁ r (omega arith)
              (sym (run_loop-trades fuel l budget s s₁ f w b x p) ∙ e)
    ]
  ]

  -- What a slice leaves to the unlimited loop.
  abbrev pub Resumes : Loop → Sweep → Bool → ℕ → Sweep → Type 0
  Resumes l s₁ true fuel s = run_loop fuel l 0 s ≡ some (returns (s₁, true))
  Resumes l s₁ false fuel s =
      (more : ℕ) (r : Outcome (Sweep × Bool))
      → run_loop more l 0 s₁ ≡ some r
      → run_loop (fuel + more) l 0 s ≡ some r

  Resumes-end :
      (l : Loop) (budget fuel : ℕ) (s s₁ s₂ : Sweep) (d d₂ : Bool)
      → run_loop (suc fuel) l budget s ≡ some (returns (s₁, d))
      → run_loop (suc fuel) l budget s ≡ some (returns (s₂, d₂))
      → Resumes l s₂ d₂ (suc fuel) s
      → Resumes l s₁ d (suc fuel) s
  Resumes-end l budget fuel s s₁ s₂ d d₂ e x h =
      let whole : returns (s₂, d₂) ≡ returns (s₁, d) = some_eq (sym x ∙ e) in
      let same_s : s₂ ≡ s₁ = cc whole in let same_d : d₂ ≡ d = cc whole in rw (← same_s, ← same_d) h

  Resumes-step :
      (l : Loop) (fuel : ℕ) (s s' s₁ : Sweep) (d : Bool)
      → ((more : ℕ) → run_loop (suc more) l 0 s ≡ run_loop more l 0 s')
      → Resumes l s₁ d fuel s'
      → Resumes l s₁ d (suc fuel) s
  Resumes-step l fuel s s' s₁ true step h = step fuel ∙ h
  Resumes-step l fuel s s' s₁ false step h = λ more r e.
      let sum : suc fuel + more ≡ suc (fuel + more) = omega arith in
      rw sum (step (fuel + more) ∙ h more r e)

  pub run_loop-Resumes :
      (l : Loop) (budget fuel : ℕ) (s s₁ : Sweep) (d : Bool)
      → run_loop fuel l budget s ≡ some (returns (s₁, d))
      → Resumes l s₁ d fuel s
  run_loop-Resumes l budget zero s s₁ d e = cc (run_loop-zero l budget s)
  run_loop-Resumes l budget (suc fuel) s s₁ d e = elim (turn l budget s) [
    | sated w ↦
        Resumes-end l budget fuel s s₁ s d true e (run_loop-sated fuel l budget s w)
          (run_loop-sated fuel l 0 s w)
    | spent w b c ↦
        Resumes-end l budget fuel s s₁ s d false e (run_loop-spent fuel l budget s w b c)
          (λ more r x. run_loop_more l 0 more (suc fuel + more) s r (omega arith) x)
    | unmatched w b x ↦
        Resumes-end l budget fuel s s₁ s d true e (run_loop-unmatched fuel l budget s w b x)
          (run_loop-unmatched fuel l 0 s w (λ z. absurd (omega arith)) x)
    | trades w b f x ↦ elim (Outcome-cases (record_fill l s f)) [
      | inl p ↦ cc (run_loop-panics fuel l budget s f w b x p)
      | inr (s', p) ↦
          Resumes-step l fuel s s' s₁ d
            (λ more. run_loop-trades more l 0 s s' f w (λ z. absurd (omega arith)) x p)
            (run_loop-Resumes l budget fuel s' s₁ d
              (sym (run_loop-trades fuel l budget s s' f w b x p) ∙ e))
    ]
  ]

  -- The same up to the count of trades, which a loop without a budget does not read.
  abbrev pub Alike : Outcome (Sweep × Bool) → Outcome (Sweep × Bool) → Type 0
  Alike (returns (s, d)) (returns (s', d')) =
      (s.book ≡ s'.book) × (s.order ≡ s'.order) × (s.emitter ≡ s'.emitter) × (d ≡ d')
  Alike panics panics = Unit
  Alike _ _ = ⊥

  record_fill_count :
      (l : Loop) (s : Sweep) (f : Fill) (n : ℕ) (s₁ : Sweep)
      → record_fill l s f ≡ returns s₁
      → record_fill l (record s { trades = n }) f ≡ returns (record s₁ { trades = n + 1 })
  unfolding record_fill
  record_fill_count l s f n s₁ e = ground arith

  record_fill_count_panics :
      (l : Loop) (s : Sweep) (f : Fill) (n : ℕ)
      → record_fill l s f ≡ panics
      → record_fill l (record s { trades = n }) f ≡ panics
  unfolding record_fill
  record_fill_count_panics l s f n e = ground arith

  pub run_loop_count :
      (l : Loop) (fuel : ℕ) (s : Sweep) (n : ℕ) (r : Outcome (Sweep × Bool))
      → run_loop fuel l 0 s ≡ some r
      → (r' : Outcome (Sweep × Bool)) × (run_loop fuel l 0 (record s { trades = n }) ≡ some r')
        × Alike r r'
  run_loop_count l zero s n r e = cc (run_loop-zero l 0 s)
  run_loop_count l (suc fuel) s n r e =
      let t : Sweep = record s { trades = n } in
      let unlimited : 0 < 0 → t.trades < 0 = λ z. absurd (omega arith) in
      elim (turn l 0 s) [
        | sated w ↦ (
          returns (t, true),
          run_loop-sated fuel l 0 t w,
          subst (λ q. Alike q (returns (t, true))) (some_eq (sym (run_loop-sated fuel l 0 s w) ∙ e))
              (refl, refl, refl, refl),
        )
        | spent w b c ↦ absurd (omega arith)
        | unmatched w b x ↦ (
          returns (t, true),
          run_loop-unmatched fuel l 0 t w unlimited x,
          subst (λ q. Alike q (returns (t, true)))
              (some_eq (sym (run_loop-unmatched fuel l 0 s w b x) ∙ e)) (refl, refl, refl, refl),
        )
        | trades w b f x ↦ elim (Outcome-cases (record_fill l s f)) [
          | inl p ↦ (
            panics,
            run_loop-panics fuel l 0 t f w unlimited x (record_fill_count_panics l s f n p),
            subst (λ q. Alike q panics) (some_eq (sym (run_loop-panics fuel l 0 s f w b x p) ∙ e))
                tt,
          )
          | inr (s₁, p) ↦
              let again = record_fill_count l s f n s₁ p in
              let (r', y, like) =
                run_loop_count l fuel s₁ (n + 1) r
                  (sym (run_loop-trades fuel l 0 s s₁ f w b x p) ∙ e) in
              (
                r',
                run_loop-trades fuel l 0 t (record s₁ { trades = n + 1 }) f w unlimited x again ∙ y,
                like,
              )
        ]
      ]
