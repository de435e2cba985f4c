-- ===== src/Settlement/Lines.antt =====
-- The lines of a trade's journal: their sums, and the checks that each passes.
use text.Mathlib.Text.{◌==◌ as str_eq}
use go_exchange_back.Prelude.{
  ℕ, ◌≡◌, refl, sym, ◌∙◌, Bool, true, false, none, inl, inr, String, if◌then◌else◌, Bool-cases,
}
use go_exchange_back.Packages.{Packages}
use go_exchange_back.Packages.Laws.{less-sub-zero}
use go_exchange_back.Settlement.Types.{SettledTrade, krw_asset_symbol}
use go_exchange_back.Settlement.Postings.{
  exchange_postings, refund_posting, fee_posting, trade_postings,
}
use go_exchange_back.Settlement.Journal.{sum_from, check_postings, balances}
use go_exchange_back.Settlement.Balance.{
  add-zero, is_zero_pos, is_zero_neg, sum_from-append, balances_lem, check_postings-append,
  opposite,
}

module _ ⦃pk : Packages⦄ where
  open pk use {
    Decimal, zero_decimal, one_decimal, add, sub, mul, neg, less_than, less_irrefl, less_total,
    add_comm, add_assoc, zero-add, neg-add, sub-add, mul-add, mul_comm, mul-one, mul_pos,
  }

  abbrev step : Bool → Decimal → Decimal → Decimal
  step b x a = if b then add x a else x

  -- A line that is left out when its amount is not positive changes no sum.
  step-zero : (b : Bool) (x a : Decimal) → a ≡ zero_decimal → step b x a ≡ x
  step-zero true x a h = rw h (add-zero x)
  step-zero false x a h = refl

  sum-refund :
      (k : String) (x : Decimal) (buyer : ℕ) (a : Decimal)
      → less_than a zero_decimal ≡ false
      → sum_from k x (refund_posting buyer a) ≡ step (str_eq krw_asset_symbol k) x a
  unfolding sum_from
  sum-refund k x buyer a h = elim (Bool-cases (less_than zero_decimal a)) [
    | inl e ↦ rw e refl
    | inr e ↦ rw e (sym (step-zero (str_eq krw_asset_symbol k) x a (less_total a zero_decimal h e)))
  ]

  sum-fee :
      (k : String) (x a : Decimal)
      → less_than a zero_decimal ≡ false
      → sum_from k x (fee_posting a) ≡ step (str_eq krw_asset_symbol k) x a
  unfolding sum_from
  sum-fee k x a h = elim (Bool-cases (less_than zero_decimal a)) [
    | inl e ↦ rw e refl
    | inr e ↦ rw e (sym (step-zero (str_eq krw_asset_symbol k) x a (less_total a zero_decimal h e)))
  ]

  -- The four movements of KRW cancel.
  quote_cancels :
      (b : Bool) (r s d f : Decimal)
      → add s f ≡ d
      → step b (step b (step b (step b zero_decimal (neg r)) s) (sub r d)) f ≡ zero_decimal
  quote_cancels true r s d f h =
      let front : add (add (add zero_decimal (neg r)) s) (sub r d) ≡ add (add (neg r) (sub r d)) s =
        rw (zero-add (neg r)) (
          add_assoc (neg r) s (sub r d)
          ∙ rw (add_comm s (sub r d)) (sym (add_assoc (neg r) (sub r d) s))) in
      rw front (
        add_assoc (add (neg r) (sub r d)) s f
        ∙ rw h (add_assoc (neg r) (sub r d) d ∙ rw (sub-add r d) (neg-add r)))
  quote_cancels false r s d f h = refl

  exchange_lem :
      (t : SettledTrade) (buyer seller : ℕ) (r s : Decimal) (k : String)
      → sum_from k zero_decimal (exchange_postings t buyer seller r s)
        ≡ step (str_eq krw_asset_symbol k) (step (str_eq krw_asset_symbol k) zero_decimal (neg r)) s
  unfolding sum_from
  exchange_lem t buyer seller r s k =
      opposite (str_eq t.emitted.coin_symbol k)
        (step (str_eq krw_asset_symbol k) (step (str_eq krw_asset_symbol k) zero_decimal (neg r)) s)
        t.emitted.quantity

  sum-trade :
      (t : SettledTrade) (buyer seller : ℕ) (r d s : Decimal) (k : String)
      → less_than (sub r d) zero_decimal ≡ false
      → less_than (add t.buyer_fee t.seller_fee) zero_decimal ≡ false
      → add s (add t.buyer_fee t.seller_fee) ≡ d
      → sum_from k zero_decimal (trade_postings t buyer seller r d s) ≡ zero_decimal
  unfolding trade_postings
  sum-trade t buyer seller r d s k refund fees h =
      let b = str_eq krw_asset_symbol k in
      let c = str_eq t.emitted.coin_symbol k in
      let f = add t.buyer_fee t.seller_fee in
      let x = step b (step b zero_decimal (neg r)) s in
      let four : sum_from k zero_decimal (exchange_postings t buyer seller r s) ≡ x =
        exchange_lem t buyer seller r s k in
      sum_from-append k zero_decimal (exchange_postings t buyer seller r s) _
      ∙ rw four (
          sum_from-append k x (refund_posting buyer (sub r d)) (fee_posting f)
          ∙ rw (sum-refund k x buyer (sub r d) refund)
              (sum-fee k (step b x (sub r d)) f fees ∙ quote_cancels b r s d f h))

  check-refund : (buyer : ℕ) (a : Decimal) → check_postings (refund_posting buyer a) ≡ none
  unfolding check_postings
  check-refund buyer a = elim (Bool-cases (less_than zero_decimal a)) [
    | inl e ↦ rw (e, is_zero_pos a e) refl
    | inr e ↦ rw e refl
  ]

  check-fee : (a : Decimal) → check_postings (fee_posting a) ≡ none
  unfolding check_postings
  check-fee a = elim (Bool-cases (less_than zero_decimal a)) [
    | inl e ↦ rw (e, is_zero_pos a e) refl
    | inr e ↦ rw e refl
  ]

  check-exchange :
      (t : SettledTrade) (buyer seller : ℕ) (r s : Decimal)
      → str_eq t.emitted.coin_symbol "" ≡ false
      → less_than zero_decimal t.emitted.quantity ≡ true
      → less_than zero_decimal r ≡ true
      → less_than zero_decimal s ≡ true
      → check_postings (exchange_postings t buyer seller r s) ≡ none
  unfolding check_postings
  check-exchange t buyer seller r s k q hr hs =
      rw
        (
          is_zero_neg r hr,
          is_zero_pos s hs,
          k,
          is_zero_neg t.emitted.quantity q,
          is_zero_pos t.emitted.quantity q,
        )
        refl

  pub trade_postings-accepted :
      (t : SettledTrade) (buyer seller : ℕ) (r d s : Decimal)
      → str_eq t.emitted.coin_symbol "" ≡ false
      → less_than zero_decimal t.emitted.quantity ≡ true
      → less_than zero_decimal r ≡ true
      → less_than zero_decimal s ≡ true
      → less_than r d ≡ false
      → less_than (add t.buyer_fee t.seller_fee) zero_decimal ≡ false
      → add s (add t.buyer_fee t.seller_fee) ≡ d
      → (check_postings (trade_postings t buyer seller r d s) ≡ none)
        × (balances (trade_postings t buyer seller r d s) (trade_postings t buyer seller r d s)
            ≡ true)
  unfolding trade_postings
  trade_postings-accepted t buyer seller r d s k q hr hs refund fees h = (
    check_postings-append (exchange_postings t buyer seller r s) _
        (check-exchange t buyer seller r s k q hr hs)
        (check_postings-append (refund_posting buyer (sub r d)) _ (check-refund buyer (sub r d))
          (check-fee (add t.buyer_fee t.seller_fee))),
    balances_lem _ (trade_postings t buyer seller r d s)
        (λ j. sum-trade t buyer seller r d s j (less-sub-zero r d ∙ refund) fees h),
  )
