-- ===== src/Ledger/Updates.antt =====
-- `ApplyBalanceDeltas`: every balance grows by what the new postings of its account add up to.
use go_exchange_back.Prelude.{
  ℕ, ◌≡◌, refl, sym, ap, subst, ◌∙◌, Bool, true, false, ◌&&◌, not, none, some, inl, inr, List, [],
  ◌∷◌, ◌==◌, ==_iff, any, any-sort_by, filter, sort_by, map, length, Bool-cases,
}
use go_exchange_back.Packages.{Packages}
use go_exchange_back.Settlement.Balance.{add-zero}
use go_exchange_back.Ledger.Tables.{Account, Posting, AccountBalance}
use go_exchange_back.Ledger.Accounts.{has_balance, is_locked, lock_balances, row_less}
use go_exchange_back.Ledger.Journals.{delta_of, apply_delta, apply_balance_deltas, is_affected}
use go_exchange_back.Ledger.Record.{
  account_ids, balance_deltas, check_balances, is_overdrawn, allows_negative,
}
use go_exchange_back.Ledger.Sums.{sum_where_none}
use go_exchange_back.Ledger.Provision.{balance_of, balance_of-none}
use go_exchange_back.Ledger.Postings.{
  find-new_delta, any-account_ids, check_balances-lem, balance-not_overdrawn,
}

module _ ⦃pk : Packages⦄ where
  open pk use {Decimal, zero_decimal, add, less_than}

  unfoldable pub has_posting : ℕ → List Posting → Bool
  has_posting id ds = any (λ i. i == id) (account_ids ds)

  pub delta_of-none :
      (id : ℕ) (ds : List Posting) → has_posting id ds ≡ false → delta_of id ds ≡ zero_decimal
  unfolding has_posting
  delta_of-none id ds h =
      sum_where_none (λ d. d.account_id == id) (λ d. d.amount) zero_decimal ds
        (sym (any-account_ids (λ i. i == id) ds) ∙ h)

  apply_delta-same_id :
      (ds : List Posting) (r : AccountBalance)
      → (apply_delta (balance_deltas ds) r).account_id ≡ r.account_id
  unfolding apply_delta
  apply_delta-same_id ds r = elim (Bool-cases (any (λ i. i == r.account_id) (account_ids ds))) [
    | inl e ↦ rw (apply_delta, find-new_delta ds r.account_id (account_ids ds), e) refl
    | inr e ↦ rw (apply_delta, find-new_delta ds r.account_id (account_ids ds), e) refl
  ]

  apply_delta-balance :
      (ds : List Posting) (r : AccountBalance)
      → (apply_delta (balance_deltas ds) r).balance ≡ add r.balance (delta_of r.account_id ds)
  unfolding apply_delta has_posting
  apply_delta-balance ds r = elim (Bool-cases (any (λ i. i == r.account_id) (account_ids ds))) [
    | inl e ↦ rw (apply_delta, find-new_delta ds r.account_id (account_ids ds), e) refl
    | inr e ↦
        rw (apply_delta, find-new_delta ds r.account_id (account_ids ds), e)
          (sym (add-zero r.balance) ∙ ap (add r.balance) (sym (delta_of-none r.account_id ds e)))
  ]

  balance_of-apply :
      (id : ℕ) (ds : List Posting) (rows : List AccountBalance)
      → has_balance id rows ≡ true
      → balance_of id (map (apply_delta (balance_deltas ds)) rows)
        ≡ add (balance_of id rows) (delta_of id ds)
  unfolding balance_of
  balance_of-apply id ds [] h = cc
  balance_of-apply id ds (r ∷ rows) h =
      let same_id = apply_delta-same_id ds r in
      elim (Bool-cases (r.account_id == id)) [
        | inl e ↦
            let same : r.account_id ≡ id = (==_iff r.account_id id).0 e in
            rw (same_id, e)
              (apply_delta-balance ds r ∙ ap (λ i. add r.balance (delta_of i ds)) same)
        | inr e ↦ rw (same_id, e) (balance_of-apply id ds rows (rw e at h))
      ]

  has_balance-apply :
      (id : ℕ) (ds : List Posting) (rows : List AccountBalance)
      → has_balance id (map (apply_delta (balance_deltas ds)) rows) ≡ has_balance id rows
  has_balance-apply id ds [] = refl
  has_balance-apply id ds (r ∷ rows) =
      rw (apply_delta-same_id ds r, has_balance-apply id ds rows) refl

  -- Every account's balance grows by its postings, where each posting's account has a row.
  pub balance_of-updated :
      (id : ℕ) (ds : List Posting) (rows updated : List AccountBalance)
      → (has_posting id ds ≡ true → has_balance id rows ≡ true)
      → apply_balance_deltas (balance_deltas ds) rows ≡ some updated
      → balance_of id updated ≡ add (balance_of id rows) (delta_of id ds)
  unfolding apply_balance_deltas
  balance_of-updated id ds rows updated has h =
      let after = map (apply_delta (balance_deltas ds)) rows in
      let whole : (balance_of id after) ≡ add (balance_of id rows) (delta_of id ds) =
        elim (Bool-cases (has_balance id rows)) [
          | inl e ↦ balance_of-apply id ds rows e
          | inr e ↦ elim (Bool-cases (has_posting id ds)) [
            | inl p ↦ cc (has p)
            | inr p ↦
                balance_of-none id after (has_balance-apply id ds rows ∙ e)
                ∙ sym (balance_of-none id rows e)
                ∙ sym (add-zero (balance_of id rows))
                ∙ ap (add (balance_of id rows)) (sym (delta_of-none id ds p))
          ]
        ] in
      elim (Bool-cases
        (length (filter (is_affected (balance_deltas ds)) rows) == length (balance_deltas ds))) [
          | inl e ↦
              let same : some after ≡ some updated = rw e at h in
              let lists : after ≡ updated = cc in
              subst (λ l. balance_of id l ≡ add (balance_of id rows) (delta_of id ds)) lists whole
          | inr e ↦ cc (rw e at h)
        ]

  not_barred : (low may : Bool) → (low && not may) ≡ false → may ≡ false → low ≡ false
  not_barred true true h k = cc
  not_barred true false h k = h
  not_barred false may h k = refl

  -- Where the locked rows pass the check, an account that may not go negative does not.
  pub locked-solvent :
      (id : ℕ) (ds : List Posting) (found : List Account) (rows locked : List AccountBalance)
      → lock_balances (account_ids ds) rows ≡ some locked
      → check_balances ds found locked ≡ none
      → (has_posting id ds ≡ true → has_balance id rows ≡ true)
      → less_than (balance_of id rows) zero_decimal ≡ false
      → allows_negative id found ≡ false
      → less_than (add (balance_of id rows) (delta_of id ds)) zero_decimal ≡ false
  unfolding lock_balances has_posting
  locked-solvent id ds found rows locked l c has old barred =
      let kept = filter (is_locked (account_ids ds)) rows in
      elim (Bool-cases (has_posting id ds)) [
        | inr e ↦
            ap (λ x. less_than x zero_decimal)
              (ap (add (balance_of id rows)) (delta_of-none id ds e)
                ∙ add-zero (balance_of id rows))
            ∙ old
        | inl e ↦ elim (Bool-cases (length (sort_by row_less kept) == length (account_ids ds))) [
          | inl d ↦
              let same : some (sort_by row_less kept) ≡ some locked = rw d at l in
              let lists : sort_by row_less kept ≡ locked = cc in
              let fine : any (is_overdrawn ds found) kept ≡ false =
                sym (any-sort_by (is_overdrawn ds found) row_less kept)
                ∙ ap (any (is_overdrawn ds found)) lists
                ∙ check_balances-lem ds found locked c in
              not_barred _ _
                (balance-not_overdrawn ds found (account_ids ds) id rows fine e (has e)) barred
          | inr d ↦ cc (rw d at l)
        ]
      ]
