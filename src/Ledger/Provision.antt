-- ===== src/Ledger/Provision.antt =====
-- `EnsureAccounts`: new accounts change no balance, and every account that is found has a row of
-- balances.
use go_exchange_back.Prelude.{
  ℕ, suc, ◌≤◌, ◌≡◌, refl, sym, ap, subst, ◌∙◌, true, false, ◌||◌, Option, none, some, inl, inr,
  List, [], ◌∷◌, ◌==◌, ==_iff, ltb, any, any-sort_by, sort_by, map, length, if◌then◌else◌,
  Bool-cases, Option-cases, arith,
}
use go_exchange_back.Packages.{Packages}
use go_exchange_back.Ledger.Tables.{AccountKey, same_key, Account, AccountTable, AccountBalance}
use go_exchange_back.Ledger.Accounts.{
  AccountSpec, spec_key, spec_less, key_of, unique_specs, find_account, new_account, insert_account,
  insert_accounts, find_by_specs, has_balance, ensure_balance_row, ensure_balance_rows,
  ensure_accounts,
}
use go_exchange_back.Ledger.Record.{allows_negative}
use go_exchange_back.Ledger.Keys.{Descending, same_key_lem, allows_negative-fresh}

module _ ⦃pk : Packages⦄ where
  open pk use {Decimal, zero_decimal, less_than}

  -- What the cache says of an account.
  unfoldable pub balance_of : ℕ → List AccountBalance → Decimal
  balance_of id [] = zero_decimal
  balance_of id (r ∷ rows) = if r.account_id == id then r.balance else balance_of id rows

  abbrev pub balance_or_zero : List AccountBalance → Option Account → Decimal
  balance_or_zero balances none = zero_decimal
  balance_or_zero balances (some a) = balance_of a.id balances

  -- The balance under an account key, which is zero where there is no account.
  abbrev pub balance_at : AccountTable → List AccountBalance → AccountKey → Decimal
  balance_at t balances k = balance_or_zero balances (find_account k t.rows)

  -- The accounts of a sound ledger, beside its balances.
  unfoldable pub AccountsAreSound : AccountTable → List AccountBalance → Type 0
  AccountsAreSound t balances =
      Descending t.next_id t.rows
      × ((id : ℕ) → t.next_id ≤ id → balance_of id balances ≡ zero_decimal)
      × ((id : ℕ)
          → allows_negative id t.rows ≡ false
          → less_than (balance_of id balances) zero_decimal ≡ false)

  -- Sound accounts that show the same balances as before.
  abbrev Shows : List AccountBalance → (AccountKey → Decimal) → AccountTable → Type 0
  Shows balances view t =
      AccountsAreSound t balances × ((k : AccountKey) → balance_at t balances k ≡ view k)

  new_account-Shows :
      (balances : List AccountBalance) (view : AccountKey → Decimal) (t : AccountTable)
      (s : AccountSpec)
      → find_account (spec_key s) t.rows ≡ none
      → Shows balances view t
      → Shows balances view
          (record { rows = new_account t.next_id s ∷ t.rows; next_id = suc t.next_id })
  unfolding find_account allows_negative AccountsAreSound
  new_account-Shows balances view t s h ((d, fresh, solvent), shows) = (
    (
      (omega arith, d),
      (λ id le. fresh id (omega arith)),
      (λ id barred. elim (Bool-cases (t.next_id == id)) [
        | inl e ↦ solvent id (allows_negative-fresh t.next_id id t.rows d (ground arith))
        | inr e ↦ solvent id (rw e at barred)
      ]),
    ),
    (λ k. elim (Bool-cases (same_key (spec_key s) k)) [
      | inl e ↦
          let same : spec_key s ≡ k = same_key_lem (spec_key s) k e in
          let absent : find_account k t.rows ≡ none =
            subst (λ x. find_account x t.rows ≡ none) same h in
          rw e
            (fresh t.next_id (omega arith) ∙ ap (balance_or_zero balances) (sym absent) ∙ shows k)
      | inr e ↦ rw e (shows k)
    ]),
  )

  insert_account-Shows :
      (balances : List AccountBalance) (view : AccountKey → Decimal) (t : AccountTable)
      (s : AccountSpec)
      → Shows balances view t
      → Shows balances view (insert_account t s)
  unfolding insert_account
  insert_account-Shows balances view t s h =
      elim (Option-cases (find_account (spec_key s) t.rows)) [
        | inl e ↦
            let grown : insert_account t s
                ≡ record { rows = new_account t.next_id s ∷ t.rows; next_id = suc t.next_id } =
              rw (insert_account, e) refl in
            subst (Shows balances view) (sym grown) (new_account-Shows balances view t s e h)
        | inr (a, e) ↦
            let same : insert_account t s ≡ t = rw (insert_account, e) refl in
            subst (Shows balances view) (sym same) h
      ]

  insert_accounts-Shows :
      (balances : List AccountBalance) (view : AccountKey → Decimal) (t : AccountTable)
      (ss : List AccountSpec)
      → Shows balances view t
      → Shows balances view (insert_accounts t ss)
  unfolding insert_accounts
  insert_accounts-Shows balances view t [] h = h
  insert_accounts-Shows balances view t (s ∷ ss) h =
      insert_accounts-Shows balances view (insert_account t s) ss
        (insert_account-Shows balances view t s h)

  pub balance_of-none :
      (id : ℕ) (rows : List AccountBalance)
      → has_balance id rows ≡ false
      → balance_of id rows ≡ zero_decimal
  unfolding balance_of
  balance_of-none id [] h = refl
  balance_of-none id (r ∷ rows) h = elim (Bool-cases (r.account_id == id)) [
    | inl e ↦ cc (rw e at h)
    | inr e ↦ rw e (balance_of-none id rows (rw e at h))
  ]

  balance_of-ensure_row :
      (id i : ℕ) (rows : List AccountBalance)
      → balance_of i (ensure_balance_row id rows) ≡ balance_of i rows
  unfolding balance_of ensure_balance_row
  balance_of-ensure_row id i rows = elim (Bool-cases (has_balance id rows)) [
    | inl e ↦ rw e refl
    | inr e ↦ elim (Bool-cases (id == i)) [
      | inl d ↦
          let same : id ≡ i = (==_iff id i).0 d in
          rw (e, d) (sym (balance_of-none i rows (rw same at e)))
      | inr d ↦ rw (e, d) refl
    ]
  ]

  balance_of-ensure_rows :
      (ids : List ℕ) (i : ℕ) (rows : List AccountBalance)
      → balance_of i (ensure_balance_rows ids rows) ≡ balance_of i rows
  unfolding ensure_balance_rows
  balance_of-ensure_rows [] i rows = refl
  balance_of-ensure_rows (id ∷ ids) i rows =
      balance_of-ensure_rows ids i (ensure_balance_row id rows) ∙ balance_of-ensure_row id i rows

  has_balance-ensure_row :
      (id i : ℕ) (rows : List AccountBalance)
      → (id == i || has_balance i rows) ≡ true
      → has_balance i (ensure_balance_row id rows) ≡ true
  unfolding ensure_balance_row
  has_balance-ensure_row id i rows h = elim (Bool-cases (has_balance id rows)) [
    | inl e ↦ elim (Bool-cases (id == i)) [
      | inl d ↦
          let same : id ≡ i = (==_iff id i).0 d in
          rw e (subst (λ x. has_balance x rows ≡ true) same e)
      | inr d ↦ rw e (rw d at h)
    ]
    | inr e ↦ rw e h
  ]

  pub has_balance-ensure_rows :
      (ids : List ℕ) (i : ℕ) (rows : List AccountBalance)
      → (any (λ id. id == i) ids || has_balance i rows) ≡ true
      → has_balance i (ensure_balance_rows ids rows) ≡ true
  unfolding ensure_balance_rows
  has_balance-ensure_rows [] i rows h = h
  has_balance-ensure_rows (id ∷ ids) i rows h =
      has_balance-ensure_rows ids i (ensure_balance_row id rows)
        (elim (Bool-cases (any (λ id. id == i) ids)) [
          | inl e ↦ rw e refl
          | inr e ↦ rw e (
              has_balance-ensure_row id i rows
                (elim (Bool-cases (id == i)) [ inl d ↦ rw d refl | inr d ↦ rw d (rw (d, e) at h) ]))
        ])

  balance_or_zero-kept :
      (balances balances' : List AccountBalance) (o : Option Account)
      → ((id : ℕ) → balance_of id balances' ≡ balance_of id balances)
      → balance_or_zero balances' o ≡ balance_or_zero balances o
  balance_or_zero-kept balances balances' none h = refl
  balance_or_zero-kept balances balances' (some a) h = h a.id

  found-listed :
      (k : AccountKey) (rows : List Account) (a : Account)
      → find_account k rows ≡ some a
      → any (λ id. id == a.id) (map (λ b. b.id) rows) ≡ true
  unfolding find_account
  found-listed k [] a h = cc
  found-listed k (b ∷ rows) a h = elim (Bool-cases (same_key (key_of b) k)) [
    | inl e ↦
        let same : some b ≡ some a = rw e at h in
        let row : b ≡ a = cc in
        let ids : (b.id == a.id) ≡ true = (==_iff b.id a.id).1 (ap (λ x. x.id) row) in rw ids refl
    | inr e ↦ elim (Bool-cases (b.id == a.id)) [
      | inl d ↦ rw d refl
      | inr d ↦ rw d (found-listed k rows a (rw e at h))
    ]
  ]

  -- What `EnsureAccounts` returns is taken from its own table, which shows the old balances, and
  -- each account that it returns has a row of balances.
  pub ensure_accounts-Provides :
      (t t' : AccountTable) (balances balances' : List AccountBalance) (specs : List AccountSpec)
      (found : List Account)
      → AccountsAreSound t balances
      → ensure_accounts t balances specs ≡ some (t', balances', found)
      → AccountsAreSound t' balances'
        × ((k : AccountKey) → balance_at t' balances' k ≡ balance_at t balances k)
        × ((id : ℕ) → balance_of id balances' ≡ balance_of id balances)
        × ((asked : List AccountSpec) × (found ≡ find_by_specs asked t'.rows))
        × ((k : AccountKey) (a : Account)
            → find_account k found ≡ some a
            → has_balance a.id balances' ≡ true)
  unfolding ensure_accounts AccountsAreSound
  ensure_accounts-Provides t t' balances balances' specs found sound h =
      let unique = sort_by spec_less (unique_specs [] specs) in
      let table = insert_accounts t unique in
      let rows = find_by_specs unique table.rows in
      let ids = sort_by ltb (map (λ a. a.id) rows) in
      let ensured = ensure_balance_rows ids balances in
      elim (Bool-cases (length rows == length unique)) [
        | inl e ↦
            let whole : some (table, ensured, rows) ≡ some (t', balances', found) = rw e at h in
            let parts : (table, ensured, rows) ≡ (t', balances', found) = cc in
            let keep : (id : ℕ) → balance_of id ensured ≡ balance_of id balances =
              λ id. balance_of-ensure_rows ids id balances in
            let shows =
              insert_accounts-Shows balances (balance_at t balances) t unique (sound, λ k. refl) in
            subst
              (λ (x : AccountTable × List AccountBalance × List Account).
                AccountsAreSound x.0 x.1
                × ((k : AccountKey) → balance_at x.0 x.1 k ≡ balance_at t balances k)
                × ((id : ℕ) → balance_of id x.1 ≡ balance_of id balances)
                × ((asked : List AccountSpec) × (x.2 ≡ find_by_specs asked x.0.rows))
                × ((k : AccountKey) (a : Account)
                    → find_account k x.2 ≡ some a
                    → has_balance a.id x.1 ≡ true))
              parts
              (
                (
                  shows.0.0,
                  (λ id le. keep id ∙ shows.0.1 id le),
                  (λ id barred. ap (λ x. less_than x zero_decimal) (keep id) ∙ shows.0.2 id barred),
                ),
                (λ k.
                    balance_or_zero-kept balances ensured (find_account k table.rows) keep
                    ∙ shows.1 k),
                keep,
                (unique, refl),
                (λ k a f. has_balance-ensure_rows ids a.id balances (
                    ap (λ b. b || has_balance a.id balances)
                      (any-sort_by (λ id. id == a.id) ltb (map (λ b. b.id) rows)
                        ∙ found-listed k rows a f))),
              )
        | inr e ↦ cc (rw e at h)
      ]
