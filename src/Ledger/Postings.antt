-- ===== src/Ledger/Postings.antt =====
-- The postings of a journal: each line has the account of its key, so the sum of an account is the
-- sum of the lines of its key; and the balances that the sums change.
use go_exchange_back.Prelude.{
  ℕ, ◌≡◌, refl, sym, ap, subst, ◌∙◌, Bool, true, false, ◌&&◌, ◌||◌, not, Option, none, some, inl,
  inr, List, [], ◌∷◌, ◌==◌, ==_iff, ltb, any, filter, map, if◌then◌else◌, Bool-cases, arith,
}
use go_exchange_back.Packages.{Packages}
use go_exchange_back.Settlement.Types.{PostingInput, accepted, >>=-accepted, or_error-accepted}
use go_exchange_back.Ledger.Tables.{AccountKey, Account, Posting, AccountBalance}
use go_exchange_back.Ledger.Accounts.{find_account, has_balance, is_locked}
use go_exchange_back.Ledger.Journals.{sum_where, delta_of, find_delta}
use go_exchange_back.Ledger.Record.{
  account_not_provisioned, input_key, new_posting, build_postings, account_ids, insert_id,
  new_delta, check_balances, is_overdrawn, allows_negative,
}
use go_exchange_back.Ledger.Provision.{balance_of}

module _ ⦃pk : Packages⦄ where
  open pk use {Decimal, zero_decimal, add, less_than}

  -- Each posting is the one of its line, in the account that some table has for the line's key.
  unfoldable pub Drafted :
      ℕ → (AccountKey → Option Account) → List PostingInput → List Posting → Type 0
  Drafted journal find [] [] = Unit
  Drafted journal find [] (d ∷ ds) = ⊥
  Drafted journal find (p ∷ ps) [] = ⊥
  Drafted journal find (p ∷ ps) (d ∷ ds) =
      ((a : Account) × (find (input_key p) ≡ some a) × (new_posting journal a p ≡ d))
      × Drafted journal find ps ds

  pub build_postings-Drafted :
      (journal : ℕ) (rows : List Account) (ps : List PostingInput) (ds : List Posting)
      → build_postings journal rows ps ≡ accepted ds
      → Drafted journal (λ k. find_account k rows) ps ds
  unfolding build_postings Drafted
  build_postings-Drafted journal rows [] ds h =
      let same : [] ≡ ds = cc in subst (Drafted journal (λ k. find_account k rows) []) same tt
  build_postings-Drafted journal rows (p ∷ ps) ds h =
      let (a, found, h1) = >>=-accepted _ _ ds h in
      let (rest, built, h2) = >>=-accepted _ _ ds h1 in
      let same : new_posting journal a p ∷ rest ≡ ds = cc in
      subst (Drafted journal (λ k. find_account k rows) (p ∷ ps)) same (
        (
          a,
          or_error-accepted (find_account (input_key p) rows) account_not_provisioned a found,
          refl,
        ),
        build_postings-Drafted journal rows ps rest built,
      )

  pub Drafted-weaken :
      (journal : ℕ) (find find' : AccountKey → Option Account)
      → ((k : AccountKey) (a : Account) → find k ≡ some a → find' k ≡ some a)
      → (ps : List PostingInput) (ds : List Posting) → Drafted journal find ps ds
      → Drafted journal find' ps ds
  unfolding Drafted
  Drafted-weaken journal find find' h [] [] d = tt
  Drafted-weaken journal find find' h [] (x ∷ ds) d = d
  Drafted-weaken journal find find' h (p ∷ ps) [] d = d
  Drafted-weaken journal find find' h (p ∷ ps) (x ∷ ds) ((a, found, same), d) =
      ((a, h (input_key p) a found, same), Drafted-weaken journal find find' h ps ds d)

  -- Tests that agree line by line give one sum.
  pub Drafted-sum :
      (journal : ℕ) (find : AccountKey → Option Account) (q : PostingInput → Bool)
      (r : Posting → Bool)
      → ((p : PostingInput) (a : Account)
          → find (input_key p) ≡ some a
          → r (new_posting journal a p) ≡ q p)
      → (acc : Decimal) (ps : List PostingInput) (ds : List Posting) → Drafted journal find ps ds
      → sum_where r (λ d. d.amount) acc ds ≡ sum_where q (λ p. p.amount) acc ps
  unfolding Drafted sum_where
  Drafted-sum journal find q r h acc [] [] d = refl
  Drafted-sum journal find q r h acc [] (x ∷ ds) d = elim d [ ]
  Drafted-sum journal find q r h acc (p ∷ ps) [] d = elim d [ ]
  Drafted-sum journal find q r h acc (p ∷ ps) (x ∷ ds) ((a, found, same), d) =
      let head : (if r x then add acc x.amount else acc) ≡ (if q p then add acc p.amount else acc) =
        subst
          (λ (y : Posting).
            (if r y then add acc y.amount else acc) ≡ (if q p then add acc p.amount else acc))
          same (ap (λ b. if b then add acc p.amount else acc) (h p a found)) in
      ap (λ c. sum_where r (λ y. y.amount) c ds) head
      ∙ Drafted-sum journal find q r h (if q p then add acc p.amount else acc) ps ds d

  any-insert_id : (f : ℕ → Bool) (i : ℕ) (js : List ℕ) → any f (insert_id i js) ≡ (f i || any f js)
  unfolding insert_id
  any-insert_id f i [] = refl
  any-insert_id f i (j ∷ js) = elim (Bool-cases (ltb i j)) [
    | inl e ↦ rw e refl
    | inr e ↦ elim (Bool-cases (ltb j i)) [
      | inl d ↦ rw (e, d) (ap (◌||◌ (f j)) (any-insert_id f i js) ∙ or_swap (f j) (f i) (any f js))
      | inr d ↦ let same : i ≡ j = ground arith in rw (e, d, same) (sym (or_same (f j) (any f js)))
    ]
  ]
    where
      or_swap : (a b c : Bool) → (a || (b || c)) ≡ (b || (a || c))
      or_swap true true c = refl
      or_swap true false c = refl
      or_swap false true c = refl
      or_swap false false c = refl

      or_same : (a b : Bool) → (a || (a || b)) ≡ (a || b)
      or_same true b = refl
      or_same false b = refl

  pub any-account_ids :
      (f : ℕ → Bool) (ds : List Posting) → any f (account_ids ds) ≡ any (λ d. f d.account_id) ds
  unfolding account_ids
  any-account_ids f [] = refl
  any-account_ids f (d ∷ ds) =
      any-insert_id f d.account_id (account_ids ds)
      ∙ ap (◌||◌ (f d.account_id)) (any-account_ids f ds)

  pub find-new_delta :
      (ds : List Posting) (id : ℕ) (ids : List ℕ)
      → find_delta id (map (new_delta ds) ids)
        ≡ (if any (λ i. i == id) ids then some (new_delta ds id) else none)
  unfolding find_delta
  find-new_delta ds id [] = refl
  find-new_delta ds id (i ∷ ids) = elim (Bool-cases (i == id)) [
    | inl e ↦ let same : i ≡ id = (==_iff i id).0 e in rw (e, same) refl
    | inr e ↦ rw e (find-new_delta ds id ids)
  ]

  -- A locked row that is not overdrawn is not after the postings either.
  pub check_balances-lem :
      (ds : List Posting) (rows : List Account) (locked : List AccountBalance)
      → check_balances ds rows locked ≡ none
      → any (is_overdrawn ds rows) locked ≡ false
  unfolding check_balances
  check_balances-lem ds rows [] h = refl
  check_balances-lem ds rows (r ∷ rs) h = elim (Bool-cases (is_overdrawn ds rows r)) [
    | inl e ↦ cc (rw e at h)
    | inr e ↦ rw e (check_balances-lem ds rows rs (rw e at h))
  ]

  pub balance-not_overdrawn :
      (ds : List Posting) (rows : List Account) (ids : List ℕ) (id : ℕ) (bs : List AccountBalance)
      → any (is_overdrawn ds rows) (filter (is_locked ids) bs) ≡ false
      → any (λ i. i == id) ids ≡ true
      → has_balance id bs ≡ true
      → (less_than (add (balance_of id bs) (delta_of id ds)) zero_decimal
          && not (allows_negative id rows))
        ≡ false
  unfolding balance_of
  balance-not_overdrawn ds rows ids id [] h a b = cc
  balance-not_overdrawn ds rows ids id (r ∷ bs) h a b = elim (Bool-cases (r.account_id == id)) [
    | inl e ↦
        let same : r.account_id ≡ id = (==_iff r.account_id id).0 e in
        elim (Bool-cases (is_overdrawn ds rows r)) [
          | inl o ↦
              let locked : is_locked ids r ≡ true = ap (λ x. any (λ i. i == x) ids) same ∙ a in
              cc (rw (locked, o) at h)
          | inr o ↦ rw e (rw same at o)
        ]
    | inr e ↦ elim (Bool-cases (is_locked ids r)) [
      | inl l ↦ elim (Bool-cases (is_overdrawn ds rows r)) [
        | inl o ↦ cc (rw (l, o) at h)
        | inr o ↦ rw e (balance-not_overdrawn ds rows ids id bs (rw (l, o) at h) a (rw e at b))
      ]
      | inr l ↦ rw e (balance-not_overdrawn ds rows ids id bs (rw l at h) a (rw e at b))
    ]
  ]
