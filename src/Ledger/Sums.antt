-- ===== src/Ledger/Sums.antt =====
-- The sums of amounts that satisfy a test: a first amount is added at the end, and lists that agree
-- line by line have one sum.
use text.Mathlib.Text.{◌==◌ as str_eq}
use text.Mathlib.TextEquality.{eq_iff}
use go_exchange_back.Prelude.{
  ℕ, suc, ◌≡◌, refl, sym, ap, subst, ◌∙◌, Bool, true, false, none, inl, inr, String, List, [], ◌∷◌,
  ◌++◌, any, if◌then◌else◌, Bool-cases, arith,
}
use go_exchange_back.Packages.{Packages}
use go_exchange_back.Settlement.Types.{PostingInput, JournalInput}
use go_exchange_back.Settlement.Journal.{is_zero, sum_from, balances, validate_journal_input}
use go_exchange_back.Settlement.Balance.{add-zero}
use go_exchange_back.Ledger.Tables.{Posting}
use go_exchange_back.Ledger.Journals.{sum_where, number_postings}

module _ ⦃pk : Packages⦄ where
  open pk use {
    Decimal, zero_decimal, add, neg, less_than, less_total, add_comm, add_assoc, zero-add,
  }

  pub sum_where_first :
      {A : Type 0} (p : A → Bool) (amount : A → Decimal) (acc : Decimal) (l : List A)
      → sum_where p amount acc l ≡ add acc (sum_where p amount zero_decimal l)
  unfolding sum_where
  sum_where_first p amount acc [] = sym (add-zero acc)
  sum_where_first p amount acc (x ∷ xs) = elim (Bool-cases (p x)) [
    | inl e ↦
        let one = sum_where_first p amount (add acc (amount x)) xs in
        let two = sum_where_first p amount (amount x) xs in
        rw e (
          one
          ∙ add_assoc acc (amount x) (sum_where p amount zero_decimal xs)
          ∙ ap (add acc) (sym two ∙ ap (λ a. sum_where p amount a xs) (sym (zero-add (amount x)))))
    | inr e ↦ rw e (sum_where_first p amount acc xs)
  ]

  pub sum_where-append :
      {A : Type 0} (p : A → Bool) (amount : A → Decimal) (acc : Decimal) (l m : List A)
      → sum_where p amount acc (l ++ m) ≡ sum_where p amount (sum_where p amount acc l) m
  unfolding sum_where
  sum_where-append p amount acc [] m = refl
  sum_where-append p amount acc (x ∷ xs) m =
      sum_where-append p amount (if p x then add acc (amount x) else acc) xs m

  pub sum_where_none :
      {A : Type 0} (p : A → Bool) (amount : A → Decimal) (acc : Decimal) (l : List A)
      → any p l ≡ false
      → sum_where p amount acc l ≡ acc
  unfolding sum_where
  sum_where_none p amount acc [] h = refl
  sum_where_none p amount acc (x ∷ xs) h = elim (Bool-cases (p x)) [
    | inl e ↦ cc (rw e at h)
    | inr e ↦ rw e (sum_where_none p amount acc xs (rw e at h))
  ]

  pub delta_of-number_postings :
      (p : Posting → Bool) (acc : Decimal) (n : ℕ) (l : List Posting)
      → ((i : ℕ) (x : Posting) → p (record x { id = i }) ≡ p x)
      → sum_where p (λ x. x.amount) acc (number_postings n l) ≡ sum_where p (λ x. x.amount) acc l
  unfolding sum_where number_postings
  delta_of-number_postings p acc n [] h = refl
  delta_of-number_postings p acc n (x ∷ xs) h =
      ap
        (λ b.
          sum_where p (λ y. y.amount) (if b then add acc x.amount else acc)
            (number_postings (suc n) xs))
        (h n x)
      ∙ delta_of-number_postings p (if p x then add acc x.amount else acc) (suc n) xs h

  -- The sums of validation are sums of this kind.
  pub sum_from-where :
      (k : String) (acc : Decimal) (l : List PostingInput)
      → sum_from k acc l ≡ sum_where (λ p. str_eq p.asset k) (λ p. p.amount) acc l
  unfolding sum_from sum_where
  sum_from-where k acc [] = refl
  sum_from-where k acc (p ∷ ps) =
      sum_from-where k (if str_eq p.asset k then add acc p.amount else acc) ps

  is_zero_lem : (a : Decimal) → is_zero a ≡ true → a ≡ zero_decimal
  is_zero_lem a h = elim (Bool-cases (less_than a zero_decimal)) [
    | inl e ↦ cc (rw e at h)
    | inr e ↦ elim (Bool-cases (less_than zero_decimal a)) [
      | inl d ↦ cc (rw (e, d) at h)
      | inr d ↦ less_total a zero_decimal e d
    ]
  ]

  pub balances-sum :
      (k : String) (all l : List PostingInput)
      → balances all l ≡ true
      → any (λ p. str_eq p.asset k) l ≡ true
      → sum_from k zero_decimal all ≡ zero_decimal
  unfolding balances
  balances-sum k all [] h a = cc
  balances-sum k all (p ∷ ps) h a =
      elim (Bool-cases (is_zero (sum_from p.asset zero_decimal all))) [
        | inl z ↦ elim (Bool-cases (str_eq p.asset k)) [
          | inl e ↦
              let same : p.asset ≡ k = (eq_iff p.asset k).0 e in
              subst (λ x. sum_from x zero_decimal all ≡ zero_decimal) same (is_zero_lem _ z)
          | inr e ↦ balances-sum k all ps (rw z at h) (rw e at a)
        ]
        | inr z ↦ cc (rw z at h)
      ]

  -- In a journal that balances, every text has the sum zero.
  pub balances-all :
      (k : String) (l : List PostingInput)
      → balances l l ≡ true
      → sum_from k zero_decimal l ≡ zero_decimal
  balances-all k l h = elim (Bool-cases (any (λ p. str_eq p.asset k) l)) [
    | inl e ↦ balances-sum k l l h e
    | inr e ↦
        sum_from-where k zero_decimal l
        ∙ sum_where_none (λ p. str_eq p.asset k) (λ p. p.amount) zero_decimal l e
  ]

  pub valid-balances :
      (input : JournalInput)
      → validate_journal_input input ≡ none
      → balances input.postings input.postings ≡ true
  unfolding validate_journal_input
  valid-balances input h = ground arith
