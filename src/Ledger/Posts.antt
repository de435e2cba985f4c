-- ===== src/Ledger/Posts.antt =====
-- What `Record` does after it has inserted a journal: the postings are stored, and the balances
-- under all account keys grow by the lines of the journal.
use go_exchange_back.Prelude.{
  ℕ, suc, ◌+◌, ◌≤◌, ◌≡◌, refl, sym, ap, subst, ◌∙◌, true, false, Option, none, some, inl, inr, List,
  [], ◌∷◌, ◌++◌, ◌==◌, ==_iff, any, map, length, Bool-cases, arith,
}
use go_exchange_back.Packages.{Packages}
use go_exchange_back.Settlement.Types.{PostingInput, accepted}
use go_exchange_back.Ledger.Tables.{
  AccountKey, same_key, Account, AccountTable, Posting, AccountBalance, Database,
}
use go_exchange_back.Ledger.Accounts.{find_account, has_balance, ensure_accounts, lock_balances}
use go_exchange_back.Ledger.Journals.{sum_where, delta_of, number_postings, apply_balance_deltas}
use go_exchange_back.Ledger.Record.{
  input_key, spec_of, build_postings, account_ids, balance_deltas, check_balances, allows_negative,
}
use go_exchange_back.Ledger.Keys.{
  Descending, same_key_refl, same_key_lem, same_id-same_key, find_account-below, find_account_found,
  allows_negative-found,
}
use go_exchange_back.Ledger.Sums.{sum_where_none, delta_of-number_postings}
use go_exchange_back.Ledger.Provision.{
  balance_of, balance_at, balance_or_zero, AccountsAreSound, ensure_accounts-Provides,
}
use go_exchange_back.Ledger.Postings.{
  Drafted, build_postings-Drafted, Drafted-weaken, Drafted-sum, any-account_ids,
}
use go_exchange_back.Ledger.Updates.{has_posting, balance_of-updated, locked-solvent, delta_of-none}

module _ ⦃pk : Packages⦄ where
  open pk use {Decimal, zero_decimal, add, less_than, zero-add}

  -- What the lines of one account add up to.
  abbrev pub posted : AccountKey → List PostingInput → Decimal
  posted k ps = sum_where (λ p. same_key (input_key p) k) (λ p. p.amount) zero_decimal ps

  has_posting-found :
      (journal id : ℕ) (find : AccountKey → Option Account) (ps : List PostingInput)
      (ds : List Posting)
      → Drafted journal find ps ds
      → any (λ d. d.account_id == id) ds ≡ true
      → (k : AccountKey) × (a : Account) × (find k ≡ some a) × (a.id ≡ id)
  unfolding Drafted
  has_posting-found journal id find [] [] d h = cc
  has_posting-found journal id find [] (x ∷ ds) d h = elim d [ ]
  has_posting-found journal id find (p ∷ ps) [] d h = elim d [ ]
  has_posting-found journal id find (p ∷ ps) (x ∷ ds) ((a, found, same), d) h =
      elim (Bool-cases (x.account_id == id)) [
        | inl e ↦
            let ids : x.account_id ≡ id = (==_iff x.account_id id).0 e in
            (input_key p, a, found, ap (λ (y : Posting). y.account_id) same ∙ ids)
        | inr e ↦ has_posting-found journal id find ps ds d (rw e at h)
      ]

  unposted :
      (journal : ℕ) (find : AccountKey → Option Account) (k : AccountKey) (ps : List PostingInput)
      (ds : List Posting)
      → Drafted journal find ps ds
      → find k ≡ none
      → any (λ p. same_key (input_key p) k) ps ≡ false
  unfolding Drafted
  unposted journal find k [] ds d h = refl
  unposted journal find k (p ∷ ps) [] d h = elim d [ ]
  unposted journal find k (p ∷ ps) (x ∷ ds) ((a, found, same), d) h =
      elim (Bool-cases (same_key (input_key p) k)) [
        | inl e ↦ let key : input_key p ≡ k = same_key_lem (input_key p) k e in cc (rw key at found)
        | inr e ↦ rw e (unposted journal find k ps ds d h)
      ]

  account_ids-number :
      (n : ℕ) (ds : List Posting) → account_ids (number_postings n ds) ≡ account_ids ds
  unfolding account_ids number_postings
  account_ids-number n [] = refl
  account_ids-number n (d ∷ ds) = rw (account_ids-number (suc n) ds) refl

  pub delta_of-number :
      (id n : ℕ) (ds : List Posting) → delta_of id (number_postings n ds) ≡ delta_of id ds
  delta_of-number id n ds =
      delta_of-number_postings (λ d. d.account_id == id) zero_decimal n ds (λ i x. refl)

  -- The postings of an account are the lines of its key.
  delta_of-posted :
      (journal n : ℕ) (rows : List Account) (k : AccountKey) (a : Account) (ps : List PostingInput)
      (ds : List Posting)
      → Descending n rows
      → find_account k rows ≡ some a
      → Drafted journal (λ j. find_account j rows) ps ds
      → delta_of a.id ds ≡ posted k ps
  delta_of-posted journal n rows k a ps ds desc found d =
      Drafted-sum journal (λ j. find_account j rows) (λ p. same_key (input_key p) k)
        (λ x. x.account_id == a.id)
        (λ p b at_key. elim (Bool-cases (same_key (input_key p) k)) [
          | inl e ↦
              let key : input_key p ≡ k = same_key_lem (input_key p) k e in
              let both : some b ≡ some a = sym at_key ∙ ap (λ j. find_account j rows) key ∙ found in
              let accounts : b ≡ a = cc in (==_iff b.id a.id).1 (ap (λ x. x.id) accounts) ∙ sym e
          | inr e ↦ elim (Bool-cases (b.id == a.id)) [
            | inl s ↦
                let key : input_key p ≡ k =
                  same_id-same_key n (input_key p) k rows b a desc at_key found
                    ((==_iff b.id a.id).0 s) in
                let yes_key : same_key (input_key p) k ≡ true =
                  ap (λ j. same_key j k) key ∙ same_key_refl k in
                cc
            | inr s ↦ s ∙ sym e
          ]
        ])
        zero_decimal ps ds d

  -- The tables after a journal's lines are posted.
  unfoldable pub Posts : Database → ℕ → List PostingInput → Database → Type 0
  Posts db journal inputs db' =
      (ds : List Posting) × Drafted journal (λ k. find_account k db'.accounts.rows) inputs ds
      × (db'.postings ≡ db.postings ++ number_postings db.next_posting_id ds)
      × (db'.journals ≡ db.journals)
      × (db'.next_journal_id ≡ db.next_journal_id)
      × AccountsAreSound db'.accounts db'.balances
      × ((id : ℕ) → balance_of id db'.balances ≡ add (balance_of id db.balances) (delta_of id ds))
      × ((k : AccountKey)
          → balance_at db'.accounts db'.balances k
            ≡ add (balance_at db.accounts db.balances k) (posted k inputs))

  view-posted :
      (journal n : ℕ) (rows : List Account) (k : AccountKey) (ps : List PostingInput)
      (ds : List Posting) (before after : List AccountBalance) (o : Option Account)
      → Descending n rows
      → find_account k rows ≡ o
      → Drafted journal (λ j. find_account j rows) ps ds
      → ((id : ℕ) → balance_of id after ≡ add (balance_of id before) (delta_of id ds))
      → balance_or_zero after o ≡ add (balance_or_zero before o) (posted k ps)
  view-posted journal n rows k ps ds before after none desc found d h = sym (
      ap (add zero_decimal) (
        sum_where_none (λ p. same_key (input_key p) k) (λ p. p.amount) zero_decimal ps
          (unposted journal (λ j. find_account j rows) k ps ds d found))
      ∙ zero-add zero_decimal)
  view-posted journal n rows k ps ds before after (some a) desc found d h =
      h a.id
      ∙ ap (add (balance_of a.id before)) (delta_of-posted journal n rows k a ps ds desc found d)

  -- From sound accounts, each part of the posting in turn.
  pub posts_lem :
      (db : Database) (journal : ℕ) (inputs : List PostingInput) (table : AccountTable)
      (before locked after : List AccountBalance) (found : List Account) (ds : List Posting)
      → AccountsAreSound db.accounts db.balances
      → ensure_accounts db.accounts db.balances (map spec_of inputs) ≡ some (table, before, found)
      → build_postings journal found inputs ≡ accepted ds
      → lock_balances (account_ids ds) before ≡ some locked
      → check_balances ds found locked ≡ none
      → apply_balance_deltas (balance_deltas (number_postings db.next_posting_id ds)) before
        ≡ some after
      → Posts db journal inputs (record db {
        accounts = table;
        balances = after;
        postings = db.postings ++ number_postings db.next_posting_id ds;
        next_posting_id = db.next_posting_id + length (number_postings db.next_posting_id ds);
      })
  unfolding Posts AccountsAreSound has_posting
  posts_lem db journal inputs table before locked after found ds sound en bu lo ch ap_ =
      let (sound', view, same, asked, has) =
        ensure_accounts-Provides db.accounts table db.balances before (map spec_of inputs) found
          sound en in
      let created = number_postings db.next_posting_id ds in
      let near = build_postings-Drafted journal found inputs ds bu in
      let known : (id : ℕ) → has_posting id ds ≡ true → has_balance id before ≡ true = λ id e.
        let (k, a, f, i) =
          has_posting-found journal id (λ k. find_account k found) inputs ds near
            (sym (any-account_ids (λ j. j == id) ds) ∙ e) in
        subst (λ x. has_balance x before ≡ true) i (has k a f) in
      let full =
        Drafted-weaken journal (λ k. find_account k found) (λ k. find_account k table.rows)
          (λ k a f.
            find_account_found asked.0 k table.rows a (ap (find_account k) (sym asked.1) ∙ f))
          inputs ds near in
      let none_fresh : (id : ℕ) → table.next_id ≤ id → has_posting id ds ≡ false = λ id le.
        elim (Bool-cases (has_posting id ds)) [
          | inl e ↦
              let (k, a, f, i) =
                has_posting-found journal id (λ k. find_account k table.rows) inputs ds full
                  (sym (any-account_ids (λ j. j == id) ds) ∙ e) in
              let below = find_account-below table.next_id k table.rows a sound'.0 f in
              absurd (omega arith)
          | inr e ↦ e
        ] in
      let grows : (id : ℕ) → balance_of id after ≡ add (balance_of id before) (delta_of id ds) =
        λ id.
          balance_of-updated id created before after
            (λ e.
              known id
                (ap (any (λ i. i == id)) (sym (account_ids-number db.next_posting_id ds)) ∙ e))
            ap_
          ∙ ap (add (balance_of id before)) (delta_of-number id db.next_posting_id ds) in
      (
        ds,
        full,
        refl,
        refl,
        refl,
        (
          sound'.0,
          (λ id le.
              grows id
              ∙ ap (λ x. add x (delta_of id ds)) (sound'.1 id le)
              ∙ zero-add (delta_of id ds)
              ∙ delta_of-none id ds (none_fresh id le)),
          (λ id barred.
              ap (λ x. less_than x zero_decimal) (grows id)
              ∙ locked-solvent id ds found before locked lo ch (known id) (sound'.2 id barred) (
                  ap (allows_negative id) asked.1
                  ∙ allows_negative-found table.next_id id asked.0 table.rows sound'.0 barred)),
        ),
        (λ id. grows id ∙ ap (λ x. add x (delta_of id ds)) (same id)),
        (λ k.
            view-posted journal table.next_id table.rows k inputs ds before after
              (find_account k table.rows) sound'.0 refl full grows
            ∙ ap (λ x. add x (posted k inputs)) (view k)),
      )
