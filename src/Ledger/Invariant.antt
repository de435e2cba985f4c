-- ===== src/Ledger/Invariant.antt =====
-- The invariant of the ledger, and what `Record` promises: the abstract ledger is a balance under
-- every account key, to which a new journal adds its lines.
use text.Mathlib.Text.{◌==◌ as str_eq}
use go_exchange_back.Prelude.{
  ℕ, suc, ◌+◌, ◌<◌, ◌≡◌, refl, sym, ap, subst, ◌∙◌, Bool, true, Option, String, List, [], ◌∷◌, ◌++◌,
  All, All-append, All-map, ltb, length, ◌==◌,
}
use go_exchange_back.Packages.{Packages}
use go_exchange_back.Settlement.Types.{
  PostingInput, accepted, >>=-accepted, or_error-accepted, unless_error-accepted, guard,
}
use go_exchange_back.Settlement.Journal.{balances}
use go_exchange_back.Ledger.Tables.{AccountKey, Account, Posting, Database}
use go_exchange_back.Ledger.Accounts.{find_account}
use go_exchange_back.Ledger.Journals.{sum_where, delta_of, number_postings}
use go_exchange_back.Ledger.Record.{
  accounts_not_ensured, balances_not_locked, no_postings, deltas_not_applied, post_journal,
}
use go_exchange_back.Ledger.Sums.{
  sum_where_first, sum_where-append, delta_of-number_postings, sum_from-where, balances-all,
}
use go_exchange_back.Ledger.Provision.{balance_of, AccountsAreSound}
use go_exchange_back.Ledger.Postings.{Drafted, Drafted-sum}
use go_exchange_back.Ledger.Posts.{Posts, posts_lem}

module _ ⦃pk : Packages⦄ where
  open pk use {Decimal, zero_decimal, add, less_than, zero-add}

  pub post_journal-Posts :
      (db db' : Database) (journal : ℕ) (inputs : List PostingInput)
      → AccountsAreSound db.accounts db.balances
      → post_journal db journal inputs ≡ accepted db'
      → Posts db journal inputs db'
  unfolding post_journal
  post_journal-Posts db db' journal inputs sound h =
      let ((table, before, found), en, h1) = >>=-accepted _ _ db' h in
      let (ds, bu, h2) = >>=-accepted _ _ db' h1 in
      let (locked, lo, h3) = >>=-accepted _ _ db' h2 in
      let (u, ch, h4) = >>=-accepted _ _ db' h3 in
      let (v, gu, h5) = >>=-accepted (guard (ltb 0 (length ds)) no_postings) _ db' h4 in
      let (after, up, h6) = >>=-accepted _ _ db' h5 in
      let same : (record db {
        accounts = table;
        balances = after;
        postings = db.postings ++ number_postings db.next_posting_id ds;
        next_posting_id = db.next_posting_id + length (number_postings db.next_posting_id ds);
      })
          ≡ db' =
        cc in
      subst (Posts db journal inputs) same (
        posts_lem db journal inputs table before locked after found ds sound
          (or_error-accepted _ accounts_not_ensured _ en) bu
          (or_error-accepted _ balances_not_locked _ lo) (unless_error-accepted _ u ch)
          (or_error-accepted _ deltas_not_applied _ up))

  abbrev pub asset_total : String → List Posting → Decimal
  asset_total asset ps = sum_where (λ p. str_eq p.asset asset) (λ p. p.amount) zero_decimal ps

  -- The accounts are sound and no barred account is overdrawn; every cached balance is the sum of
  -- the account's postings; the postings of each asset add up to zero; and the postings belong to
  -- journals that are there.
  unfoldable pub LedgerIsSound : Database → Type 0
  LedgerIsSound db =
      AccountsAreSound db.accounts db.balances
      × ((id : ℕ) → balance_of id db.balances ≡ delta_of id db.postings)
      × ((asset : String) → asset_total asset db.postings ≡ zero_decimal)
      × All (λ p. p.journal_id < db.next_journal_id) db.postings

  Drafted-journal :
      (journal next n : ℕ) (find : AccountKey → Option Account) (ps : List PostingInput)
      (ds : List Posting)
      → Drafted journal find ps ds
      → journal < next
      → All (λ p. p.journal_id < next) (number_postings n ds)
  unfolding Drafted number_postings
  Drafted-journal journal next n find [] [] d h = tt
  Drafted-journal journal next n find [] (x ∷ ds) d h = elim d [ ]
  Drafted-journal journal next n find (p ∷ ps) [] d h = elim d [ ]
  Drafted-journal journal next n find (p ∷ ps) (x ∷ ds) ((a, found, same), d) h = (
    subst (λ (y : Posting). y.journal_id < next) same h,
    Drafted-journal journal next (suc n) find ps ds d h,
  )

  sum_appended :
      (p : Posting → Bool) (n : ℕ) (old ds : List Posting)
      → ((i : ℕ) (x : Posting) → p (record x { id = i }) ≡ p x)
      → sum_where p (λ x. x.amount) zero_decimal (old ++ number_postings n ds)
        ≡ add
            (sum_where p (λ x. x.amount) zero_decimal old)
            (sum_where p (λ x. x.amount) zero_decimal ds)
  sum_appended p n old ds h =
      sum_where-append p (λ x. x.amount) zero_decimal old (number_postings n ds)
      ∙ sum_where_first p (λ x. x.amount) (sum_where p (λ x. x.amount) zero_decimal old)
          (number_postings n ds)
      ∙ ap (add (sum_where p (λ x. x.amount) zero_decimal old))
          (delta_of-number_postings p zero_decimal n ds h)

  -- Posting a balanced journal under a new number keeps the ledger sound.
  pub post_journal-IsSound :
      (db db' : Database) (journal : ℕ) (inputs : List PostingInput)
      → LedgerIsSound db
      → balances inputs inputs ≡ true
      → journal < db.next_journal_id
      → Posts db journal inputs db'
      → LedgerIsSound db'
  unfolding LedgerIsSound Posts
  post_journal-IsSound db db' journal inputs (sound, cache, even, numbered) bal lt
        (ds, drafted, stored, js, next, sound', grows, view) =
      (
        sound',
        (λ id.
            grows id
            ∙ ap (λ x. add x (delta_of id ds)) (cache id)
            ∙ sym (
                sum_appended (λ p. p.account_id == id) db.next_posting_id db.postings ds
                  (λ i x. refl))
            ∙ ap (delta_of id) (sym stored)),
        (λ asset.
            let q : Posting → Bool = λ p. str_eq p.asset asset in
            let new : sum_where q (λ x. x.amount) zero_decimal ds ≡ zero_decimal =
              Drafted-sum journal (λ k. find_account k db'.accounts.rows)
                (λ p. str_eq p.asset asset) q (λ p a f. refl) zero_decimal inputs ds drafted
              ∙ sym (sum_from-where asset zero_decimal inputs)
              ∙ balances-all asset inputs bal in
            ap (asset_total asset) stored
            ∙ sum_appended q db.next_posting_id db.postings ds (λ i x. refl)
            ∙ ap (λ x. add x (sum_where q (λ y. y.amount) zero_decimal ds)) (even asset)
            ∙ zero-add _
            ∙ new),
        subst (All (λ p. p.journal_id < db'.next_journal_id)) (sym stored) (
            All-append (λ p. p.journal_id < db'.next_journal_id) db.postings
              (number_postings db.next_posting_id ds)
              (All-map (λ (p : Posting) h. subst (λ n. p.journal_id < n) (sym next) h) db.postings
                numbered)
              (Drafted-journal journal db'.next_journal_id db.next_posting_id
                (λ k. find_account k db'.accounts.rows) inputs ds drafted
                (subst (λ n. journal < n) (sym next) lt))),
      )
