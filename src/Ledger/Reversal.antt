-- ===== src/Ledger/Reversal.antt =====
-- `Reverse`: the opposite lines bring every balance back.
use go_exchange_back.Prelude.{
  ℕ, suc, ◌≡◌, refl, sym, ap, ◌∙◌, Bool, true, false, none, some, List, [], ◌∷◌, length, ltb,
  if◌then◌else◌,
}
use go_exchange_back.Packages.{Packages}
use go_exchange_back.Packages.Laws.{add-cancel}
use go_exchange_back.Settlement.Types.{
  PostingInput, JournalInput, reversal_key, Checked, accepted, >>=-accepted, guard, or_error,
  or_error-accepted,
}
use go_exchange_back.Settlement.Balance.{add-zero}
use go_exchange_back.Ledger.Tables.{
  new_account_key, AccountKey, same_key, Account, Posting, Database, JournalEntry,
}
use go_exchange_back.Ledger.Accounts.{key_of, find_account}
use go_exchange_back.Ledger.Journals.{
  sum_where, find_entry, find_entry_by_id, number_postings, find_postings_by_journal_id,
}
use go_exchange_back.Ledger.Record.{
  LedgerError, account_missing, journal_not_found, nothing_to_reverse, input_key, account_by_id,
  opposite_postings, reversal_journal, record_journal, reverse_journal,
}
use go_exchange_back.Ledger.Keys.{Descending, find_account_key, account_by_id_found}
use go_exchange_back.Ledger.Provision.{AccountsAreSound}
use go_exchange_back.Ledger.Postings.{Drafted}
use go_exchange_back.Ledger.Posts.{Posts, posted}
use go_exchange_back.Ledger.Invariant.{LedgerIsSound}
use go_exchange_back.Ledger.Promise.{
  view, Recorded, record_journal-Recorded, record_journal-IsSound,
}
use go_exchange_back.Ledger.Again.{stored_lem}

module _ ⦃pk : Packages⦄ where
  open pk use {Decimal, zero_decimal, add, neg, neg-add, zero-add, add_comm, add_assoc}

  neg-zero : neg zero_decimal ≡ zero_decimal
  neg-zero = sym (add-zero (neg zero_decimal)) ∙ neg-add zero_decimal

  pub add-neg_self : (a b : Decimal) → add (add a b) (neg b) ≡ a
  add-neg_self a b = add_assoc a b (neg b) ∙ rw (add_comm b (neg b), neg-add b) (add-zero a)

  neg-add_both : (a b : Decimal) → neg (add a b) ≡ add (neg a) (neg b)
  neg-add_both a b = add-cancel (neg (add a b)) (add (neg a) (neg b)) (add a b) (
      neg-add (add a b)
      ∙ sym (neg-add a)
      ∙ ap (λ x. add x a)
          (sym (add-neg_self (neg a) b)
            ∙ add_assoc (neg a) b (neg b)
            ∙ ap (add (neg a)) (add_comm b (neg b))
            ∙ sym (add_assoc (neg a) (neg b) b))
      ∙ add_assoc (add (neg a) (neg b)) b a
      ∙ ap (add (add (neg a) (neg b))) (add_comm b a))

  opposite-head :
      (b : Bool) (acc a : Decimal)
      → (if b then add (neg acc) (neg a) else neg acc) ≡ neg (if b then add acc a else acc)
  opposite-head true acc a = sym (neg-add_both acc a)
  opposite-head false acc a = refl

  -- The opposite lines have the same keys and the opposite sums.
  opposite-sum :
      (journal bound n : ℕ) (rows : List Account) (k : AccountKey) (acc : Decimal)
      (ps lines : List PostingInput) (ds : List Posting)
      → Descending bound rows
      → Drafted journal (λ j. find_account j rows) ps ds
      → opposite_postings rows (number_postings n ds) ≡ accepted lines
      → sum_where (λ p. same_key (input_key p) k) (λ p. p.amount) (neg acc) lines
        ≡ neg (sum_where (λ p. same_key (input_key p) k) (λ p. p.amount) acc ps)
  unfolding Drafted number_postings opposite_postings sum_where new_account_key
  opposite-sum journal bound n rows k acc [] lines [] desc d h =
      let same : [] ≡ lines = cc in
      ap (sum_where (λ p. same_key (input_key p) k) (λ p. p.amount) (neg acc)) (sym same)
  opposite-sum journal bound n rows k acc [] lines (x ∷ ds) desc d h = elim d [ ]
  opposite-sum journal bound n rows k acc (p ∷ ps) lines [] desc d h = elim d [ ]
  opposite-sum journal bound n rows k acc (p ∷ ps) lines (x ∷ ds) desc ((a, found, same), d) h =
      let by_id = account_by_id_found bound (input_key p) rows a desc found in
      let key = find_account_key (input_key p) rows a found in
      let (b, fb, h1) = >>=-accepted _ _ lines h in
      let (rest, fr, h2) =
        >>=-accepted (opposite_postings rows (number_postings (suc n) ds)) _ lines h1 in
      let at_x : account_by_id x.account_id rows ≡ some b =
        or_error-accepted _ (account_missing x.account_id) b fb in
      let found_both : some a ≡ some b =
        sym by_id ∙ ap (λ (y : Posting). account_by_id y.account_id rows) same ∙ at_x in
      let accounts : b ≡ a = cc in
      let own : key_of b ≡ input_key p = ap key_of accounts ∙ key in
      let line : PostingInput = record {
        account_type = b.account_type;
        owner_user_id = b.owner_user_id;
        asset = x.asset;
        amount = neg x.amount;
      } in
      let keys : input_key line ≡ input_key p = λ i. record {
        account_type = (own i).account_type;
        owner_user_id = (own i).owner_user_id;
        asset = (sym same i).asset;
      } in
      let listed : lines ≡ line ∷ rest = cc in
      let next : Decimal = if same_key (input_key p) k then add acc p.amount else acc in
      let head : (if same_key (input_key line) k then add (neg acc) line.amount else neg acc)
          ≡ neg next =
        ap (λ j. if same_key j k then add (neg acc) (neg x.amount) else neg acc) keys
        ∙ ap
            (λ (y : Posting).
              if same_key (input_key p) k then add (neg acc) (neg y.amount) else neg acc)
            (sym same)
        ∙ opposite-head (same_key (input_key p) k) acc p.amount in
      ap (sum_where (λ q. same_key (input_key q) k) (λ q. q.amount) (neg acc)) listed
      ∙ ap (λ c. sum_where (λ q. same_key (input_key q) k) (λ q. q.amount) c rest) head
      ∙ opposite-sum journal bound (suc n) rows k next ps rest ds desc d fr

  reversed-view :
      (db db1 db2 : Database) (input : JournalInput) (lines : List PostingInput) (k : AccountKey)
      → view db1 k ≡ add (view db k) (posted k input.postings)
      → view db2 k ≡ add (view db1 k) (posted k lines)
      → posted k lines ≡ neg (posted k input.postings)
      → view db2 k ≡ view db k
  reversed-view db db1 db2 input lines k one two opp =
      two
      ∙ ap (λ x. add x (posted k lines)) one
      ∙ ap (add (add (view db k) (posted k input.postings))) opp
      ∙ add-neg_self (view db k) (posted k input.postings)

  reversal-view :
      (db db' : Database) (input : JournalInput) (r : JournalEntry) (created : Bool)
      (k : AccountKey)
      → find_entry input.idempotency_key db.journals ≡ none
      → Recorded db input db' r created
      → view db' k ≡ add (view db k) (posted k input.postings)
  unfolding Recorded Posts
  reversal-view db db' input r true k fresh (f, same, (ds, d, s, j, n, a, g, shows)) = shows k
  reversal-view db db' input r false k fresh (f, same) = cc

  -- What a reversal that finds no earlier reversal records.
  reverse_journal-lem :
      (db db' : Database) (id : ℕ) (r : JournalEntry) (created : Bool)
      → LedgerIsSound db
      → find_entry (reversal_key id) db.journals ≡ none
      → reverse_journal db id ≡ accepted (db', r, created)
      → (lines : List PostingInput) × (opposite_postings db.accounts.rows
            (find_postings_by_journal_id id db.postings)
          ≡ accepted lines)
        × ((k : AccountKey) → view db' k ≡ add (view db k) (posted k lines))
  unfolding reverse_journal Recorded Posts
  reverse_journal-lem db db' id r created sound fresh h =
      let looked : Checked LedgerError JournalEntry =
        or_error (find_entry_by_id id db.journals) journal_not_found in
      let (source, fs, h1) = >>=-accepted looked _ (db', r, created) h in
      let stored = find_postings_by_journal_id id db.postings in
      let some_lines : Checked LedgerError Unit =
        guard (ltb 0 (length stored)) nothing_to_reverse in
      let (u, some_there, h2) = >>=-accepted some_lines _ (db', r, created) h1 in
      let (lines, fl, h3) =
        >>=-accepted (opposite_postings db.accounts.rows stored) _ (db', r, created) h2 in
      let input = reversal_journal source id lines in
      let recorded = record_journal-Recorded db db' input r created sound h3 in
      (lines, fl, λ k. reversal-view db db' input r created k fresh recorded.1)

  -- Reversing a journal right after it was recorded, where it has no reversal yet, brings the
  -- balance under every account key back to what it was before the journal.
  pub reverse_journal-record_journal :
      (db db1 db2 : Database) (input : JournalInput) (e r : JournalEntry) (created : Bool)
      (k : AccountKey)
      → LedgerIsSound db
      → record_journal db input ≡ accepted (db1, e, true)
      → find_entry (reversal_key e.id) db1.journals ≡ none
      → reverse_journal db1 e.id ≡ accepted (db2, r, created)
      → view db2 k ≡ view db k
  unfolding Recorded Posts LedgerIsSound AccountsAreSound
  reverse_journal-record_journal db db1 db2 input e r created k sound h fresh rev =
      let (val, (absent, same, (ds, drafted, stored, js, next, sound1, grows, shows))) =
        record_journal-Recorded db db1 input e true sound h in
      let ids : e.id ≡ db.next_journal_id = ap (λ x. x.id) same in
      let (lines, fl, after) =
        reverse_journal-lem db1 db2 e.id r created
          (record_journal-IsSound db db1 input e true sound h) fresh rev in
      let (s0, s1, s2, old) = sound in
      let found : find_postings_by_journal_id e.id db1.postings
          ≡ number_postings db.next_posting_id ds =
        ap (λ i. find_postings_by_journal_id i db1.postings) ids
        ∙ stored_lem db db1 db.next_journal_id input.postings ds old stored drafted in
      let opp : posted k lines ≡ neg (posted k input.postings) =
        ap (λ c. sum_where (λ p. same_key (input_key p) k) (λ p. p.amount) c lines) (sym neg-zero)
        ∙ opposite-sum db.next_journal_id db1.accounts.next_id db.next_posting_id db1.accounts.rows
            k zero_decimal input.postings lines ds sound1.0 drafted
            (ap (opposite_postings db1.accounts.rows) (sym found) ∙ fl) in
      reversed-view db db1 db2 input lines k (shows k) (after k) opp
