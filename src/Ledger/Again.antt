-- ===== src/Ledger/Again.antt =====
-- A journal that is recorded once more: the stored postings give back the lines they were made
-- from, so `assertSameJournal` accepts them.
use text.Mathlib.TextPositions.{eq_refl}
use go_exchange_back.Prelude.{
  ℕ, suc, ◌<◌, ◌≡◌, refl, sym, ap, subst, ◌∙◌, true, false, Option, none, some, List, [], ◌∷◌, ◌++◌,
  map, length, filter-append, sort_by, All, ◌==◌, ==_iff, arith,
}
use go_exchange_back.Packages.{Packages}
use go_exchange_back.Settlement.Types.{IdempotencyKey, PostingInput, JournalInput, accepted}
use go_exchange_back.Settlement.Journal.{validate_journal_input}
use go_exchange_back.Ledger.Tables.{
  event_type_code, reference_type_code, idempotency_key_code, same_idempotency_key, equal_uint_ptr,
  new_account_key, AccountKey, Account, Posting, Database, JournalEntry,
}
use go_exchange_back.Ledger.Accounts.{find_account}
use go_exchange_back.Ledger.Journals.{
  find_entry, number_postings, find_postings_by_journal_id, new_entry, insert_entry,
}
use go_exchange_back.Ledger.Record.{
  input_key, PostingTuple, input_tuple, tuple_less, same_tuples, stored_tuples, same_event,
  assert_same_journal, record_entry, record_journal,
}
use go_exchange_back.Ledger.Keys.{
  Descending, same_code_refl, same_key_refl, find_account_key, account_by_id_found,
}
use go_exchange_back.Ledger.Provision.{AccountsAreSound}
use go_exchange_back.Ledger.Postings.{Drafted}
use go_exchange_back.Ledger.Posts.{Posts}
use go_exchange_back.Ledger.Invariant.{LedgerIsSound}
use go_exchange_back.Ledger.Promise.{Recorded, record_journal-Recorded}

module _ ⦃pk : Packages⦄ where
  open pk use {Decimal, less_than, less_irrefl}

  same_idempotency_key_refl : (k : IdempotencyKey) → same_idempotency_key k k ≡ true
  same_idempotency_key_refl k =
      let (tag, number, text) = idempotency_key_code k in
      rw ((==_iff tag tag).1 refl, (==_iff number number).1 refl, eq_refl text) refl

  equal_uint_ptr_refl : (a : Option ℕ) → equal_uint_ptr a a ≡ true
  unfolding equal_uint_ptr
  equal_uint_ptr_refl none = refl
  equal_uint_ptr_refl (some n) = (==_iff n n).1 refl

  same_tuples_refl : (l : List PostingTuple) → same_tuples l l ≡ true
  unfolding same_tuples
  same_tuples_refl [] = refl
  same_tuples_refl (t ∷ ts) =
      rw (same_key_refl t.account, less_irrefl t.amount, same_tuples_refl ts) refl

  same_event_new : (id : ℕ) (input : JournalInput) → same_event (new_entry id input) input ≡ true
  same_event_new id input =
      rw
        (
          same_code_refl (event_type_code input.event_type),
          same_code_refl (reference_type_code input.reference_type),
          (==_iff input.reference_id input.reference_id).1 refl,
          equal_uint_ptr_refl input.reverses_journal_id,
        )
        refl

  pub old-apart :
      (journal : ℕ) (ps : List Posting)
      → All (λ p. p.journal_id < journal) ps
      → find_postings_by_journal_id journal ps ≡ []
  old-apart journal [] h = refl
  old-apart journal (p ∷ ps) h =
      let apart : (p.journal_id == journal) ≡ false = ground (arith, h.0) in
      rw apart (old-apart journal ps h.1)

  pub new-found :
      (journal n : ℕ) (find : AccountKey → Option Account) (ps : List PostingInput)
      (ds : List Posting)
      → Drafted journal find ps ds
      → find_postings_by_journal_id journal (number_postings n ds) ≡ number_postings n ds
  unfolding Drafted number_postings
  new-found journal n find [] [] d = refl
  new-found journal n find [] (x ∷ ds) d = elim d [ ]
  new-found journal n find (p ∷ ps) [] d = elim d [ ]
  new-found journal n find (p ∷ ps) (x ∷ ds) ((a, found, same), d) =
      let own : (x.journal_id == journal) ≡ true =
        subst (λ (y : Posting). (y.journal_id == journal) ≡ true) same
          ((==_iff journal journal).1 refl) in
      rw own (ap (◌∷◌ (record x { id = n })) (new-found journal (suc n) find ps ds d))

  -- The stored postings of a new journal are those just made.
  pub stored_lem :
      (db db' : Database) (journal : ℕ) (inputs : List PostingInput) (ds : List Posting)
      → All (λ p. p.journal_id < journal) db.postings
      → db'.postings ≡ db.postings ++ number_postings db.next_posting_id ds
      → Drafted journal (λ k. find_account k db'.accounts.rows) inputs ds
      → find_postings_by_journal_id journal db'.postings ≡ number_postings db.next_posting_id ds
  stored_lem db db' journal inputs ds old stored d =
      let new = number_postings db.next_posting_id ds in
      ap (find_postings_by_journal_id journal) stored
      ∙ filter-append (λ p. p.journal_id == journal) db.postings new
      ∙ ap (λ l. l ++ find_postings_by_journal_id journal new) (old-apart journal db.postings old)
      ∙ new-found journal db.next_posting_id (λ k. find_account k db'.accounts.rows) inputs ds d

  pub stored_tuples-Drafted :
      (journal bound n : ℕ) (rows : List Account) (ps : List PostingInput) (ds : List Posting)
      → Descending bound rows
      → Drafted journal (λ k. find_account k rows) ps ds
      → (stored_tuples rows (number_postings n ds) ≡ accepted (map input_tuple ps))
        × (length (number_postings n ds) ≡ length ps)
  unfolding Drafted number_postings stored_tuples new_account_key
  stored_tuples-Drafted journal bound n rows [] [] desc d = (refl, refl)
  stored_tuples-Drafted journal bound n rows [] (x ∷ ds) desc d = elim d [ ]
  stored_tuples-Drafted journal bound n rows (p ∷ ps) [] desc d = elim d [ ]
  stored_tuples-Drafted journal bound n rows (p ∷ ps) (x ∷ ds) desc ((a, found, same), d) =
      let (rest, count) = stored_tuples-Drafted journal bound (suc n) rows ps ds desc d in
      let by_id = account_by_id_found bound (input_key p) rows a desc found in
      let key = find_account_key (input_key p) rows a found in
      let tuple : record {
        account = new_account_key a.account_type a.owner_user_id p.asset;
        amount = p.amount;
      }
          ≡ input_tuple p =
        λ i. record {
          account = record {
            account_type = (key i).account_type;
            owner_user_id = (key i).owner_user_id;
            asset = p.asset;
          };
          amount = p.amount;
        } in
      (
        subst
            (λ (y : Posting).
              stored_tuples rows (record y { id = n } ∷ number_postings (suc n) ds)
              ≡ accepted (input_tuple p ∷ map input_tuple ps))
            same (rw (by_id, rest) (ap (λ t. accepted (t ∷ map input_tuple ps)) tuple)),
        ap suc count,
      )

  assert_same_journal-again :
      (db db' : Database) (input : JournalInput)
      → LedgerIsSound db
      → Posts (insert_entry db input) db.next_journal_id input.postings db'
      → assert_same_journal db' (new_entry db.next_journal_id input) input ≡ accepted tt
  unfolding assert_same_journal LedgerIsSound Posts AccountsAreSound
  assert_same_journal-again db db' input (sound, cache, even, old)
        (ds, drafted, stored, js, next, sound', grows, view) =
      let id = db.next_journal_id in
      let new = number_postings db.next_posting_id ds in
      let found = stored_lem db db' id input.postings ds old stored drafted in
      let (tuples, count) =
        stored_tuples-Drafted id db'.accounts.next_id db.next_posting_id db'.accounts.rows
          input.postings ds sound'.0 drafted in
      rw
        (
          same_event_new id input,
          found,
          (==_iff (length new) (length input.postings)).1 count,
          tuples,
          same_tuples_refl (sort_by tuple_less (map input_tuple input.postings)),
        )
        refl

  again_lem :
      (db db' : Database) (input : JournalInput) (e : JournalEntry)
      → LedgerIsSound db
      → validate_journal_input input ≡ none
      → Recorded db input db' e true
      → record_journal db' input ≡ accepted (db', e, false)
  unfolding record_journal Recorded Posts record_entry find_entry
  again_lem db db' input e sound val
        (absent, same, (ds, drafted, stored, js, next, sound', grows, view)) =
      let posts : Posts (insert_entry db input) db.next_journal_id input.postings db' =
        (ds, drafted, stored, js, next, sound', grows, view) in
      let own : find_entry input.idempotency_key db'.journals
          ≡ some (new_entry db.next_journal_id input) =
        ap (find_entry input.idempotency_key) js
        ∙ rw (same_idempotency_key_refl input.idempotency_key) refl in
      rw (val, own, assert_same_journal-again db db' input sound posts)
        (ap (λ x. accepted (db', x, false)) (sym same))

  -- A journal that has been recorded may be sent again at once: the second call succeeds whatever
  -- the balances are, returns the journal of the first call as one that it has not made, and changes
  -- nothing.
  pub record_journal-again :
      (db db' : Database) (input : JournalInput) (e : JournalEntry)
      → LedgerIsSound db
      → record_journal db input ≡ accepted (db', e, true)
      → record_journal db' input ≡ accepted (db', e, false)
  record_journal-again db db' input e sound h =
      let (val, recorded) = record_journal-Recorded db db' input e true sound h in
      again_lem db db' input e sound val recorded
