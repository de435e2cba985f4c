-- ===== src/Ledger/Promise.antt =====
-- What `Record` promises of the abstract ledger, a balance under every account key.
use go_exchange_back.Prelude.{
  ◌<◌, ◌≡◌, refl, sym, ap, subst, ◌∙◌, Bool, true, false, not, Option, none, some, List, [], ◌∷◌,
  All-map, if◌then◌else◌, arith,
}
use go_exchange_back.Packages.{Packages}
use go_exchange_back.Settlement.Types.{
  PostingInput, JournalInput, Checked, accepted, >>=-accepted, guard,
}
use go_exchange_back.Settlement.Journal.{JournalError, validate_journal_input}
use go_exchange_back.Ledger.Tables.{AccountKey, same_key, Posting, Database, JournalEntry}
use go_exchange_back.Ledger.Journals.{sum_where, find_entry, is_reversed, new_entry, insert_entry}
use go_exchange_back.Ledger.Record.{
  LedgerError, already_reversed, input_key, assert_same_journal, record_entry, record_journal,
  validated,
}
use go_exchange_back.Ledger.Sums.{sum_where_first, valid-balances}
use go_exchange_back.Ledger.Provision.{balance_at}
use go_exchange_back.Ledger.Posts.{Posts, posted}
use go_exchange_back.Ledger.Invariant.{LedgerIsSound, post_journal-Posts, post_journal-IsSound}

module _ ⦃pk : Packages⦄ where
  open pk use {Decimal, zero_decimal, add}

  abbrev pub view : Database → AccountKey → Decimal
  view db k = balance_at db.accounts db.balances k

  -- The abstract ledger: every line in turn is added under its key.
  unfoldable pub add_lines : List PostingInput → (AccountKey → Decimal) → AccountKey → Decimal
  add_lines [] v k = v k
  add_lines (p ∷ ps) v k =
      add_lines ps (λ j. if same_key (input_key p) j then add (v j) p.amount else v j) k

  add_lines-sum :
      (ps : List PostingInput) (v : AccountKey → Decimal) (k : AccountKey)
      → add_lines ps v k ≡ sum_where (λ p. same_key (input_key p) k) (λ p. p.amount) (v k) ps
  unfolding add_lines sum_where
  add_lines-sum [] v k = refl
  add_lines-sum (p ∷ ps) v k =
      add_lines-sum ps (λ j. if same_key (input_key p) j then add (v j) p.amount else v j) k

  pub add_lines_lem :
      (ps : List PostingInput) (v : AccountKey → Decimal) (k : AccountKey)
      → add_lines ps v k ≡ add (v k) (posted k ps)
  add_lines_lem ps v k =
      add_lines-sum ps v k
      ∙ sum_where_first (λ p. same_key (input_key p) k) (λ p. p.amount) (v k) ps

  pub validated-accepted :
      (o : Option JournalError) (u : Unit) → validated o ≡ accepted u → o ≡ none
  validated-accepted none u h = refl
  validated-accepted (some e) u h = cc

  -- A call that is accepted either finds the key and changes nothing, or posts a new journal.
  unfoldable pub Recorded : Database → JournalInput → Database → JournalEntry → Bool → Type 0
  Recorded db input db' e true =
      (find_entry input.idempotency_key db.journals ≡ none)
      × (e ≡ new_entry db.next_journal_id input)
      × Posts (insert_entry db input) db.next_journal_id input.postings db'
  Recorded db input db' e false =
      (find_entry input.idempotency_key db.journals ≡ some e) × (db ≡ db')

  record_entry-Recorded :
      (db db' : Database) (input : JournalInput) (e : JournalEntry) (created : Bool)
      (o : Option JournalEntry)
      → LedgerIsSound db
      → find_entry input.idempotency_key db.journals ≡ o
      → record_entry db input o ≡ accepted (db', e, created)
      → Recorded db input db' e created
  unfolding record_entry Recorded LedgerIsSound
  record_entry-Recorded db db' input e created none sound f h =
      let unreversed : Checked LedgerError Unit =
        guard (not (is_reversed input.reverses_journal_id db.journals)) already_reversed in
      let (u, free, h1) = >>=-accepted unreversed _ (db', e, created) h in
      let (posted_db, po, h2) = >>=-accepted _ _ (db', e, created) h1 in
      let posts =
        post_journal-Posts (insert_entry db input) posted_db db.next_journal_id input.postings
          sound.0 po in
      let same : (posted_db, new_entry db.next_journal_id input, true) ≡ (db', e, created) = cc in
      subst (λ (x : Database × JournalEntry × Bool). Recorded db input x.0 x.1 x.2) same
        (f, refl, posts)
  record_entry-Recorded db db' input e created (some old) sound f h =
      let (u, fine, h1) = >>=-accepted (assert_same_journal db old input) _ (db', e, created) h in
      let same : (db, old, false) ≡ (db', e, created) = cc in
      subst (λ (x : Database × JournalEntry × Bool). Recorded db input x.0 x.1 x.2) same (f, refl)

  pub record_journal-Recorded :
      (db db' : Database) (input : JournalInput) (e : JournalEntry) (created : Bool)
      → LedgerIsSound db
      → record_journal db input ≡ accepted (db', e, created)
      → (validate_journal_input input ≡ none) × Recorded db input db' e created
  unfolding record_journal
  record_journal-Recorded db db' input e created sound h =
      let (u, val, h1) = >>=-accepted _ _ (db', e, created) h in
      (
        validated-accepted _ u val,
        record_entry-Recorded db db' input e created (find_entry input.idempotency_key db.journals)
            sound refl h1,
      )

  inserted-IsSound :
      (db : Database) (input : JournalInput)
      → LedgerIsSound db
      → LedgerIsSound (insert_entry db input)
  unfolding LedgerIsSound
  inserted-IsSound db input (sound, cache, even, numbered) = (
    sound,
    cache,
    even,
    All-map (λ (p : Posting) (h : p.journal_id < db.next_journal_id). omega arith) db.postings
        numbered,
  )

  record_entry-IsSound :
      (db db' : Database) (input : JournalInput) (e : JournalEntry) (created : Bool)
      → LedgerIsSound db
      → validate_journal_input input ≡ none
      → Recorded db input db' e created
      → LedgerIsSound db'
  unfolding Recorded
  record_entry-IsSound db db' input e true sound val (f, same, posts) =
      post_journal-IsSound (insert_entry db input) db' db.next_journal_id input.postings
        (inserted-IsSound db input sound) (valid-balances input val) (omega arith) posts
  record_entry-IsSound db db' input e false sound val (f, same) = subst LedgerIsSound same sound

  -- `Record` keeps the ledger sound: every cached balance stays the sum of its account's postings,
  -- the postings of each asset still add up to zero, and no account that may not go negative does.
  pub record_journal-IsSound :
      (db db' : Database) (input : JournalInput) (e : JournalEntry) (created : Bool)
      → LedgerIsSound db
      → record_journal db input ≡ accepted (db', e, created)
      → LedgerIsSound db'
  record_journal-IsSound db db' input e created sound h =
      let (val, recorded) = record_journal-Recorded db db' input e created sound h in
      record_entry-IsSound db db' input e created sound val recorded

  record_entry-view :
      (db db' : Database) (input : JournalInput) (e : JournalEntry) (created : Bool)
      (k : AccountKey)
      → Recorded db input db' e created
      → view db' k ≡ (if created then add_lines input.postings (view db) k else view db k)
  unfolding Recorded Posts
  record_entry-view db db' input e true k (f, same, (ds, d, s, j, n, a, g, shows)) =
      shows k ∙ sym (add_lines_lem input.postings (view db) k)
  record_entry-view db db' input e false k (f, same) = ap (λ x. view x k) (sym same)

  -- `Record` implements the abstract ledger: on a sound ledger a call that makes a journal adds each
  -- of its lines to the balance under the line's account key and leaves every other key as it was,
  -- accounts that are made on the way included; a call that finds the journal changes no balance.
  pub record_journal-refines :
      (db db' : Database) (input : JournalInput) (e : JournalEntry) (created : Bool)
      (k : AccountKey)
      → LedgerIsSound db
      → record_journal db input ≡ accepted (db', e, created)
      → view db' k ≡ (if created then add_lines input.postings (view db) k else view db k)
  record_journal-refines db db' input e created k sound h =
      record_entry-view db db' input e created k
        (record_journal-Recorded db db' input e created sound h).1
