-- ===== src/Transfers/Requested.antt =====
-- A withdrawal that is requested holds its assets once, however often the request comes.
use text.Mathlib.TextPositions.{eq_refl}
use go_exchange_back.Prelude.{
  ℕ, ◌≡◌, refl, sym, ap, ◌∙◌, Bool, true, not, none, some, String, ==_iff, arith,
}
use go_exchange_back.Packages.{Packages}
use go_exchange_back.Settlement.Types.{JournalInput, Checked, accepted, >>=-accepted, guard}
use go_exchange_back.Settlement.Journal.{validate_journal_input}
use go_exchange_back.Ledger.Tables.{Database, JournalEntry}
use go_exchange_back.Ledger.Journals.{find_entry, is_reversed, new_entry, insert_entry}
use go_exchange_back.Ledger.Record.{
  LedgerError, already_reversed, record_entry, record_journal, validated, post_journal,
}
use go_exchange_back.Transfers.Types.{
  TransferRail, bank, chain, other_rail, out_of_exchange, TransferRequest, TransferDatabase,
}
use go_exchange_back.Transfers.Requests.{find_by_user_request_key}
use go_exchange_back.Transfers.Confirm.{withdrawal_hold_journal}
use go_exchange_back.Transfers.Service.{same_rail}
use go_exchange_back.Transfers.Intake.{TransferInput, same_transfer_body, accept_withdrawal}
use go_exchange_back.Transfers.Steps.{IsSameRequest, IsNumbered, Follows}
use go_exchange_back.Transfers.Moves.{Moves}
use go_exchange_back.Transfers.Accept.{held_row, accept_withdrawal-new, insert-RowsFollow}
use go_exchange_back.Transfers.History.{Reaches, here, later, Step-Moves, Reaches-IsNumbered}
use go_exchange_back.Transfers.Booked.{HoldsAreNumbered, IsBooked}

module _ ⦃pk : Packages⦄ where
  open pk use {Decimal, less_than, less_irrefl}

  same_rail_refl : (x : TransferRail) → same_rail x x ≡ true
  same_rail_refl bank = refl
  same_rail_refl chain = refl
  same_rail_refl (other_rail s) = eq_refl s

  -- A journal whose key is new is made by the call.
  record_journal-creates :
      (db db' : Database) (input : JournalInput) (e : JournalEntry) (created : Bool)
      → find_entry input.idempotency_key db.journals ≡ none
      → record_journal db input ≡ accepted (db', e, created)
      → created ≡ true
  unfolding record_journal record_entry
  record_journal-creates db db' input e created absent h =
      let (u, val, h1) =
        >>=-accepted (validated (validate_journal_input input))
          (λ _. record_entry db input (find_entry input.idempotency_key db.journals))
          (db', e, created) h in
      let unreversed : Checked LedgerError Unit =
        guard (not (is_reversed input.reverses_journal_id db.journals)) already_reversed in
      let (v, free, h2) =
        >>=-accepted unreversed _ (db', e, created) (rw (record_entry, absent) at h1) in
      let posting : Checked LedgerError Database =
        post_journal (insert_entry db input) db.next_journal_id input.postings in
      let (posted, po, h3) = >>=-accepted posting _ (db', e, created) h2 in
      let made : (posted, new_entry db.next_journal_id input, true) ≡ (db', e, created) = cc in
      sym (ap (λ (x : Database × JournalEntry × Bool). x.2) made)

  -- A row that is still the withdrawal that was requested, with its hold.
  pub record Keeps (r s : TransferRequest) : Type 0 where
    pub request : IsSameRequest r s
    pub amount : s.amount ≡ r.amount
    pub hold : s.hold_journal_id ≡ r.hold_journal_id

  Keeps-step : (r s t : TransferRequest) → Keeps r s → Follows s t → Keeps r t
  unfolding Follows IsSameRequest
  Keeps-step r s t k (m, a, fee, h, (i, u, c, d, l, x), kept) =
      let (i', u', c', d', l', x') = k.request in
      record {
        request = (i ∙ i', u ∙ u', c ∙ c', d ∙ d', l ∙ l', x ∙ x');
        amount = a ∙ k.amount;
        hold = h ∙ k.hold;
      }

  Keeps-refl : (r : TransferRequest) → Keeps r r
  unfolding IsSameRequest
  Keeps-refl r = record {
    request = (refl, refl, refl, refl, refl, refl);
    amount = refl;
    hold = refl;
  }

  -- The row of a user's key is kept by every sequence of transactions.
  pub Reaches-Keeps :
      (db db' : TransferDatabase) (user : ℕ) (key : String) (r : TransferRequest)
      → IsNumbered db
      → Reaches db db'
      → find_by_user_request_key user key db.requests ≡ some r
      → (s : TransferRequest) × (find_by_user_request_key user key db'.requests ≡ some s)
        × Keeps r s
  unfolding Moves
  Reaches-Keeps db db' user key r n here found = (r, found, Keeps-refl r)
  Reaches-Keeps db db' user key r n (later {mid = mid} history step) found =
      let (s, at_s, keeps) = Reaches-Keeps db mid user key r n history found in
      let m = Reaches-IsNumbered db mid n history in
      let (t, at_t, follows) = (Step-Moves mid db' m step).0.by_key user key s at_s in
      (t, at_t, Keeps-step r s t keeps follows)

  -- The same input is accepted again with the row that is there.
  again_lem :
      (db : TransferDatabase) (input : TransferInput) (now : ℕ) (s : TransferRequest)
      → find_by_user_request_key input.user_id input.client_request_key db.requests ≡ some s
      → s.direction ≡ out_of_exchange
      → s.rail ≡ input.rail
      → s.asset ≡ input.asset
      → s.amount ≡ input.amount
      → accept_withdrawal input now db ≡ accepted (db, s)
  unfolding accept_withdrawal
  again_lem db input now s found d l x a =
      let body : same_transfer_body s out_of_exchange input ≡ true =
        rw (d, l, x, a, same_rail_refl input.rail, eq_refl input.asset, less_irrefl input.amount)
          refl in
      rw (accept_withdrawal, found, body) refl

  -- Take tables with a sound ledger, numbered rows and no hold recorded for a request still to come.
  -- A withdrawal that is accepted under a new key of its user has made a new journal, the hold of its
  -- amount and its fee, and its row names that journal. Whatever transactions follow, its dispatch and
  -- its settlement among them, the same input under that key is accepted again, at any time, with this
  -- row: the tables stay as they are, so that neither a request nor a journal is made then.
  pub accept_withdrawal-once :
      (input : TransferInput) (now later_on : ℕ) (db db' db'' : TransferDatabase)
      (r : TransferRequest)
      → IsBooked db
      → find_by_user_request_key input.user_id input.client_request_key db.requests ≡ none
      → accept_withdrawal input now db ≡ accepted (db', r)
      → Reaches db' db''
      → (entry : JournalEntry) × (s : TransferRequest) × (record_journal db.ledger
            (withdrawal_hold_journal r)
          ≡ accepted (db'.ledger, entry, true))
        × (accept_withdrawal input later_on db'' ≡ accepted (db'', s))
        × (s.id ≡ r.id)
        × (s.hold_journal_id ≡ some entry.id)
  unfolding HoldsAreNumbered withdrawal_hold_journal find_by_user_request_key IsSameRequest
  accept_withdrawal-once input now later_on db db' db'' r b new h history =
      let (entry, created, rec, rows, next, events, returned) =
        accept_withdrawal-new input now db db' r b.rows new h in
      let row = held_row db input now entry in
      let made : created ≡ true =
        record_journal-creates db.ledger db'.ledger (withdrawal_hold_journal row) entry created
          (b.holds db.next_request_id (omega arith)) rec in
      let follow = insert-RowsFollow db db' row b.rows refl new rows next in
      let first : find_by_user_request_key input.user_id input.client_request_key db'.requests
          ≡ some row =
        ap (find_by_user_request_key input.user_id input.client_request_key) rows
        ∙ rw ((==_iff input.user_id input.user_id).1 refl, eq_refl input.client_request_key) refl in
      let (s, at_s, keeps) =
        Reaches-Keeps db' db'' input.user_id input.client_request_key row (follow.numbered b.rows)
          history first in
      let (i, u, c, d, l, x) = keeps.request in
      (
        entry,
        s,
        ap (λ y. record_journal db.ledger (withdrawal_hold_journal y)) returned
            ∙ rec
            ∙ ap (λ b. accepted (db'.ledger, entry, b)) made,
        again_lem db'' input later_on s at_s d l x keeps.amount,
        i ∙ ap (λ (y : TransferRequest). y.id) (sym returned),
        keeps.hold,
      )
