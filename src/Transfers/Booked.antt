-- ===== src/Transfers/Booked.antt =====
-- What every sequence of transactions on transfers keeps of the tables and of the ledger.
use go_exchange_back.Prelude.{
  ℕ, ◌≤◌, ◌<◌, ◌≡◌, refl, sym, ap, subst, ◌∙◌, Bool, true, false, none, some, some_eq, inl, inr,
  String, ◌==◌, arith,
}
use go_exchange_back.Packages.{Packages}
use go_exchange_back.Settlement.Types.{JournalInput, IdempotencyKey, withdraw_hold_key, accepted}
use go_exchange_back.Ledger.Tables.{same_idempotency_key, Database, JournalEntry}
use go_exchange_back.Ledger.Journals.{find_entry}
use go_exchange_back.Ledger.Record.{record_journal}
use go_exchange_back.Ledger.Posts.{Posts}
use go_exchange_back.Ledger.Invariant.{LedgerIsSound}
use go_exchange_back.Ledger.Promise.{Recorded, record_journal-Recorded, record_journal-IsSound}
use go_exchange_back.Transfers.Types.{
  TransferDirection, into_exchange, out_of_exchange, other_direction, TransferOutcome, success,
  failure, pending_outcome, unknown_outcome, other_outcome, TransferRequest, TransferDatabase,
}
use go_exchange_back.Transfers.Confirm.{
  withdrawal_hold_journal, deposit_journal, withdrawal_journal, refund_journal,
  confirmation_journal,
}
use go_exchange_back.Transfers.Steps.{IsNumbered}
use go_exchange_back.Transfers.Moves.{Confirmed, Held, Moves}
use go_exchange_back.Transfers.Accept.{found_All}
use go_exchange_back.Transfers.History.{Reaches, here, later, Step-Moves}

module _ ⦃pk : Packages⦄ where
  -- No hold is recorded under a number that is still to be given out.
  unfoldable pub HoldsAreNumbered : TransferDatabase → Type 0
  HoldsAreNumbered db =
      (n : ℕ) → db.next_request_id ≤ n → find_entry (withdraw_hold_key n) db.ledger.journals ≡ none

  -- What a journal that is recorded does to the search for another key.
  other_entry :
      (db db' : Database) (input : JournalInput) (e : JournalEntry) (created : Bool)
      (key : IdempotencyKey)
      → LedgerIsSound db
      → record_journal db input ≡ accepted (db', e, created)
      → same_idempotency_key input.idempotency_key key ≡ false
      → find_entry key db'.journals ≡ find_entry key db.journals
  unfolding Recorded Posts find_entry
  other_entry db db' input e true key sound h ne =
      let (val, (absent, made, (ds, drafted, stored, js, next, sound', grows, v))) =
        record_journal-Recorded db db' input e true sound h in
      ap (find_entry key) js ∙ rw ne refl
  other_entry db db' input e false key sound h ne =
      let (val, (found, same)) = record_journal-Recorded db db' input e false sound h in
      ap (λ x. find_entry key x.journals) (sym same)

  -- The journals of a confirmation are no holds.
  confirmation-key :
      (r : TransferRequest) (ref : String) (n : ℕ) (input : JournalInput) (d : TransferDirection)
      (outcome : TransferOutcome)
      → r.direction ≡ d
      → confirmation_journal r ref outcome ≡ some (some input)
      → same_idempotency_key input.idempotency_key (withdraw_hold_key n) ≡ false
  unfolding confirmation_journal deposit_journal withdrawal_journal refund_journal
  confirmation-key r ref n input into_exchange success e h =
      let same : deposit_journal r ref ≡ input =
        some_eq (some_eq (rw (confirmation_journal, e) at h)) in
      rw (← same) refl
  confirmation-key r ref n input out_of_exchange success e h =
      let same : withdrawal_journal r ref ≡ input =
        some_eq (some_eq (rw (confirmation_journal, e) at h)) in
      rw (← same) refl
  confirmation-key r ref n input out_of_exchange failure e h =
      let same : refund_journal r ref ≡ input =
        some_eq (some_eq (rw (confirmation_journal, e) at h)) in
      rw (← same) refl
  confirmation-key r ref n input into_exchange failure e h =
      let never : none ≡ some input = some_eq (rw (confirmation_journal, e) at h) in cc
  confirmation-key r ref n input into_exchange pending_outcome e h =
      cc (rw (confirmation_journal, e) at h)
  confirmation-key r ref n input into_exchange unknown_outcome e h =
      cc (rw (confirmation_journal, e) at h)
  confirmation-key r ref n input into_exchange (other_outcome s) e h =
      cc (rw (confirmation_journal, e) at h)
  confirmation-key r ref n input out_of_exchange pending_outcome e h =
      cc (rw (confirmation_journal, e) at h)
  confirmation-key r ref n input out_of_exchange unknown_outcome e h =
      cc (rw (confirmation_journal, e) at h)
  confirmation-key r ref n input out_of_exchange (other_outcome s) e h =
      cc (rw (confirmation_journal, e) at h)
  confirmation-key r ref n input (other_direction s) outcome e h =
      cc (rw (confirmation_journal, e) at h)

  -- The ledger is sound, and the rows and the holds are numbered.
  pub record IsBooked (db : TransferDatabase) : Type 0 where
    pub sound : LedgerIsSound db.ledger
    pub rows : IsNumbered db
    pub holds : HoldsAreNumbered db

  step-IsBooked : (db db' : TransferDatabase) → IsBooked db → Moves db db' → IsBooked db'
  unfolding Moves Confirmed Held HoldsAreNumbered withdrawal_hold_journal IsNumbered
  step-IsBooked db db' b (rows, inl kept, events) = record {
    sound = subst LedgerIsSound (sym kept) b.sound;
    rows = rows.numbered b.rows;
    holds = λ n le.
        ap (λ x. find_entry (withdraw_hold_key n) x.journals) kept
        ∙ b.holds n (omega (arith, rows.next_le));
  }
  step-IsBooked db db' b
        (
          rows,
          inr (
              inl (
                r, s, ref, outcome, input, entry, created, found, st, named, handled, rec, at_s,
                ends, lists,
              )),
          events,
        ) =
      record {
        sound = record_journal-IsSound db.ledger db'.ledger input entry created b.sound rec;
        rows = rows.numbered b.rows;
        holds = λ n le.
            other_entry db.ledger db'.ledger input entry created (withdraw_hold_key n) b.sound rec
              (confirmation-key r ref n input r.direction outcome refl handled)
            ∙ b.holds n (omega (arith, rows.next_le));
      }
  step-IsBooked db db' b
        (rows, inr (inr (s, entry, created, none_before, at_s, st, dir, rec, lists)), events) =
      let m = rows.numbered b.rows in
      let below : s.id < db'.next_request_id =
        found_All (λ x. x.id < db'.next_request_id) s.id db'.requests s m at_s in
      record {
        sound =
            record_journal-IsSound db.ledger db'.ledger (withdrawal_hold_journal s) entry created
              b.sound rec;
        rows = m;
        holds = λ n le.
            let other : (s.id == n) ≡ false = ground arith in
            other_entry db.ledger db'.ledger (withdrawal_hold_journal s) entry created
              (withdraw_hold_key n) b.sound rec (rw other refl)
            ∙ b.holds n (omega (arith, rows.next_le));
      }

  -- Every sequence of transactions on transfers, from the request of a deposit or a withdrawal to its
  -- end, keeps the ledger sound, keeps the rows numbered, and records no hold for a request that is
  -- still to come.
  pub history-IsBooked : (db db' : TransferDatabase) → IsBooked db → Reaches db db' → IsBooked db'
  history-IsBooked db db' b here = b
  history-IsBooked db db' b (later {mid = mid} history step) =
      let m = history-IsBooked db mid b history in
      step-IsBooked mid db' m (Step-Moves mid db' m.rows step)
