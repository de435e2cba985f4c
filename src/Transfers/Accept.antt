-- ===== src/Transfers/Accept.antt =====
-- What the transactions that accept a request do: rows that are there stay, and a new withdrawal
-- holds its assets.
use text.Mathlib.Text.{◌==◌ as str_eq}
use text.Mathlib.TextEquality.{eq_iff}
use go_exchange_back.Prelude.{
  ℕ, suc, ◌<◌, ◌≡◌, refl, sym, ap, subst, ◌∙◌, Bool, true, false, none, some, inl, inr, String,
  List, [], ◌∷◌, ◌==◌, ==_iff, arith, any, map, All, All-map, Bool-cases, Option-cases,
}
use go_exchange_back.Packages.{Packages}
use go_exchange_back.Settlement.Types.{accepted, ◌>>=◌, >>=-accepted, or_error, or_error-accepted}
use go_exchange_back.Ledger.Tables.{JournalEntry}
use go_exchange_back.Ledger.Record.{record_journal}
use go_exchange_back.Transfers.Types.{
  into_exchange, out_of_exchange, TransferRequest, TransferDatabase,
}
use go_exchange_back.Transfers.Requests.{
  find_request, find_by_user_request_key, anything, with_hold, set_hold_journal,
}
use go_exchange_back.Transfers.Confirm.{withdrawal_hold_journal}
use go_exchange_back.Transfers.Service.{TransferError, no_row_affected, record_in}
use go_exchange_back.Transfers.Intake.{
  TransferInput, same_transfer_body, candidate, insert_request, accept_deposit, accept_withdrawal,
}
use go_exchange_back.Transfers.Steps.{
  update_request-lem, update_request-next, updated_row, IsNumbered, RowsFollow, Follows-refl,
}
use go_exchange_back.Transfers.Moves.{find_request-id, Held, Moves, Moves-refl}
use go_exchange_back.Transfers.Resolve.{record_in-accepted}

module _ ⦃pk : Packages⦄ where
  pub found_All :
      (P : TransferRequest → Type 0) (i : ℕ) (rs : List TransferRequest) (r : TransferRequest)
      → All P rs
      → find_request i rs ≡ some r
      → P r
  unfolding find_request
  found_All P i [] r h e = cc
  found_All P i (x ∷ rs) r h e = elim (Bool-cases (x.id == i)) [
    | inl a ↦ let found : some x ≡ some r = rw a at e in let row : x ≡ r = cc in subst P row h.0
    | inr a ↦ found_All P i rs r h.1 (rw a at e)
  ]

  -- No row has a number that is still to be given out.
  pub fresh :
      (db : TransferDatabase) → IsNumbered db → find_request db.next_request_id db.requests ≡ none
  unfolding IsNumbered
  fresh db h = elim (Option-cases (find_request db.next_request_id db.requests)) [
    | inl e ↦ e
    | inr (r, e) ↦
        let below : r.id < db.next_request_id =
          found_All (λ x. x.id < db.next_request_id) db.next_request_id db.requests r h e in
        let own = find_request-id db.next_request_id db.requests r e in absurd (omega arith)
  ]

  -- A new row under a new number and a new key hides no other.
  pub insert-RowsFollow :
      (db db' : TransferDatabase) (row : TransferRequest)
      → IsNumbered db
      → row.id ≡ db.next_request_id
      → find_by_user_request_key row.user_id row.client_request_key db.requests ≡ none
      → db'.requests ≡ row ∷ db.requests
      → db'.next_request_id ≡ suc db.next_request_id
      → RowsFollow db db'
  unfolding IsNumbered find_request find_by_user_request_key
  insert-RowsFollow db db' row numbered id_new key_new rows next = record {
    by_id = λ i r found. (r, ap (find_request i) rows ∙ at_id i r found, Follows-refl r);
    by_key = λ user key r found.
        (r, ap (find_by_user_request_key user key) rows ∙ at_key user key r found, Follows-refl r);
    next_le = omega (arith, next);
    numbered = λ n.
        rw (rows, next)
          (
            omega arith,
            All-map {P = λ (r : TransferRequest). r.id < db.next_request_id}
                (λ (r : TransferRequest) (h : r.id < db.next_request_id). omega arith) db.requests
                n,
          );
  }
    where
      at_id :
          (i : ℕ) (r : TransferRequest)
          → find_request i db.requests ≡ some r
          → find_request i (row ∷ db.requests) ≡ some r
      at_id i r found = elim (Bool-cases (row.id == i)) [
        | inl e ↦
            let below : r.id < db.next_request_id =
              found_All (λ x. x.id < db.next_request_id) i db.requests r numbered found in
            let own = find_request-id i db.requests r found in
            let same = (==_iff row.id i).0 e in absurd (omega arith)
        | inr e ↦ rw e found
      ]

      at_key :
          (user : ℕ) (key : String) (r : TransferRequest)
          → find_by_user_request_key user key db.requests ≡ some r
          → find_by_user_request_key user key (row ∷ db.requests) ≡ some r
      at_key user key r found = elim (Bool-cases (row.user_id == user)) [
        | inl a ↦ elim (Bool-cases (str_eq row.client_request_key key)) [
          | inl b ↦
              let users : row.user_id ≡ user = (==_iff row.user_id user).0 a in
              let keys : row.client_request_key ≡ key = (eq_iff row.client_request_key key).0 b in
              let absent : find_by_user_request_key user key db.requests ≡ none =
                rw (users, keys) at key_new in
              cc
          | inr b ↦ rw (a, b) found
        ]
        | inr a ↦ rw a found
      ]

  pub accept_deposit-Moves :
      (input : TransferInput) (now : ℕ) (db db' : TransferDatabase) (r : TransferRequest)
      → IsNumbered db
      → accept_deposit input now db ≡ accepted (db', r)
      → Moves db db'
  unfolding accept_deposit Moves
  accept_deposit-Moves input now db db' r numbered h =
      let row = candidate db.next_request_id into_exchange input now in
      elim (Option-cases
        (find_by_user_request_key input.user_id input.client_request_key db.requests)) [
          | inl e ↦
              let whole : accepted (insert_request db row, row) ≡ accepted (db', r) =
                rw (accept_deposit, e) at h in
              let same : (insert_request db row, row) ≡ (db', r) = cc in
              subst (λ (x : TransferDatabase × TransferRequest). Moves db x.0) same
                (
                  insert-RowsFollow db (insert_request db row) row numbered refl e refl refl,
                  inl refl,
                  λ key k. k,
                )
          | inr (old, e) ↦ elim (Bool-cases (same_transfer_body old into_exchange input)) [
            | inl b ↦
                let whole : accepted (db, old) ≡ accepted (db', r) =
                  rw (accept_deposit, e, b) at h in
                let same : (db, old) ≡ (db', r) = cc in
                subst (λ (x : TransferDatabase × TransferRequest). Moves db x.0) same
                  (Moves-refl db)
            | inr b ↦ cc (rw (accept_deposit, e, b) at h)
          ]
        ]

  -- The row of a new withdrawal, with its hold.
  abbrev pub held_row : TransferDatabase → TransferInput → ℕ → JournalEntry → TransferRequest
  held_row db input now entry =
      with_hold entry.id (candidate db.next_request_id out_of_exchange input now)

  other_rows :
      (n : ℕ) (f : TransferRequest → TransferRequest) (rs : List TransferRequest)
      → All (λ r. r.id < n) rs
      → map (updated_row n anything f) rs ≡ rs
  other_rows n f [] h = refl
  other_rows n f (x ∷ rs) h =
      let below : x.id < n = h.0 in
      let other : (x.id == n) ≡ false = ground arith in rw (other, other_rows n f rs h.1) refl

  -- A withdrawal that is accepted under a new key: its hold and its row.
  pub accept_withdrawal-new :
      (input : TransferInput) (now : ℕ) (db db' : TransferDatabase) (r : TransferRequest)
      → IsNumbered db
      → find_by_user_request_key input.user_id input.client_request_key db.requests ≡ none
      → accept_withdrawal input now db ≡ accepted (db', r)
      → (entry : JournalEntry) × (created : Bool) × (record_journal db.ledger
            (withdrawal_hold_journal (held_row db input now entry))
          ≡ accepted (db'.ledger, entry, created))
        × (db'.requests ≡ held_row db input now entry ∷ db.requests)
        × (db'.next_request_id ≡ suc db.next_request_id)
        × (db'.events ≡ db.events)
        × (r ≡ candidate db.next_request_id out_of_exchange input now)
  unfolding accept_withdrawal withdrawal_hold_journal IsNumbered
  accept_withdrawal-new input now db db' r numbered new h =
      let row = candidate db.next_request_id out_of_exchange input now in
      let chain_ : (record_in (insert_request db row) (withdrawal_hold_journal row)
            >>= λ (held : TransferDatabase × JournalEntry).
                or_error {E = TransferError} (set_hold_journal row.id held.1.id held.0)
                  no_row_affected
                >>= λ done. accepted (done, row))
          ≡ accepted (db', r) =
        rw (accept_withdrawal, new) at h in
      let ((held, entry), fh, h1) =
        >>=-accepted (record_in (insert_request db row) (withdrawal_hold_journal row)) _ (db', r)
          chain_ in
      let (done, fd, h2) =
        >>=-accepted
          (or_error {E = TransferError} (set_hold_journal row.id entry.id held) no_row_affected)
          (λ d. accepted (d, row)) (db', r) h1 in
      let same : (done, row) ≡ (db', r) = cc in
      let dbs : done ≡ db' = ap (λ (x : TransferDatabase × TransferRequest). x.0) same in
      let (created, rec, rows, events, next) =
        record_in-accepted (insert_request db row) held (withdrawal_hold_journal row) entry fh in
      let up = or_error-accepted {E = TransferError} _ no_row_affected done fd in
      let (ledger, es, new_rows) =
        update_request-lem row.id anything (with_hold entry.id) held done up in
      let change = updated_row row.id anything (with_hold entry.id) in
      let own : change row ≡ held_row db input now entry =
        rw ((==_iff db.next_request_id db.next_request_id).1 refl) refl in
      (
        entry,
        created,
        rec
            ∙ ap (λ l. accepted (l, entry, created))
                (sym ledger ∙ ap (λ (x : TransferDatabase). x.ledger) dbs),
        ap (λ (x : TransferDatabase). x.requests) (sym dbs)
            ∙ new_rows
            ∙ ap (map change) rows
            ∙ ap (λ x. x ∷ map change db.requests) own
            ∙ ap (λ rs. held_row db input now entry ∷ rs)
                (other_rows db.next_request_id (with_hold entry.id) db.requests numbered),
        ap (λ (x : TransferDatabase). x.next_request_id) (sym dbs)
            ∙ update_request-next row.id anything (with_hold entry.id) held done up
            ∙ next,
        ap (λ (x : TransferDatabase). x.events) (sym dbs) ∙ es ∙ events,
        ap (λ (x : TransferDatabase × TransferRequest). x.1) (sym same),
      )

  pub accept_withdrawal-Moves :
      (input : TransferInput) (now : ℕ) (db db' : TransferDatabase) (r : TransferRequest)
      → IsNumbered db
      → accept_withdrawal input now db ≡ accepted (db', r)
      → Moves db db'
  unfolding accept_withdrawal Moves Held find_request
  accept_withdrawal-Moves input now db db' r numbered h =
      elim (Option-cases
        (find_by_user_request_key input.user_id input.client_request_key db.requests)) [
          | inl e ↦
              let (entry, created, rec, rows, next, events, returned) =
                accept_withdrawal-new input now db db' r numbered e h in
              let row = held_row db input now entry in
              (
                insert-RowsFollow db db' row numbered refl e rows next,
                inr (
                    inr (
                      row,
                      entry,
                      created,
                      fresh db numbered,
                      ap (find_request db.next_request_id) rows
                          ∙ rw ((==_iff db.next_request_id db.next_request_id).1 refl) refl,
                      refl,
                      refl,
                      rec,
                      refl,
                    )),
                λ key k. subst (λ es. any (λ x. str_eq x.event_key key) es ≡ true) (sym events) k,
              )
          | inr (old, e) ↦ elim (Bool-cases (same_transfer_body old out_of_exchange input)) [
            | inl b ↦
                let whole : accepted (db, old) ≡ accepted (db', r) =
                  rw (accept_withdrawal, e, b) at h in
                let same : (db, old) ≡ (db', r) = cc in
                subst (λ (x : TransferDatabase × TransferRequest). Moves db x.0) same
                  (Moves-refl db)
            | inr b ↦ cc (rw (accept_withdrawal, e, b) at h)
          ]
        ]
