-- ===== src/Transfers/Steps.antt =====
-- The transfers as a state machine: what each operation does to the rows of the requests, and what
-- stays true along any sequence of operations.
use text.Mathlib.Text.{◌==◌ as str_eq}
use go_exchange_back.Prelude.{
  ◌<◌, ◌≤◌, arith, String, All, ℕ, ◌≡◌, refl, sym, ap, ◌∙◌, Bool, true, ◌&&◌, some, inl, inr, ◌⊎◌,
  List, [], ◌∷◌, ◌==◌, any, map, if◌then◌else◌, Bool-cases,
}
use go_exchange_back.Packages.{Packages}
use go_exchange_back.Transfers.Types.{
  TransferStatus, received, processing, completed, failed, other_status, status_is_terminal,
  TransferRequest, TransferDatabase,
}
use go_exchange_back.Transfers.Requests.{find_request, update_request, find_by_user_request_key}

module _ ⦃pk : Packages⦄ where
  -- A row that an update with a condition may have changed.
  abbrev pub updated_row :
      ℕ
      → (TransferRequest → Bool)
      → (TransferRequest → TransferRequest)
      → TransferRequest
      → TransferRequest
  updated_row id p f r = if r.id == id && p r then f r else r

  pub find-updated :
      (i id : ℕ) (p : TransferRequest → Bool) (f : TransferRequest → TransferRequest)
      (rs : List TransferRequest) (r : TransferRequest)
      → ((x : TransferRequest) → (f x).id ≡ x.id)
      → find_request i rs ≡ some r
      → find_request i (map (updated_row id p f) rs) ≡ some (updated_row id p f r)
  unfolding find_request
  find-updated i id p f [] r keeps h = cc
  find-updated i id p f (x ∷ rs) r keeps h =
      let same_id : (updated_row id p f x).id ≡ x.id = elim (Bool-cases (x.id == id && p x)) [
        | inl e ↦ rw e (keeps x)
        | inr e ↦ rw e refl
      ] in
      elim (Bool-cases (x.id == i)) [
        | inl e ↦
            let found : some x ≡ some r = rw e at h in
            let row : x ≡ r = cc in rw (same_id, e) (ap (λ y. some (updated_row id p f y)) row)
        | inr e ↦ rw (same_id, e) (find-updated i id p f rs r keeps (rw e at h))
      ]

  pub update_request-lem :
      (id : ℕ) (p : TransferRequest → Bool) (f : TransferRequest → TransferRequest)
      (db db' : TransferDatabase)
      → update_request id p f db ≡ some db'
      → (db'.ledger ≡ db.ledger)
        × (db'.events ≡ db.events)
        × (db'.requests ≡ map (updated_row id p f) db.requests)
  unfolding update_request
  update_request-lem id p f db db' h =
      elim (Bool-cases (any (λ r. r.id == id && p r) db.requests)) [
        | inl e ↦
            let whole : some (record db { requests = map (updated_row id p f) db.requests })
                ≡ some db' =
              rw e at h in
            let same : record db { requests = map (updated_row id p f) db.requests } ≡ db' = cc in
            (
              ap (λ x. x.ledger) (sym same),
              ap (λ x. x.events) (sym same),
              ap (λ x. x.requests) (sym same),
            )
        | inr e ↦ cc (rw e at h)
      ]

  -- What may follow on a status.
  unfoldable pub MayFollow : TransferStatus → TransferStatus → Type 0
  MayFollow received s = (s ≡ received) ⊎ (s ≡ processing)
  MayFollow processing s = (s ≡ processing) ⊎ (status_is_terminal s ≡ true)
  MayFollow t s = s ≡ t

  -- What a user has requested.
  unfoldable pub IsSameRequest : TransferRequest → TransferRequest → Type 0
  IsSameRequest r s =
      (s.id ≡ r.id)
      × (s.user_id ≡ r.user_id)
      × (s.client_request_key ≡ r.client_request_key)
      × (s.direction ≡ r.direction)
      × (s.rail ≡ r.rail)
      × (s.asset ≡ r.asset)

  pub IsSameRequest-refl : (r : TransferRequest) → IsSameRequest r r
  unfolding IsSameRequest
  IsSameRequest-refl r = (refl, refl, refl, refl, refl, refl)

  -- A row after an operation: its status may have moved on, what was requested is kept, and a
  -- terminal row has kept its status, its external reference and its journals.
  unfoldable pub Follows : TransferRequest → TransferRequest → Type 0
  Follows r s =
      MayFollow r.status s.status
      × (s.amount ≡ r.amount)
      × (s.fee_amount ≡ r.fee_amount)
      × (s.hold_journal_id ≡ r.hold_journal_id)
      × IsSameRequest r s
      × (status_is_terminal r.status ≡ true
          → (s.resolution_journal_id ≡ r.resolution_journal_id) × (s.external_ref ≡ r.external_ref))

  -- Every id of a row has been given out: the ids of new rows are new.
  unfoldable pub IsNumbered : TransferDatabase → Type 0
  IsNumbered db = All (λ r. r.id < db.next_request_id) db.requests

  -- Every row is still there, under its id and under the key of its user, and follows on the row
  -- before; and rows stay numbered.
  pub record RowsFollow (db db' : TransferDatabase) : Type 0 where
    pub by_id :
        (i : ℕ) (r : TransferRequest)
        → find_request i db.requests ≡ some r
        → (s : TransferRequest) × (find_request i db'.requests ≡ some s) × Follows r s
    pub by_key :
        (user : ℕ) (key : String) (r : TransferRequest)
        → find_by_user_request_key user key db.requests ≡ some r
        → (s : TransferRequest) × (find_by_user_request_key user key db'.requests ≡ some s)
          × Follows r s
    pub numbered : IsNumbered db → IsNumbered db'
    pub next_le : db.next_request_id ≤ db'.next_request_id

  MayFollow-refl : (s : TransferStatus) → MayFollow s s
  unfolding MayFollow
  MayFollow-refl received = inl refl
  MayFollow-refl processing = inl refl
  MayFollow-refl completed = refl
  MayFollow-refl failed = refl
  MayFollow-refl (other_status s) = refl

  pub Follows-refl : (r : TransferRequest) → Follows r r
  unfolding Follows
  Follows-refl r =
      (MayFollow-refl r.status, refl, refl, refl, IsSameRequest-refl r, λ t. (refl, refl))

  pub RowsFollow-refl : (db : TransferDatabase) → RowsFollow db db
  RowsFollow-refl db = record {
    by_id = λ i r h. (r, h, Follows-refl r);
    by_key = λ user key r h. (r, h, Follows-refl r);
    numbered = λ h. h;
    next_le = omega arith;
  }

  -- Rows are looked up by what an operation leaves alone.
  pub RowsFollow-same :
      (db mid db' : TransferDatabase)
      → mid.requests ≡ db.requests
      → mid.next_request_id ≡ db.next_request_id
      → RowsFollow mid db'
      → RowsFollow db db'
  unfolding IsNumbered
  RowsFollow-same db mid db' rows next h = record {
    by_id = λ i r found. h.by_id i r (ap (find_request i) rows ∙ found);
    by_key = λ user key r found.
        h.by_key user key r (ap (find_by_user_request_key user key) rows ∙ found);
    numbered = λ n. h.numbered (rw (rows, next) n);
    next_le = omega (arith, next, h.next_le);
  }

  updated_row-id :
      (id : ℕ) (p : TransferRequest → Bool) (f : TransferRequest → TransferRequest)
      (r : TransferRequest)
      → ((x : TransferRequest) → (f x).id ≡ x.id)
      → (updated_row id p f r).id ≡ r.id
  updated_row-id id p f r keeps = elim (Bool-cases (r.id == id && p r)) [
    | inl e ↦ rw e (keeps r)
    | inr e ↦ rw e refl
  ]

  pub numbered-updated :
      (n id : ℕ) (p : TransferRequest → Bool) (f : TransferRequest → TransferRequest)
      (rs : List TransferRequest)
      → ((x : TransferRequest) → (f x).id ≡ x.id)
      → All (λ r. r.id < n) rs
      → All (λ r. r.id < n) (map (updated_row id p f) rs)
  numbered-updated n id p f [] keeps h = tt
  numbered-updated n id p f (x ∷ rs) keeps h =
      (rw (updated_row-id id p f x keeps) h.0, numbered-updated n id p f rs keeps h.1)

  -- The row of a user's key, where an update leaves users and keys alone.
  pub find-updated_key :
      (user : ℕ) (key : String) (id : ℕ) (p : TransferRequest → Bool)
      (f : TransferRequest → TransferRequest) (rs : List TransferRequest) (r : TransferRequest)
      → ((x : TransferRequest)
          → (f x).user_id ≡ x.user_id × ((f x).client_request_key ≡ x.client_request_key))
      → find_by_user_request_key user key rs ≡ some r
      → find_by_user_request_key user key (map (updated_row id p f) rs)
        ≡ some (updated_row id p f r)
  unfolding find_by_user_request_key
  find-updated_key user key id p f [] r keeps h = cc
  find-updated_key user key id p f (x ∷ rs) r keeps h =
      let same_user : (updated_row id p f x).user_id ≡ x.user_id =
        elim (Bool-cases (x.id == id && p x)) [ inl e ↦ rw e (keeps x).0 | inr e ↦ rw e refl ] in
      let same_key : (updated_row id p f x).client_request_key ≡ x.client_request_key =
        elim (Bool-cases (x.id == id && p x)) [ inl e ↦ rw e (keeps x).1 | inr e ↦ rw e refl ] in
      elim (Bool-cases (x.user_id == user && str_eq x.client_request_key key)) [
        | inl e ↦
            let found : some x ≡ some r = rw e at h in
            let row : x ≡ r = cc in
            rw (same_user, same_key, e) (ap (λ y. some (updated_row id p f y)) row)
        | inr e ↦
            rw (same_user, same_key, e) (find-updated_key user key id p f rs r keeps (rw e at h))
      ]

  pub update_request-next :
      (id : ℕ) (p : TransferRequest → Bool) (f : TransferRequest → TransferRequest)
      (db db' : TransferDatabase)
      → update_request id p f db ≡ some db'
      → db'.next_request_id ≡ db.next_request_id
  unfolding update_request
  update_request-next id p f db db' h =
      elim (Bool-cases (any (λ r. r.id == id && p r) db.requests)) [
        | inl e ↦
            let whole : some (record db { requests = map (updated_row id p f) db.requests })
                ≡ some db' =
              rw e at h in
            let same : record db { requests = map (updated_row id p f) db.requests } ≡ db' = cc in
            ap (λ x. x.next_request_id) (sym same)
        | inr e ↦ cc (rw e at h)
      ]

  updated-Follows :
      (id : ℕ) (p : TransferRequest → Bool) (f : TransferRequest → TransferRequest)
      (r : TransferRequest)
      → ((x : TransferRequest) → p x ≡ true → Follows x (f x))
      → Follows r (updated_row id p f r)
  updated-Follows id p f r follows = elim (Bool-cases (r.id == id)) [
    | inl a ↦ elim (Bool-cases (p r)) [
      | inl b ↦ rw (a, b) (follows r b)
      | inr b ↦ rw (a, b) (Follows-refl r)
    ]
    | inr a ↦ rw a (Follows-refl r)
  ]

  -- An update whose change follows on every row that it may touch.
  pub update-RowsFollow :
      (id : ℕ) (p : TransferRequest → Bool) (f : TransferRequest → TransferRequest)
      (db db' : TransferDatabase)
      → ((x : TransferRequest) → IsSameRequest x (f x))
      → ((x : TransferRequest) → p x ≡ true → Follows x (f x))
      → update_request id p f db ≡ some db'
      → RowsFollow db db'
  unfolding IsNumbered IsSameRequest
  update-RowsFollow id p f db db' keeps follows h =
      let (l, e, rows) = update_request-lem id p f db db' h in
      record {
        by_id = λ i r found. (
          updated_row id p f r,
          ap (find_request i) rows ∙ find-updated i id p f db.requests r (λ x. (keeps x).0) found,
          updated-Follows id p f r follows,
        );
        by_key = λ user key r found. (
          updated_row id p f r,
          ap (find_by_user_request_key user key) rows
              ∙ find-updated_key user key id p f db.requests r (λ x. ((keeps x).1, (keeps x).2))
                  found,
          updated-Follows id p f r follows,
        );
        numbered = λ n.
            rw (rows, update_request-next id p f db db' h)
              (numbered-updated db.next_request_id id p f db.requests (λ x. (keeps x).0) n);
        next_le = omega (arith, update_request-next id p f db db' h);
      }
