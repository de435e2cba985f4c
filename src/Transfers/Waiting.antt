-- ===== src/Transfers/Waiting.antt =====
-- A request that waits for its result, and the update of its row.
use text.Mathlib.Text.{◌==◌ as str_eq}
use go_exchange_back.Prelude.{
  ℕ, ◌≡◌, refl, ap, ◌∙◌, Bool, true, false, ◌&&◌, some, inl, inr, ◌⊎◌, String, List, [], ◌∷◌, ◌==◌,
  ==_iff, any, map, Bool-cases,
}
use go_exchange_back.Packages.{Packages}
use go_exchange_back.Transfers.Types.{
  TransferDirection, into_exchange, out_of_exchange, processing, TransferRequest, TransferDatabase,
}
use go_exchange_back.Transfers.Requests.{find_request, update_request, has_event}
use go_exchange_back.Transfers.Service.{ResolveInput}
use go_exchange_back.Transfers.Steps.{find-updated, updated_row}
use go_exchange_back.Transfers.Moves.{find_request-id}

module _ ⦃pk : Packages⦄ where
  listed :
      (id : ℕ) (p : TransferRequest → Bool) (rs : List TransferRequest) (r : TransferRequest)
      → find_request id rs ≡ some r
      → p r ≡ true
      → any (λ x. x.id == id && p x) rs ≡ true
  unfolding find_request
  listed id p [] r found holds = cc
  listed id p (x ∷ rs) r found holds = elim (Bool-cases (x.id == id)) [
    | inl e ↦
        let same : some x ≡ some r = rw e at found in
        let row : x ≡ r = cc in rw (e, ap p row ∙ holds) refl
    | inr e ↦ rw e (listed id p rs r (rw e at found) holds)
  ]

  -- A row that satisfies the condition of an update is updated.
  pub update-Succeeds :
      (id : ℕ) (p : TransferRequest → Bool) (f : TransferRequest → TransferRequest)
      (db : TransferDatabase) (r : TransferRequest)
      → ((x : TransferRequest) → (f x).id ≡ x.id)
      → find_request id db.requests ≡ some r
      → p r ≡ true
      → (db' : TransferDatabase) × (update_request id p f db ≡ some db')
        × (find_request id db'.requests ≡ some (f r))
        × (db'.events ≡ db.events)
        × (db'.ledger ≡ db.ledger)
  unfolding update_request
  update-Succeeds id p f db r keeps found holds =
      let own : (r.id == id) ≡ true = (==_iff r.id id).1 (find_request-id id db.requests r found) in
      let hit : any (λ x. x.id == id && p x) db.requests ≡ true =
        listed id p db.requests r found holds in
      (
        record db { requests = map (updated_row id p f) db.requests },
        rw hit refl,
        find-updated id id p f db.requests r keeps found ∙ ap some (rw (own, holds) refl),
        refl,
        refl,
      )

  unfoldable pub IsRouted : TransferDirection → Type 0
  IsRouted d = (d ≡ into_exchange) ⊎ (d ≡ out_of_exchange)

  -- A request that waits for its result, with what identifies it and the event.
  unfoldable pub Waits : TransferDatabase → ResolveInput → TransferRequest → String → Type 0
  Waits db input r ref =
      (find_request input.transfer_request_id db.requests ≡ some r)
      × (r.status ≡ processing)
      × (r.external_ref ≡ some ref)
      × IsRouted r.direction
      × ((input.transfer_request_id == 0) ≡ false)
      × (str_eq input.event_key "" ≡ false)
      × (has_event input.event_key db.events ≡ false)
