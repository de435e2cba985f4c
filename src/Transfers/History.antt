-- ===== src/Transfers/History.antt =====
-- Sequences of transactions on transfers, in any order and with any answers from outside.
use go_exchange_back.Prelude.{ℕ, ◌≡◌, refl, ap, ◌∙◌, true, Option, some, String}
use go_exchange_back.Packages.{Packages}
use go_exchange_back.Settlement.Types.{accepted}
use go_exchange_back.Transfers.Types.{
  TransferStatus, received, processing, completed, failed, other_status, status_is_terminal,
  TransferRequest, TransferDatabase,
}
use go_exchange_back.Transfers.Requests.{find_request}
use go_exchange_back.Transfers.Service.{
  ResolveInput, resolve_transfer, record_observation, handle_status_check_failure,
  handle_dispatch_failure, dispatch,
}
use go_exchange_back.Transfers.Intake.{TransferInput, accept_deposit, accept_withdrawal}
use go_exchange_back.Transfers.Steps.{IsNumbered, MayFollow, Follows}
use go_exchange_back.Transfers.Accept.{accept_deposit-Moves, accept_withdrawal-Moves}
use go_exchange_back.Transfers.Moves.{
  Moves, handle_status_check_failure-Moves, handle_dispatch_failure-Moves, dispatch-Moves,
}
use go_exchange_back.Transfers.Resolve.{resolve_transfer-Moves, record_observation-Moves}

module _ ⦃pk : Packages⦄ where
  -- One transaction that is not rolled back: a request is accepted, dispatched, polled or resolved.
  pub data Step (db db' : TransferDatabase) : Type 0 where
    resolves :
        (input : ResolveInput) (now : ℕ)
        → resolve_transfer input now db ≡ accepted db'
        → Step db db'
    observes :
        (input : ResolveInput) (now : ℕ)
        → record_observation input now db ≡ accepted db'
        → Step db db'
    checks_in_vain :
        (id now : ℕ) → handle_status_check_failure id now db ≡ accepted db' → Step db db'
    dispatch_fails : (id now : ℕ) → handle_dispatch_failure id now db ≡ accepted db' → Step db db'
    dispatches :
        (r : TransferRequest) (answer : Option String) (now : ℕ)
        → dispatch r answer now db ≡ accepted db'
        → Step db db'
    accepts_deposit :
        (input : TransferInput) (r : TransferRequest) (now : ℕ)
        → accept_deposit input now db ≡ accepted (db', r)
        → Step db db'
    accepts_withdrawal :
        (input : TransferInput) (r : TransferRequest) (now : ℕ)
        → accept_withdrawal input now db ≡ accepted (db', r)
        → Step db db'

  pub data Reaches (db : TransferDatabase) : TransferDatabase → Type 0 where
    here : Reaches db db
    later : {mid db' : TransferDatabase} → Reaches db mid → Step mid db' → Reaches db db'

  pub Step-Moves : (db db' : TransferDatabase) → IsNumbered db → Step db db' → Moves db db'
  Step-Moves db db' n (resolves input now h) = (resolve_transfer-Moves input now db db' h).0
  Step-Moves db db' n (observes input now h) = record_observation-Moves input now db db' h
  Step-Moves db db' n (checks_in_vain id now h) = handle_status_check_failure-Moves id now db db' h
  Step-Moves db db' n (dispatch_fails id now h) = handle_dispatch_failure-Moves id now db db' h
  Step-Moves db db' n (dispatches r answer now h) = dispatch-Moves r answer now db db' h
  Step-Moves db db' n (accepts_deposit input r now h) = accept_deposit-Moves input now db db' r n h
  Step-Moves db db' n (accepts_withdrawal input r now h) =
      accept_withdrawal-Moves input now db db' r n h

  pub Reaches-IsNumbered :
      (db db' : TransferDatabase) → IsNumbered db → Reaches db db' → IsNumbered db'
  unfolding Moves
  Reaches-IsNumbered db db' n here = n
  Reaches-IsNumbered db db' n (later {mid = mid} history step) =
      let m = Reaches-IsNumbered db mid n history in (Step-Moves mid db' m step).0.numbered m

  -- A terminal row that is as it was when it became terminal.
  pub Settled : TransferRequest → TransferRequest → Type 0
  Settled r s =
      (s.status ≡ r.status)
      × (s.amount ≡ r.amount)
      × (s.resolution_journal_id ≡ r.resolution_journal_id)
      × (s.external_ref ≡ r.external_ref)

  terminal-stays : (t s : TransferStatus) → status_is_terminal t ≡ true → MayFollow t s → s ≡ t
  unfolding MayFollow
  terminal-stays completed s h m = m
  terminal-stays failed s h m = m
  terminal-stays received s h m = cc
  terminal-stays processing s h m = cc
  terminal-stays (other_status x) s h m = cc

  Settled-step :
      (r s t : TransferRequest)
      → status_is_terminal r.status ≡ true
      → Settled r s
      → Follows s t
      → Settled r t
  unfolding Settled Follows
  Settled-step r s t terminal (st, a, j, e) (m, a', f, h, request, kept) =
      let still : status_is_terminal s.status ≡ true = ap status_is_terminal st ∙ terminal in
      let (j', e') = kept still in
      (terminal-stays s.status t.status still m ∙ st, a' ∙ a, j' ∙ j, e' ∙ e)

  -- Where the rows are numbered, and whatever transactions follow in whatever order, new requests
  -- among them, a transfer that has become terminal stays in the table with its status, its amount,
  -- its external reference and the journal that settled it.
  pub terminal-Settled :
      (db db' : TransferDatabase) (i : ℕ) (r : TransferRequest)
      → IsNumbered db
      → Reaches db db'
      → find_request i db.requests ≡ some r
      → status_is_terminal r.status ≡ true
      → (s : TransferRequest) × (find_request i db'.requests ≡ some s) × Settled r s
  unfolding Settled Moves
  terminal-Settled db db' i r n here found terminal = (r, found, (refl, refl, refl, refl))
  terminal-Settled db db' i r n (later {mid = mid} history step) found terminal =
      let (s, at_s, settled) = terminal-Settled db mid i r n history found terminal in
      let (t, at_t, follows) =
        (Step-Moves mid db' (Reaches-IsNumbered db mid n history) step).0.by_id i s at_s in
      (t, at_t, Settled-step r s t terminal settled follows)
