-- ===== src/Transfers/Polls.antt =====
-- A poll without a result moves the schedule and may call a person.
use go_exchange_back.Prelude.{
  ℕ, suc, ◌+◌, ◌*◌, ◌^◌, ◌≤◌, ◌<◌, leb, arith, if◌then◌else◌, subst, ◌≡◌, refl, sym, ap, ◌∙◌, true,
  false, Option, none, some, some_eq, String,
}
use go_exchange_back.Packages.{Packages}
use go_exchange_back.Settlement.Types.{accepted}
use go_exchange_back.Transfers.Types.{
  processing, ReviewReason, external_unknown, pending_too_long, TransferOutcome, pending_outcome,
  unknown_outcome, outcome_is_terminal, is_processing, TransferRequest, TransferDatabase, poll,
}
use go_exchange_back.Transfers.Requests.{find_request, was_processing, polled}
use go_exchange_back.Transfers.Schedule.{backoff_interval, review_reason_for_poll_failure}
use go_exchange_back.Transfers.Backoff.{backoff_interval_lem}
use go_exchange_back.Transfers.Service.{
  ResolveInput, new_event, insert_event, advance_poll_schedule, observe_by_status,
  record_observation, kind_of,
}
use go_exchange_back.Transfers.Moves.{find_request-id, polled_id}
use go_exchange_back.Transfers.Waiting.{update-Succeeds, Waits}

module _ ⦃pk : Packages⦄ where
  -- A person is called: now, unless the call is older, and for the reason.
  pub record CallsFor (r s : TransferRequest) (now : ℕ) (reason : ReviewReason) : Type 0 where
    pub reason_lem : s.review_reason ≡ some reason
    pub first_call : r.review_required_at ≡ none → s.review_required_at ≡ some now
    pub older_call : (t : ℕ) → r.review_required_at ≡ some t → s.review_required_at ≡ some t

  -- The wait after the attempts that were made before: ten seconds, doubled for each of them, and
  -- one hour at most. Times are in nanoseconds.
  abbrev pub wait_after : ℕ → ℕ
  wait_after n =
      let wait = 10000000000 * 2 ^ n in if leb 3600000000000 wait then 3600000000000 else wait

  -- A request after a poll without a result.
  pub record IsPolled (r s : TransferRequest) (outcome : TransferOutcome) (now : ℕ) : Type 0 where
    pub waiting : s.status ≡ processing
    pub checked : s.last_checked_at ≡ some now
    pub counted : s.check_attempts ≡ r.check_attempts + 1
    pub due : s.next_check_at ≡ some (now + wait_after r.check_attempts)
    pub unknown : outcome ≡ unknown_outcome → CallsFor r s now external_unknown
    pub overdue :
        outcome ≡ pending_outcome
        → r.created_at + 1800000000000 ≤ now
        → CallsFor r s now pending_too_long
    pub young :
        outcome ≡ pending_outcome
        → now < r.created_at + 1800000000000
        → (s.review_reason ≡ r.review_reason) × (s.review_required_at ≡ r.review_required_at)

  flagged-CallsFor :
      (r : TransferRequest) (now next attempts : ℕ) (reason : ReviewReason)
      → CallsFor r (polled now next attempts (some reason) r) now reason
  flagged-CallsFor r now next attempts reason = record {
    reason_lem = refl;
    first_call = λ e. rw e refl;
    older_call = λ t e. rw e refl;
  }

  wait_lem : (n : ℕ) → backoff_interval (n + 1) ≡ wait_after n
  wait_lem n = let more : n + 1 ≡ suc n = omega arith in rw more (backoff_interval_lem n).0

  -- What a poll leaves, by the reason that it finds to call a person.
  reason-IsPolled :
      (r : TransferRequest) (outcome : TransferOutcome) (now : ℕ) (o : Option ReviewReason)
      → r.status ≡ processing
      → (outcome ≡ unknown_outcome → o ≡ some external_unknown)
      → (outcome ≡ pending_outcome → r.created_at + 1800000000000 ≤ now → o ≡ some pending_too_long)
      → (outcome ≡ pending_outcome → now < r.created_at + 1800000000000 → o ≡ none)
      → IsPolled r
          (polled now (now + backoff_interval (r.check_attempts + 1)) (r.check_attempts + 1) o r)
          outcome
          now
  reason-IsPolled r outcome now none st a b c = record {
    waiting = st;
    checked = refl;
    counted = refl;
    due = ap (λ w. some (now + w)) (wait_lem r.check_attempts);
    unknown = λ e. cc (a e);
    overdue = λ e l. cc (b e l);
    young = λ e l. (refl, refl);
  }
  reason-IsPolled r outcome now (some reason) st a b c =
      let next = now + backoff_interval (r.check_attempts + 1) in
      let calls = flagged-CallsFor r now next (r.check_attempts + 1) reason in
      let called = CallsFor r (polled now next (r.check_attempts + 1) (some reason) r) now in
      record {
        waiting = st;
        checked = refl;
        counted = refl;
        due = ap (λ w. some (now + w)) (wait_lem r.check_attempts);
        unknown = λ e. subst called (some_eq (a e)) calls;
        overdue = λ e l. subst called (some_eq (b e l)) calls;
        young = λ e l. cc (c e l);
      }

  polled-IsPolled :
      (r : TransferRequest) (outcome : TransferOutcome) (now : ℕ)
      → r.status ≡ processing
      → IsPolled r
          (polled now
            (now + backoff_interval (r.check_attempts + 1))
            (r.check_attempts + 1)
            (review_reason_for_poll_failure (kind_of outcome) now r.created_at)
            r)
          outcome
          now
  unfolding review_reason_for_poll_failure
  polled-IsPolled r outcome now st =
      reason-IsPolled r outcome now _ st (λ e. rw e refl)
        (λ e l.
          let late : leb (r.created_at + 1800000000000) now ≡ true = ground arith in
          rw (e, review_reason_for_poll_failure, late) refl)
        (λ e l.
          let early : leb (r.created_at + 1800000000000) now ≡ false = ground arith in
          rw (e, review_reason_for_poll_failure, early) refl)

  -- A poll without a result of a request that waits for one is accepted. It moves no asset, leaves the
  -- transfer PROCESSING and counts the attempt. The next poll is due after ten seconds, doubled for
  -- each earlier attempt, or after one hour if that is less. A person is called at once where the
  -- outside world does not know the transfer; where it is pending, from half an hour after the request
  -- on and not before; and the time of an earlier call is kept.
  pub record_observation-polls :
      (input : ResolveInput) (now : ℕ) (db : TransferDatabase) (r : TransferRequest) (ref : String)
      → Waits db input r ref
      → outcome_is_terminal input.outcome ≡ false
      → (db' : TransferDatabase) × (s : TransferRequest) × (record_observation input now db
          ≡ accepted db')
        × (db'.ledger ≡ db.ledger)
        × (find_request input.transfer_request_id db'.requests ≡ some s)
        × IsPolled r s input.outcome now
  unfolding record_observation observe_by_status advance_poll_schedule Waits
  record_observation-polls input now db r ref (found, st, named, routed, given, keyed, new) open_ =
      let ids = find_request-id input.transfer_request_id db.requests r found in
      let event = new_event (record input { source = poll }) now in
      let attempts = r.check_attempts + 1 in
      let next = now + backoff_interval attempts in
      let reason = review_reason_for_poll_failure (kind_of input.outcome) now r.created_at in
      let (db', up, after, ev, led) =
        update-Succeeds r.id was_processing (polled now next attempts reason)
          (insert_event db event) r (polled_id now next attempts reason)
          (ap (λ i. find_request i db.requests) ids ∙ found) (ap is_processing st) in
      (
        db',
        polled now next attempts reason r,
        simp (open_, given, keyed, found, new, observe_by_status, st, advance_poll_schedule, up)
            refl,
        led,
        ap (λ i. find_request i db'.requests) (sym ids) ∙ after,
        polled-IsPolled r input.outcome now st,
      )
