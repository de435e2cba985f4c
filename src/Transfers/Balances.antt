-- ===== src/Transfers/Balances.antt =====
-- What the journals of one withdrawal do to the abstract ledger together.
use go_exchange_back.Prelude.{
  ◌≡◌, refl, ap, ◌∙◌, Bool, true, false, none, some, inl, inr, String, if◌then◌else◌, Bool-cases,
}
use go_exchange_back.Packages.{Packages}
use go_exchange_back.Settlement.Types.{AccountType, user_available, user_locked, fee_income}
use go_exchange_back.Settlement.Balance.{add-zero}
use go_exchange_back.Ledger.Tables.{AccountKey, new_account_key, same_key}
use go_exchange_back.Ledger.Keys.{same_key_refl}
use go_exchange_back.Ledger.Promise.{add_lines}
use go_exchange_back.Ledger.Reversal.{add-neg_self}
use go_exchange_back.Transfers.Types.{TransferRail, bank, chain, other_rail, TransferRequest}
use go_exchange_back.Transfers.Confirm.{
  external_account_type, locked_amount, withdrawal_hold_journal, withdrawal_journal, refund_journal,
}

module _ ⦃pk : Packages⦄ where
  open pk use {Decimal, zero_decimal, add, neg, less_than, neg-add, add_assoc, add_comm}

  -- Two balances are moved there and back.
  there_and_back :
      (b c : Bool) (x l : Decimal)
      → (let one = if b then add x (neg l) else x in
          let two = if c then add one l else one in
          let three = if c then add two (neg l) else two in if b then add three l else three)
        ≡ x
  there_and_back true true x l =
      ap (λ y. add y l) (add-neg_self (add x (neg l)) l)
      ∙ add_assoc x (neg l) l
      ∙ ap (add x) (neg-add l)
      ∙ add-zero x
  there_and_back true false x l = add_assoc x (neg l) l ∙ ap (add x) (neg-add l) ∙ add-zero x
  there_and_back false true x l = add-neg_self x l
  there_and_back false false x l = refl

  -- A withdrawal that fails gives back what it has locked: after the hold and the refund every
  -- account key has the balance it had before.
  pub refund-hold :
      (r : TransferRequest) (ref : String) (v : AccountKey → Decimal) (k : AccountKey)
      → add_lines
          (refund_journal r ref).postings
          (add_lines (withdrawal_hold_journal r).postings v)
          k
        ≡ v k
  unfolding add_lines refund_journal withdrawal_hold_journal
  refund-hold r ref v k =
      there_and_back (same_key (new_account_key user_available (some r.user_id) r.asset) k)
        (same_key (new_account_key user_locked (some r.user_id) r.asset) k) (v k) (locked_amount r)

  abbrev pub user_key : TransferRequest → AccountType → AccountKey
  user_key r t = new_account_key t (some r.user_id) r.asset

  external-locked :
      (rail : TransferRail) (r : TransferRequest)
      → same_key
          (new_account_key (external_account_type rail) none r.asset)
          (user_key r user_locked)
        ≡ false
  unfolding same_key new_account_key
  external-locked bank r = refl
  external-locked chain r = refl
  external-locked (other_rail s) r = refl

  external-available :
      (rail : TransferRail) (r : TransferRequest)
      → same_key
          (new_account_key (external_account_type rail) none r.asset)
          (user_key r user_available)
        ≡ false
  unfolding same_key new_account_key
  external-available bank r = refl
  external-available chain r = refl
  external-available (other_rail s) r = refl

  -- A system account has no key of a user, and the two accounts of a user have two.
  keys-apart :
      (r : TransferRequest)
      → (same_key (user_key r user_available) (user_key r user_locked) ≡ false)
        × (same_key (user_key r user_locked) (user_key r user_available) ≡ false)
        × (same_key (new_account_key fee_income none r.fee_asset) (user_key r user_available)
            ≡ false)
        × (same_key (new_account_key fee_income none r.fee_asset) (user_key r user_locked) ≡ false)
  unfolding same_key new_account_key
  keys-apart r = (refl, refl, refl, refl)

  -- A withdrawal that succeeds leaves the user's locked balance as it was before the hold, and has
  -- taken the amount and the fee, added up, from the available one.
  pub withdrawal-hold :
      (r : TransferRequest) (ref : String) (v : AccountKey → Decimal)
      → (let after =
            add_lines
              (withdrawal_journal r ref).postings
              (add_lines (withdrawal_hold_journal r).postings v) in
          (after (user_key r user_locked) ≡ v (user_key r user_locked))
          × (after (user_key r user_available)
              ≡ add (v (user_key r user_available)) (neg (add r.amount r.fee_amount))))
  unfolding add_lines withdrawal_journal withdrawal_hold_journal
  withdrawal-hold r ref v =
      let (al, la, fa, fl) = keys-apart r in
      let ll = same_key_refl (user_key r user_locked) in
      let aa = same_key_refl (user_key r user_available) in
      let el = external-locked r.rail r in
      let ea = external-available r.rail r in
      let back = add-neg_self (v (user_key r user_locked)) (locked_amount r) in
      elim (Bool-cases (less_than zero_decimal r.fee_amount)) [
        | inl e ↦ (rw (e, al, ll, el, fl) back, rw (e, aa, la, ea, fa) refl)
        | inr e ↦ (rw (e, al, ll, el) back, rw (e, aa, la, ea) refl)
      ]
