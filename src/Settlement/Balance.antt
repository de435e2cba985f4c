-- ===== src/Settlement/Balance.antt =====
-- What makes a journal pass `validateJournalInput`, and that holds and releases pass it.
use text.Mathlib.Text.{◌==◌ as str_eq}
use go_exchange_back.Prelude.{
  ℕ, ◌≡◌, refl, sym, subst, ◌∙◌, Bool, true, false, none, String, List, [], ◌∷◌, ◌++◌,
  if◌then◌else◌, arith,
}
use go_exchange_back.Packages.{Packages}
use go_exchange_back.Packages.Laws.{le_trans, less_asym}
use go_exchange_back.Matching.Types.{Order, OrderSide, buy, sell, other_side}
use go_exchange_back.Settlement.Types.{
  JournalInput, accepted, krw_asset_symbol, AccountType, user_available, user_locked, PostingInput,
  is_system_account_type,
}
use go_exchange_back.Settlement.Postings.{
  of_user, order_hold_asset, order_hold_postings, order_release_postings, order_hold_journal,
  order_release_journal, hold_amount_for, hold_order_assets, release_order_assets,
}
use go_exchange_back.Settlement.Journal.{
  is_zero, is_nil, same_bool, sum_from, check_postings, balances, validate_journal_input,
}

module _ ⦃pk : Packages⦄ where
  open pk use {
    Decimal, zero_decimal, add, neg, less_than, less_irrefl, less_total, less-add, add_comm,
    zero-add, neg-add,
  }

  pub add-zero : (a : Decimal) → add a zero_decimal ≡ a
  add-zero a = add_comm a zero_decimal ∙ zero-add a

  pub less-neg : (a : Decimal) → less_than (neg a) zero_decimal ≡ less_than zero_decimal a
  less-neg a = sym (less-add (neg a) zero_decimal a) ∙ rw (neg-add a, zero-add a) refl

  pub le-add :
      (a b c d : Decimal)
      → less_than b a ≡ false
      → less_than d c ≡ false
      → less_than (add b d) (add a c) ≡ false
  le-add a b c d h k =
      le_trans (add a c) (add b c) (add b d) (less-add b a c ∙ h)
        (rw (add_comm b d, add_comm b c) (less-add d c b ∙ k))

  pub is_zero_zero : is_zero zero_decimal ≡ true
  is_zero_zero = rw (less_irrefl zero_decimal) refl

  pub is_zero_pos : (a : Decimal) → less_than zero_decimal a ≡ true → is_zero a ≡ false
  is_zero_pos a h = rw (h, less_asym zero_decimal a h) refl

  pub is_zero_neg : (a : Decimal) → less_than zero_decimal a ≡ true → is_zero (neg a) ≡ false
  is_zero_neg a h = rw (less-neg a ∙ h) refl

  pub sum_from-append :
      (k : String) (acc : Decimal) (l m : List PostingInput)
      → sum_from k acc (l ++ m) ≡ sum_from k (sum_from k acc l) m
  unfolding sum_from
  sum_from-append k acc [] m = refl
  sum_from-append k acc (p ∷ l) m =
      sum_from-append k (if str_eq p.asset k then add acc p.amount else acc) l m

  pub balances_lem :
      (l ps : List PostingInput)
      → ((k : String) → sum_from k zero_decimal l ≡ zero_decimal)
      → balances l ps ≡ true
  unfolding balances
  balances_lem l [] h = refl
  balances_lem l (p ∷ ps) h = rw (h p.asset, is_zero_zero) (balances_lem l ps h)

  -- A posting that may stand in a journal.
  pub IsSound : PostingInput → Type 0
  IsSound p =
      (str_eq p.asset "" ≡ false)
      × (is_zero p.amount ≡ false)
      × (same_bool (is_system_account_type p.account_type) (is_nil p.owner_user_id) ≡ true)

  pub check_postings-cons :
      (p : PostingInput) (ps : List PostingInput)
      → IsSound p
      → check_postings ps ≡ none
      → check_postings (p ∷ ps) ≡ none
  unfolding check_postings IsSound
  check_postings-cons p ps (a, z, o) h = rw (a, z, o) h

  pub check_postings-append :
      (l m : List PostingInput)
      → check_postings l ≡ none
      → check_postings m ≡ none
      → check_postings (l ++ m) ≡ none
  unfolding check_postings
  check_postings-append [] m h k = k
  check_postings-append (p ∷ l) m h k = let ih = check_postings-append l m in ground arith

  -- Two opposite amounts of one asset cancel.
  pub opposite :
      (b : Bool) (x a : Decimal)
      → (if b then add (if b then add x (neg a) else x) a else (if b then add x (neg a) else x)) ≡ x
  opposite true x a = pk.add_assoc x (neg a) a ∙ rw (neg-add a) (add-zero x)
  opposite false x a = refl

  asset_lem :
      (order : Order)
      → str_eq order.coin_symbol "" ≡ false
      → str_eq (order_hold_asset order) "" ≡ false
  unfolding order_hold_asset
  asset_lem order k = go order.side
    where
      go :
          (s : OrderSide)
          → str_eq
              (elim s [
                | buy ↦ krw_asset_symbol
                | sell ↦ order.coin_symbol
                | other_side t ↦ order.coin_symbol
              ])
              ""
            ≡ false
      go buy = refl
      go sell = k
      go (other_side t) = k

  -- Two postings that move a positive amount between two accounts of one user.
  abbrev pub move_postings : AccountType → AccountType → ℕ → String → Decimal → List PostingInput
  move_postings from to user asset amount =
      of_user from user asset (neg amount) ∷ of_user to user asset amount ∷ []

  pub move-accepted :
      (from to : AccountType) (user : ℕ) (asset : String) (amount : Decimal)
      → is_system_account_type from ≡ false
      → is_system_account_type to ≡ false
      → less_than zero_decimal amount ≡ true
      → str_eq asset "" ≡ false
      → (check_postings (move_postings from to user asset amount) ≡ none)
        × (balances
              (move_postings from to user asset amount)
              (move_postings from to user asset amount)
            ≡ true)
  unfolding check_postings sum_from
  move-accepted from to user asset amount f t h k = (
    rw (k, is_zero_neg amount h, is_zero_pos amount h, f, t) refl,
    balances_lem _ (move_postings from to user asset amount)
        (λ j. opposite (str_eq asset j) zero_decimal amount),
  )

  journals-accepted :
      (order : Order) (amount : Decimal) (reason : String)
      → less_than zero_decimal amount ≡ true
      → str_eq order.coin_symbol "" ≡ false
      → (validate_journal_input (order_hold_journal order amount) ≡ none)
        × (validate_journal_input (order_release_journal order amount reason) ≡ none)
  unfolding validate_journal_input order_hold_journal order_release_journal order_hold_postings
      order_release_postings
  journals-accepted order amount reason h k =
      let asset = order_hold_asset order in
      let hold =
        move-accepted user_available user_locked order.user_id asset amount refl refl h
          (asset_lem order k) in
      let release =
        move-accepted user_locked user_available order.user_id asset amount refl refl h
          (asset_lem order k) in
      (rw (hold.0, hold.1) refl, rw (release.0, release.1) refl)

  hold_lem :
      (rate : Decimal) (order : Order) (j : JournalInput)
      → hold_order_assets rate order ≡ accepted j
      → (less_than zero_decimal (hold_amount_for rate order) ≡ true)
        × (order_hold_journal order (hold_amount_for rate order) ≡ j)
  unfolding hold_order_assets
  hold_lem rate order j h = ground arith

  release_lem :
      (order : Order) (amount : Decimal) (reason : String) (j : JournalInput)
      → release_order_assets order amount reason ≡ accepted j
      → (less_than zero_decimal amount ≡ true) × (order_release_journal order amount reason ≡ j)
  unfolding release_order_assets
  release_lem order amount reason j h = ground arith

  -- For an order whose coin symbol is not empty, every journal that `holdOrderAssets` or
  -- `releaseOrderAssets` hands to the ledger passes `validateJournalInput`.
  pub holds-accepted :
      (rate : Decimal) (order : Order) (amount : Decimal) (reason : String) (j k : JournalInput)
      → str_eq order.coin_symbol "" ≡ false
      → hold_order_assets rate order ≡ accepted j
      → release_order_assets order amount reason ≡ accepted k
      → (validate_journal_input j ≡ none) × (validate_journal_input k ≡ none)
  holds-accepted rate order amount reason j k coin h r =
      let (held, same) = hold_lem rate order j h in
      let (freed, same_k) = release_lem order amount reason k r in
      (
        subst (λ x. validate_journal_input x ≡ none) same
            (journals-accepted order (hold_amount_for rate order) reason held coin).0,
        subst (λ x. validate_journal_input x ≡ none) same_k
            (journals-accepted order amount reason freed coin).1,
      )
