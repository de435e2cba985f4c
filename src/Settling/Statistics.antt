-- ===== src/Settling/Statistics.antt =====
-- internal/service/order_ledger.go, `applyAvgBuyPrice` and `clearAvgBuyPriceIfEmpty`: the average
-- buying price of an asset, from what the accounts of its user hold. The division of decimals, which
-- rounds, is a parameter.
use text.Mathlib.Text.{◌==◌ as str_eq}
use go_exchange_back.Prelude.{
  ℕ, Bool, true, false, ◌&&◌, not, Option, none, some, String, List, [], ◌∷◌, ◌==◌, any, map,
  if◌then◌else◌,
}
use go_exchange_back.Packages.{Packages}
use go_exchange_back.Settlement.Types.{
  AccountType, user_available, user_locked, Checked, accepted, rejected,
}
use go_exchange_back.Ledger.Tables.{Account, AccountBalance, Database}
use go_exchange_back.Ledger.Journals.{sum_where}
use go_exchange_back.Ledger.Record.{account_by_id}
use go_exchange_back.Settling.Tables.{UserAssetStat, TradeDatabase}

abbrev is_user_account : AccountType → Bool
is_user_account user_available = true
is_user_account user_locked = true
is_user_account _ = false

abbrev is_owner : ℕ → Option ℕ → Bool
is_owner user none = false
is_owner user (some owner) = owner == user

-- The row of `accounts` that a balance is joined with belongs to the user.
unfoldable pub holds_for : ℕ → String → Option Account → Bool
holds_for user asset none = false
holds_for user asset (some a) =
    is_owner user a.owner_user_id && (str_eq a.asset asset && is_user_account a.account_type)

pub data StatisticsError : Type 0 where
  quantity_not_positive nothing_held : StatisticsError

module _ ⦃pk : Packages⦄ where
  open pk use {Decimal, zero_decimal, add, sub, mul, less_than}

  -- The sum of the available and the locked balance of a user.
  abbrev pub total_held : ℕ → String → Database → Decimal
  total_held user asset db =
      sum_where
        (λ (b : AccountBalance). holds_for user asset (account_by_id b.account_id db.accounts.rows))
        (λ (b : AccountBalance). b.balance) zero_decimal db.balances

  abbrev pub is_stat_of : ℕ → String → UserAssetStat → Bool
  is_stat_of user asset s = s.user_id == user && str_eq s.asset asset

  -- A user and an asset have one row at most, so its price is the maximum.
  unfoldable pub previous_avg : ℕ → String → List UserAssetStat → Decimal
  previous_avg user asset [] = zero_decimal
  previous_avg user asset (s ∷ ss) =
      if is_stat_of user asset s then s.avg_buy_price else previous_avg user asset ss

  abbrev pub with_price : Decimal → UserAssetStat → UserAssetStat
  with_price price s = record s { avg_buy_price = price }

  abbrev pub new_stat : ℕ → String → Decimal → UserAssetStat
  new_stat user asset price = record { user_id = user; asset = asset; avg_buy_price = price }

  -- The `INSERT` that updates the row of a user and an asset where it is there.
  unfoldable pub put_stat : ℕ → String → Decimal → List UserAssetStat → List UserAssetStat
  put_stat user asset price ss =
      if any (is_stat_of user asset) ss
      then map (λ s. if is_stat_of user asset s then with_price price s else s) ss
      else new_stat user asset price ∷ ss

  -- `clearAvgBuyPriceIfEmpty`.
  unfoldable pub clear_avg_buy_price_if_empty : ℕ → String → TradeDatabase → TradeDatabase
  clear_avg_buy_price_if_empty user asset db =
      if less_than zero_decimal (total_held user asset db.ledger) then db else record db {
        stats =
            map (λ s. if is_stat_of user asset s then with_price zero_decimal s else s) db.stats;
      }

  module _ (div : Decimal → Decimal → Decimal) where
    -- The `newAvg` of `applyAvgBuyPrice`.
    abbrev pub new_avg : Decimal → Decimal → Decimal → Decimal → Decimal
    new_avg previous total quantity cost = div (add (mul previous (sub total quantity)) cost) total

    -- `applyAvgBuyPrice`: what the user has bought is in the total already.
    unfoldable pub apply_avg_buy_price :
        ℕ → String → Decimal → Decimal → TradeDatabase → Checked StatisticsError TradeDatabase
    apply_avg_buy_price user asset quantity cost db =
        let total = total_held user asset db.ledger in
        let price = new_avg (previous_avg user asset db.stats) total quantity cost in
        if not (less_than zero_decimal quantity)
        then rejected quantity_not_positive
        else if not (less_than zero_decimal total)
        then rejected nothing_held
        else accepted (record db { stats = put_stat user asset price db.stats })
