-- ===== src/Matching/Sweep/Take.antt =====
-- One trade's effect on the side of the book that it takes from.
use mathlib.Core.List.{Perm}
use mathlib.Core.List.Perm
use go_exchange_back.Prelude.{
  ℕ, zero, suc, ◌≡◌, refl, sym, ap, ◌∙◌, Bool, true, false, inl, inr, some, List, [], ◌∷◌, arith,
  get_elem?, set, length, length-append, All-set, All-remove_at, All-get_elem?, Bool-cases,
}
use go_exchange_back.Packages.{Packages}
use go_exchange_back.Packages.Laws.{add-cancel, less-zero-sub}
use go_exchange_back.Matching.Types.{Order}
use go_exchange_back.Matching.Book.Invariant.{
  Belongs, SideIsValid, keep_level-SideIsValid, get_level-LevelIsValid,
}
use go_exchange_back.Matching.Book.Contents.{contents, keep_level-perm, perm-remove_at}
use go_exchange_back.Matching.Book.Totals.{total, total-perm, length-perm}
use go_exchange_back.Matching.Find.{Found}
use go_exchange_back.Matching.Sweep.{is_positive, fill_resting, take_from, count_orders}

pub perm-set {ℓ} :
    {A : Type ℓ} (l : List A) (i : ℕ) (x y : A)
    → get_elem? l i ≡ some x
    → Perm (y ∷ l) (x ∷ set l i y)
perm-set [] i x y e = cc
perm-set (z ∷ l) zero x y e = let same : z ≡ x = cc in rw same (Perm.swap x y l)
perm-set (z ∷ l) (suc i) x y e =
    Perm.trans (Perm.swap z y l)
      (Perm.trans (Perm.cons z (perm-set l i x y e)) (Perm.swap x z (set l i y)))

module _ ⦃pk : Packages⦄ where
  open pk use {
    Decimal, Deque, Tree, items, levels, get_level, set_item, remove_item, zero_decimal, add, sub,
    less_than, less_total, less_irrefl, add_comm, add_assoc, zero-add, sub-add, items-set_item,
    items-remove_item,
  }

  pub count_orders-length :
      (l : List (Decimal × Deque Order)) → count_orders l ≡ length (contents l)
  unfolding count_orders
  count_orders-length [] = refl
  count_orders-length ((price, orders) ∷ l) =
      omega (arith, length-append (items orders) (contents l), count_orders-length l)

  -- The order at the found place, of which `qty` is taken.
  module _ (t : Tree (Deque Order)) (found : Found) (resting : Order) (qty : Decimal)
      (at_level : get_level t found.price ≡ some found.orders)
      (at_index : get_elem? (items found.orders) found.index ≡ some resting) where
    pub take_from-SideIsValid :
        (b : Bool) → SideIsValid b t → SideIsValid b (take_from t found (fill_resting resting qty))
    unfolding take_from fill_resting
    take_from-SideIsValid b h =
        let level = (get_level-LevelIsValid b t found.price found.orders h at_level).1 in
        elim (Bool-cases (is_positive (sub resting.amount qty))) [
          | inl left ↦
              let own = All-get_elem? (Belongs b found.price) _ _ resting level at_index in
              rw left (
                keep_level-SideIsValid b t found.price _
                  (rw items-set_item (
                    All-set (Belongs b found.price) (items found.orders) found.index _ level
                      (record {
                        at_price = own.at_price;
                        on_side = own.on_side;
                        positive = left;
                        priced = own.priced;
                      })))
                  h)
          | inr gone ↦ rw gone (
              keep_level-SideIsValid b t found.price _
                (rw items-remove_item
                  (All-remove_at (Belongs b found.price) (items found.orders) found.index level))
                h)
        ]

    -- An order of which something is left is replaced in the bag, any other leaves it.
    take_from_left-perm :
        is_positive (sub resting.amount qty) ≡ true
        → Perm
            (fill_resting resting qty ∷ contents (levels t))
            (resting ∷ contents (levels (take_from t found (fill_resting resting qty))))
    unfolding take_from fill_resting
    take_from_left-perm left =
        let resting' = fill_resting resting qty in
        rw left (
          keep_level-perm (resting' ∷ []) (resting ∷ []) t found.price found.orders _ at_level (
            rw items-set_item
              (perm-set (items found.orders) found.index resting resting' at_index)))

    take_from_gone-perm :
        is_positive (sub resting.amount qty) ≡ false
        → Perm
            (contents (levels t))
            (resting ∷ contents (levels (take_from t found (fill_resting resting qty))))
    unfolding take_from fill_resting
    take_from_gone-perm gone = rw gone (
        keep_level-perm [] (resting ∷ []) t found.price found.orders _ at_level
          (rw items-remove_item (perm-remove_at (items found.orders) found.index resting at_index)))

    -- The side loses exactly `qty`.
    pub take_from-total :
        less_than resting.amount qty ≡ false
        → total (contents (levels t))
          ≡ add qty (total (contents (levels (take_from t found (fill_resting resting qty)))))
    unfolding fill_resting
    take_from-total le =
        let rest = total (contents (levels (take_from t found (fill_resting resting qty)))) in
        elim (Bool-cases (is_positive (sub resting.amount qty))) [
          | inl left ↦
              let both : add (sub resting.amount qty) (total (contents (levels t)))
                  ≡ add resting.amount rest =
                total-perm (take_from_left-perm left) in
              let split : add resting.amount rest ≡ add (sub resting.amount qty) (add qty rest) =
                ap (λ x. add x rest) (sym (sub-add resting.amount qty)) ∙ add_assoc _ _ _ in
              add-cancel _ _ (sub resting.amount qty) (add_comm _ _ ∙ both ∙ split ∙ add_comm _ _)
          | inr gone ↦
              let same : resting.amount ≡ qty =
                less_total _ _ le (sym (less-zero-sub resting.amount qty) ∙ gone) in
              total-perm (take_from_gone-perm gone) ∙ ap (λ x. add x rest) same
        ]

    pub take_from_left-length :
        is_positive (sub resting.amount qty) ≡ true
        → length (contents (levels (take_from t found (fill_resting resting qty))))
          ≡ length (contents (levels t))
    take_from_left-length left = omega (arith, length-perm (take_from_left-perm left))

    pub take_from_gone-length :
        is_positive (sub resting.amount qty) ≡ false
        → suc (length (contents (levels (take_from t found (fill_resting resting qty)))))
          ≡ length (contents (levels t))
    take_from_gone-length gone = omega (arith, length-perm (take_from_gone-perm gone))
