-- ===== src/Matching/Sweep/Origins.antt =====
-- Where the resting orders of a sweep come from: each stands in the book with which the sweep began,
-- at the same price, under the same id and of the same user.
use go_exchange_back.Prelude.{
  ℕ, zero, suc, ◌≡◌, refl, ◌∙◌, inl, inr, some, List, [], ◌∷◌, get_elem?, All, All-map, All-set,
  All-remove_at, All-get_elem?, All-put_key, All-delete_key, All-find_key, find_key, Bool-cases,
  List-cases,
}
use go_exchange_back.Packages.{Packages}
use go_exchange_back.Matching.Types.{Order}
use go_exchange_back.Matching.Book.{keep_level}
use go_exchange_back.Matching.Find.{Found}
use go_exchange_back.Matching.Find.Target.{own_levels}
use go_exchange_back.Matching.Sweep.{is_positive, fill_resting, take_from}

-- Every item is at some index.
indexed {ℓ} : {A : Type ℓ} (l : List A) → All (λ x. (i : ℕ) × (get_elem? l i ≡ some x)) l
indexed [] = tt
indexed (x ∷ l) = ((zero, refl), All-map (λ y (i, e). (suc i, e)) l (indexed l))

module _ ⦃pk : Packages⦄ where
  open pk use {
    Decimal, Deque, Tree, items, levels, get_level, set_item, remove_item, sub, less_than,
    less_total, get_level_lem, items-set_item, items-remove_item, levels-replace_or_insert,
    levels-delete_level,
  }

  -- The order of the tree `t` that `o` was, at the price.
  abbrev pub HasOrigin : Tree (Deque Order) → Decimal → Order → Type 0
  HasOrigin t price o =
      (was : Order) × (orders : Deque Order) × (i : ℕ) × (get_level t price ≡ some orders)
      × (get_elem? (items orders) i ≡ some was)
      × (o.id ≡ was.id)
      × (o.user_id ≡ was.user_id)

  abbrev pub ComesFrom : Tree (Deque Order) → Tree (Deque Order) → Type 0
  ComesFrom t t' = All (λ e. All (HasOrigin t e.0) (items e.1)) (levels t')

  pub ComesFrom-refl : (t : Tree (Deque Order)) → ComesFrom t t
  ComesFrom-refl t =
      All-map {P = λ e. find_key less_than e.0 (levels t) ≡ some e.1}
        (λ e at_level.
          All-map
            (λ o (i, at_index). (o, e.1, i, (get_level_lem t e.0 ∙ at_level), at_index, refl, refl))
            (items e.1) (indexed (items e.1)))
        (levels t) (own_levels t)

  pub get_level-HasOrigin :
      (t t' : Tree (Deque Order)) (price : Decimal) (orders : Deque Order)
      → ComesFrom t t'
      → get_level t' price ≡ some orders
      → All (HasOrigin t price) (items orders)
  get_level-HasOrigin t t' price orders h e =
      All-find_key less_than (λ e. All (HasOrigin t e.0) (items e.1)) less_total price orders
        (levels t') h (rw get_level_lem at e)

  keep_level-ComesFrom :
      (t t' : Tree (Deque Order)) (price : Decimal) (orders : Deque Order)
      → All (HasOrigin t price) (items orders)
      → ComesFrom t t'
      → ComesFrom t (keep_level t' price orders)
  unfolding keep_level
  keep_level-ComesFrom t t' price orders ok h = elim (List-cases (items orders)) [
    | inl e ↦
        rw (e, keep_level, levels-delete_level)
          (All-delete_key less_than (λ e. All (HasOrigin t e.0) (items e.1)) price (levels t') h)
    | inr (x, xs, e) ↦
        rw (e, keep_level, levels-replace_or_insert)
          (All-put_key less_than (λ e. All (HasOrigin t e.0) (items e.1)) price orders (levels t')
            ok h)
  ]

  -- What a trade leaves of the side still comes from where it came.
  pub take_from-ComesFrom :
      (t t' : Tree (Deque Order)) (found : Found) (resting : Order) (qty : Decimal)
      → get_level t' found.price ≡ some found.orders
      → get_elem? (items found.orders) found.index ≡ some resting
      → ComesFrom t t'
      → ComesFrom t (take_from t' found (fill_resting resting qty))
        × HasOrigin t found.price resting
  unfolding take_from fill_resting
  take_from-ComesFrom t t' found resting qty at_level at_index h =
      let level = get_level-HasOrigin t t' found.price found.orders h at_level in
      let own =
        All-get_elem? (HasOrigin t found.price) (items found.orders) found.index resting level
          at_index in
      (
        elim (Bool-cases (is_positive (sub resting.amount qty))) [
          | inl left ↦ rw left (
              keep_level-ComesFrom t t' found.price (set_item found.orders found.index _)
                (rw items-set_item
                  (All-set (HasOrigin t found.price) (items found.orders) found.index _ level own))
                h)
          | inr gone ↦ rw gone (
              keep_level-ComesFrom t t' found.price (remove_item found.orders found.index)
                (rw items-remove_item
                  (All-remove_at (HasOrigin t found.price) (items found.orders) found.index level))
                h)
        ],
        own,
      )
