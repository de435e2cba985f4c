-- ===== src/Matching/Book/Invariant.antt =====
-- The invariant of an order book: no level is empty, and each order rests on its own side, at its
-- own positive price, with something left of it. `AddOrder` and `RemoveOrder` keep it.
use go_exchange_back.Prelude.{
  ℕ, ◌≡◌, ◌≢◌, refl, subst, Bool, true, false, inl, inr, some, List, [], ◌∷◌, ◌++◌, All, All-append,
  All-remove_at, All-put_key, All-delete_key, All-find_key, Option-cases, List-cases,
}
use go_exchange_back.Packages.{Packages}
use go_exchange_back.Matching.Types.{Order, OrderBook, OrderSide, buy, sell, other_side}
use go_exchange_back.Matching.Book.{
  add_to, add_order, index_of, keep_level, remove_from, remove_order,
}

abbrev pub is_buy : OrderSide → Bool
is_buy buy = true
is_buy sell = false
is_buy (other_side s) = false

module _ ⦃pk : Packages⦄ where
  open pk use {
    Decimal, Deque, Tree, items, empty_deque, push_back, remove_item, levels, new_tree, get_level,
    replace_or_insert, delete_level, zero_decimal, less_than, less_total, items-empty_deque,
    items-push_back, items-remove_item, levels-new_tree, get_level_lem, levels-replace_or_insert,
    levels-delete_level,
  }

  pub record Belongs (on_buy_side : Bool) (price : Decimal) (o : Order) : Type 0 where
    pub at_price : o.price ≡ price
    pub on_side : is_buy o.side ≡ on_buy_side
    pub positive : less_than zero_decimal o.amount ≡ true
    pub priced : less_than zero_decimal o.price ≡ true

  abbrev pub LevelIsValid : Bool → Decimal × Deque Order → Type 0
  LevelIsValid b e = (items e.1 ≢ []) × All (Belongs b e.0) (items e.1)

  abbrev pub SideIsValid : Bool → Tree (Deque Order) → Type 0
  SideIsValid b t = All (LevelIsValid b) (levels t)

  pub record BookIsValid (book : OrderBook) : Type 0 where
    pub buys : SideIsValid true book.buy_orders
    pub sells : SideIsValid false book.sell_orders

  pub replace-SideIsValid :
      (b : Bool) (t : Tree (Deque Order)) (price : Decimal) (orders : Deque Order)
      → items orders ≢ []
      → All (Belongs b price) (items orders)
      → SideIsValid b t
      → SideIsValid b (replace_or_insert t price orders)
  replace-SideIsValid b t price orders ne ok h =
      rw (levels-replace_or_insert t price orders)
        (All-put_key less_than (LevelIsValid b) price orders (levels t) (ne, ok) h)

  pub delete-SideIsValid :
      (b : Bool) (t : Tree (Deque Order)) (price : Decimal)
      → SideIsValid b t
      → SideIsValid b (delete_level t price)
  delete-SideIsValid b t price h =
      rw (levels-delete_level t price)
        (All-delete_key less_than (LevelIsValid b) price (levels t) h)

  pub keep_level-SideIsValid :
      (b : Bool) (t : Tree (Deque Order)) (price : Decimal) (orders : Deque Order)
      → All (Belongs b price) (items orders)
      → SideIsValid b t
      → SideIsValid b (keep_level t price orders)
  unfolding keep_level
  keep_level-SideIsValid b t price orders ok h = elim (List-cases (items orders)) [
    | inl e ↦ rw (e, keep_level) (delete-SideIsValid b t price h)
    | inr (x, xs, e) ↦ rw (e, keep_level) (replace-SideIsValid b t price orders (λ n. cc (e)) ok h)
  ]

  -- A level that the tree returns is valid at the price asked for.
  pub get_level-LevelIsValid :
      (b : Bool) (t : Tree (Deque Order)) (price : Decimal) (orders : Deque Order)
      → SideIsValid b t
      → get_level t price ≡ some orders
      → LevelIsValid b (price, orders)
  get_level-LevelIsValid b t price orders h e =
      All-find_key less_than (LevelIsValid b) less_total price orders (levels t) h
        (rw get_level_lem at e)

  add_to-SideIsValid :
      (b : Bool) (t : Tree (Deque Order)) (o : Order)
      → Belongs b o.price o
      → SideIsValid b t
      → SideIsValid b (add_to t o)
  unfolding add_to
  add_to-SideIsValid b t o ok h = elim (Option-cases (get_level t o.price)) [
    | inl e ↦ rw (e, add_to) (pushed empty_deque (rw items-empty_deque tt))
    | inr (orders, e) ↦
        rw (e, add_to) (pushed orders (get_level-LevelIsValid b t o.price orders h e).1)
  ]
    where
      snoc-ne-nil : (l : List Order) → l ++ o ∷ [] ≢ []
      snoc-ne-nil [] = cc
      snoc-ne-nil (x ∷ l) = cc

      pushed :
          (q : Deque Order)
          → All (Belongs b o.price) (items q)
          → SideIsValid b (replace_or_insert t o.price (push_back q o))
      pushed q all =
          replace-SideIsValid b t o.price (push_back q o)
            (rw items-push_back (snoc-ne-nil (items q)))
            (rw items-push_back (All-append (Belongs b o.price) (items q) (o ∷ []) all (ok, tt))) h

  remove_from-SideIsValid :
      (b : Bool) (t t' : Tree (Deque Order)) (price : Decimal) (id : ℕ)
      → SideIsValid b t
      → remove_from t price id ≡ some t'
      → SideIsValid b t'
  unfolding remove_from
  remove_from-SideIsValid b t t' price id h e = elim (Option-cases (get_level t price)) [
    | inl d ↦ cc (rw (d, remove_from) at e)
    | inr (orders, d) ↦ elim (Option-cases (index_of id (items orders))) [
      | inl n ↦ cc (rw (d, n, remove_from) at e)
      | inr (i, n) ↦
          let gone : some (keep_level t price (remove_item orders i)) ≡ some t' =
            rw (d, n, remove_from) at e in
          let same : keep_level t price (remove_item orders i) ≡ t' = cc gone in
          subst (SideIsValid b) same (
            keep_level-SideIsValid b t price (remove_item orders i)
              (rw items-remove_item (
                All-remove_at (Belongs b price) (items orders) i
                  (get_level-LevelIsValid b t price orders h d).1))
              h)
    ]
  ]

  -- `AddOrder` keeps the book valid for every order of a positive price of which something is left, whatever
  -- its side.
  pub add_order-BookIsValid :
      (book : OrderBook) (o : Order)
      → less_than zero_decimal o.amount ≡ true
      → less_than zero_decimal o.price ≡ true
      → BookIsValid book
      → BookIsValid (add_order book o)
  unfolding add_order
  add_order-BookIsValid book o pos priced h = go o.side refl
    where
      ok : (b : Bool) → is_buy o.side ≡ b → Belongs b o.price o
      ok b e = record { at_price = refl; on_side = e; positive = pos; priced = priced }

      go : (s : OrderSide) → o.side ≡ s → BookIsValid (add_order book o)
      go buy e =
          rw (e, add_order)
            (record {
              buys = add_to-SideIsValid true book.buy_orders o (ok true (rw e)) h.buys;
              sells = h.sells;
            })
      go sell e =
          rw (e, add_order)
            (record {
              buys = h.buys;
              sells = add_to-SideIsValid false book.sell_orders o (ok false (rw e)) h.sells;
            })
      go (other_side s) e =
          rw (e, add_order)
            (record {
              buys = h.buys;
              sells = add_to-SideIsValid false book.sell_orders o (ok false (rw e)) h.sells;
            })

  -- `RemoveOrder` keeps the book valid, and changes nothing where it returns false.
  pub remove_order-BookIsValid :
      (book : OrderBook) (side : OrderSide) (price : Decimal) (id : ℕ)
      → BookIsValid book
      → BookIsValid (remove_order book side price id).0
        × ((remove_order book side price id).1 ≡ false → (remove_order book side price id).0 ≡ book)
  unfolding remove_order
  remove_order-BookIsValid book buy price id h =
      elim (Option-cases (remove_from book.buy_orders price id)) [
        | inl e ↦ rw (e, remove_order) (h, λ _. refl)
        | inr (t, e) ↦
            rw (e, remove_order)
              (
                record {
                  buys = remove_from-SideIsValid true book.buy_orders t price id h.buys e;
                  sells = h.sells;
                },
                λ n. cc,
              )
      ]
  remove_order-BookIsValid book _ price id h =
      elim (Option-cases (remove_from book.sell_orders price id)) [
        | inl e ↦ rw (e, remove_order) (h, λ _. refl)
        | inr (t, e) ↦
            rw (e, remove_order)
              (
                record {
                  buys = h.buys;
                  sells = remove_from-SideIsValid false book.sell_orders t price id h.sells e;
                },
                λ n. cc,
              )
      ]

  -- The price of a level is positive.
  pub LevelIsValid-priced :
      (b : Bool) (e : Decimal × Deque Order) → LevelIsValid b e → less_than zero_decimal e.0 ≡ true
  LevelIsValid-priced b (price, orders) (ne, all) = elim (List-cases (items orders)) [
    | inl n ↦ absurd (ne n)
    | inr (x, xs, n) ↦
        let own : All (Belongs b price) (x ∷ xs) = rw n at all in rw own.0.at_price at own.0.priced
  ]
