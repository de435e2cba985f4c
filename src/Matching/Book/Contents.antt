-- ===== src/Matching/Book/Contents.antt =====
-- The book as a bag of resting orders: what `AddOrder` and a changed level do to it.
use mathlib.Core.List.{Perm, perm_middle, append_assoc, append-nil}
use mathlib.Core.List.Perm
use go_exchange_back.Prelude.{
  ℕ, zero, suc, ◌≡◌, ◌≢◌, inl, inr, none, some, List, [], ◌∷◌, ◌++◌, get_elem?, remove_at, find_key,
  put_key, delete_key, Bool-cases, Option-cases, List-cases,
}
use go_exchange_back.Packages.{Packages}
use go_exchange_back.Matching.Types.{Order}
use go_exchange_back.Matching.Book.{add_to, keep_level}

perm_left_comm {ℓ} : {A : Type ℓ} (a x c : List A) → Perm (a ++ (x ++ c)) (x ++ (a ++ c))
perm_left_comm [] x c = Perm.refl (x ++ c)
perm_left_comm (y ∷ a) x c =
    Perm.trans (Perm.cons y (perm_left_comm a x c)) (Perm.symm (perm_middle x (a ++ c)))

pub perm-remove_at {ℓ} :
    {A : Type ℓ} (l : List A) (i : ℕ) (x : A) → get_elem? l i ≡ some x → Perm l (x ∷ remove_at l i)
perm-remove_at [] i x e = cc
perm-remove_at (y ∷ l) zero x e = let same : y ≡ x = cc in rw same (Perm.refl (x ∷ l))
perm-remove_at (y ∷ l) (suc i) x e =
    Perm.trans (Perm.cons y (perm-remove_at l i x e)) (Perm.swap x y (remove_at l i))

module _ ⦃pk : Packages⦄ where
  open pk use {
    Decimal, Deque, Tree, items, empty_deque, push_back, remove_item, levels, get_level,
    replace_or_insert, delete_level, less_than, less_irrefl, items-empty_deque, items-push_back,
    items-remove_item, get_level_lem, levels-replace_or_insert, levels-delete_level,
    levels-Ascending,
  }

  -- Best price first on the sell side, queue order within a price.
  abbrev pub contents : List (Decimal × Deque Order) → List Order
  contents [] = []
  contents ((price, orders) ∷ l) = items orders ++ contents l

  -- A level whose bag changes from `xs` to `ys` changes the bag of its side alike.
  put-perm :
      (xs ys : List Order) (k : Decimal) (v w : Deque Order) (l : List (Decimal × Deque Order))
      → find_key less_than k l ≡ some w
      → Perm (xs ++ items w) (ys ++ items v)
      → Perm (xs ++ contents l) (ys ++ contents (put_key less_than k v l))
  put-perm xs ys k v w [] e p = cc
  put-perm xs ys k v w ((j, u) ∷ l) e p = elim (Bool-cases (less_than k j)) [
    | inl a ↦ cc (rw a at e)
    | inr a ↦ elim (Bool-cases (less_than j k)) [
      | inl b ↦
          rw (a, b)
            (Perm.trans (perm_left_comm xs (items u) (contents l)) (
              Perm.trans (Perm.append_left (items u) (put-perm xs ys k v w l (rw (a, b) at e) p))
                (perm_left_comm (items u) ys (contents (put_key less_than k v l)))))
      | inr b ↦
          let same : some u ≡ some w = rw (a, b) at e in
          let u_w : u ≡ w = cc same in
          rw (a, b, u_w) (simp append_assoc at (Perm.append_right (contents l) p))
    ]
  ]

  pub delete-perm :
      (k : Decimal) (w : Deque Order) (l : List (Decimal × Deque Order))
      → find_key less_than k l ≡ some w
      → Perm (contents l) (items w ++ contents (delete_key less_than k l))
  delete-perm k w [] e = cc
  delete-perm k w ((j, u) ∷ l) e = elim (Bool-cases (less_than k j)) [
    | inl a ↦ cc (rw a at e)
    | inr a ↦ elim (Bool-cases (less_than j k)) [
      | inl b ↦
          rw (a, b)
            (Perm.trans (Perm.append_left (items u) (delete-perm k w l (rw (a, b) at e)))
              (perm_left_comm (items u) (items w) (contents (delete_key less_than k l))))
      | inr b ↦
          let same : some u ≡ some w = rw (a, b) at e in
          let u_w : u ≡ w = cc same in rw (a, b, u_w) (Perm.refl _)
    ]
  ]

  put_new-perm :
      (k : Decimal) (v : Deque Order) (l : List (Decimal × Deque Order))
      → find_key less_than k l ≡ none
      → Perm (contents (put_key less_than k v l)) (items v ++ contents l)
  put_new-perm k v [] e = Perm.refl _
  put_new-perm k v ((j, u) ∷ l) e = elim (Bool-cases (less_than k j)) [
    | inl a ↦ rw a (Perm.refl _)
    | inr a ↦ elim (Bool-cases (less_than j k)) [
      | inl b ↦
          rw (a, b)
            (Perm.trans (Perm.append_left (items u) (put_new-perm k v l (rw (a, b) at e)))
              (perm_left_comm (items u) (items v) (contents l)))
      | inr b ↦ cc (rw (a, b) at e)
    ]
  ]

  snoc-perm : (l : List Order) (o : Order) → Perm (l ++ o ∷ []) (o ∷ l)
  snoc-perm [] o = Perm.refl _
  snoc-perm (x ∷ l) o = Perm.trans (Perm.cons x (snoc-perm l o)) (Perm.swap o x l)

  -- One side gains the order, and keeps every other one.
  pub add_to-perm :
      (t : Tree (Deque Order)) (o : Order)
      → Perm (contents (levels (add_to t o))) (o ∷ contents (levels t))
  unfolding add_to
  add_to-perm t o = elim (Option-cases (get_level t o.price)) [
    | inl e ↦
        rw (e, add_to, levels-replace_or_insert)
          (rw one_item at
            (put_new-perm o.price (push_back empty_deque o) (levels t) (rw get_level_lem at e)))
    | inr (w, e) ↦
        rw (e, add_to, levels-replace_or_insert)
          (Perm.symm (
            put-perm (o ∷ []) [] o.price (push_back w o) w (levels t) (rw get_level_lem at e)
              (rw items-push_back (Perm.symm (snoc-perm (items w) o)))))
  ]
    where
      one_item : items (push_back empty_deque o) ≡ o ∷ []
      one_item = rw (items-push_back, items-empty_deque)

  -- The level at a price when its bag has changed from `xs` to `ys`.
  pub keep_level-perm :
      (xs ys : List Order) (t : Tree (Deque Order)) (price : Decimal) (w v : Deque Order)
      → get_level t price ≡ some w
      → Perm (xs ++ items w) (ys ++ items v)
      → Perm (xs ++ contents (levels t)) (ys ++ contents (levels (keep_level t price v)))
  unfolding keep_level
  keep_level-perm xs ys t price w v e p = elim (List-cases (items v)) [
    | inl n ↦
        let gone = delete-perm price w (levels t) (rw get_level_lem at e) in
        let all_out : Perm (xs ++ items w) ys = rw (n, append-nil) at p in
        rw (n, keep_level, levels-delete_level)
          (Perm.trans (Perm.append_left xs gone) (
            rw append_assoc at
              (Perm.append_right (contents (delete_key less_than price (levels t))) all_out)))
    | inr (x, zs, n) ↦
        rw (n, keep_level, levels-replace_or_insert)
          (put-perm xs ys price v w (levels t) (rw get_level_lem at e) p)
  ]

  -- A level with orders in it stands in the tree.
  pub keep_level-replaces :
      (t : Tree (Deque Order)) (price : Decimal) (v : Deque Order)
      → items v ≢ []
      → levels (keep_level t price v) ≡ put_key less_than price v (levels t)
  unfolding keep_level
  keep_level-replaces t price v ne = elim (List-cases (items v)) [
    | inl n ↦ absurd (ne n)
    | inr (x, zs, n) ↦ rw (n, keep_level) (levels-replace_or_insert t price v)
  ]
