-- ===== src/Matching/Book/Removal.antt =====
-- `RemoveOrder` against the bag of resting orders.
use mathlib.Core.List.{Perm}
use go_exchange_back.Prelude.{
  ℕ, suc, ◌≡◌, ◌≢◌, inl, inr, Option, none, some, List, [], ◌∷◌, arith, ◌==◌, get_elem?, find_key,
  All, Ascending, Bool-cases, Option-cases, All-map, All-map2,
}
use go_exchange_back.Packages.{Packages}
use go_exchange_back.Packages.Laws.{less_asym}
use go_exchange_back.Matching.Types.{Order}
use go_exchange_back.Matching.Book.{index_of, remove_from}
use go_exchange_back.Matching.Book.Contents.{contents, keep_level-perm, perm-remove_at}

module _ ⦃pk : Packages⦄ where
  open pk use {
    Decimal, Deque, Tree, items, remove_item, levels, get_level, less_than, less_irrefl, less_total,
    items-remove_item, get_level_lem, levels-Ascending,
  }

  index_of-some :
      (id : ℕ) (os : List Order) (i : ℕ)
      → index_of id os ≡ some i
      → (o : Order) × (get_elem? os i ≡ some o) × (o.id ≡ id)
  unfolding index_of
  index_of-some id [] i e = cc
  index_of-some id (o ∷ os) i e = elim (Bool-cases (o.id == id)) [
    | inl h ↦
        let at_index : some 0 ≡ some i = rw h at e in
        let same : 0 ≡ i = cc at_index in (o, rw (← same), ground arith)
    | inr h ↦ elim (Option-cases (index_of id os)) [
      | inl d ↦ cc (rw (h, d) at e)
      | inr (j, d) ↦
          let (o', at, same_id) = index_of-some id os j d in
          let at_index : some (suc j) ≡ some i = rw (h, d) at e in
          let same : suc j ≡ i = cc at_index in (o', rw (← same) at, same_id)
    ]
  ]

  index_of-none : (id : ℕ) (os : List Order) → index_of id os ≡ none → All (λ o. o.id ≢ id) os
  unfolding index_of
  index_of-none id [] e = tt
  index_of-none id (o ∷ os) e = elim (Bool-cases (o.id == id)) [
    | inl h ↦ cc (rw h at e)
    | inr h ↦ elim (Option-cases (index_of id os)) [
      | inl d ↦ (ground arith, index_of-none id os d)
      | inr (j, d) ↦ cc (rw (h, d) at e)
    ]
  ]

  find_key-none :
      (k : Decimal) (l : List (Decimal × Deque Order))
      → Ascending less_than l
      → find_key less_than k l ≡ none
      → All (λ e. k ≢ e.0) l
  find_key-none k [] h e = tt
  find_key-none k ((j, u) ∷ l) h e = elim (Bool-cases (less_than k j)) [
    | inl a ↦ (
      λ same. cc (less_irrefl j, rw same at a),
      All-map {Q = λ e. k ≢ e.0} (λ x p same. cc (less_asym k j a, rw (← same) at p)) l h.0,
    )
    | inr a ↦ elim (Bool-cases (less_than j k)) [
      | inl b ↦ (λ same. cc (less_irrefl j, rw same at b), find_key-none k l h.1 (rw (a, b) at e))
      | inr b ↦ cc (rw (a, b) at e)
    ]
  ]

  -- No other level has the price of the one found.
  find_key_unique :
      (k : Decimal) (w : Deque Order) (l : List (Decimal × Deque Order))
      → Ascending less_than l
      → find_key less_than k l ≡ some w
      → All (λ e. k ≡ e.0 → w ≡ e.1) l
  find_key_unique k w [] h e = tt
  find_key_unique k w ((j, u) ∷ l) h e = elim (Bool-cases (less_than k j)) [
    | inl a ↦ cc (rw a at e)
    | inr a ↦ elim (Bool-cases (less_than j k)) [
      | inl b ↦
          (λ same. cc (less_irrefl j, rw same at b), find_key_unique k w l h.1 (rw (a, b) at e))
      | inr b ↦
          let found : some u ≡ some w = rw (a, b) at e in
          (
            λ _. cc found,
            All-map {Q = λ e. k ≡ e.0 → w ≡ e.1} (λ x p same. cc (b, rw (← same) at p)) l h.0,
          )
    ]
  ]

  -- What `RemoveOrder` does to one side: it takes out one order with the id, or there is none with
  -- the id on a level of that price.
  abbrev pub Removes : Tree (Deque Order) → Decimal → ℕ → Option (Tree (Deque Order)) → Type 0
  Removes t price id (some t') =
      (o : Order) × (o.id ≡ id) × Perm (contents (levels t)) (o ∷ contents (levels t'))
  Removes t price id none = All (λ e. price ≡ e.0 → All (λ o. o.id ≢ id) (items e.1)) (levels t)

  -- Removing an id from one side takes out exactly one order, which has that id, and keeps every other
  -- one; where nothing is removed, no level of the price holds an order of that id.
  pub remove_from-Removes :
      (t : Tree (Deque Order)) (price : Decimal) (id : ℕ)
      → Removes t price id (remove_from t price id)
  unfolding remove_from
  remove_from-Removes t price id = elim (Option-cases (get_level t price)) [
    | inl d ↦
        rw (d, remove_from)
          (All-map {Q = λ e. price ≡ e.0 → All (λ o. o.id ≢ id) (items e.1)}
            (λ e ne same. absurd (ne same)) (levels t)
            (find_key-none price (levels t) (levels-Ascending t) (rw get_level_lem at d)))
    | inr (w, d) ↦ elim (Option-cases (index_of id (items w))) [
      | inl n ↦
          rw (d, n, remove_from)
            (All-map {Q = λ e. price ≡ e.0 → All (λ o. o.id ≢ id) (items e.1)}
              (λ e same here. rw (same here) at (index_of-none id (items w) n)) (levels t)
              (find_key_unique price w (levels t) (levels-Ascending t) (rw get_level_lem at d)))
      | inr (i, n) ↦
          let (o, at, same_id) = index_of-some id (items w) i n in
          rw (d, n, remove_from)
            (
              o,
              same_id,
              keep_level-perm [] (o ∷ []) t price w (remove_item w i) d
                  (rw items-remove_item (perm-remove_at (items w) i o at)),
            )
    ]
  ]

  pub find_key_self :
      (l : List (Decimal × Deque Order))
      → Ascending less_than l
      → All (λ e. find_key less_than e.0 l ≡ some e.1) l
  find_key_self [] h = tt
  find_key_self ((j, u) ∷ l) h = (
    rw (less_irrefl j),
    All-map2 {R = λ (e : Decimal × Deque Order). find_key less_than e.0 ((j, u) ∷ l) ≡ some e.1}
        (λ e below found. rw (less_asym j e.0 below, below) found) l h.0 (find_key_self l h.1),
  )
