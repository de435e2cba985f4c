-- ===== src/Packages.antt =====
-- The third-party packages that the engine stands on, as parameters: exact decimals
-- (shopspring/decimal), the deque of one price level (gammazero/deque) and the tree of price
-- levels (google/btree). Each is a type with operations; the laws state documented behaviour.
-- Decimals are taken up to `Equal`, so that 1.0 and 1.00 are one value.
pub mod Laws
pub mod Int
use go_exchange_back.Prelude.{
  ℕ, ◌<◌, ◌≡◌, Bool, true, false, Option, none, some, List, [], ◌∷◌, ◌++◌, if◌then◌else◌, length,
  set, remove_at, find_key, put_key, delete_key, Ascending,
}

pub record Packages : Type 1 where
  -- decimal.Decimal: `quo a b` is the quotient of `a.QuoRem(b, DivisionPrecision)`.
  pub Decimal : Type 0
  pub zero_decimal : Decimal
  pub add : Decimal → Decimal → Decimal
  pub sub : Decimal → Decimal → Decimal
  pub mul : Decimal → Decimal → Decimal
  pub quo : Decimal → Decimal → Decimal
  pub min_decimal : Decimal → Decimal → Decimal
  pub less_than : Decimal → Decimal → Bool
  pub less_irrefl : (a : Decimal) → less_than a a ≡ false
  pub less_trans :
      (a b c : Decimal) → less_than a b ≡ true → less_than b c ≡ true → less_than a c ≡ true
  pub less_total : (a b : Decimal) → less_than a b ≡ false → less_than b a ≡ false → a ≡ b
  pub add_comm : (a b : Decimal) → add a b ≡ add b a
  pub add_assoc : (a b c : Decimal) → add (add a b) c ≡ add a (add b c)
  pub zero-add : (a : Decimal) → add zero_decimal a ≡ a
  pub neg : Decimal → Decimal
  pub neg-add : (a : Decimal) → add (neg a) a ≡ zero_decimal
  pub one_decimal : Decimal
  pub mul_comm : (a b : Decimal) → mul a b ≡ mul b a
  pub mul-one : (a : Decimal) → mul a one_decimal ≡ a
  pub sub-add : (a b : Decimal) → add (sub a b) b ≡ a
  pub less-add : (a b c : Decimal) → less_than (add a c) (add b c) ≡ less_than a b
  pub mul-add : (a b c : Decimal) → mul a (add b c) ≡ add (mul a b) (mul a c)
  pub mul_pos :
      (a b : Decimal)
      → less_than zero_decimal a ≡ true
      → less_than zero_decimal b ≡ true
      → less_than zero_decimal (mul a b) ≡ true
  -- The smaller of the two.
  pub min_lem : (a b : Decimal) → min_decimal a b ≡ (if less_than b a then b else a)
  -- The quotient is cut towards zero, and the remainder has no positive quotient left.
  pub mul-quo :
      (a b : Decimal)
      → less_than zero_decimal b ≡ true
      → less_than a zero_decimal ≡ false
      → less_than a (mul b (quo a b)) ≡ false
  pub quo-rest :
      (a b : Decimal)
      → less_than zero_decimal b ≡ true
      → less_than a zero_decimal ≡ false
      → less_than zero_decimal (quo (sub a (mul b (quo a b))) b) ≡ false
  -- deque.Deque: `items` is what `At(0)`, …, `At(Len() - 1)` return.
  pub Deque : Type 0 → Type 0
  pub items : {A : Type 0} → Deque A → List A
  pub empty_deque : {A : Type 0} → Deque A
  pub push_back : {A : Type 0} → Deque A → A → Deque A
  pub set_item : {A : Type 0} → Deque A → ℕ → A → Deque A
  pub remove_item : {A : Type 0} → Deque A → ℕ → Deque A
  pub items-empty_deque : {A : Type 0} → items (empty_deque {A = A}) ≡ []
  pub items-push_back :
      {A : Type 0} (q : Deque A) (a : A) → items (push_back q a) ≡ items q ++ a ∷ []
  pub items-set_item :
      {A : Type 0} (q : Deque A) (i : ℕ) (a : A) → items (set_item q i a) ≡ set (items q) i a
  pub items-remove_item :
      {A : Type 0} (q : Deque A) (i : ℕ) → items (remove_item q i) ≡ remove_at (items q) i
  -- btree.BTreeG over price levels ordered by their price: `levels` is what `Ascend` visits, and
  -- `Descend` visits the same backwards. A level is its price with its deque.
  pub Tree : Type 0 → Type 0
  pub levels : {V : Type 0} → Tree V → List (Decimal × V)
  pub new_tree : {V : Type 0} → Tree V
  pub get_level : {V : Type 0} → Tree V → Decimal → Option V
  pub replace_or_insert : {V : Type 0} → Tree V → Decimal → V → Tree V
  pub delete_level : {V : Type 0} → Tree V → Decimal → Tree V
  pub levels-new_tree : {V : Type 0} → levels (new_tree {V = V}) ≡ []
  pub levels-Ascending : {V : Type 0} (t : Tree V) → Ascending less_than (levels t)
  pub get_level_lem :
      {V : Type 0} (t : Tree V) (k : Decimal) → get_level t k ≡ find_key less_than k (levels t)
  pub levels-replace_or_insert :
      {V : Type 0} (t : Tree V) (k : Decimal) (v : V)
      → levels (replace_or_insert t k v) ≡ put_key less_than k v (levels t)
  pub levels-delete_level :
      {V : Type 0} (t : Tree V) (k : Decimal)
      → levels (delete_level t k) ≡ delete_key less_than k (levels t)
