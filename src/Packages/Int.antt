-- ===== src/Packages/Int.antt =====
-- An instance of the packages, which shows that their laws can be met and which the examples run on:
-- decimals as whole numbers, a deque as a list, and a tree as a list in order.
use native.Mathlib.Nat.{div-add-mod, mod-lt, div-eq_of_lt}
use go_exchange_back.Prelude.{
  ℕ, zero, suc, ◌%◌, ◌-◌, ◌*◌, ◌/◌, ◌≤◌, ◌<◌, ◌≡◌, refl, ap, true, false, List, [], ◌∷◌, ◌++◌,
  arith, if◌then◌else◌, set, remove_at, find_key, put_key, delete_key, Ascending, Ascending-put_key,
  Ascending-delete_key,
}
use go_exchange_back.Prelude.Int.{
  ℤ, pos, negsuc, pos_part, neg_part, ◌+ℤ◌, ◌-ℤ◌, ◌*ℤ◌, ltb_ℤ, +ℤ_parts, -ℤ_parts, *ℤ_parts,
  eq_of_parts, int_laws,
}
use go_exchange_back.Packages.{Packages}

pub less_irrefl : (a : ℤ) → ltb_ℤ a a ≡ false
less_irrefl a = ground arith

pub less_trans : (a b c : ℤ) → ltb_ℤ a b ≡ true → ltb_ℤ b c ≡ true → ltb_ℤ a c ≡ true
less_trans a b c p q = ground arith

pub less_total : (a b : ℤ) → ltb_ℤ a b ≡ false → ltb_ℤ b a ≡ false → a ≡ b
less_total a b p q = eq_of_parts a b (ground arith)

pub add_comm : (a b : ℤ) → a +ℤ b ≡ b +ℤ a
add_comm a b = omega int_laws

pub add_assoc : (a b c : ℤ) → a +ℤ b +ℤ c ≡ a +ℤ (b +ℤ c)
add_assoc a b c = omega int_laws

pub zero-add : (a : ℤ) → pos 0 +ℤ a ≡ a
zero-add a = omega int_laws

unfoldable pub neg : ℤ → ℤ
neg a = pos 0 -ℤ a

pub neg-add : (a : ℤ) → neg a +ℤ a ≡ pos 0
unfolding neg
neg-add a = omega int_laws

pub mul_comm : (a b : ℤ) → a *ℤ b ≡ b *ℤ a
mul_comm a b = eq_of_parts _ _ (omega (arith, *ℤ_parts a b, *ℤ_parts b a))

pub mul-one : (a : ℤ) → a *ℤ pos 1 ≡ a
mul-one a = eq_of_parts _ _ (omega (arith, *ℤ_parts a (pos 1)))

pub sub-add : (a b : ℤ) → a -ℤ b +ℤ b ≡ a
sub-add a b = omega int_laws

pub less-add : (a b c : ℤ) → ltb_ℤ (a +ℤ c) (b +ℤ c) ≡ ltb_ℤ a b
less-add a b c = ground (arith, +ℤ_parts a c, +ℤ_parts b c)

pub mul-add : (a b c : ℤ) → a *ℤ (b +ℤ c) ≡ a *ℤ b +ℤ a *ℤ c
mul-add a b c =
    let s = +ℤ_parts b c in
    eq_of_parts _ _ (
      omega (
        arith,
        *ℤ_parts a (b +ℤ c),
        *ℤ_parts a b,
        *ℤ_parts a c,
        +ℤ_parts (a *ℤ b) (a *ℤ c),
        ap (λ (t : ℕ). pos_part a * t) s,
        ap (λ (t : ℕ). neg_part a * t) s,
      ))

*ℤ-pos : (a b : ℕ) → pos a *ℤ pos b ≡ pos (a * b)
*ℤ-pos a b = eq_of_parts _ _ (omega (arith, *ℤ_parts (pos a) (pos b)))

-ℤ-pos : (a b : ℕ) → b ≤ a → pos a -ℤ pos b ≡ pos (a - b)
-ℤ-pos a b h = eq_of_parts _ _ (omega (arith, -ℤ_parts (pos a) (pos b)))

mul_pos_ℕ : (a b : ℕ) → 0 < a → 0 < b → 0 < a * b
mul_pos_ℕ (suc a) (suc b) h j = omega arith
mul_pos_ℕ zero b h j = omega arith
mul_pos_ℕ (suc a) zero h j = omega arith

pub mul_pos :
    (a b : ℤ) → ltb_ℤ (pos 0) a ≡ true → ltb_ℤ (pos 0) b ≡ true → ltb_ℤ (pos 0) (a *ℤ b) ≡ true
mul_pos (pos a) (pos b) p q =
    rw (*ℤ-pos a b) (ground (arith, mul_pos_ℕ a b (ground arith) (ground arith)))
mul_pos (pos a) (negsuc b) p q = ground arith
mul_pos (negsuc a) b p q = ground arith

unfoldable pub min_ℤ : ℤ → ℤ → ℤ
min_ℤ a b = if ltb_ℤ b a then b else a

pub min_lem : (a b : ℤ) → min_ℤ a b ≡ (if ltb_ℤ b a then b else a)
unfolding min_ℤ
min_lem a b = refl

unfoldable pub quo_ℤ : ℤ → ℤ → ℤ
quo_ℤ a b = pos (pos_part a / pos_part b)

mul-div_le : (a b : ℕ) → b * (a / b) ≤ a
mul-div_le a b = omega (arith, div-add-mod a b)

rest-div : (a b : ℕ) → 0 < b → (a - b * (a / b)) / b ≡ 0
rest-div a b h =
    let r : a - b * (a / b) ≡ a % b = omega (arith, div-add-mod a b) in
    rw r (div-eq_of_lt (mod-lt a h))

pub mul-quo :
    (a b : ℤ) → ltb_ℤ (pos 0) b ≡ true → ltb_ℤ a (pos 0) ≡ false → ltb_ℤ a (b *ℤ quo_ℤ a b) ≡ false
unfolding quo_ℤ
mul-quo (pos a) (pos b) p q = rw (*ℤ-pos b (a / b)) (ground (arith, mul-div_le a b))
mul-quo (pos a) (negsuc b) p q = ground arith
mul-quo (negsuc a) b p q = ground arith

pub quo-rest :
    (a b : ℤ)
    → ltb_ℤ (pos 0) b ≡ true
    → ltb_ℤ a (pos 0) ≡ false
    → ltb_ℤ (pos 0) (quo_ℤ (a -ℤ b *ℤ quo_ℤ a b) b) ≡ false
unfolding quo_ℤ
quo-rest (pos a) (pos b) p q =
    rw (*ℤ-pos b (a / b), -ℤ-pos a (b * (a / b)) (mul-div_le a b), rest-div a b (ground arith)) refl
quo-rest (pos a) (negsuc b) p q = ground arith
quo-rest (negsuc a) b p q = ground arith

-- The entries of a tree, in order.
abbrev KeyedList : Type 0 → Type 0
KeyedList V = (l : List (ℤ × V)) × Ascending ltb_ℤ l

instance abbrev pub int_packages : Packages
int_packages = record {
  Decimal = ℤ;
  zero_decimal = pos 0;
  add = ◌+ℤ◌;
  sub = ◌-ℤ◌;
  mul = ◌*ℤ◌;
  quo = quo_ℤ;
  min_decimal = min_ℤ;
  less_than = ltb_ℤ;
  less_irrefl = less_irrefl;
  less_trans = less_trans;
  less_total = less_total;
  add_comm = add_comm;
  add_assoc = add_assoc;
  zero-add = zero-add;
  neg = neg;
  neg-add = neg-add;
  one_decimal = pos 1;
  mul_comm = mul_comm;
  mul-one = mul-one;
  sub-add = sub-add;
  less-add = less-add;
  mul-add = mul-add;
  mul_pos = mul_pos;
  min_lem = min_lem;
  mul-quo = mul-quo;
  quo-rest = quo-rest;
  Deque = List;
  items = λ q. q;
  empty_deque = [];
  push_back = λ q a. q ++ a ∷ [];
  set_item = set;
  remove_item = remove_at;
  items-empty_deque = refl;
  items-push_back = λ q a. refl;
  items-set_item = λ q i a. refl;
  items-remove_item = λ q i. refl;
  Tree = KeyedList;
  levels = λ t. t.0;
  new_tree = ([], tt);
  get_level = λ t k. find_key ltb_ℤ k t.0;
  replace_or_insert =
      λ t k v. (put_key ltb_ℤ k v t.0, Ascending-put_key ltb_ℤ less_trans less_total k v t.0 t.1);
  delete_level =
      λ t k. (delete_key ltb_ℤ k t.0, Ascending-delete_key ltb_ℤ less_trans less_total k t.0 t.1);
  levels-new_tree = refl;
  levels-Ascending = λ t. t.1;
  get_level_lem = λ t k. refl;
  levels-replace_or_insert = λ t k v. refl;
  levels-delete_level = λ t k. refl;
}
