-- ===== src/Prelude/Queries.antt =====
-- Rows that satisfy a test, and lists that are sorted by a comparison.
use mathlib.Core.Path.{◌≡◌, refl, ap, ◌∙◌}
use mathlib.Core.Bool.{Bool, true, false, ◌||◌}
use mathlib.Core.Logic.{inl, inr}
use mathlib.Core.List.{List, [], ◌∷◌, ◌++◌}
use go_exchange_back.Prelude.Tests.{if◌then◌else◌, Bool-cases}

or_swap : (a b c : Bool) → (a || (b || c)) ≡ (b || (a || c))
or_swap true true c = refl
or_swap true false c = refl
or_swap false true c = refl
or_swap false false c = refl

module _ {ℓ} {A : Type ℓ} where
  abbrev pub any : (A → Bool) → List A → Bool
  any f [] = false
  any f (x ∷ xs) = f x || any f xs

  abbrev pub filter : (A → Bool) → List A → List A
  filter f [] = []
  filter f (x ∷ xs) = let rest = filter f xs in if f x then x ∷ rest else rest

  abbrev pub insert_by : (A → A → Bool) → A → List A → List A
  insert_by less x [] = x ∷ []
  insert_by less x (y ∷ ys) =
      let rest = insert_by less x ys in if less y x then y ∷ rest else x ∷ y ∷ ys

  -- `sort.Slice` with a comparison.
  abbrev pub sort_by : (A → A → Bool) → List A → List A
  sort_by less [] = []
  sort_by less (x ∷ xs) = insert_by less x (sort_by less xs)

  pub any-insert_by :
      (f : A → Bool) (less : A → A → Bool) (x : A) (l : List A)
      → any f (insert_by less x l) ≡ (f x || any f l)
  any-insert_by f less x [] = refl
  any-insert_by f less x (y ∷ ys) = elim (Bool-cases (less y x)) [
    | inl e ↦ rw (e, any-insert_by f less x ys) (or_swap (f y) (f x) (any f ys))
    | inr e ↦ rw e refl
  ]

  pub any-sort_by :
      (f : A → Bool) (less : A → A → Bool) (l : List A) → any f (sort_by less l) ≡ any f l
  any-sort_by f less [] = refl
  any-sort_by f less (x ∷ xs) =
      any-insert_by f less x (sort_by less xs) ∙ ap (◌||◌ (f x)) (any-sort_by f less xs)

  pub filter-append :
      (f : A → Bool) (xs ys : List A) → filter f (xs ++ ys) ≡ filter f xs ++ filter f ys
  filter-append f [] ys = refl
  filter-append f (x ∷ xs) ys = elim (Bool-cases (f x)) [
    | inl e ↦ rw e (ap (◌∷◌ x) (filter-append f xs ys))
    | inr e ↦ rw e (filter-append f xs ys)
  ]
