-- ===== src/Matching/Book/Totals.antt =====
-- The number of resting orders and the sum of what is left of them, over the bag of orders.
use native.Mathlib.Nat.{ℕ_set}
use mathlib.Core.HLevel.{hedberg}
use mathlib.Core.Path.{ap₂}
use mathlib.Core.List.{Perm, Permᴰ}
use mathlib.Core.Logic.{∥∥₁_elim}
use go_exchange_back.Prelude.{
  suc, ◌≡◌, refl, sym, ap, ◌∙◌, inl, inr, List, [], ◌∷◌, length, Bool-cases,
}
use go_exchange_back.Packages.{Packages}
use go_exchange_back.Matching.Types.{Order}

length-permᴰ {ℓ} : {A : Type ℓ} {xs ys : List A} → Permᴰ xs ys → length xs ≡ length ys
length-permᴰ Permᴰ.nil = refl
length-permᴰ (Permᴰ.cons e d) = ap suc (length-permᴰ d)
length-permᴰ (Permᴰ.swap e f) = refl
length-permᴰ (Permᴰ.trans d e) = length-permᴰ d ∙ length-permᴰ e

pub length-perm {ℓ} : {A : Type ℓ} {xs ys : List A} → Perm xs ys → length xs ≡ length ys
length-perm {xs = xs} {ys = ys} p = ∥∥₁_elim p (ℕ_set (length xs) (length ys)) length-permᴰ

module _ ⦃pk : Packages⦄ where
  open pk use {Decimal, zero_decimal, add, less_than, less_total, less_irrefl, add_comm, add_assoc}

  pub Decimal-discrete : Discrete Decimal
  Decimal-discrete a b = elim (Bool-cases (less_than a b)) [
    | inl h ↦ no (λ e. cc (less_irrefl b, rw e at h))
    | inr h ↦ elim (Bool-cases (less_than b a)) [
      | inl k ↦ no (λ e. cc (less_irrefl b, rw e at k))
      | inr k ↦ yes (less_total a b h k)
    ]
  ]

  -- The amounts that are left, added up.
  abbrev pub total : List Order → Decimal
  total [] = zero_decimal
  total (o ∷ os) = add o.amount (total os)

  add_left_comm : (a b c : Decimal) → add a (add b c) ≡ add b (add a c)
  add_left_comm a b c = sym (add_assoc a b c) ∙ ap (λ x. add x c) (add_comm a b) ∙ add_assoc b a c

  total-permᴰ : {xs ys : List Order} → Permᴰ xs ys → total xs ≡ total ys
  total-permᴰ Permᴰ.nil = refl
  total-permᴰ (Permᴰ.cons e d) = ap₂ (λ (o : Order) t. add o.amount t) e (total-permᴰ d)
  total-permᴰ (Permᴰ.swap {a = a} {b = b} {l = l} e f) =
      add_left_comm a.amount b.amount (total l)
      ∙ ap₂ (λ (o u : Order). add o.amount (add u.amount (total l))) f e
  total-permᴰ (Permᴰ.trans d e) = total-permᴰ d ∙ total-permᴰ e

  pub total-perm : {xs ys : List Order} → Perm xs ys → total xs ≡ total ys
  total-perm {xs} {ys} p = ∥∥₁_elim p (hedberg Decimal-discrete (total xs) (total ys)) total-permᴰ
