-- ===== src/Packages/Laws.antt =====
-- Consequences of the laws of decimals.
use go_exchange_back.Prelude.{◌≡◌, sym, ap, ◌∙◌, true, false, inl, inr, ◌⊎◌, Bool-cases}
use go_exchange_back.Packages.{Packages}

module _ ⦃pk : Packages⦄ where
  open pk use {
    Decimal, zero_decimal, add, sub, mul, min_decimal, less_than, less_irrefl, less_trans,
    less_total, add_comm, add_assoc, zero-add, sub-add, less-add, mul-add, mul_pos, min_lem,
  }

  pub less_asym : (a b : Decimal) → less_than a b ≡ true → less_than b a ≡ false
  less_asym a b h = elim (Bool-cases (less_than b a)) [
    | inl e ↦ cc (less_trans a b a h e, less_irrefl a)
    | inr e ↦ e
  ]

  -- `a ≤ b` is `less_than b a ≡ false`.
  pub le_trans_lt :
      (a b c : Decimal) → less_than b a ≡ false → less_than b c ≡ true → less_than a c ≡ true
  le_trans_lt a b c h k = elim (Bool-cases (less_than a b)) [
    | inl e ↦ less_trans a b c e k
    | inr e ↦ rw (less_total a b e h) k
  ]

  pub le_trans :
      (a b c : Decimal) → less_than b a ≡ false → less_than c b ≡ false → less_than c a ≡ false
  le_trans a b c h k = elim (Bool-cases (less_than c a)) [
    | inl e ↦ elim (Bool-cases (less_than a b)) [
      | inl d ↦ cc (less_trans c a b e d)
      | inr d ↦ cc (less_total a b d h)
    ]
    | inr e ↦ e
  ]

  pub add-cancel : (a b c : Decimal) → add a c ≡ add b c → a ≡ b
  add-cancel a b c e =
      less_total a b (sym (less-add a b c) ∙ rw e (less_irrefl (add b c)))
        (sym (less-add b a c) ∙ rw e (less_irrefl (add b c)))

  pub sub_self : (a : Decimal) → sub a a ≡ zero_decimal
  sub_self a = add-cancel (sub a a) zero_decimal a (sub-add a a ∙ sym (zero-add a))

  pub less-zero-sub : (a b : Decimal) → less_than zero_decimal (sub a b) ≡ less_than b a
  less-zero-sub a b = sym (less-add zero_decimal (sub a b) b) ∙ rw (zero-add b, sub-add a b)

  pub less-sub-zero : (a b : Decimal) → less_than (sub a b) zero_decimal ≡ less_than a b
  less-sub-zero a b = sym (less-add (sub a b) zero_decimal b) ∙ rw (zero-add b, sub-add a b)

  -- What leaves one amount and joins the other keeps their sum.
  pub add_transfer : (a f q : Decimal) → add (sub a q) (add f q) ≡ add a f
  add_transfer a f q =
      ap (add (sub a q)) (add_comm f q)
      ∙ sym (add_assoc (sub a q) q f)
      ∙ ap (λ x. add x f) (sub-add a q)

  -- The minimum is one of the two, and the other is no smaller.
  pub min-cases :
      (a b : Decimal)
      → ((min_decimal a b ≡ a) × (less_than b a ≡ false))
        ⊎ ((min_decimal a b ≡ b) × (less_than b a ≡ true))
  min-cases a b = elim (Bool-cases (less_than b a)) [
    | inl e ↦ inr (min_lem a b ∙ rw e, e)
    | inr e ↦ inl (min_lem a b ∙ rw e, e)
  ]

  pub min-le_left : (a b : Decimal) → less_than a (min_decimal a b) ≡ false
  min-le_left a b = elim (min-cases a b) [
    | inl (e, h) ↦ rw e (less_irrefl a)
    | inr (e, h) ↦ rw e (less_asym b a h)
  ]

  pub min-le_right : (a b : Decimal) → less_than b (min_decimal a b) ≡ false
  min-le_right a b = elim (min-cases a b) [
    | inl (e, h) ↦ rw e h
    | inr (e, h) ↦ rw e (less_irrefl b)
  ]

  pub less-mul :
      (a b c : Decimal)
      → less_than zero_decimal a ≡ true
      → less_than b c ≡ true
      → less_than (mul a b) (mul a c) ≡ true
  less-mul a b c pos h =
      let gap : less_than zero_decimal (mul a (sub c b)) ≡ true =
        mul_pos a (sub c b) pos (less-zero-sub c b ∙ h) in
      let whole : add (mul a (sub c b)) (mul a b) ≡ mul a c =
        sym (mul-add a (sub c b) b) ∙ ap (mul a) (sub-add c b) in
      rw (← whole) (
        ap (λ x. less_than x (add (mul a (sub c b)) (mul a b))) (sym (zero-add (mul a b)))
        ∙ less-add zero_decimal (mul a (sub c b)) (mul a b)
        ∙ gap)

  pub le-mul :
      (a b c : Decimal)
      → less_than zero_decimal a ≡ true
      → less_than c b ≡ false
      → less_than (mul a c) (mul a b) ≡ false
  le-mul a b c pos h = elim (Bool-cases (less_than b c)) [
    | inl e ↦ less_asym (mul a b) (mul a c) (less-mul a b c pos e)
    | inr e ↦ let same : b ≡ c = less_total b c e h in rw same (less_irrefl (mul a c))
  ]
