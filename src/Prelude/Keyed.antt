-- ===== src/Prelude/Keyed.antt =====
-- Association lists kept in the order of their keys: what a search tree holds.
use mathlib.Core.Path.{◌≡◌, subst}
use mathlib.Core.Bool.{Bool, true, false}
use mathlib.Core.Logic.{inl, inr}
use mathlib.Core.List.{List, [], ◌∷◌}
use mathlib.Core.Option.{Option, none, some}
use go_exchange_back.Prelude.Tests.{if◌then◌else◌, Bool-cases}
use go_exchange_back.Prelude.Lists.{All, All-map}

module _ {K V : Type 0} (less : K → K → Bool) where
  -- The value under the key that is neither below nor above.
  abbrev pub find_key : K → List (K × V) → Option V
  find_key k [] = none
  find_key k ((j, v) ∷ l) = if less k j then none else if less j k then find_key k l else some v

  -- The entry goes to its place in the order and replaces one of the same key.
  abbrev pub put_key : K → V → List (K × V) → List (K × V)
  put_key k v [] = (k, v) ∷ []
  put_key k v ((j, w) ∷ l) =
      if less k j
      then (k, v) ∷ (j, w) ∷ l
      else if less j k
      then (j, w) ∷ put_key k v l
      else (k, v) ∷ l

  abbrev pub delete_key : K → List (K × V) → List (K × V)
  delete_key k [] = []
  delete_key k ((j, w) ∷ l) =
      if less k j then (j, w) ∷ l else if less j k then (j, w) ∷ delete_key k l else l

  -- Each key lies below every later one.
  abbrev pub Ascending : List (K × V) → Type 0
  Ascending [] = Unit
  Ascending ((j, w) ∷ l) = All (λ e. less j e.0 ≡ true) l × Ascending l

  module _ (P : K × V → Type 0) where
    pub All-put_key :
        (k : K) (v : V) (l : List (K × V)) → P (k, v) → All P l → All P (put_key k v l)
    All-put_key k v [] p h = (p, tt)
    All-put_key k v ((j, w) ∷ l) p h = elim (Bool-cases (less k j)) [
      | inl e ↦ rw e (p, h)
      | inr e ↦ rw e (elim (Bool-cases (less j k)) [
        | inl d ↦ rw d (h.0, All-put_key k v l p h.1)
        | inr d ↦ rw d (p, h.1)
      ])
    ]

    pub All-delete_key : (k : K) (l : List (K × V)) → All P l → All P (delete_key k l)
    All-delete_key k [] h = tt
    All-delete_key k ((j, w) ∷ l) h = elim (Bool-cases (less k j)) [
      | inl e ↦ rw e h
      | inr e ↦ rw e (elim (Bool-cases (less j k)) [
        | inl d ↦ rw d (h.0, All-delete_key k l h.1)
        | inr d ↦ rw d h.1
      ])
    ]

    -- A value that is found stands under the key itself, where keys that are not apart are equal.
    pub All-find_key :
        ((a b : K) → less a b ≡ false → less b a ≡ false → a ≡ b)
        → (k : K) (v : V) (l : List (K × V)) → All P l
        → find_key k l ≡ some v
        → P (k, v)
    All-find_key total k v [] h e = cc
    All-find_key total k v ((j, w) ∷ l) h e = elim (Bool-cases (less k j)) [
      | inl a ↦ cc (rw a at e)
      | inr a ↦ elim (Bool-cases (less j k)) [
        | inl b ↦ All-find_key total k v l h.1 (rw (a, b) at e)
        | inr b ↦
            let same : some w ≡ some v = rw (a, b) at e in
            let at_key : (j, w) ≡ (k, v) = cc (total k j a b) in subst P at_key h.0
      ]
    ]

module _ {K V : Type 0} (less : K → K → Bool)
    (trans : (a b c : K) → less a b ≡ true → less b c ≡ true → less a c ≡ true)
    (total : (a b : K) → less a b ≡ false → less b a ≡ false → a ≡ b) where
  pub Ascending-put_key :
      (k : K) (v : V) (l : List (K × V)) → Ascending less l → Ascending less (put_key less k v l)
  Ascending-put_key k v [] h = (tt, tt)
  Ascending-put_key k v ((j, w) ∷ l) h = elim (Bool-cases (less k j)) [
    | inl e ↦
        rw e
          ((e, All-map {Q = λ (x : K × V). less k x.0 ≡ true} (λ x p. trans k j x.0 e p) l h.0), h)
    | inr e ↦ elim (Bool-cases (less j k)) [
      | inl d ↦
          rw (e, d)
            (All-put_key less (λ x. less j x.0 ≡ true) k v l d h.0, Ascending-put_key k v l h.1)
      | inr d ↦ rw (e, d) (rw (total j k d e) at h.0, h.1)
    ]
  ]

  pub Ascending-delete_key :
      (k : K) (l : List (K × V)) → Ascending less l → Ascending less (delete_key less k l)
  Ascending-delete_key k [] h = tt
  Ascending-delete_key k ((j, w) ∷ l) h = elim (Bool-cases (less k j)) [
    | inl e ↦ rw e h
    | inr e ↦ elim (Bool-cases (less j k)) [
      | inl d ↦
          rw (e, d)
            (All-delete_key less (λ x. less j x.0 ≡ true) k l h.0, Ascending-delete_key k l h.1)
      | inr d ↦ rw (e, d) h.1
    ]
  ]
