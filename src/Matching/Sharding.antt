-- ===== src/Matching/Sharding.antt =====
-- internal/matching/sharded.go: engines that share the symbols out. A shard is named by its index;
-- the merged channels and the goroutines that forward to them are left out.
use text.Mathlib.Text.{◌==◌ as str_eq}
use text.Mathlib.TextEquality.{eq_iff}
use text.Mathlib.TextPositions.{eq_refl}
use go_exchange_back.Prelude.{
  ℕ, zero, suc, ◌+◌, ◌%◌, ◌≡◌, refl, inl, inr, none, some, String, List, [], ◌∷◌, ltb,
  if◌then◌else◌, length, Bool-cases, Option-cases,
}
use go_exchange_back.Packages.{Packages}
use go_exchange_back.Matching.Engine.{MatchingEngine, lookup}

module _ ⦃pk : Packages⦄ where
  -- `assignments` is the concurrent map of a symbol's shard; `next_shard` is the counter, which
  -- stays below 2 ^ 63.
  pub record ShardedEngine : Type 0 where
    pub shards : List MatchingEngine
    pub assignments : List (String × ℕ)
    pub next_shard : ℕ

  unfoldable pub replicate_engine : ℕ → MatchingEngine → List MatchingEngine
  replicate_engine zero e = []
  replicate_engine (suc n) e = e ∷ replicate_engine n e

  -- `NewShardedEngine` with a new engine for every shard; the empty symbol is shard 0's.
  unfoldable pub new_sharded_engine : ℕ → MatchingEngine → ShardedEngine
  new_sharded_engine shard_count fresh = record {
    shards = replicate_engine (if ltb shard_count 1 then 1 else shard_count) fresh;
    assignments = ("", 0) ∷ [];
    next_shard = 0;
  }

  -- `nextShard.Add(1) - 1`, on the shards in turn.
  unfoldable pub next_candidate : ShardedEngine → ℕ × ShardedEngine
  next_candidate se =
      (se.next_shard % length se.shards, record se { next_shard = se.next_shard + 1 })

  -- `LoadOrStore`: whoever stores first wins.
  unfoldable pub load_or_store : String → ℕ → ShardedEngine → ℕ × ShardedEngine
  load_or_store symbol candidate se = elim (lookup symbol se.assignments) [
    | some actual ↦ (actual, se)
    | none ↦ (candidate, record se { assignments = (symbol, candidate) ∷ se.assignments })
  ]

  unfoldable pub shard_for : String → ShardedEngine → ℕ × ShardedEngine
  shard_for symbol se = elim (lookup symbol se.assignments) [
    | some i ↦ (i, se)
    | none ↦ let (candidate, se₁) = next_candidate se in load_or_store symbol candidate se₁
  ]

  -- What another goroutine may do between two steps: draw a candidate, or store one.
  pub data ShardStep : ShardedEngine → ShardedEngine → Type 0 where
    draws : (se : ShardedEngine) → ShardStep se (next_candidate se).1
    stores :
        (symbol : String) (candidate : ℕ) (se : ShardedEngine)
        → ShardStep se (load_or_store symbol candidate se).1

  pub data ShardSteps : ShardedEngine → ShardedEngine → Type 0 where
    still : (se : ShardedEngine) → ShardSteps se se
    then_step : (a b c : ShardedEngine) → ShardStep a b → ShardSteps b c → ShardSteps a c

  lookup_self : (k : String) (i : ℕ) (l : List (String × ℕ)) → lookup k ((k, i) ∷ l) ≡ some i
  lookup_self k i l = rw (eq_refl k) refl

  load_or_store-stored :
      (symbol : String) (candidate : ℕ) (se : ShardedEngine)
      → lookup symbol (load_or_store symbol candidate se).1.assignments
        ≡ some (load_or_store symbol candidate se).0
  unfolding load_or_store
  load_or_store-stored symbol candidate se = elim (Option-cases (lookup symbol se.assignments)) [
    | inl n ↦ rw (load_or_store, n) (lookup_self symbol candidate se.assignments)
    | inr (i, n) ↦ rw (load_or_store, n) n
  ]

  -- An assignment that is made stays.
  load_or_store-keeps :
      (symbol k : String) (candidate i : ℕ) (se : ShardedEngine)
      → lookup k se.assignments ≡ some i
      → lookup k (load_or_store symbol candidate se).1.assignments ≡ some i
  unfolding load_or_store
  load_or_store-keeps symbol k candidate i se h =
      elim (Option-cases (lookup symbol se.assignments)) [
        | inl n ↦ elim (Bool-cases (str_eq k symbol)) [
          | inl e ↦ let same : k ≡ symbol = (eq_iff k symbol).0 e in cc (rw same at h)
          | inr e ↦ rw (load_or_store, n) (rw e h)
        ]
        | inr (j, n) ↦ rw (load_or_store, n) h
      ]

  step_keeps :
      (a b : ShardedEngine) (k : String) (i : ℕ)
      → ShardStep a b
      → lookup k a.assignments ≡ some i
      → lookup k b.assignments ≡ some i
  unfolding next_candidate
  step_keeps _ _ k i (draws se) h = h
  step_keeps _ _ k i (stores symbol candidate se) h = load_or_store-keeps symbol k candidate i se h

  steps_keep :
      (a b : ShardedEngine) (k : String) (i : ℕ)
      → ShardSteps a b
      → lookup k a.assignments ≡ some i
      → lookup k b.assignments ≡ some i
  steps_keep _ _ k i (still se) h = h
  steps_keep _ _ k i (then_step a b c s t) h = steps_keep b c k i t (step_keeps a b k i s h)

  shard_for-stored :
      (symbol : String) (se : ShardedEngine)
      → lookup symbol (shard_for symbol se).1.assignments ≡ some (shard_for symbol se).0
  unfolding shard_for
  shard_for-stored symbol se = elim (Option-cases (lookup symbol se.assignments)) [
    | inl n ↦
        rw (shard_for, n) (load_or_store-stored symbol (next_candidate se).0 (next_candidate se).1)
    | inr (i, n) ↦ rw (shard_for, n) n
  ]

  found_lem :
      (symbol : String) (se : ShardedEngine) (i : ℕ)
      → lookup symbol se.assignments ≡ some i
      → (shard_for symbol se).0 ≡ i
  unfolding shard_for
  found_lem symbol se i h = rw (shard_for, h) refl

  stored_lem :
      (symbol : String) (c : ℕ) (se : ShardedEngine) (i : ℕ)
      → lookup symbol se.assignments ≡ some i
      → (load_or_store symbol c se).0 ≡ i
  unfolding load_or_store
  stored_lem symbol c se i h = rw (load_or_store, h) refl

  -- Once a symbol has been given a shard, every later caller gets the same one, whatever candidates
  -- other goroutines draw and store in between, and so does a caller that had found no shard before
  -- and now stores a candidate of its own.
  pub shard_for-stable :
      (symbol : String) (se se' : ShardedEngine)
      → ShardSteps (shard_for symbol se).1 se'
      → ((shard_for symbol se').0 ≡ (shard_for symbol se).0)
        × ((candidate : ℕ) → (load_or_store symbol candidate se').0 ≡ (shard_for symbol se).0)
  shard_for-stable symbol se se' steps =
      let kept : lookup symbol se'.assignments ≡ some (shard_for symbol se).0 =
        steps_keep (shard_for symbol se).1 se' symbol (shard_for symbol se).0 steps
          (shard_for-stored symbol se) in
      (
        found_lem symbol se' (shard_for symbol se).0 kept,
        λ c. stored_lem symbol c se' (shard_for symbol se).0 kept,
      )
