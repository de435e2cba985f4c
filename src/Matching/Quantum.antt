-- ===== src/Matching/Quantum.antt =====
-- internal/matching/quantum_config.go: the two limits of the scheduler and the check that the
-- execution channel has room for them. Go's `int` is ℤ here, with its range in the theorems.
use go_exchange_back.Prelude.{
  ℕ, ◌+◌, ◌-◌, ◌*◌, ◌/◌, ◌%◌, ◌≤◌, ◌<◌, ◌≡◌, ◌↔◌, ◌||◌, leb, ◌==◌, if◌then◌else◌, arith, inl, inr,
  Bool-cases,
}
use go_exchange_back.Prelude.Int.{ℤ, pos, ◌-ℤ◌, ◌+ℤ◌, ltb_ℤ, ◌≤ℤ◌, -ℤ_parts, +ℤ_parts}

pub record QuantumConfig : Type 0 where
  pub max_matches_per_turn : ℤ
  pub max_consecutive_cancels : ℤ

pub data ConfigError : Type 0 where
  matches_too_small cancels_too_small capacity_too_small no_room_for_slice too_many_matches :
      ConfigError

pub data Checked : Type 0 where
  valid : Checked
  invalid : ConfigError → Checked

abbrev pub default_max_matches_per_turn : ℕ
default_max_matches_per_turn = 128

abbrev pub default_max_consecutive_cancels : ℕ
default_max_consecutive_cancels = 8

pub validate : QuantumConfig → Checked
validate c =
    if ltb_ℤ c.max_matches_per_turn (pos 1)
    then invalid matches_too_small
    else if ltb_ℤ c.max_consecutive_cancels (pos 1)
    then invalid cancels_too_small
    else valid

-- The source subtracts and never adds, so that nothing overflows.
pub validate_execution_capacity : ℤ → ℤ → ℤ → Checked
validate_execution_capacity capacity max_matches max_cancels =
    if ltb_ℤ capacity (pos 2)
    then invalid capacity_too_small
    else if ltb_ℤ (capacity -ℤ pos 2) max_cancels
    then invalid no_room_for_slice
    else if ltb_ℤ (capacity -ℤ pos 1 -ℤ max_cancels) max_matches
    then invalid too_many_matches
    else valid

-- For counts that are not negative; a limit of 0 is no limit.
pub expected_slices : ℕ → ℕ → ℕ
expected_slices trades max_matches =
    if max_matches == 0 || leb trades max_matches
    then 1
    else (if trades % max_matches == 0 then trades / max_matches else trades / max_matches + 1)

pub expected_yields : ℕ → ℕ → ℕ
expected_yields trades max_matches = expected_slices trades max_matches - 1

-- The two checks together accept exactly the limits that are at least 1 and for which one slice with
-- its closing event, beside all consecutive cancellations, fits into the execution channel. The source
-- tests this by subtractions alone; the sum here is of integers without a bound.
pub validate-capacity_iff :
    (c : QuantumConfig) (capacity : ℤ)
    → ((validate c ≡ valid)
        × (validate_execution_capacity capacity c.max_matches_per_turn c.max_consecutive_cancels
            ≡ valid))
      ↔ ((pos 1 ≤ℤ c.max_matches_per_turn)
          × (pos 1 ≤ℤ c.max_consecutive_cancels)
          × (c.max_matches_per_turn +ℤ pos 1 +ℤ c.max_consecutive_cancels ≤ℤ capacity))
unfolding validate validate_execution_capacity
validate-capacity_iff c capacity =
    let m = c.max_matches_per_turn in
    let k = c.max_consecutive_cancels in
    let a = -ℤ_parts capacity (pos 2) in
    let b = -ℤ_parts capacity (pos 1) in
    let d = -ℤ_parts (capacity -ℤ pos 1) k in
    let f = +ℤ_parts m (pos 1) in
    let g = +ℤ_parts (m +ℤ pos 1) k in
    (
      λ h. (
        ground (arith, a, b, d, f, g),
        ground (arith, a, b, d, f, g),
        ground (arith, a, b, d, f, g),
      ),
      λ h. (ground (arith, a, b, d, f, g), ground (arith, a, b, d, f, g)),
    )

-- The number of slices is the trades divided by the limit, rounded up, and at least one.
expected_slices_ceiling :
    (trades max_matches : ℕ)
    → 1 ≤ max_matches
    → (trades ≤ expected_slices trades max_matches * max_matches)
      × (expected_slices trades max_matches * max_matches
          < trades + max_matches + (if trades == 0 then 1 else 0))
      × (expected_yields trades max_matches + 1 ≡ expected_slices trades max_matches)
unfolding expected_slices expected_yields
expected_slices_ceiling trades m h = elim (Bool-cases (leb trades m)) [
  | inl a ↦ (ground arith, ground arith, ground arith)
  | inr a ↦ (grind arith, grind arith, grind arith)
]
