-- ===== src/Transfers/Backoff.antt =====
-- The intervals of `backoffInterval`.
use native.Mathlib.Nat.{pow-succ', pow-zero}
use go_exchange_back.Prelude.{
  ℕ, zero, suc, ◌-◌, ◌*◌, ◌^◌, ◌≤◌, ◌<◌, ◌≡◌, refl, true, false, inl, inr, leb, if◌then◌else◌,
  Bool-cases, arith,
}
use go_exchange_back.Transfers.Schedule.{
  poll_base_interval, poll_max_interval, backoff_loop, backoff_interval,
}

abbrev pub capped : ℕ → ℕ
capped n = if leb poll_max_interval n then poll_max_interval else n

doubled : (k i : ℕ) → i * 2 ^ suc k ≡ i * 2 * 2 ^ k
doubled k i = rw (pow-succ' 2 k) (omega arith)

grows : (k i : ℕ) → i ≤ i * 2 ^ k
grows zero i = rw (pow-zero 2) (omega arith)
grows (suc k) i = rw (doubled k i) (omega (arith, grows k (i * 2)))

backoff_loop_lem : (k i : ℕ) → i < poll_max_interval → backoff_loop k i ≡ capped (i * 2 ^ k)
unfolding backoff_loop
backoff_loop_lem zero i h = rw (pow-zero 2) (ground arith)
backoff_loop_lem (suc k) i h = elim (Bool-cases (leb poll_max_interval (i * 2))) [
  | inl e ↦
      rw (e, doubled k i)
        (let far : leb poll_max_interval (i * 2 * 2 ^ k) ≡ true = ground (arith, grows k (i * 2)) in
          rw far refl)
  | inr e ↦ rw (e, doubled k i) (backoff_loop_lem k (i * 2) (ground arith))
]

capped_le : (a b : ℕ) → a ≤ b → capped a ≤ capped b
capped_le a b h = ground arith

backoff_interval_pos : (n : ℕ) → backoff_interval (suc n) ≡ capped (poll_base_interval * 2 ^ n)
unfolding backoff_interval
backoff_interval_pos zero = refl
backoff_interval_pos (suc n) =
    let more : leb (suc (suc n)) 1 ≡ false = ground arith in
    let rounds : suc (suc n) - 1 ≡ suc n = omega arith in
    rw (more, rounds) (backoff_loop_lem (suc n) poll_base_interval (omega arith))

-- The attempt `n + 1` is followed by a wait of ten seconds doubled `n` times, or one hour where that
-- is longer: it is never below ten seconds or above one hour, and it never gets shorter.
pub backoff_interval_lem :
    (n : ℕ)
    → (backoff_interval (suc n) ≡ capped (poll_base_interval * 2 ^ n))
      × (poll_base_interval ≤ backoff_interval (suc n))
      × (backoff_interval (suc n) ≤ poll_max_interval)
      × (backoff_interval (suc n) ≤ backoff_interval (suc (suc n)))
backoff_interval_lem n =
    let this = backoff_interval_pos n in
    let next = backoff_interval_pos (suc n) in
    let far = grows n poll_base_interval in
    (
      this,
      rw this (capped_le poll_base_interval _ far),
      rw this (ground arith),
      rw (this, next)
          (capped_le (poll_base_interval * 2 ^ n) (poll_base_interval * 2 ^ suc n)
            (rw (pow-succ' 2 n) (omega arith))),
    )
