-- ===== src/Transfers/Schedule.antt =====
-- internal/service/transfer_service.go: when a transfer is looked at next, and when a person is
-- called. Durations are in nanoseconds.
use go_exchange_back.Prelude.{
  ℕ, zero, suc, ◌+◌, ◌-◌, ◌*◌, Bool, Option, none, some, leb, if◌then◌else◌,
}
use go_exchange_back.Transfers.Types.{
  ReviewReason, external_unknown, external_unreachable, pending_too_long,
}

abbrev pub second : ℕ
second = 1000000000

abbrev pub poll_base_interval : ℕ
poll_base_interval = 10 * second

abbrev pub poll_max_interval : ℕ
poll_max_interval = 3600 * second

abbrev pub poll_review_threshold : ℕ
poll_review_threshold = 1800 * second

-- The loop of `backoffInterval` with the rounds that are left: it leaves early at the maximum.
unfoldable pub backoff_loop : ℕ → ℕ → ℕ
backoff_loop zero interval = interval
backoff_loop (suc rounds) interval =
    let rest = backoff_loop rounds (interval * 2) in
    if leb poll_max_interval (interval * 2) then poll_max_interval else rest

unfoldable pub backoff_interval : ℕ → ℕ
backoff_interval attempts =
    if leb attempts 1 then poll_base_interval else backoff_loop (attempts - 1) poll_base_interval

pub data PollFailureKind : Type 0 where
  poll_failure_unknown poll_failure_pending poll_failure_unreachable : PollFailureKind

-- `now.Sub(createdAt) >= pollReviewThreshold`, for a request that is not from the future.
abbrev pub is_overdue : ℕ → ℕ → Bool
is_overdue now created = leb (created + poll_review_threshold) now

unfoldable pub review_reason_for_poll_failure : PollFailureKind → ℕ → ℕ → Option ReviewReason
review_reason_for_poll_failure poll_failure_unknown now created = some external_unknown
review_reason_for_poll_failure poll_failure_pending now created =
    if is_overdue now created then some pending_too_long else none
review_reason_for_poll_failure poll_failure_unreachable now created =
    if is_overdue now created then some external_unreachable else none
