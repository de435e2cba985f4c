-- ===== src/Transfers.antt =====
-- internal/service/transfer_service.go with its model and repository: deposits and withdrawals,
-- from their request over the poll of the outside world to the journal that confirms them.
pub mod Types
pub mod Requests
pub mod Confirm
pub mod Schedule
pub mod Service
pub mod Steps
pub mod Moves
pub mod Resolve
pub mod Accept
pub mod History
pub mod Booked
pub mod Journals
pub mod Balances
pub mod Backoff
pub mod Waiting
pub mod Outcomes
pub mod Polls
pub mod Intake
pub mod Requested
