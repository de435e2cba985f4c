-- ===== src/Ledger.antt =====
-- internal/service/ledger_service.go with the repositories of accounts and journals: the ledger
-- that every movement of assets goes through.
pub mod Tables
pub mod Accounts
pub mod Journals
pub mod Record
pub mod Keys
pub mod Sums
pub mod Provision
pub mod Postings
pub mod Updates
pub mod Posts
pub mod Invariant
pub mod Promise
pub mod Again
pub mod Reversal
