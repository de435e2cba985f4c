-- ===== src/Settling.antt =====
-- internal/service/settlement_service.go over the tables: the transaction that settles a trade, with
-- the statements of internal/repository/order_repository.go.
pub mod Tables
pub mod Statistics
pub mod Service
pub mod Parts
pub mod Runs
pub mod Fulfilled
pub mod Soundness
pub mod Again
