-- ===== src/Settlement.antt =====
-- internal/service: holding and releasing the assets of an order, the fees of a trade, and the
-- journal that its settlement records.
pub mod Types
pub mod Fees
pub mod Postings
pub mod Journal
pub mod Fills
pub mod Balance
pub mod Lines
pub mod Trades
