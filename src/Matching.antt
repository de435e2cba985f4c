-- ===== src/Matching.antt =====
-- The in-memory matching engine, internal/matching: its types, order book, match loops, event
-- emission and scheduler, each in a child module.
pub mod Types
pub mod Book
pub mod Find
pub mod Emit
pub mod Sweep
pub mod Quantum
pub mod Engine
pub mod Scheduler
pub mod Snapshot
pub mod Sharding
