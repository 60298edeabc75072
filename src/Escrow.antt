-- ===== src/Escrow.antt =====
-- The oracle escrow contract (src/lib.rs): data, storage, and the entry points by component.
pub mod Types
pub mod Call
pub mod Ensures
pub mod Bps
pub mod Stake
pub mod Index
pub mod Access
pub mod Ranking
pub mod Settle
pub mod Entry
pub mod Binds
pub mod Consensus
pub mod Dispute
pub mod Solvency
pub mod Registry
pub mod Runs
pub mod Tests
