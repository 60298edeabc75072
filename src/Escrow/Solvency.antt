-- ===== src/Escrow/Solvency.antt =====
-- Solvency: for every token, what the contract has received and paid out against what it owes.
pub mod Defs
pub mod Steps
pub mod Settling
pub mod Slashing
pub mod Payouts
pub mod Moves
pub mod Settled
pub mod Refunds
pub mod Funded
pub mod Prepaid
pub mod Earned
pub mod Reopened
pub mod Entries
pub mod Configured
pub mod Settings
pub mod Conserved
pub mod Defaulted
pub mod Disputed
pub mod Escalated
pub mod Finalized
pub mod Migrated
pub mod Imported
pub mod Removed
pub mod Bequeathed
pub mod Performed
pub mod Invariant
