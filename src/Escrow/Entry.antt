-- ===== src/Escrow/Entry.antt =====
-- The entry points of src/lib.rs, by what they do.
pub mod Funding
pub mod Bonding
pub mod Payout
pub mod Lien
pub mod Lifetime
pub mod Refund
pub mod Dispute
pub mod Admin
pub mod Migration
pub mod Balances
pub mod Arrival
pub mod Handover
pub mod Timelock
pub mod Tests
