-- ===== src/Escrow/Registry.antt =====
-- What the contract keeps about an address beside its money (src/lib.rs).
pub mod Defs
pub mod Attested
pub mod Snapshots
pub mod Reputation
pub mod Tests
