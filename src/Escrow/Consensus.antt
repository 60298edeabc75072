-- ===== src/Escrow/Consensus.antt =====
-- Resolution from raw answers: `resolve_by_consensus` and `unanimous_dissenter` (src/lib.rs).
pub mod Defs
pub mod Verdict
pub mod Outcomes
pub mod Settled
pub mod Tests
