-- ===== src/Sim.antt =====
-- The settlement arithmetic of the incentive simulator (sim/incentive/src/math.rs), and its agreement
-- with the contract's.
pub mod Math
pub mod Buckets
pub mod Tally
pub mod Slashed
pub mod Replay
pub mod Tests
