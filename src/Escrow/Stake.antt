-- ===== src/Escrow/Stake.antt =====
-- A worker's bond: `Defs` models the operations on one `StakeInfo` of src/lib.rs, and the other
-- children prove what each operation does to its buckets.
pub mod Defs
pub mod Bond
pub mod Effective
