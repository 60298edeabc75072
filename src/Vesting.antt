-- ===== src/Vesting.antt =====
-- The fee-vesting treasury (contracts/fee-vesting/src/lib.rs).
pub mod Wide
pub mod Division
pub mod Product
pub mod Defs
pub mod Curve
pub mod Yields
pub mod Payments
pub mod Claims
pub mod Tests
