-- ===== src/Escrow/Settle.antt =====
-- Settling a question: the split of its amount, the slashes, the credits and the platform's take.
pub mod Lists
pub mod Distinct
pub mod Defs
pub mod Once
pub mod Preview
pub mod Tests
