-- ===== src/Escrow/Dispute.antt =====
-- Challenged resolutions: what their window lets through, and what a dispute ends (src/lib.rs).
pub mod Window
pub mod Stopped
pub mod Halted
pub mod Tests
