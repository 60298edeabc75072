-- ===== src/Escrow/Index.antt =====
-- The index of pending questions and the index of participants (src/lib.rs).
pub mod Defs
pub mod Dense
pub mod Paging
