-- ===== src/Escrow/Ranking.antt =====
-- The on-chain leaderboard (src/lib.rs, `record_resolved_credit` and `update_leaderboard`).
pub mod Defs
pub mod Board
