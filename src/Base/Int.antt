-- ===== src/Base/Int.antt =====
-- Signed arguments: an `i128` that a caller passes. Stored amounts are naturals.
use Prim.Native.Nat.{ℕ}

-- `negsuc n` is -(n + 1).
pub data ℤ : Type 0 where
  pos : ℕ → ℤ
  negsuc : ℕ → ℤ
