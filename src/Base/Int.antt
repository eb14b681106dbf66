-- ===== src/Base/Int.antt =====
-- Signed numbers, for Go's int64 where a sign is tested.
use Prim.Native.Nat.{ℕ}

-- `negsuc n` is -(n + 1).
pub data ℤ : Type 0 where
  pos : ℕ → ℤ
  negsuc : ℕ → ℤ
