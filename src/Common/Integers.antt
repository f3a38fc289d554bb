-- ===== src/Common/Integers.antt =====
-- The integers: the numbers of a request that may be negative.
use Prim.Native.Nat.{ℕ}

-- `negsuc n` is -(n + 1).
pub data ℤ : Type 0 where
  pos negsuc : ℕ → ℤ
