-- ===== src/Common/Integers.antt =====
-- The integers over the native numbers.
use Prim.Native.Nat.{ℕ}

-- Go's `int`, far from its bounds: `negsuc n` is -(n + 1).
pub data ℤ : Type 0 where
  pos : ℕ → ℤ
  negsuc : ℕ → ℤ
