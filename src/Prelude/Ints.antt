-- ===== src/Prelude/Ints.antt =====
-- Go's `int` where a value below zero matters, over the native numbers.
use Prim.Native.Nat.{ℕ}

-- `negsuc n` is -(n + 1)
pub data ℤ : Type 0 where
  pos : ℕ → ℤ
  negsuc : ℕ → ℤ
