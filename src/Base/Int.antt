-- ===== src/Base/Int.antt =====
-- Signed integers: `negsuc n` is -(n + 1), so that `-1 - i` of a negative `i` is its `n`.
use Prim.Native.Nat.{ℕ}

pub data ℤ : Type 0 where
  pos : ℕ → ℤ
  negsuc : ℕ → ℤ
