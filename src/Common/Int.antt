-- ===== src/Common/Int.antt =====
-- JavaScript numbers that hold integers, of either sign. `negsuc n` is -(n + 1).
use Prim.Native.Nat.{ℕ}

pub data ℤ : Type 0 where
  pos : ℕ → ℤ
  negsuc : ℕ → ℤ
