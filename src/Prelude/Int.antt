-- ===== src/Prelude/Int.antt =====
-- Signed machine integers, which the program stores and does not compute with.
use Prim.Native.Nat.{ℕ}

-- `negsuc n` is -(n + 1).
pub data ℤ : Type 0 where
  pos : ℕ → ℤ
  negsuc : ℕ → ℤ
