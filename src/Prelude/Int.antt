-- ===== src/Prelude/Int.antt =====
-- Signed integers over the native numbers, for the arguments that may be negative.
use Prim.Native.Nat.{ℕ, zero, suc}

-- `negsuc n` is -(n + 1).
pub data ℤ : Type 0 where
  pos : ℕ → ℤ
  negsuc : ℕ → ℤ

-- n - 1, as an integer
abbrev pub minus_one : ℕ → ℤ
minus_one zero = negsuc 0
minus_one (suc n) = pos n
