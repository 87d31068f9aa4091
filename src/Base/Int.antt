-- ===== src/Base/Int.antt =====
-- Signed integers over the native numbers.
use Prim.Native.Nat.{ℕ, zero, suc}
use mathlib.Core.Bool.{Bool, true, false}

-- `negsuc n` is -(n + 1).
pub data ℤ : Type 0 where
  pos : ℕ → ℤ
  negsuc : ℕ → ℤ

-- `v == 0`
abbrev pub is_nought : ℤ → Bool
is_nought (pos zero) = true
is_nought (pos (suc n)) = false
is_nought (negsuc n) = false
