-- ===== src/Prelude/Int.antt =====
-- Python's signed integers over the native numbers, as far as the client computes with them.
use Prim.Native.Nat.{ℕ, zero, suc, ◌-◌, ◌%◌, ◌^◌}
use mathlib.Core.Bool.{Bool, true, false}

-- `negsuc n` is -(n + 1).
pub data ℤ : Type 0 where
  pos : ℕ → ℤ
  negsuc : ℕ → ℤ

-- `x > 0`
abbrev pub is_positive : ℤ → Bool
is_positive (pos zero) = false
is_positive (pos (suc n)) = true
is_positive (negsuc n) = false

-- `x & 0xFFFFFFFFFFFFFFFF`: Python's `&` reads a negative number as endless two's complement.
abbrev pub mask64 : ℤ → ℕ
mask64 (pos n) = n % 2 ^ 64
mask64 (negsuc n) = 2 ^ 64 - 1 - n % 2 ^ 64
