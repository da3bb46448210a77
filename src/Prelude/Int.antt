-- ===== src/Prelude/Int.antt =====
-- Go's `int`, as far as the program uses it: list indices, which may be -1, and time-outs.
use Prim.Native.Nat.{ℕ, ◌-◌, ◌%◌, ◌^◌, ◌<◌}
use native.Mathlib.Omega.{arith}

-- `negsuc n` is -(n + 1).
pub data ℤ : Type 0 where
  pos : ℕ → ℤ
  negsuc : ℕ → ℤ

-- The conversion `uint32(n)`.
unfoldable pub to_u32 : ℤ → ℕ
to_u32 (pos n) = n % 2 ^ 32
to_u32 (negsuc n) = 2 ^ 32 - 1 - n % 2 ^ 32

pub to_u32_bound : (n : ℤ) → to_u32 n < 2 ^ 32
unfolding to_u32
to_u32_bound (pos n) = omega arith
to_u32_bound (negsuc n) = omega arith
