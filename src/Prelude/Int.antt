-- ===== src/Prelude/Int.antt =====
-- Signed integers, and the two's complement of 32 bits.
use Prim.Native.Nat.{ℕ, ◌-◌, ◌%◌, ◌^◌, ◌<◌}
use mathlib.Core.Path.{◌≡◌}
use native.Mathlib.Omega.{arith}
use vycor_cpp.Prelude.Tests.{ltb, if◌then◌else◌}

-- `negsuc n` is -(n + 1).
pub data ℤ : Type 0 where
  pos : ℕ → ℤ
  negsuc : ℕ → ℤ

-- static_cast<uint32_t> of an int32_t, and back.
unfoldable pub to_u32 : ℤ → ℕ
to_u32 (pos n) = n % 2 ^ 32
to_u32 (negsuc n) = 2 ^ 32 - 1 - n % 2 ^ 32

unfoldable pub of_u32 : ℕ → ℤ
of_u32 u = if ltb u (2 ^ 31) then pos u else negsuc (2 ^ 32 - 1 - u)

abbrev pub IsInt32 : ℤ → Type 0
IsInt32 (pos n) = n < 2 ^ 31
IsInt32 (negsuc n) = n < 2 ^ 31

pub of_u32-to_u32 : (i : ℤ) → IsInt32 i → of_u32 (to_u32 i) ≡ i
unfolding of_u32 to_u32
of_u32-to_u32 (pos n) h = ground arith
of_u32-to_u32 (negsuc n) h = ground arith

pub to_u32_lt : (i : ℤ) → to_u32 i < 2 ^ 32
unfolding to_u32
to_u32_lt (pos n) = omega arith
to_u32_lt (negsuc n) = omega arith
