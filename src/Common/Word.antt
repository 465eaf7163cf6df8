-- ===== src/Common/Word.antt =====
-- Machine integers: a 32-bit value is its bit pattern, a number below 2 ^ 32.
use Prim.Native.Nat.{ℕ, ◌+◌, ◌-◌, ◌*◌, ◌%◌, ◌^◌}
use mathlib.Core.Bool.{Bool}
use regex_markup.Common.Tests.{ltb}

abbrev pub u32 : ℕ
u32 = 2 ^ 32

-- Half the range: a pattern from here on stands for a negative `int32_t`.
abbrev pub i32 : ℕ
i32 = 2 ^ 31

abbrev pub wrap32 : ℕ → ℕ
wrap32 a = a % u32

abbrev pub add32 : ℕ → ℕ → ℕ
add32 a b = (a + b) % u32

abbrev pub sub32 : ℕ → ℕ → ℕ
sub32 a b = (a + u32 - b) % u32

abbrev pub mul32 : ℕ → ℕ → ℕ
mul32 a b = (a * b) % u32

-- `a < b` of two `int32_t`, on their patterns.
abbrev pub slt32 : ℕ → ℕ → Bool
slt32 a b = ltb ((a + i32) % u32) ((b + i32) % u32)

-- The pattern of -1.
abbrev pub minus_one : ℕ
minus_one = u32 - 1
