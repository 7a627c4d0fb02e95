-- ===== src/Common/Integers.antt =====
-- The signed integers of the source over the native numbers, and their bit patterns.
use Prim.Native.Nat.{ℕ, ◌+◌, ◌-◌, ◌%◌, ◌^◌}
use mathlib.Core.Bool.{Bool, true, false}
use mathlib.Core.Option.{Option, none, some}
use dim_os.Common.Tests.{◌==◌, if◌then◌else◌}

-- `negsuc n` is -(n + 1).
pub data ℤ : Type 0 where
  pos negsuc : ℕ → ℤ

abbrev pub is_negative : ℤ → Bool
is_negative (ℤ.pos n) = false
is_negative (ℤ.negsuc n) = true

-- A test for -1.
abbrev pub is_minus_one : ℤ → Bool
is_minus_one (ℤ.pos n) = false
is_minus_one (ℤ.negsuc n) = n == 0

-- The value cast to a word of `w` bits.
abbrev pub as_word : ℕ → ℤ → ℕ
as_word w (ℤ.pos n) = n % 2 ^ w
as_word w (ℤ.negsuc n) = 2 ^ w - 1 - n % 2 ^ w

-- `val *= -1` of a negative `val` of `w + 1` bits; `none` is the overflow of the least one.
abbrev pub magnitude : ℕ → ℤ → Option ℕ
magnitude w (ℤ.pos n) = some n
magnitude w (ℤ.negsuc n) = if n + 1 == 2 ^ w then none else some (n + 1)
