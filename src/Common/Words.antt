-- ===== src/Common/Words.antt =====
-- Machine integers of 64 bits as numbers below 2 ^ 64, with the wrap of every operation written out.
use Prim.Native.Nat.{ℕ, ◌+◌, ◌-◌, ◌%◌, ◌^◌}
use mathlib.Core.Bool.{Bool}
use dim_os.Common.Tests.{ltb}

abbrev pub two_64 : ℕ
two_64 = 2 ^ 64

abbrev pub two_63 : ℕ
two_63 = 2 ^ 63

abbrev pub add_64 : ℕ → ℕ → ℕ
add_64 a b = (a + b) % two_64

abbrev pub sub_64 : ℕ → ℕ → ℕ
sub_64 a b = (a + (two_64 - b)) % two_64

-- `<` of `int64_t` on bit patterns.
abbrev pub slt_64 : ℕ → ℕ → Bool
slt_64 a b = ltb ((a + two_63) % two_64) ((b + two_63) % two_64)
