-- ===== src/CString.antt =====
-- libc/string: the routines on bytes in memory.
pub mod Copying
pub mod Comparing
mod Tests
use dim_os.Common.{
  ℕ, zero, suc, ◌+◌, ◌%◌, Bool, true, false, ◌==◌, ltb, if◌then◌else◌, update, Option, some, none,
  ℤ,
}

-- Memory from addresses to bytes.
abbrev pub Memory : Type 0
Memory = ℕ → ℕ

-- The loop upwards of `memcpy` and `memmove`, by the rounds left.
pub copy_up : ℕ → ℕ → ℕ → ℕ → Memory → Memory
copy_up zero i dst src m = m
copy_up (suc rounds) i dst src m = copy_up rounds (i + 1) dst src (update m (dst + i) (m (src + i)))

-- The loop downwards of `memmove`, from the bytes left.
pub copy_down : ℕ → ℕ → ℕ → Memory → Memory
copy_down zero dst src m = m
copy_down (suc i) dst src m = copy_down i dst src (update m (dst + i) (m (src + i)))

pub memcpy : ℕ → ℕ → ℕ → Memory → Memory
memcpy dst src size m = copy_up size 0 dst src m

pub memmove : ℕ → ℕ → ℕ → Memory → Memory
memmove dst src size m = if ltb dst src then copy_up size 0 dst src m else copy_down size dst src m

-- The loop of `memset`; `value` is cast to a byte.
pub set_loop : ℕ → ℕ → ℕ → ℕ → Memory → Memory
set_loop zero i buf value m = m
set_loop (suc rounds) i buf value m =
    set_loop rounds (i + 1) buf value (update m (buf + i) (value % 256))

pub memset : ℕ → ℕ → ℕ → Memory → Memory
memset buf value size m = set_loop size 0 buf value m

-- The loop of `memcmp`, by the rounds left.
pub compare_loop : ℕ → ℕ → ℕ → ℕ → Memory → ℤ
compare_loop zero i a b m = ℤ.pos 0
compare_loop (suc rounds) i a b m =
    let rest = compare_loop rounds (i + 1) a b m in
    if ltb (m (a + i)) (m (b + i))
    then ℤ.negsuc 0
    else (if ltb (m (b + i)) (m (a + i)) then ℤ.pos 1 else rest)

pub memcmp : ℕ → ℕ → ℕ → Memory → ℤ
memcmp a b size m = compare_loop size 0 a b m

-- `strlen`, in so many rounds; `none` if they do not reach the end of the string.
pub length_loop : ℕ → ℕ → ℕ → Memory → Option ℕ
length_loop zero len str m = none
length_loop (suc rounds) len str m =
    let rest = length_loop rounds (len + 1) str m in if m (str + len) == 0 then some len else rest

pub strlen : ℕ → ℕ → Memory → Option ℕ
strlen rounds str m = length_loop rounds 0 str m

pub strcpy : ℕ → ℕ → ℕ → Memory → Option Memory
strcpy rounds dest src m = elim (strlen rounds src m) [
  | none ↦ none
  | some len ↦ some (memcpy dest src len m)
]
