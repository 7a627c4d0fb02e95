-- ===== src/Bitset.antt =====
-- kernel/include/kernel/cpp/bitset.hpp: the set of bits in which the file system keeps its blocks.
pub mod Laws
mod Tests
use dim_os.Common.{
  ℕ, zero, suc, ◌+◌, ◌-◌, ◌/◌, ◌%◌, ◌^◌, Bool, true, false, not, ◌==◌, if◌then◌else◌, update,
  two_64, bit_and, bit_or, bit_xor,
}
use dim_os.Vector.{Vector}
use dim_os.Vector

-- `Bitset`: the vector `data` of words, and `len`.
pub record Bitset : Type 0 where
  pub words : Vector ℕ
  pub len : ℕ

-- `Bitset::BlockSize` and `Bitset::BlockMask`
abbrev pub block_size : ℕ
block_size = 64

abbrev pub block_mask : ℕ
block_mask = two_64 - 1

-- `operator[]` read through `BitProxy::operator bool`
pub test : Bitset → ℕ → Bool
test s i = not (bit_and (s.words.cells (i / block_size)) (2 ^ (i % block_size)) == 0)

-- A word stored in the vector.
abbrev pub store : Bitset → (ℕ → ℕ) → Bitset
store s cells = record s { words = record s.words { cells = cells } }

-- `operator[]` written through `BitProxy::operator=`: the bit is set, and taken back for 0.
pub assign : Bitset → ℕ → ℕ → Bitset
assign s i val =
    let w = i / block_size in
    let set = update s.words.cells w (bit_or (s.words.cells w) (2 ^ (i % block_size))) in
    if val == 0
    then store s (update set w (bit_xor (set w) (2 ^ (i % block_size))))
    else store s set

-- The loop of `flip`, by the words left.
pub flip_loop : ℕ → ℕ → (ℕ → ℕ) → ℕ → ℕ
flip_loop zero i cells = cells
flip_loop (suc rounds) i cells =
    flip_loop rounds (i + 1) (update cells i (bit_xor (cells i) block_mask))

pub flip : Bitset → Bitset
flip s = store s (flip_loop s.words.m_size 0 s.words.cells)

-- `Bitset(size)`, in new memory with any content.
pub with_size : (ℕ → ℕ) → ℕ → Bitset
with_size fresh size =
    let len = (size + block_size - 1) / block_size in
    record { words = Vector.create fresh len 0; len = len }
