-- ===== src/Bitset/Laws.antt =====
-- A bitset as a set of numbers.
use native.Mathlib.Nat.{one-le-pow}
use dim_os.Common.{
  ℕ, zero, suc, ◌+◌, ◌-◌, ◌/◌, ◌%◌, ◌^◌, ◌<◌, ◌≡◌, refl, ◌∙◌, true, false, not, ltb, leb, ◌==◌,
  ◌&&◌, if◌then◌else◌, update, two_64, bit_or, bit_xor, max, arith, Bool-cases, inl, inr,
}
use dim_os.Common.Bits.{
  bit, bit-lt, bit-bit_or, bit-bit_xor, bit-pow, bit-zero, bit-all_ones, bit_and-pow,
}
use dim_os.Bitset.{Bitset, test, assign, flip, flip_loop, with_size}
use dim_os.Vector
use Prim.Native.Nat.{differ}
use dim_os.Vector.Loops.{fill_loop_lem}

-- `operator bool` reads the bit.
test-bit : (s : Bitset) (i : ℕ) → test s i ≡ not (bit (s.words.cells (i / 64)) (i % 64) == 0)
unfolding test
test-bit s i = grind (
  arith,
  bit_and-pow (s.words.cells (i / 64)) (i % 64),
  bit-lt (s.words.cells (i / 64)) (i % 64),
  one-le-pow (i % 64) 2,
)

-- A bit on its own, set and taken back.
differ-max_self : (x : ℕ) → x < 2 → differ (max x 1) 1 ≡ 0
differ-max_self zero h = refl
differ-max_self (suc zero) h = refl
differ-max_self (suc (suc x)) h = absurd (omega arith)

differ-max_zero : (x : ℕ) → x < 2 → differ (max x 0) 0 ≡ x
differ-max_zero zero h = refl
differ-max_zero (suc zero) h = refl
differ-max_zero (suc (suc x)) h = absurd (omega arith)

-- The bits of a word in which one was set, or set and taken back.
word_set : (w k j : ℕ) → bit (bit_or w (2 ^ k)) j ≡ (if k == j then 1 else bit w j)
word_set w k j = grind (arith, bit-bit_or w (2 ^ k) j, bit-pow k j, bit-lt w j)

word_clear :
    (w k j : ℕ) → bit (bit_xor (bit_or w (2 ^ k)) (2 ^ k)) j ≡ (if k == j then 0 else bit w j)
word_clear w k j =
    bit-bit_xor (bit_or w (2 ^ k)) (2 ^ k) j
    ∙ rw (bit-bit_or w (2 ^ k) j, bit-pow k j)
        (elim (Bool-cases (k == j)) [
          | inl e ↦ rw e (differ-max_self (bit w j) (bit-lt w j))
          | inr e ↦ rw e (differ-max_zero (bit w j) (bit-lt w j))
        ])

bit-assign :
    (s : Bitset) (i val j : ℕ)
    → bit ((assign s i val).words.cells (j / 64)) (j % 64)
      ≡ (if i == j then if val == 0 then 0 else 1 else bit (s.words.cells (j / 64)) (j % 64))
unfolding assign
bit-assign s i val j = elim (Bool-cases (val == 0)) [
  | inl e ↦ rw e (grind (arith, word_clear (s.words.cells (i / 64)) (i % 64) (j % 64)))
  | inr e ↦ rw e (grind (arith, word_set (s.words.cells (i / 64)) (i % 64) (j % 64)))
]

-- `assign` changes one bit, whatever the bit was, and any value other than 0 sets it.
pub test-assign :
    (s : Bitset) (i val j : ℕ)
    → test (assign s i val) j ≡ (if i == j then not (val == 0) else test s j)
test-assign s i val j =
    grind (arith, test-bit (assign s i val) j, test-bit s j, bit-assign s i val j)

flip_loop_lem :
    (rounds i : ℕ) (cells : ℕ → ℕ) (k : ℕ)
    → flip_loop rounds i cells k
      ≡ (if leb i k && ltb k (i + rounds) then bit_xor (cells k) (two_64 - 1) else cells k)
unfolding flip_loop
flip_loop_lem zero i cells k = ground arith
flip_loop_lem (suc rounds) i cells k =
    ground (arith, flip_loop_lem rounds (i + 1) (update cells i (bit_xor (cells i) (two_64 - 1))) k)

-- A bit that is turned over.
differ_one : (x : ℕ) → x < 2 → differ x 1 ≡ 1 - x
differ_one zero h = refl
differ_one (suc zero) h = refl
differ_one (suc (suc x)) h = absurd (omega arith)

-- `flip` turns over every bit of the words that the set has.
pub test-flip : (s : Bitset) (i : ℕ) → i / 64 < s.words.m_size → test (flip s) i ≡ not (test s i)
unfolding flip
test-flip s i h =
    let word = s.words.cells (i / 64) in
    let turned : bit (bit_xor word (two_64 - 1)) (i % 64) ≡ 1 - bit word (i % 64) =
      bit-bit_xor word (two_64 - 1) (i % 64)
      ∙ rw (bit-all_ones 64 (i % 64) (omega arith))
          (differ_one (bit word (i % 64)) (bit-lt word (i % 64))) in
    let inside : (leb 0 (i / 64) && ltb (i / 64) (0 + s.words.m_size)) ≡ true = ground arith in
    let moved = rw inside at (flip_loop_lem s.words.m_size 0 s.words.cells (i / 64)) in
    rw (test-bit (flip s) i, test-bit s i, flip, moved, turned)
      (ground (arith, bit-lt word (i % 64)))

-- A new set is empty, whatever the memory held, and its words hold every number below the size.
pub test-with_size :
    (fresh : ℕ → ℕ) (size i : ℕ)
    → i < size
    → (test (with_size fresh size) i ≡ false) × (i / 64 < (with_size fresh size).words.m_size)
unfolding with_size Vector.create
test-with_size fresh size i h =
    let inside : (leb 0 (i / 64) && ltb (i / 64) (0 + (size + 64 - 1) / 64)) ≡ true =
      ground arith in
    let cleared = rw inside at (fill_loop_lem ((size + 64 - 1) / 64) 0 0 fresh (i / 64)) in
    (
      rw (test-bit (with_size fresh size) i, with_size, Vector.create, cleared, bit-zero (i % 64))
          refl,
      omega arith,
    )
