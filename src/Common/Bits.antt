-- ===== src/Common/Bits.antt =====
-- The bits of a number, and what `|`, `&`, `^`, a shifted one and a complement do to each of them.
mod Step
pub mod Disjoint
use Step.{bit_or_step, bit_and_step, bit_xor_step}
use Prim.Native.Nat.{
  ℕ, zero, suc, ◌+◌, ◌-◌, ◌*◌, ◌/◌, ◌%◌, ◌^◌, ◌≤◌, ◌<◌, min, max, bit_and, bit_or, bit_xor, differ,
  bit_and-bitwise,
}
use mathlib.Core.Path.{◌≡◌, refl, ◌∙◌}
use mathlib.Core.Logic.{◌≢◌}
use native.Mathlib.Nat.{pow-suc, one-le-pow}
use native.Mathlib.Omega.{arith}
use dim_os.Common.Tests.{◌==◌, if◌then◌else◌}

-- Bit `i` of `w`, as 0 or 1: `(w >> i) & 1`.
abbrev pub bit : ℕ → ℕ → ℕ
bit w zero = w % 2
bit w (suc i) = bit (w / 2) i

pub bit-lt : (w i : ℕ) → bit w i < 2
bit-lt w zero = omega arith
bit-lt w (suc i) = bit-lt (w / 2) i

pub bit-bit_or : (a b i : ℕ) → bit (bit_or a b) i ≡ max (bit a i) (bit b i)
bit-bit_or a b zero = omega (arith, bit_or_step a b)
bit-bit_or a b (suc i) =
    let half : bit_or a b / 2 ≡ bit_or (a / 2) (b / 2) = omega (arith, bit_or_step a b) in
    rw half (bit-bit_or (a / 2) (b / 2) i)

pub bit-bit_and : (a b i : ℕ) → bit (bit_and a b) i ≡ min (bit a i) (bit b i)
bit-bit_and a b zero = omega (arith, bit_and_step a b)
bit-bit_and a b (suc i) =
    let half : bit_and a b / 2 ≡ bit_and (a / 2) (b / 2) = omega (arith, bit_and_step a b) in
    rw half (bit-bit_and (a / 2) (b / 2) i)

differ_lt : (a b : ℕ) → a < 2 → b < 2 → differ a b < 2
differ_lt zero b ha hb = hb
differ_lt (suc a) zero ha hb = ha
differ_lt (suc zero) (suc b) ha hb = omega arith
differ_lt (suc (suc a)) (suc b) ha hb = absurd (omega arith)

pub bit-bit_xor : (a b i : ℕ) → bit (bit_xor a b) i ≡ differ (bit a i) (bit b i)
bit-bit_xor a b zero =
    omega (arith, bit_xor_step a b, differ_lt (a % 2) (b % 2) (omega arith) (omega arith))
bit-bit_xor a b (suc i) =
    let half : bit_xor a b / 2 ≡ bit_xor (a / 2) (b / 2) =
      omega (arith, bit_xor_step a b, differ_lt (a % 2) (b % 2) (omega arith) (omega arith)) in
    rw half (bit-bit_xor (a / 2) (b / 2) i)

pub bit-zero : (i : ℕ) → bit 0 i ≡ 0
bit-zero zero = refl
bit-zero (suc i) = bit-zero i

pub bit-pow : (j i : ℕ) → bit (2 ^ j) i ≡ (if j == i then 1 else 0)
bit-pow zero zero = refl
bit-pow zero (suc i) = bit-zero i ∙ ground arith
bit-pow (suc j) zero = ground (arith, pow-suc 2 j)
bit-pow (suc j) (suc i) =
    let half : 2 ^ suc j / 2 ≡ 2 ^ j = omega (arith, pow-suc 2 j) in
    rw half (bit-pow j i ∙ ground arith)

-- `~x` in a word of `k` bits.
pub bit-complement : (k x i : ℕ) → x < 2 ^ k → i < k → bit (2 ^ k - 1 - x) i ≡ 1 - bit x i
bit-complement zero x i hx hi = absurd (omega arith)
bit-complement (suc k) x zero hx hi = omega (arith, pow-suc 2 k)
bit-complement (suc k) x (suc i) hx hi =
    let half : (2 ^ suc k - 1 - x) / 2 ≡ 2 ^ k - 1 - x / 2 = omega (arith, pow-suc 2 k) in
    rw half (bit-complement k (x / 2) i (omega (arith, pow-suc 2 k)) (omega arith))

bit_and-zero : (n a : ℕ) → a ≤ n → bit_and a 0 ≡ 0
bit_and-zero n zero h = refl
bit_and-zero zero (suc a) h = absurd (omega arith)
bit_and-zero (suc n) (suc a) h =
    omega (arith, bit_and_step (suc a) 0, bit_and-zero n (suc a / 2) (omega arith))

bit_and-zero_left : (b : ℕ) → bit_and 0 b ≡ 0
bit_and-zero_left b = bit_and-bitwise 0 b

-- `w & (1 << j)` is the bit in its place.
pub bit_and-pow : (w j : ℕ) → bit_and w (2 ^ j) ≡ bit w j * 2 ^ j
bit_and-pow w zero = omega (arith, bit_and_step w 1, bit_and-zero (w / 2) (w / 2) (omega arith))
bit_and-pow w (suc j) =
    grind (arith, bit_and_step w (2 ^ suc j), bit_and-pow (w / 2) j, pow-suc 2 j)

-- A word of `k` bits that are all set is the greatest one.
pub all_ones : (k w : ℕ) → w < 2 ^ k → ((i : ℕ) → i < k → bit w i ≡ 1) → w ≡ 2 ^ k - 1
all_ones zero w hw h = omega arith
all_ones (suc k) w hw h = omega (
  arith,
  pow-suc 2 k,
  h 0 (omega arith),
  all_ones k (w / 2) (omega (arith, pow-suc 2 k)) (λ i hi. h (suc i) (omega arith)),
)

pub bit-all_ones : (k i : ℕ) → i < k → bit (2 ^ k - 1) i ≡ 1
bit-all_ones k i h =
    let whole : 2 ^ k - 1 - 0 ≡ 2 ^ k - 1 = omega arith in
    rw whole at (bit-complement k 0 i (one-le-pow k 2 (omega arith)) h) ∙ omega (arith, bit-zero i)

pub bit_or-lt : (k a b : ℕ) → a < 2 ^ k → b < 2 ^ k → bit_or a b < 2 ^ k
bit_or-lt zero a b ha hb =
    let za : a ≡ 0 = omega arith in let zb : b ≡ 0 = omega arith in rw (za, zb) (omega arith)
bit_or-lt (suc k) a b ha hb = omega (
  arith,
  pow-suc 2 k,
  bit_or_step a b,
  bit_or-lt k (a / 2) (b / 2) (omega (arith, pow-suc 2 k)) (omega (arith, pow-suc 2 k)),
)

pub bit_and-lt : (k a b : ℕ) → a < 2 ^ k → bit_and a b < 2 ^ k
bit_and-lt zero a b ha = let za : a ≡ 0 = omega arith in rw (za, bit_and-zero_left b) (omega arith)
bit_and-lt (suc k) a b ha = omega (
  arith,
  pow-suc 2 k,
  bit_and_step a b,
  bit_and-lt k (a / 2) (b / 2) (omega (arith, pow-suc 2 k)),
)

pub bit_and-lt_last : (k a b : ℕ) → b < 2 ^ k → bit_and a b < 2 ^ k
bit_and-lt_last zero a b hb =
    let zb : b ≡ 0 = omega arith in rw (zb, bit_and-zero a a (omega arith)) (omega arith)
bit_and-lt_last (suc k) a b hb = omega (
  arith,
  pow-suc 2 k,
  bit_and_step a b,
  bit_and-lt_last k (a / 2) (b / 2) (omega (arith, pow-suc 2 k)),
)

-- Words with the same bits are equal.
pub bit_eq : (k a b : ℕ) → a < 2 ^ k → b < 2 ^ k → ((i : ℕ) → i < k → bit a i ≡ bit b i) → a ≡ b
bit_eq zero a b ha hb h = omega arith
bit_eq (suc k) a b ha hb h = omega (
  arith,
  pow-suc 2 k,
  h 0 (omega arith),
  bit_eq k (a / 2) (b / 2) (omega (arith, pow-suc 2 k)) (omega (arith, pow-suc 2 k))
      (λ i hi. h (suc i) (omega arith)),
)

-- The bits of a word above its length.
pub bit_above : (k w i : ℕ) → w < 2 ^ k → k ≤ i → bit w i ≡ 0
bit_above zero w i small h = let e : w ≡ 0 = omega (arith, small) in rw e (bit-zero i)
bit_above (suc k) w zero small h = absurd (omega (arith, h))
bit_above (suc k) w (suc i) small h =
    bit_above k (w / 2) i (omega (arith, small, pow-suc 2 k)) (omega (arith, h))
