-- ===== src/Common/Bits/Disjoint.antt =====
-- `|` of numbers without a common bit is their sum.
use Prim.Native.Nat.{ℕ, zero, suc, ◌+◌, ◌*◌, ◌/◌, ◌^◌, ◌<◌, bit_or}
use mathlib.Core.Path.{◌≡◌, refl}
use native.Mathlib.Nat.{pow-suc}
use native.Mathlib.Omega.{arith}
use dim_os.Common.Bits.Step.{bit_or_step}

bit_or-zero : (w a : ℕ) → a < 2 ^ w → (bit_or a 0 ≡ a) × (bit_or 0 a ≡ a)
bit_or-zero zero a h = let none_set : a ≡ 0 = omega arith in rw none_set (refl, refl)
bit_or-zero (suc w) a h =
    let (left, right) = bit_or-zero w (a / 2) (omega (arith, pow-suc 2 w)) in
    (omega (arith, bit_or_step a 0, left), omega (arith, bit_or_step 0 a, right))

-- A number shifted past all bits of another, on either side.
pub bit_or_sum :
    (w k a b : ℕ)
    → a < 2 ^ w
    → b < 2 ^ k
    → (bit_or (a * 2 ^ k) b ≡ a * 2 ^ k + b) × (bit_or b (a * 2 ^ k) ≡ a * 2 ^ k + b)
bit_or_sum w zero a b ha hb =
    let none_set : b ≡ 0 = omega arith in
    let (left, right) = bit_or-zero w a ha in
    let whole : a * 2 ^ 0 ≡ a = omega arith in
    rw (none_set, whole) (omega (arith, left), omega (arith, right))
bit_or_sum w (suc k) a b ha hb =
    let (left, right) = bit_or_sum w k a (b / 2) ha (omega (arith, pow-suc 2 k)) in
    let twice : a * 2 ^ suc k ≡ 2 * (a * 2 ^ k) = rw (pow-suc 2 k) (grind arith) in
    let half : (2 * (a * 2 ^ k)) / 2 ≡ a * 2 ^ k = omega arith in
    rw twice (
      omega (arith, rw half at (bit_or_step (2 * (a * 2 ^ k)) b), left),
      omega (arith, rw half at (bit_or_step b (2 * (a * 2 ^ k))), right),
    )
