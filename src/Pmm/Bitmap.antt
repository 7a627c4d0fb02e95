-- ===== src/Pmm/Bitmap.antt =====
-- The bitmap as a set of frames, and the count of its members.
use dim_os.Common.{
  ℕ, zero, suc, ◌+◌, ◌-◌, ◌/◌, ◌%◌, ◌^◌, ◌≤◌, ◌<◌, ◌≡◌, refl, true, false, not, ltb, ◌==◌,
  if◌then◌else◌, arith, two_64, update_self,
}
use dim_os.Common.Bits.{bit, bit-lt, bit-bit_or, bit-bit_and, bit-pow, bit-complement, bit_and-pow}
use native.Mathlib.Nat.{one-le-pow, pow-le-pow_right}
use dim_os.Pmm.{Bitmap, bitmap_set, bitmap_unset, bitmap_is_set}

pow_lt_64 : (j : ℕ) → j < 64 → 2 ^ j < two_64
pow_lt_64 j h = omega (arith, pow-le-pow_right {n = 2} (omega arith) {i = j} {j = 63} (omega arith))

-- `bitmapIsSet` reads the bit.
pub is_set-bit : (w : Bitmap) (b : ℕ) → bitmap_is_set w b ≡ not (bit (w (b / 64)) (b % 64) == 0)
unfolding bitmap_is_set
is_set-bit w b =
    grind (
      arith,
      bit_and-pow (w (b / 64)) (b % 64),
      bit-lt (w (b / 64)) (b % 64),
      one-le-pow (b % 64) 2,
    )

bit_set :
    (w : Bitmap) (b c : ℕ)
    → bit (bitmap_set w b (c / 64)) (c % 64) ≡ (if b == c then 1 else bit (w (c / 64)) (c % 64))
unfolding bitmap_set
bit_set w b c = grind (
  arith,
  bit-bit_or (w (b / 64)) (2 ^ (b % 64)) (c % 64),
  bit-pow (b % 64) (c % 64),
  bit-lt (w (c / 64)) (c % 64),
  update_self w (b / 64),
)

pub is_set-set :
    (w : Bitmap) (b c : ℕ)
    → bitmap_is_set (bitmap_set w b) c ≡ (if b == c then true else bitmap_is_set w c)
is_set-set w b c = grind (arith, is_set-bit (bitmap_set w b) c, is_set-bit w c, bit_set w b c)

bit_unset :
    (w : Bitmap) (b c : ℕ)
    → bit (bitmap_unset w b (c / 64)) (c % 64) ≡ (if b == c then 0 else bit (w (c / 64)) (c % 64))
unfolding bitmap_unset
bit_unset w b c = grind (
  arith,
  bit-bit_and (w (b / 64)) (two_64 - 1 - 2 ^ (b % 64)) (c % 64),
  bit-pow (b % 64) (c % 64),
  bit-complement 64 (2 ^ (b % 64)) (c % 64),
  bit-lt (w (c / 64)) (c % 64),
  pow_lt_64 (b % 64),
)

pub is_set-unset :
    (w : Bitmap) (b c : ℕ)
    → bitmap_is_set (bitmap_unset w b) c ≡ (if b == c then false else bitmap_is_set w c)
is_set-unset w b c = grind (arith, is_set-bit (bitmap_unset w b) c, is_set-bit w c, bit_unset w b c)

-- The number of members below `n`: the frames in use.
abbrev pub used : Bitmap → ℕ → ℕ
used w zero = 0
used w (suc n) = used w n + (if bitmap_is_set w n then 1 else 0)

pub used-set :
    (w : Bitmap) (b n : ℕ)
    → used (bitmap_set w b) n
      ≡ used w n + (if ltb b n then 1 - (if bitmap_is_set w b then 1 else 0) else 0)
used-set w b zero = ground arith
used-set w b (suc n) = ground (arith, used-set w b n, is_set-set w b n)

pub used-unset :
    (w : Bitmap) (b n : ℕ)
    → used (bitmap_unset w b) n + (if ltb b n then (if bitmap_is_set w b then 1 else 0) else 0)
      ≡ used w n
used-unset w b zero = ground arith
used-unset w b (suc n) = ground (arith, used-unset w b n, is_set-unset w b n)

pub used-le : (w : Bitmap) (n : ℕ) → used w n ≤ n
used-le w zero = omega arith
used-le w (suc n) = ground (arith, used-le w n)

-- A count that reaches the bound leaves no frame free, and the other way round.
pub used-eq : (w : Bitmap) (n : ℕ) → ((g : ℕ) → g < n → bitmap_is_set w g ≡ true) → used w n ≡ n
used-eq w zero h = refl
used-eq w (suc n) h = ground (arith, used-eq w n (λ g hg. h g (omega arith)), h n (omega arith))

pub used_pos : (w : Bitmap) (b n : ℕ) → b < n → bitmap_is_set w b ≡ true → 0 < used w n
used_pos w b zero h e = absurd (omega arith)
used_pos w b (suc n) h e = ground (arith, used_pos w b n)

-- The count is about the members alone.
pub used_ext :
    (v w : Bitmap) (n : ℕ)
    → ((g : ℕ) → g < n → bitmap_is_set v g ≡ bitmap_is_set w g)
    → used v n ≡ used w n
used_ext v w zero h = refl
used_ext v w (suc n) h =
    ground (arith, used_ext v w n (λ g hg. h g (omega arith)), h n (omega arith))
