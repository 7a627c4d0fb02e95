-- ===== src/Common/Bits/Step.antt =====
-- The native bit operations stand for a recursion on binary digits with fuel. Spare fuel changes
-- nothing, so each operation has one equation for the lowest digit.
use Prim.Native.Nat.{
  ℕ, zero, suc, ◌+◌, ◌*◌, ◌/◌, ◌%◌, ◌≤◌, min, max, bit_and, bit_or, bit_xor, digits, bitwise,
  differ, bit_and-bitwise, bit_or-bitwise, bit_xor-bitwise,
}
use mathlib.Core.Path.{◌≡◌, refl, ◌∙◌, ap}
use native.Mathlib.Decide.{dec_lt}
use native.Mathlib.Omega.{arith}

module _ (base : ℕ → ℕ) (op : ℕ → ℕ → ℕ) where
  spare_fuel : (fuel x y : ℕ) → x ≤ fuel → digits base op (suc fuel) x y ≡ digits base op fuel x y
  spare_fuel zero zero y le = refl
  spare_fuel (suc fuel) zero y le = refl
  spare_fuel zero (suc x) y le = elim le [ ]
  spare_fuel (suc fuel) (suc x) y le =
      ap (λ (high : ℕ). high * 2 + op (suc x % 2) (y % 2))
        (spare_fuel fuel (suc x / 2) (y / 2) (omega arith))

  enough_fuel : (fuel x y : ℕ) → x ≤ fuel → digits base op fuel x y ≡ bitwise base op x y
  enough_fuel zero zero y le = refl
  enough_fuel zero (suc x) y le = elim le [ ]
  enough_fuel (suc fuel) x y le = elim (dec_lt fuel x) [
    | yes above ↦ let exact : x ≡ suc fuel = omega arith in rw exact
    | no below ↦ spare_fuel fuel x y (omega arith) ∙ enough_fuel fuel x y (omega arith)
  ]

  lowest_digit :
      (x y : ℕ)
      → bitwise base op (suc x) y ≡ op (suc x % 2) (y % 2) + 2 * bitwise base op (suc x / 2) (y / 2)
  lowest_digit x y = omega (arith, enough_fuel x (suc x / 2) (y / 2) (omega arith))

pub bit_or_step : (x y : ℕ) → bit_or x y ≡ max (x % 2) (y % 2) + 2 * bit_or (x / 2) (y / 2)
bit_or_step zero y = simp bit_or-bitwise (omega arith)
bit_or_step (suc x) y = simp bit_or-bitwise (lowest_digit (λ d. d) max x y)

pub bit_and_step : (x y : ℕ) → bit_and x y ≡ min (x % 2) (y % 2) + 2 * bit_and (x / 2) (y / 2)
bit_and_step zero y = simp bit_and-bitwise (omega arith)
bit_and_step (suc x) y = simp bit_and-bitwise (lowest_digit (λ d. 0) min x y)

pub bit_xor_step : (x y : ℕ) → bit_xor x y ≡ differ (x % 2) (y % 2) + 2 * bit_xor (x / 2) (y / 2)
bit_xor_step zero y = simp bit_xor-bitwise (omega arith)
bit_xor_step (suc x) y = simp bit_xor-bitwise (lowest_digit (λ d. d) differ x y)
