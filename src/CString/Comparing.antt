-- ===== src/CString/Comparing.antt =====
-- `memcmp` as the order of the first bytes that differ.
use native.Mathlib.Decide.{ℕ_discrete}
use mathlib.Core.Path.{subst}
use dim_os.Common.{ℕ, zero, suc, ◌+◌, ◌≤◌, ◌<◌, ◌≡◌, ◌⊎◌, inl, inr, refl, ltb, arith, Bool-cases, ℤ}
use dim_os.CString.{Memory, compare_loop, memcmp}

-- The bytes before place `k` from place `i` on are the same.
abbrev pub Agree : ℕ → ℕ → ℕ → ℕ → Memory → Type 0
Agree i k a b m = (j : ℕ) → i ≤ j → j < k → m (a + j) ≡ m (b + j)

-- What the result says: all bytes agree, or the first that differ are in this order.
abbrev pub IsCompared : ℕ → ℕ → ℕ → ℕ → Memory → ℤ → Type 0
IsCompared i n a b m res =
    ((res ≡ ℤ.pos 0) × Agree i n a b m)
    ⊎ ((k : ℕ) × (i ≤ k)
        × (k < n)
        × Agree i k a b m
        × (((res ≡ ℤ.negsuc 0) × (m (a + k) < m (b + k)))
            ⊎ ((res ≡ ℤ.pos 1) × (m (b + k) < m (a + k)))))

-- One more place in front that agrees.
Agree-more :
    (i k a b : ℕ) (m : Memory) → m (a + i) ≡ m (b + i) → Agree (i + 1) k a b m → Agree i k a b m
Agree-more i k a b m here rest j lo hi = elim (ℕ_discrete i j) [
  | yes e ↦ subst (λ z. m (a + z) ≡ m (b + z)) e here
  | no ne ↦ rest j (omega (arith, lo, ne)) hi
]

compare_loop-IsCompared :
    (rounds i a b : ℕ) (m : Memory) → IsCompared i (i + rounds) a b m (compare_loop rounds i a b m)
unfolding compare_loop
compare_loop-IsCompared zero i a b m = inl (refl, λ j lo hi. absurd (omega (arith, lo, hi)))
compare_loop-IsCompared (suc rounds) i a b m = elim (Bool-cases (ltb (m (a + i)) (m (b + i)))) [
  | inl less ↦ inr (
    i,
    omega arith,
    omega arith,
    λ j lo hi. absurd (omega (arith, lo, hi)),
    inl (rw (compare_loop, less) refl, ground (arith, less)),
  )
  | inr not_less ↦ elim (Bool-cases (ltb (m (b + i)) (m (a + i)))) [
    | inl more ↦ inr (
      i,
      omega arith,
      omega arith,
      λ j lo hi. absurd (omega (arith, lo, hi)),
      inr (rw (compare_loop, not_less, more) refl, ground (arith, more)),
    )
    | inr not_more ↦
        let here : m (a + i) ≡ m (b + i) = ground (arith, not_less, not_more) in
        elim (compare_loop-IsCompared rounds (i + 1) a b m) [
          | inl (res, same) ↦ inl (
            rw (compare_loop, not_less, not_more) res,
            Agree-more i (i + suc rounds) a b m here (λ j lo hi. same j lo (omega (arith, hi))),
          )
          | inr (k, lo, hi, same, order) ↦ inr (
            k,
            omega (arith, lo),
            omega (arith, hi),
            Agree-more i k a b m here same,
            rw (compare_loop, not_less, not_more) order,
          )
        ]
  ]
]

-- `memcmp` gives 0 exactly where all bytes agree, and -1 or 1 by the order of the first bytes that differ.
pub memcmp-IsCompared : (a b size : ℕ) (m : Memory) → IsCompared 0 size a b m (memcmp a b size m)
unfolding memcmp
memcmp-IsCompared a b size m =
    let all : 0 + size ≡ size = omega arith in
    subst (λ n. IsCompared 0 n a b m (compare_loop size 0 a b m)) all
      (compare_loop-IsCompared size 0 a b m)
