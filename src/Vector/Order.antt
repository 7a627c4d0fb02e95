-- ===== src/Vector/Order.antt =====
-- The operations that search a vector or move its elements.
use native.Mathlib.Decide.{ℕ_discrete}
use dim_os.Common.{
  ℕ, zero, suc, ◌+◌, ◌-◌, ◌/◌, ◌≤◌, ◌<◌, ◌≡◌, refl, ap, ◌∙◌, Bool, true, false, ◌==◌, if◌then◌else◌,
  arith, Option, some, none, Bool-cases, inl, inr,
}
use dim_os.Vector.{Vector, find, find_loop, fast_erase, pop_back, swap, reverse}
use dim_os.Vector.Loops.{reverse_loop_lem, mirror_all}

module _ {ℓ} {A : Type ℓ} where
  -- `reverse` mirrors the elements, also the one in the middle, and leaves the size and capacity.
  pub reverse_lem :
      (v : Vector A) (j : ℕ)
      → j < v.m_size
      → ((reverse v).cells j ≡ v.cells (v.m_size - 1 - j)) × ((reverse v).m_size ≡ v.m_size)
  unfolding reverse
  reverse_lem v j h = (
    reverse_loop_lem v.m_size (v.m_size / 2) 0 v.cells j (omega arith)
        ∙ ap v.cells (mirror_all v.m_size j h),
    refl,
  )

  -- The first index from `begin` on, of so many, at which an element compares equal, or `npos`.
  abbrev pub IsFound : (A → A → Bool) → A → (ℕ → A) → ℕ → ℕ → Option ℕ → Type 0
  IsFound eq c cells rounds begin none =
      (j : ℕ) → begin ≤ j → j < begin + rounds → eq (cells j) c ≡ false
  IsFound eq c cells rounds begin (some i) =
      (begin ≤ i)
      × (i < begin + rounds)
      × (eq (cells i) c ≡ true)
      × ((j : ℕ) → begin ≤ j → j < i → eq (cells j) c ≡ false)

  IsFound-cons :
      (eq : A → A → Bool) (c : A) (cells : ℕ → A) (rounds begin : ℕ) (out : Option ℕ)
      → eq (cells begin) c ≡ false
      → IsFound eq c cells rounds (begin + 1) out
      → IsFound eq c cells (suc rounds) begin out
  IsFound-cons eq c cells rounds begin none not rest = λ j from to. elim (ℕ_discrete begin j) [
    | yes e ↦ rw (← e) not
    | no ne ↦ rest j (omega arith) (omega arith)
  ]
  IsFound-cons eq c cells rounds begin (some i) not (from, to, e, before) = (
    omega arith,
    omega arith,
    e,
    λ j from' to'. elim (ℕ_discrete begin j) [
      | yes here ↦ rw (← here) not
      | no ne ↦ before j (omega arith) to'
    ],
  )

  find_loop-IsFound :
      (eq : A → A → Bool) (c : A) (cells : ℕ → A) (rounds begin : ℕ)
      → IsFound eq c cells rounds begin (find_loop eq c cells rounds begin)
  unfolding find_loop
  find_loop-IsFound eq c cells zero begin = λ j from to. absurd (omega arith)
  find_loop-IsFound eq c cells (suc rounds) begin = elim (Bool-cases (eq (cells begin) c)) [
    | inl e ↦ rw e (omega arith, omega arith, e, λ j from to. absurd (omega arith))
    | inr not ↦ rw not (
        IsFound-cons eq c cells rounds begin _ not
          (find_loop-IsFound eq c cells rounds (begin + 1)))
  ]

  -- `find` gives the first index at or behind `begin` at which an element of the vector compares equal, and
  -- `npos` exactly if there is none.
  pub find-IsFound :
      (eq : A → A → Bool) (c : A) (begin : ℕ) (v : Vector A)
      → IsFound eq c v.cells (v.m_size - begin) begin (find eq c begin v)
  unfolding find
  find-IsFound eq c begin v = find_loop-IsFound eq c v.cells (v.m_size - begin) begin

  -- `fastErase` at a position inside the vector never fails: it moves the last element to that place, unless it is
  -- the last, and leaves the others.
  pub fast_erase_lem :
      (pos : ℕ) (v : Vector A)
      → pos < v.m_size
      → (w : Vector A) × (fast_erase (some pos) v ≡ some w)
        × (w.m_size + 1 ≡ v.m_size)
        × ((j : ℕ)
            → j < w.m_size
            → w.cells j ≡ (if pos == j then v.cells (v.m_size - 1) else v.cells j))
  unfolding fast_erase pop_back swap
  fast_erase_lem pos v h =
      let some_left : (v.m_size == 0) ≡ false = ground arith in
      elim (Bool-cases (pos == v.m_size - 1)) [
        | inl last ↦ (
          record v { m_size = v.m_size - 1 },
          rw (last, some_left) refl,
          omega arith,
          λ j lt. let off : (pos == j) ≡ false = ground (arith, last) in rw off refl,
        )
        | inr inner ↦ (
          record v { m_size = v.m_size - 1; cells = swap pos (v.m_size - 1) v.cells },
          rw (inner, some_left) refl,
          omega arith,
          λ j lt. let off : (v.m_size - 1 == j) ≡ false = ground arith in rw off refl,
        )
      ]
