-- ===== src/Vector/Loops.antt =====
-- What the loops over the buffer leave in each cell.
use dim_os.Common.{
  ℕ, zero, suc, ◌+◌, ◌-◌, ◌*◌, ◌/◌, ◌≤◌, ◌<◌, ◌≡◌, refl, ◌&&◌, ◌||◌, ltb, leb, ◌==◌, if◌then◌else◌,
  update, arith, ap, ◌∙◌, Bool-cases, inl, inr,
}
use dim_os.Vector.{move_loop, fill_loop, swap, reverse_loop}

-- The cell whose element an exchange brings to `j`, and the one that `rounds` exchanges do.
swap_index : ℕ → ℕ → ℕ → ℕ
swap_index i k j = if k == j then i else if i == j then k else j

pub mirror : ℕ → ℕ → ℕ → ℕ → ℕ
mirror size rounds i j =
    if (leb i j && ltb j (i + rounds)) || (leb (size - i - rounds) j && ltb j (size - i))
    then size - 1 - j
    else j

mirror-zero : (size i j : ℕ) → j ≡ mirror size 0 i j
unfolding mirror
mirror-zero size i j = ground arith

mirror-suc :
    (size rounds i j : ℕ)
    → (i + suc rounds) * 2 ≤ size
    → swap_index i (size - 1 - i) (mirror size rounds (i + 1) j) ≡ mirror size (suc rounds) i j
unfolding mirror swap_index
mirror-suc size rounds i j h = ground arith

-- With as many rounds as pairs, every cell is mirrored.
pub mirror_all : (size j : ℕ) → j < size → mirror size (size / 2) 0 j ≡ size - 1 - j
unfolding mirror
mirror_all size j h = ground arith

module _ {ℓ} {A : Type ℓ} where
  pub move_loop_lem :
      (rounds i : ℕ) (old new : ℕ → A) (j : ℕ)
      → move_loop rounds i old new j ≡ (if leb i j && ltb j (i + rounds) then old j else new j)
  unfolding move_loop
  move_loop_lem zero i old new j = ground arith
  move_loop_lem (suc rounds) i old new j =
      ground (arith, move_loop_lem rounds (i + 1) old (update new i (old i)) j)

  pub fill_loop_lem :
      (rounds i : ℕ) (val : A) (cells : ℕ → A) (j : ℕ)
      → fill_loop rounds i val cells j ≡ (if leb i j && ltb j (i + rounds) then val else cells j)
  unfolding fill_loop
  fill_loop_lem zero i val cells j = ground arith
  fill_loop_lem (suc rounds) i val cells j =
      ground (arith, fill_loop_lem rounds (i + 1) val (update cells i val) j)

  swap_lem : (i k : ℕ) (cells : ℕ → A) (j : ℕ) → swap i k cells j ≡ cells (swap_index i k j)
  unfolding swap swap_index
  swap_lem i k cells j = elim (Bool-cases (k == j)) [
    | inl e ↦ rw e refl
    | inr e ↦ rw e (elim (Bool-cases (i == j)) [ inl e' ↦ rw e' refl | inr e' ↦ rw e' refl ])
  ]

  -- Each round exchanges one pair of cells, further inside than the last.
  pub reverse_loop_lem :
      (size rounds i : ℕ) (cells : ℕ → A) (j : ℕ)
      → (i + rounds) * 2 ≤ size
      → reverse_loop size rounds i cells j ≡ cells (mirror size rounds i j)
  unfolding reverse_loop
  reverse_loop_lem size zero i cells j h = ap cells (mirror-zero size i j)
  reverse_loop_lem size (suc rounds) i cells j h =
      reverse_loop_lem size rounds (i + 1) (swap i (size - 1 - i) cells) j (omega arith)
      ∙ swap_lem i (size - 1 - i) cells (mirror size rounds (i + 1) j)
      ∙ ap cells (mirror-suc size rounds i j h)
