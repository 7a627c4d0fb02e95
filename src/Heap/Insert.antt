-- ===== src/Heap/Insert.antt =====
-- The insertion of a block into a list of blocks: what `addNode` does to the free list.
use dim_os.Common.{
  ℕ, ◌+◌, ◌≡◌, inl, inr, ◌||◌, List, [], ◌∷◌, ltb, ◌==◌, if◌then◌else◌, arith, Bool-cases, ==_iff,
}
use dim_os.Heap.Chain.{covers, inside}

-- A block that grew, in front of blocks of which the first may now touch it.
unfoldable pub join : ℕ → ℕ → List (ℕ × ℕ) → List (ℕ × ℕ)
join x t [] = (x, t) ∷ []
join x t ((y, u) ∷ bs) = if x + 16 + t == y then (x, t + 16 + u) ∷ bs else (x, t) ∷ (y, u) ∷ bs

-- The blocks with one more, in order of their addresses, and joined with those that it touches.
unfoldable pub insert : ℕ → ℕ → List (ℕ × ℕ) → List (ℕ × ℕ)
insert n s [] = join n s []
insert n s ((x, t) ∷ bs) =
    let rest = insert n s bs in
    if ltb n x
    then join n s ((x, t) ∷ bs)
    else if x + 16 + t == n
    then join x (t + (16 + s)) bs
    else (x, t) ∷ rest

-- Joining covers what the block and the list cover.
pub covers-join :
    (x t : ℕ) (bs : List (ℕ × ℕ)) (b : ℕ) → covers (join x t bs) b ≡ (inside x t b || covers bs b)
unfolding covers join
covers-join x t [] b = ground arith
covers-join x t ((y, u) ∷ bs) b = elim (Bool-cases (x + 16 + t == y)) [
  | inl e ↦ rw e (ground (arith, (==_iff (x + 16 + t) y).0 e))
  | inr e ↦ rw e
]

-- Inserting a block makes exactly its addresses available, whatever it is joined with.
pub covers-insert :
    (n s : ℕ) (bs : List (ℕ × ℕ)) (b : ℕ) → covers (insert n s bs) b ≡ (inside n s b || covers bs b)
unfolding insert covers
covers-insert n s [] b = covers-join n s [] b
covers-insert n s ((x, t) ∷ bs) b = elim (Bool-cases (ltb n x)) [
  | inl before ↦ rw before (covers-join n s ((x, t) ∷ bs) b)
  | inr behind ↦ rw behind (elim (Bool-cases (x + 16 + t == n)) [
    | inl e ↦ rw e (ground (arith, covers-join x (t + (16 + s)) bs b, (==_iff (x + 16 + t) n).0 e))
    | inr e ↦ rw e (ground (arith, covers-insert n s bs b))
  ])
]
