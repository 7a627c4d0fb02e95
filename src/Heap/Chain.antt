-- ===== src/Heap/Chain.antt =====
-- The free list as a list of blocks: each block is the address and the size of its node.
use dim_os.Common.{
  ℕ, ◌+◌, ◌<◌, ◌≡◌, ◌∙◌, ◌≢◌, ◌⊎◌, inl, inr, Bool, true, false, ◌&&◌, ◌||◌, List, [], ◌∷◌, ltb, leb,
  two_64, arith,
}
use dim_os.Heap.{FreeList}

-- The nodes from address `a` on hold these blocks, in order, each above `lo` and none touching
-- the next; each of them ends below the end of the address space of 2 ^ 64 bytes.
unfoldable pub IsChain : (ℕ → ℕ) → (ℕ → ℕ) → ℕ → ℕ → List (ℕ × ℕ) → Type 0
IsChain size next lo a [] = a ≡ 0
IsChain size next lo a ((x, s) ∷ bs) =
    (a ≡ x)
    × (lo < x)
    × (size x ≡ s)
    × (x + 16 + s < two_64)
    × IsChain size next (x + 16 + s) (next x) bs

-- The free list holds these blocks.
abbrev pub IsFreeList : FreeList → List (ℕ × ℕ) → Type 0
IsFreeList h bs = IsChain h.size h.next 0 h.head bs

-- An address inside a block, its header included.
abbrev pub inside : ℕ → ℕ → ℕ → Bool
inside x s b = leb x b && ltb b (x + 16 + s)

unfoldable pub covers : List (ℕ × ℕ) → ℕ → Bool
covers [] b = false
covers ((x, s) ∷ bs) b = inside x s b || covers bs b

-- A block that overlaps none of a list.
unfoldable pub apart : ℕ → ℕ → List (ℕ × ℕ) → Bool
apart n s [] = true
apart n s ((x, t) ∷ bs) = (leb (x + 16 + t) n || leb (n + 16 + s) x) && apart n s bs

-- Fields that agree above `lo` hold the same blocks.
pub IsChain-frame :
    {size size' next next' : ℕ → ℕ} (lo a : ℕ) (bs : List (ℕ × ℕ))
    → ((q : ℕ) → lo < q → size' q ≡ size q)
    → ((q : ℕ) → lo < q → next' q ≡ next q)
    → IsChain size next lo a bs
    → IsChain size' next' lo a bs
unfolding IsChain
IsChain-frame lo a [] hs hn c = c
IsChain-frame lo a ((x, s) ∷ bs) hs hn (at, above, sz, small, rest) = (
  at,
  above,
  hs x above ∙ sz,
  small,
  rw (hn x above) (
      IsChain-frame (x + 16 + s) _ bs (λ q h. hs q (omega arith)) (λ q h. hn q (omega arith)) rest),
)

-- The bound can move up to anything below the first block.
pub IsChain-above :
    (size next : ℕ → ℕ) (lo lo' a : ℕ) (bs : List (ℕ × ℕ))
    → (a ≢ 0 → lo' < a)
    → IsChain size next lo a bs
    → IsChain size next lo' a bs
unfolding IsChain
IsChain-above size next lo lo' a [] h c = c
IsChain-above size next lo lo' a ((x, s) ∷ bs) h (at, above, sz, small, rest) =
    (at, rw at at (h (omega (arith, at, above))), sz, small, rest)

-- A chain is empty or begins above its bound.
pub IsChain-first :
    (size next : ℕ → ℕ) (lo a : ℕ) (bs : List (ℕ × ℕ))
    → IsChain size next lo a bs
    → (a ≡ 0) ⊎ (lo < a)
unfolding IsChain
IsChain-first size next lo a [] c = inl c
IsChain-first size next lo a ((x, s) ∷ bs) (at, above, sz, small, rest) =
    inr (omega (arith, at, above))
