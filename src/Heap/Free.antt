-- ===== src/Heap/Free.antt =====
-- `free` and `addMemory` on the list of blocks.
use dim_os.Common.{
  ℕ, ◌+◌, ◌<◌, ◌≡◌, refl, ◌∙◌, ◌≢◌, inl, true, ◌||◌, List, [], ◌∷◌, length, two_64, sub_64,
  update_self, update_ne, arith, Option, some,
}
use dim_os.Heap.{FreeList, sizeof_node, set_size, set_next, add_node, add_memory, free}
use dim_os.Heap.Chain.{IsChain, IsFreeList, apart, covers, inside}
use dim_os.Heap.Insert.{insert, covers-insert}
use dim_os.Heap.Release.{add_loop-Placed}

-- What a block given to the free list leads to: the list is well formed, with the block in its place,
-- and makes exactly the addresses of the block available besides those that were.
pub record IsGiven (n s : ℕ) (bs : List (ℕ × ℕ)) (result : Option FreeList) : Type 0 where
  pub out : FreeList
  pub blocks : List (ℕ × ℕ)
  pub returns : result ≡ some out
  pub ordered : blocks ≡ insert n s bs
  pub well_formed : IsFreeList out blocks
  pub available : (b : ℕ) → covers blocks b ≡ (inside n s b || covers bs b)

add_node-IsGiven :
    (fuel : ℕ) (h : FreeList) (n s : ℕ) (bs : List (ℕ × ℕ))
    → length bs < fuel
    → IsFreeList h bs
    → 0 < n
    → n + 16 + s < two_64
    → h.size n ≡ s
    → apart n s bs ≡ true
    → IsGiven n s bs (add_node fuel h n)
unfolding add_node
add_node-IsGiven fuel h n s bs enough c pos small sz gap =
    let (h', returns, p) =
      add_loop-Placed fuel h 0 0 h.head n s bs enough (inl refl) refl pos small sz gap c in
    record {
      out = h';
      blocks = insert n s bs;
      returns = returns;
      ordered = refl;
      well_formed = p.chain;
      available = covers-insert n s bs;
    }

-- On a well-formed free list, with more fuel than blocks, `free` of a block that does not begin at 0,
-- ends below 2 ^ 64, has its size in its header and overlaps no free block terminates, keeps the list
-- well formed, in order and with neighbours joined, and makes exactly the addresses of that block
-- available. A well-formed list is in order, has no neighbours that touch, and each of its blocks ends below
-- 2 ^ 64.
pub free-IsGiven :
    (fuel : ℕ) (h : FreeList) (n s : ℕ) (bs : List (ℕ × ℕ))
    → length bs < fuel
    → IsFreeList h bs
    → 0 < n
    → n + 16 + s < two_64
    → h.size n ≡ s
    → apart n s bs ≡ true
    → IsGiven n s bs (free fuel h (n + 16))
unfolding free
free-IsGiven fuel h n s bs enough c pos small sz gap =
    let node : sub_64 (n + 16) sizeof_node ≡ n = omega (arith, small) in
    rw node (add_node-IsGiven fuel h n s bs enough c pos small sz gap)

-- A write to the header of a block that overlaps none of the list.
IsChain-apart :
    (size size' next next' : ℕ → ℕ) (lo a n s : ℕ) (bs : List (ℕ × ℕ))
    → ((q : ℕ) → n ≢ q → size' q ≡ size q)
    → ((q : ℕ) → n ≢ q → next' q ≡ next q)
    → apart n s bs ≡ true
    → IsChain size next lo a bs
    → IsChain size' next' lo a bs
unfolding IsChain apart
IsChain-apart size size' next next' lo a n s [] hs hn gap c = c
IsChain-apart size size' next next' lo a n s ((x, t) ∷ bs) hs hn gap (at, above, sz, small, rest) =
    let off : n ≢ x = λ e. ground (arith, e, gap) in
    (
      at,
      above,
      hs x off ∙ sz,
      small,
      rw (hn x off) (
          IsChain-apart size size' next next' (x + 16 + t) (next x) n s bs hs hn
            (ground (arith, gap)) rest),
    )

-- On a well-formed free list, with more fuel than blocks, `addMemory` of a region that does not
-- begin at 0, ends below 2 ^ 64, has room for a header and overlaps no free block terminates, keeps the list
-- well formed, in order and with neighbours joined, and makes exactly the addresses of the region
-- available.
pub add_memory-IsGiven :
    (fuel : ℕ) (h : FreeList) (addr s : ℕ) (bs : List (ℕ × ℕ))
    → length bs < fuel
    → IsFreeList h bs
    → 0 < addr
    → addr + 16 + s < two_64
    → apart addr s bs ≡ true
    → IsGiven addr s bs (add_memory fuel h addr (s + 16))
unfolding add_memory set_size set_next
add_memory-IsGiven fuel h addr s bs enough c pos small gap =
    let room : sub_64 (s + 16) sizeof_node ≡ s = omega (arith, small) in
    rw room (
      add_node-IsGiven fuel (set_next (set_size h addr s) addr 0) addr s bs enough
        (IsChain-apart h.size _ h.next _ 0 h.head addr s bs (λ q ne. update_ne h.size addr q s ne)
          (λ q ne. update_ne h.next addr q 0 ne) gap c)
        pos small (update_self h.size addr s) gap)
