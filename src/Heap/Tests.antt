-- ===== src/Heap/Tests.antt =====
-- The theorems about the heap at small free lists, and runs of the code on them.
use dim_os.Common.{ℕ, ◌+◌, ◌≡◌, refl, ◌⊎◌, true, List, [], ◌∷◌, update, arith, some}
use dim_os.Heap.{FreeList, Attempt, alloc_once, alloc, free, scan, take_node}
use dim_os.Heap.Chain.{IsChain, IsFreeList, covers, apart}
use dim_os.Heap.Insert.{insert, join}
use dim_os.Heap.Scan.{too_small}
use dim_os.Heap.Free.{IsGiven, free-IsGiven}
use dim_os.Heap.Alloc.{IsGranted}
use dim_os.Heap.Retry.{free-alloc_once, alloc-IsGranted}

-- The first address of the higher half, where the pages of the heap are.
abbrev high : ℕ
high = 0xffff800000000000

-- One page on the list, and the memory in front of it that a block to free stands in.
abbrev page : FreeList
page = record {
  head = high + 8192;
  size = update (update (λ a. 0) (high + 8192) 4080) (high + 4096) 4080;
  next = λ a. 0;
}

abbrev page_blocks : List (ℕ × ℕ)
page_blocks = (high + 8192, 4080) ∷ []

page-IsFreeList : IsFreeList page page_blocks
unfolding IsChain
page-IsFreeList = (refl, omega arith, refl, omega arith, refl)

-- A block freed right before another is joined with it.
freed_joins : insert (high + 4096) 4080 page_blocks ≡ (high + 4096, 8176) ∷ []
unfolding insert join
freed_joins = refl

apart_page : apart (high + 4096) 4080 page_blocks ≡ true
unfolding apart
apart_page = refl

free-IsGiven_example : IsGiven (high + 4096) 4080 page_blocks (free 2 page (high + 4112))
free-IsGiven_example =
    free-IsGiven 2 page (high + 4096) 4080 page_blocks (omega arith) page-IsFreeList (omega arith)
      (omega arith) refl apart_page

-- A request of 100 bytes takes the front of the page.
takes_front :
    alloc_once 2 page 100 ≡ some (Attempt.fit (high + 8208) (take_node page 100 (high + 8192) 0))
unfolding alloc_once scan
takes_front = refl

free-alloc_once_example :
    (out' : FreeList) × (blocks : List (ℕ × ℕ)) × (free 2
        (take_node page 100 (high + 8192) 0)
        (high + 8208)
      ≡ some out')
    × IsFreeList out' blocks
    × ((b : ℕ) → covers blocks b ≡ covers page_blocks b)
free-alloc_once_example =
    free-alloc_once 2 page 100 page_blocks (high + 8208) (take_node page 100 (high + 8192) 0)
      (omega arith) page-IsFreeList takes_front

apart_new : apart (high + 16384) 8176 page_blocks ≡ true
unfolding apart
apart_new = refl

-- A request that the page is too small for.
alloc-IsGranted_example :
    (addr : ℕ) × (out : FreeList) × (blocks : List (ℕ × ℕ)) × (alloc
        (λ n. high + 16384)
        2
        3
        page
        5000
      ≡ some (addr, out))
    × IsGranted 5000 blocks addr out
    × ((blocks ≡ page_blocks)
        ⊎ ((too_small 5000 page_blocks ≡ true) × (blocks ≡ insert (high + 16384) 8176 page_blocks)))
alloc-IsGranted_example =
    alloc-IsGranted (λ n. high + 16384) 3 page 5000 page_blocks (omega arith) page-IsFreeList
      (omega arith) (omega arith) (omega arith) apart_new
