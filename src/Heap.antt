-- ===== src/Heap.antt =====
-- kernel/kernel/memory/heap.cpp, kernel/include/kernel/memory/heap.h and kernel/kernel/memory/kheap.cpp:
-- the free list behind kmalloc and kfree, as pointers over memory.
pub mod Chain
pub mod Insert
pub mod Place
pub mod Link
pub mod Release
pub mod Free
pub mod Scan
pub mod Take
pub mod Alloc
pub mod Retry
mod Tests
use dim_os.Common.{
  ℕ, zero, suc, ◌+◌, ◌-◌, ◌*◌, ◌/◌, ◌%◌, ◌^◌, Bool, true, false, ◌&&◌, Option, none, some, ltb, leb,
  ◌==◌, if◌then◌else◌, update, add_64, sub_64, two_64,
}

-- `sizeof(Node)`
abbrev pub sizeof_node : ℕ
sizeof_node = 16

-- `FreeList`, with the headers in memory: the fields `size` and `next` of the `Node` at an address.
-- The address 0 is `nullptr`. Every header is a cell of its own, as no two blocks overlap.
pub record FreeList : Type 0 where
  pub head : ℕ
  pub size : ℕ → ℕ
  pub next : ℕ → ℕ

pub set_size : FreeList → ℕ → ℕ → FreeList
set_size h a v = record h { size = update h.size a v }

pub set_next : FreeList → ℕ → ℕ → FreeList
set_next h a v = record h { next = update h.next a v }

-- `if (prev) prev->next = v; else head = v;`
pub set_link : FreeList → ℕ → ℕ → FreeList
set_link h prev v = if prev == 0 then record h { head = v } else set_next h prev v

-- The address behind the block of a node, in the arithmetic of `uint64_t`.
abbrev pub block_end : FreeList → ℕ → ℕ
block_end h a = add_64 (add_64 a sizeof_node) (h.size a)

-- `curr->size += sizeofNode + next->size; curr->next = next->next;` if `next` begins where `curr` ends.
pub absorb_next : FreeList → ℕ → ℕ → FreeList
absorb_next h curr next =
    if next == block_end h curr
    then set_next (set_size h curr (add_64 (h.size curr) (add_64 sizeof_node (h.size next)))) curr
        (h.next next)
    else h

-- The branch of the loop in `addNode` in which the new node joins the end of `curr`.
pub join_front : FreeList → ℕ → ℕ → FreeList
join_front h curr node =
    absorb_next (set_size h curr (add_64 (h.size curr) (add_64 sizeof_node (h.size node)))) curr
      (h.next curr)

-- The part of `addNode` behind the loop: the new node is linked between `prev` and `curr`, and takes
-- in `curr`, and then the node behind it, where they touch.
pub link_node : FreeList → ℕ → ℕ → ℕ → FreeList
link_node h prev curr node =
    let linked = set_link (set_next h node curr) prev node in
    if block_end linked node == curr
    then absorb_next
        (set_next
          (set_size linked node (add_64 (linked.size node) (add_64 sizeof_node (linked.size curr))))
          node (linked.next curr))
        node (linked.next curr)
    else linked

-- The loop of `addNode`. `none` means that the fuel ran out.
pub add_loop : ℕ → FreeList → ℕ → ℕ → ℕ → Option FreeList
add_loop zero h prev curr node = none
add_loop (suc fuel) h prev curr node =
    let further = add_loop fuel h curr (h.next curr) node in
    if curr == 0
    then some (link_node h prev curr node)
    else if ltb node curr
    then some (link_node h prev curr node)
    else if block_end h curr == node
    then some (join_front h curr node)
    else further

pub add_node : ℕ → FreeList → ℕ → Option FreeList
add_node fuel h node = add_loop fuel h 0 h.head node

pub add_memory : ℕ → FreeList → ℕ → ℕ → Option FreeList
add_memory fuel h addr size =
    add_node fuel (set_next (set_size h addr (sub_64 size sizeof_node)) addr 0) addr

pub free : ℕ → FreeList → ℕ → Option FreeList
free fuel h ptr = add_node fuel h (sub_64 ptr sizeof_node)

-- `split`: the node of the other part, if it is worth one.
pub split : FreeList → ℕ → ℕ → Option (ℕ × FreeList)
split h node size =
    if ltb (h.size node) (add_64 (add_64 size sizeof_node) 1)
    then none
    else let part = add_64 (add_64 node sizeof_node) size in
      some
        (part, set_next (set_size h part (sub_64 (sub_64 (h.size node) size) sizeof_node)) part 0)

-- The loop of `alloc`: the best target so far, the node before it, and its size.
pub scan : ℕ → FreeList → ℕ → ℕ → ℕ → ℕ → ℕ → ℕ → Option (ℕ × ℕ)
scan zero h size curr prev_node target prev used = none
scan (suc fuel) h size curr prev_node target prev used =
    let take = scan fuel h size (h.next curr) curr curr prev_node (h.size curr) in
    let skip = scan fuel h size (h.next curr) curr target prev used in
    if curr == 0
    then some (target, prev)
    else if leb size (h.size curr) && ltb (h.size curr) used
    then take
    else skip

-- The part of `alloc` behind the search, for a target that was found.
pub take_node : FreeList → ℕ → ℕ → ℕ → FreeList
take_node h size target prev = elim (split h target size) [
  | some (part, h') ↦
      set_size (set_next (set_link h' prev part) part ((set_link h' prev part).next target)) target
        size
  | none ↦ set_link h prev (h.next target)
]

-- How an attempt of `alloc` ends: no node is large enough, or the memory behind a node's header.
pub data Attempt : Type 0 where
  no_fit : Attempt
  fit : ℕ → FreeList → Attempt

pub alloc_once : ℕ → FreeList → ℕ → Option Attempt
alloc_once fuel h size = elim (scan fuel h size h.head 0 0 0 (two_64 - 1)) [
  | none ↦ none
  | some (target, prev) ↦
      if target == 0
      then some Attempt.no_fit
      else some (Attempt.fit (add_64 target sizeof_node) (take_node h size target prev))
]

-- `reqPages`, before the conversion to `int`.
abbrev pub req_pages : ℕ → ℕ
req_pages size = sub_64 (add_64 (add_64 size sizeof_node) 4096) 1 / 4096

-- `alloc`. `grow n` is the address of `n` new pages, from `VMM::allocNPages`; `tries` bounds the
-- retries, and `none` means that one of the two bounds was met.
pub alloc : (ℕ → ℕ) → ℕ → ℕ → FreeList → ℕ → Option (ℕ × FreeList)
alloc grow zero fuel h size = none
alloc grow (suc tries) fuel h size = elim (alloc_once fuel h size) [
  | none ↦ none
  | some attempt ↦ elim attempt [
    | fit addr h' ↦ some (addr, h')
    | no_fit ↦ elim (add_memory fuel h (grow (req_pages size)) (req_pages size * 4096)) [
      | none ↦ none
      | some h' ↦ alloc grow tries fuel h' size
    ]
  ]
]

-- `FreeList(addr, size)`; `MallocHeap::init` calls it with one page.
pub create : ℕ → FreeList → ℕ → ℕ → Option FreeList
create fuel h addr size = add_memory fuel (record h { head = 0 }) addr size

pub malloc_heap_init : (ℕ → ℕ) → ℕ → FreeList → Option FreeList
malloc_heap_init grow fuel h = create fuel h (grow 1) 4096
