-- ===== src/Heap/Retry.antt =====
-- `alloc` with its retry, and a block that is given back.
use mathlib.Core.Path.{subst}
use dim_os.Common.{
  ℕ, suc, ◌+◌, ◌-◌, ◌*◌, ◌^◌, ◌≤◌, ◌<◌, ◌≡◌, refl, sym, ap, ◌∙◌, ◌⊎◌, inl, inr, true, false, List,
  [], ◌∷◌, ◌++◌, ltb, ◌==◌, length, length-append, two_64, arith, Bool-cases, Option, some,
}
use dim_os.Heap.{FreeList, Attempt, alloc_once, alloc, add_memory, req_pages, free}
use dim_os.Heap.Chain.{IsFreeList, covers, apart}
use dim_os.Heap.Insert.{insert, join}
use dim_os.Heap.Scan.{too_small}
use dim_os.Heap.Take.{remainder, granted, leaves}
use dim_os.Heap.Free.{IsGiven, free-IsGiven, add_memory-IsGiven}
use dim_os.Heap.Alloc.{IsGranted, IsAttempt, alloc_once-IsAttempt}

length-remainder :
    (x t size : ℕ) (bs : List (ℕ × ℕ)) → length (remainder x t size bs) ≤ length bs + 1
unfolding remainder
length-remainder x t size bs = elim (Bool-cases (leaves t size)) [
  | inl e ↦ rw e (omega arith)
  | inr e ↦ rw e (omega arith)
]

IsAttempt-fit :
    (size : ℕ) (bs : List (ℕ × ℕ)) (addr : ℕ) (out : FreeList)
    → IsAttempt size bs (some (Attempt.fit addr out))
    → IsGranted size bs addr out
IsAttempt-fit size bs addr out (IsAttempt.succeeded g) = g

-- On a well-formed free list, which is in order, has no neighbours that touch, and of which each block
-- ends below 2 ^ 64, with more fuel than blocks: if `alloc` finds a block without asking for memory, then
-- `free` of what it handed out terminates and leaves a well-formed list that makes the same addresses
-- available as before both calls.
pub free-alloc_once :
    (fuel : ℕ) (h : FreeList) (size : ℕ) (bs : List (ℕ × ℕ)) (addr : ℕ) (out : FreeList)
    → length bs < fuel
    → IsFreeList h bs
    → alloc_once fuel h size ≡ some (Attempt.fit addr out)
    → (out' : FreeList) × (blocks : List (ℕ × ℕ)) × (free fuel out addr ≡ some out')
      × IsFreeList out' blocks
      × ((b : ℕ) → covers blocks b ≡ covers bs b)
free-alloc_once fuel h size bs addr out enough c e =
    let g =
      IsAttempt-fit size bs addr out (rw e at (alloc_once-IsAttempt fuel h size bs enough c)) in
    let fewer : length (g.before ++ remainder g.x g.room size g.behind) < fuel = omega (
      arith,
      enough,
      ap length g.place,
      length-append g.before ((g.x, g.room) ∷ g.behind),
      length-append g.before (remainder g.x g.room size g.behind),
      length-remainder g.x g.room size g.behind,
    ) in
    let inside_space : g.x + 16 + granted g.room size < two_64 =
      ground (arith, g.in_space, g.enough) in
    let given : IsGiven g.x (granted g.room size) (g.before ++ remainder g.x g.room size g.behind)
        (free fuel out (g.x + 16)) =
      free-IsGiven fuel out g.x (granted g.room size)
        (g.before ++ remainder g.x g.room size g.behind) fewer g.well_formed g.positive inside_space
        g.header g.apart_rest in
    (
      given.out,
      given.blocks,
      subst (λ a. free fuel out a ≡ some given.out) (sym g.address) given.returns,
      given.well_formed,
      λ b. given.available b ∙ sym (g.kept b),
    )

-- The block that is inserted, or one that took it in, is large enough.
too_small-join :
    (want x t : ℕ) (bs : List (ℕ × ℕ)) → want ≤ t → too_small want (join x t bs) ≡ false
unfolding too_small join
too_small-join want x t [] le = ground arith
too_small-join want x t ((y, u) ∷ bs) le = elim (Bool-cases (x + 16 + t == y)) [
  | inl e ↦ rw e (ground arith)
  | inr e ↦ rw e (ground arith)
]

too_small-insert :
    (want n s : ℕ) (bs : List (ℕ × ℕ)) → want ≤ s → too_small want (insert n s bs) ≡ false
unfolding too_small insert
too_small-insert want n s [] le = too_small-join want n s [] le
too_small-insert want n s ((x, t) ∷ bs) le = elim (Bool-cases (ltb n x)) [
  | inl before ↦ rw before (too_small-join want n s ((x, t) ∷ bs) le)
  | inr behind ↦ rw behind (elim (Bool-cases (x + 16 + t == n)) [
    | inl e ↦ rw e (too_small-join want x (t + (16 + s)) bs (omega arith))
    | inr e ↦ rw e (ground (arith, too_small-insert want n s bs le))
  ])
]

length-join : (x t : ℕ) (bs : List (ℕ × ℕ)) → length (join x t bs) ≤ length bs + 1
unfolding join
length-join x t [] = omega arith
length-join x t ((y, u) ∷ bs) = elim (Bool-cases (x + 16 + t == y)) [
  | inl e ↦ rw e (omega arith)
  | inr e ↦ rw e (omega arith)
]

length-insert : (n s : ℕ) (bs : List (ℕ × ℕ)) → length (insert n s bs) ≤ length bs + 1
unfolding insert
length-insert n s [] = length-join n s []
length-insert n s ((x, t) ∷ bs) = elim (Bool-cases (ltb n x)) [
  | inl before ↦ rw before (length-join n s ((x, t) ∷ bs))
  | inr behind ↦ rw behind (elim (Bool-cases (x + 16 + t == n)) [
    | inl e ↦ rw e (omega (arith, length-join x (t + (16 + s)) bs))
    | inr e ↦ rw e (omega (arith, length-insert n s bs))
  ])
]

-- The two results of an attempt, as equations.
attempt_cases :
    (fuel : ℕ) (h : FreeList) (size : ℕ) (bs : List (ℕ × ℕ))
    → length bs < fuel
    → IsFreeList h bs
    → ((alloc_once fuel h size ≡ some Attempt.no_fit) × (too_small size bs ≡ true))
      ⊎ ((addr : ℕ) × (out : FreeList) × (alloc_once fuel h size ≡ some (Attempt.fit addr out))
          × IsGranted size bs addr out)
attempt_cases fuel h size bs enough c =
    ends (alloc_once fuel h size) refl (alloc_once-IsAttempt fuel h size bs enough c)
  where
    ends :
        (r : Option Attempt)
        → alloc_once fuel h size ≡ r
        → IsAttempt size bs r
        → ((alloc_once fuel h size ≡ some Attempt.no_fit) × (too_small size bs ≡ true))
          ⊎ ((addr : ℕ) × (out : FreeList) × (alloc_once fuel h size ≡ some (Attempt.fit addr out))
              × IsGranted size bs addr out)
    ends _ e (IsAttempt.failed none_fits) = inl (e, none_fits)
    ends _ e (IsAttempt.succeeded {addr = addr} {out = out} g) = inr (addr, out, e, g)

alloc-fit :
    (grow : ℕ → ℕ) (tries fuel : ℕ) (h : FreeList) (size addr : ℕ) (out : FreeList)
    → alloc_once fuel h size ≡ some (Attempt.fit addr out)
    → alloc grow (suc tries) fuel h size ≡ some (addr, out)
unfolding alloc
alloc-fit grow tries fuel h size addr out e = rw (alloc, e) refl

alloc-grow :
    (grow : ℕ → ℕ) (tries fuel : ℕ) (h h' : FreeList) (size : ℕ)
    → alloc_once fuel h size ≡ some Attempt.no_fit
    → add_memory fuel h (grow (req_pages size)) (req_pages size * 4096) ≡ some h'
    → alloc grow (suc tries) fuel h size ≡ alloc grow tries fuel h' size
unfolding alloc
alloc-grow grow tries fuel h h' size e added = rw (alloc, e, added) refl

pages_enough :
    (size : ℕ)
    → size < 2 ^ 42
    → (0 < req_pages size) × (size + 16 ≤ req_pages size * 4096) × (req_pages size < 2 ^ 31)
pages_enough size h = (omega (arith, h), omega (arith, h), omega (arith, h))

-- On a well-formed free list, which is in order, has no neighbours that touch, and of which each block
-- ends below 2 ^ 64, for a request below 2 ^ 42 bytes and with fuel for one block more than there are, `alloc` ends after
-- at most one retry with the smallest block that is large enough: one of those that were free, or,
-- only if all of these are too small, one of the list that the new pages were inserted into. The pages
-- must not begin at 0, must end below 2 ^ 64 and overlap no free block.
pub alloc-IsGranted :
    (grow : ℕ → ℕ) (fuel : ℕ) (h : FreeList) (size : ℕ) (bs : List (ℕ × ℕ))
    → length bs + 1 < fuel
    → IsFreeList h bs
    → size < 2 ^ 42
    → 0 < grow (req_pages size)
    → grow (req_pages size) + req_pages size * 4096 < two_64
    → apart (grow (req_pages size)) (req_pages size * 4096 - 16) bs ≡ true
    → (addr : ℕ) × (out : FreeList) × (blocks : List (ℕ × ℕ)) × (alloc grow 2 fuel h size
        ≡ some (addr, out))
      × IsGranted size blocks addr out
      × ((blocks ≡ bs)
          ⊎ ((too_small size bs ≡ true)
              × (blocks ≡ insert (grow (req_pages size)) (req_pages size * 4096 - 16) bs)))
alloc-IsGranted grow fuel h size bs enough c limit pos small gap =
    elim (attempt_cases fuel h size bs (omega arith) c) [
      | inl (e, none_fits) ↦
          let (some_pages, cover, few) = pages_enough size limit in
          let s = req_pages size * 4096 - 16 in
          let given : IsGiven (grow (req_pages size)) s bs
              (add_memory fuel h (grow (req_pages size)) (req_pages size * 4096)) =
            subst
              (λ k.
                IsGiven (grow (req_pages size)) s bs (add_memory fuel h (grow (req_pages size)) k))
              (omega (arith, cover))
              (add_memory-IsGiven fuel h (grow (req_pages size)) s bs (omega arith) c pos
                (omega (arith, cover, small)) gap) in
          let fewer : length given.blocks < fuel =
            omega (
              arith,
              enough,
              ap length given.ordered,
              length-insert (grow (req_pages size)) s bs,
            ) in
          let again = alloc-grow grow 1 fuel h given.out size e given.returns in
          elim (attempt_cases fuel given.out size given.blocks fewer given.well_formed) [
            | inl (_, none_again) ↦
                let fits =
                  too_small-insert size (grow (req_pages size)) s bs (omega (arith, cover)) in
                absurd (cc (fits, none_again, given.ordered))
            | inr (addr, out, e', g) ↦ (
              addr,
              out,
              given.blocks,
              again ∙ alloc-fit grow 0 fuel given.out size addr out e',
              g,
              inr (none_fits, given.ordered),
            )
          ]
      | inr (addr, out, e, g) ↦
          (addr, out, bs, alloc-fit grow 1 fuel h size addr out e, g, inl refl)
    ]
