-- ===== src/Heap/Alloc.antt =====
-- `alloc` on the list of blocks.
use mathlib.Core.Path.{subst}
use dim_os.Common.{
  ℕ, ◌+◌, ◌-◌, ◌≤◌, ◌<◌, ◌≡◌, refl, ap, ◌∙◌, inl, inr, true, false, ◌||◌, List, [], ◌∷◌, ◌++◌, ◌==◌,
  length, two_64, add_64, arith, Bool-cases, Option, some,
}
use dim_os.Heap.{FreeList, Attempt, sizeof_node, take_node, alloc_once}
use dim_os.Heap.Chain.{IsChain, IsFreeList, covers, inside, apart}
use dim_os.Heap.Scan.{
  find, scan-find, find-cases, IsBest, no_better, too_small, no_better-too_small,
}
use dim_os.Heap.Take.{take_node-Placed, remainder, granted, leaves}

covers-append : (xs ys : List (ℕ × ℕ)) (b : ℕ) → covers (xs ++ ys) b ≡ (covers xs b || covers ys b)
unfolding covers
covers-append [] ys b = refl
covers-append ((x, t) ∷ xs) ys b = ground (arith, covers-append xs ys b)

-- What a block leaves and what is granted of it make up the block.
covers-remainder :
    (x t size : ℕ) (bs : List (ℕ × ℕ)) (b : ℕ)
    → size ≤ t
    → covers ((x, t) ∷ bs) b ≡ (inside x (granted t size) b || covers (remainder x t size bs) b)
unfolding covers remainder
covers-remainder x t size bs b fits = elim (Bool-cases (leaves t size)) [
  | inl e ↦ rw e (ground (arith, e))
  | inr e ↦ rw e refl
]

-- The same further down the list.
covers-taken :
    (before : List (ℕ × ℕ)) (x t size : ℕ) (bs : List (ℕ × ℕ)) (b : ℕ)
    → size ≤ t
    → covers (before ++ ((x, t) ∷ bs)) b
      ≡ (inside x (granted t size) b || covers (before ++ remainder x t size bs) b)
covers-taken before x t size bs b fits = ground (
  arith,
  covers-append before ((x, t) ∷ bs) b,
  covers-append before (remainder x t size bs) b,
  covers-remainder x t size bs b fits,
)

-- A block below a chain overlaps none of it, and one that stands further down is above the bound.
apart-below :
    (size next : ℕ → ℕ) (lo a x s : ℕ) (bs : List (ℕ × ℕ))
    → x + 16 + s ≤ lo
    → IsChain size next lo a bs
    → apart x s bs ≡ true
unfolding IsChain apart
apart-below size next lo a x s [] le c = refl
apart-below size next lo a x s ((y, u) ∷ bs) le (at, above, sz, small, rest) = ground (
  arith,
  above,
  le,
  apart-below size next (y + 16 + u) (next y) x s bs (omega (arith, above, le)) rest,
)

IsChain-behind :
    (size next : ℕ → ℕ) (lo a : ℕ) (before : List (ℕ × ℕ)) (x t : ℕ) (bs : List (ℕ × ℕ))
    → IsChain size next lo a (before ++ ((x, t) ∷ bs))
    → lo < x
unfolding IsChain
IsChain-behind size next lo a [] x t bs (at, above, sz, small, rest) = above
IsChain-behind size next lo a ((y, u) ∷ before) x t bs (at, above, sz, small, rest) =
    omega (arith, above, IsChain-behind size next (y + 16 + u) (next y) before x t bs rest)

-- What is granted of a block overlaps nothing that stays.
apart-taken :
    (size next : ℕ → ℕ) (lo a : ℕ) (before : List (ℕ × ℕ)) (x t want : ℕ) (bs : List (ℕ × ℕ))
    → want ≤ t
    → IsChain size next lo a (before ++ ((x, t) ∷ bs))
    → apart x (granted t want) (before ++ remainder x t want bs) ≡ true
unfolding IsChain apart remainder
apart-taken size next lo a [] x t want bs fits (at, above, sz, small, rest) =
    elim (Bool-cases (leaves t want)) [
      | inl e ↦ rw e (
          ground (
            arith,
            apart-below size next (x + 16 + t) (next x) x want bs (omega (arith, fits)) rest,
          ))
      | inr e ↦ rw e (apart-below size next (x + 16 + t) (next x) x t bs (omega arith) rest)
    ]
apart-taken size next lo a ((y, u) ∷ before) x t want bs fits (at, above, sz, small, rest) =
    let past = IsChain-behind size next (y + 16 + u) (next y) before x t bs rest in
    ground (arith, past, apart-taken size next (y + 16 + u) (next y) before x t want bs fits rest)

-- What `alloc` hands out of the blocks `bs`: a block at `x` of at least the size asked for, from the
-- smallest free block that is large enough. The list stays well formed; the block overlaps nothing in
-- it, and nothing else is lost.
pub record IsGranted (size : ℕ) (bs : List (ℕ × ℕ)) (addr : ℕ) (out : FreeList) : Type 0 where
  pub x : ℕ
  pub room : ℕ
  pub before : List (ℕ × ℕ)
  pub behind : List (ℕ × ℕ)
  pub place : bs ≡ before ++ ((x, room) ∷ behind)
  pub address : addr ≡ x + 16
  pub positive : 0 < x
  pub in_space : x + 16 + room < two_64
  pub enough : size ≤ room
  pub least : no_better size room bs ≡ true
  pub header : out.size x ≡ granted room size
  pub well_formed : IsFreeList out (before ++ remainder x room size behind)
  pub apart_rest : apart x (granted room size) (before ++ remainder x room size behind) ≡ true
  pub kept :
      (b : ℕ)
      → covers bs b
        ≡ (inside x (granted room size) b || covers (before ++ remainder x room size behind) b)

-- The two ways in which the search of `alloc` ends.
pub data IsAttempt (size : ℕ) (bs : List (ℕ × ℕ)) : Option Attempt → Type 0 where
  failed : too_small size bs ≡ true → IsAttempt size bs (some Attempt.no_fit)
  succeeded :
      {addr : ℕ} {out : FreeList}
      → IsGranted size bs addr out
      → IsAttempt size bs (some (Attempt.fit addr out))

found :
    (h : FreeList) (size : ℕ) (bs : List (ℕ × ℕ)) (target prev : ℕ)
    → IsFreeList h bs
    → IsBest size (two_64 - 1) 0 bs (target, prev)
    → (0 < target)
      × (target + 16 < two_64)
      × IsGranted size bs (target + 16) (take_node h size target prev)
found h size bs target prev c best =
    let (p, header, pos, small) =
      take_node-Placed best.before h 0 0 h.head target best.room size best.behind (inl refl) refl
        (subst (λ l. IsFreeList h l) best.place c) best.enough in
    (
      pos,
      omega (arith, small),
      rw best.previous (record {
        x = target;
        room = best.room;
        before = best.before;
        behind = best.behind;
        place = best.place;
        address = refl;
        positive = pos;
        in_space = small;
        enough = best.enough;
        least = best.least;
        header = header;
        well_formed = p.chain;
        apart_rest =
            apart-taken h.size h.next 0 h.head best.before target best.room size best.behind
              best.enough (subst (λ l. IsFreeList h l) best.place c);
        kept = λ b.
            ap (λ l. covers l b) best.place
            ∙ covers-taken best.before target best.room size best.behind b best.enough;
      }),
    )

-- With more fuel than blocks, a search of a well-formed free list terminates: either every block is
-- too small, or part of the smallest block that is large enough is handed out, the whole if the rest
-- is not worth a header; the list stays well formed and nothing else leaves it.
pub alloc_once-IsAttempt :
    (fuel : ℕ) (h : FreeList) (size : ℕ) (bs : List (ℕ × ℕ))
    → length bs < fuel
    → IsFreeList h bs
    → IsAttempt size bs (alloc_once fuel h size)
unfolding alloc_once
alloc_once-IsAttempt fuel h size bs enough c =
    let searched = scan-find fuel h size 0 h.head bs 0 0 0 (two_64 - 1) enough c in
    elim (find-cases size bs 0 0 0 (two_64 - 1)) [
      | inl (kept, none_better) ↦
          rw (alloc_once, searched, kept)
            (failed (no_better-too_small h size 0 h.head bs c none_better))
      | inr best ↦
          let (pos, small, g) =
            found h size bs (find size bs 0 0 0 (two_64 - 1)).0 (find size bs 0 0 0 (two_64 - 1)).1
              c best in
          let node : ((find size bs 0 0 0 (two_64 - 1)).0 == 0) ≡ false = ground (arith, pos) in
          let address : add_64 (find size bs 0 0 0 (two_64 - 1)).0 sizeof_node
              ≡ (find size bs 0 0 0 (two_64 - 1)).0 + 16 =
            omega (arith, small) in
          rw (alloc_once, searched, node, address) (succeeded g)
    ]
