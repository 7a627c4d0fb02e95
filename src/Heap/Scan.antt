-- ===== src/Heap/Scan.antt =====
-- The search of `alloc`: the smallest block that is large enough.
use dim_os.Common.{
  ℕ, zero, suc, ◌+◌, ◌-◌, ◌≤◌, ◌<◌, ◌≡◌, refl, ap, ◌⊎◌, inl, inr, Bool, true, false, ◌&&◌, ◌||◌,
  List, [], ◌∷◌, ◌++◌, ltb, leb, ◌==◌, if◌then◌else◌, length, two_64, arith, Bool-cases, some,
}
use dim_os.Heap.{FreeList, scan}
use dim_os.Heap.Chain.{IsChain}

-- The search over the list of blocks.
unfoldable pub find : ℕ → List (ℕ × ℕ) → ℕ → ℕ → ℕ → ℕ → ℕ × ℕ
find size [] prev_node target prev used = (target, prev)
find size ((x, t) ∷ bs) prev_node target prev used =
    let take = find size bs x x prev_node t in
    let skip = find size bs x target prev used in if leb size t && ltb t used then take else skip

pub scan-find :
    (fuel : ℕ) (h : FreeList) (size lo curr : ℕ) (bs : List (ℕ × ℕ))
    (prev_node target prev used : ℕ)
    → length bs < fuel
    → IsChain h.size h.next lo curr bs
    → scan fuel h size curr prev_node target prev used
      ≡ some (find size bs prev_node target prev used)
unfolding scan find IsChain
scan-find zero h size lo curr bs pn target prev used enough c = absurd (omega arith)
scan-find (suc fuel) h size lo curr [] pn target prev used enough c =
    let null : (curr == 0) ≡ true = ground (arith, c) in rw null refl
scan-find (suc fuel) h size lo curr ((x, t) ∷ bs) pn target prev used enough
      (at, above, sz, small, rest) =
    let node : (curr == 0) ≡ false = ground (arith, at) in
    let take = scan-find fuel h size (x + 16 + t) (h.next x) bs x x pn t (omega arith) rest in
    let skip =
      scan-find fuel h size (x + 16 + t) (h.next x) bs x target prev used (omega arith) rest in
    rw (node, at, sz)
      (elim (Bool-cases (leb size t && ltb t used)) [
        | inl fits ↦ rw fits take
        | inr not ↦ rw not skip
      ])

-- Every block of a list is too small for the request, or not smaller than `used`.
unfoldable pub no_better : ℕ → ℕ → List (ℕ × ℕ) → Bool
no_better size used [] = true
no_better size used ((x, t) ∷ bs) = (ltb t size || leb used t) && no_better size used bs

-- Every block of a list is too small for the request.
unfoldable pub too_small : ℕ → List (ℕ × ℕ) → Bool
too_small size [] = true
too_small size ((x, t) ∷ bs) = ltb t size && too_small size bs

-- No block is as large as what the search begins with.
pub no_better-too_small :
    (h : FreeList) (size lo a : ℕ) (bs : List (ℕ × ℕ))
    → IsChain h.size h.next lo a bs
    → no_better size (two_64 - 1) bs ≡ true
    → too_small size bs ≡ true
unfolding IsChain no_better too_small
no_better-too_small h size lo a [] c none_better = refl
no_better-too_small h size lo a ((x, t) ∷ bs) (at, above, sz, small, rest) none_better =
    ground (arith, none_better, small, no_better-too_small h size (x + 16 + t) (h.next x) bs rest)

-- The address of the last block, or `prev` where there is none.
unfoldable pub last_address : ℕ → List (ℕ × ℕ) → ℕ
last_address prev [] = prev
last_address prev ((x, t) ∷ bs) = last_address x bs

-- The search found a block: it is large enough, smaller than `used`, and the smallest such block.
pub record IsBest (size used prev : ℕ) (bs : List (ℕ × ℕ)) (out : ℕ × ℕ) : Type 0 where
  pub before : List (ℕ × ℕ)
  pub room : ℕ
  pub behind : List (ℕ × ℕ)
  pub place : bs ≡ before ++ ((out.0, room) ∷ behind)
  pub previous : out.1 ≡ last_address prev before
  pub enough : size ≤ room
  pub better : room < used
  pub least : no_better size room bs ≡ true

-- The search keeps what it had, and then no block is better, or finds the best block.
pub find-cases :
    (size : ℕ) (bs : List (ℕ × ℕ)) (prev_node target prev used : ℕ)
    → ((find size bs prev_node target prev used ≡ (target, prev)) × (no_better size used bs ≡ true))
      ⊎ IsBest size used prev_node bs (find size bs prev_node target prev used)
unfolding find no_better last_address
find-cases size [] pn target prev used = inl (refl, refl)
find-cases size ((x, t) ∷ bs) pn target prev used = elim (Bool-cases (leb size t && ltb t used)) [
  | inl fits ↦ rw fits (elim (find-cases size bs x x pn t) [
    | inl (kept, none_better) ↦ rw kept (
        inr (record {
          before = [];
          room = t;
          behind = bs;
          place = refl;
          previous = refl;
          enough = ground (arith, fits);
          better = ground (arith, fits);
          least = ground (arith, none_better, fits);
        }))
    | inr b ↦ inr (record {
      before = (x, t) ∷ b.before;
      room = b.room;
      behind = b.behind;
      place = ap (λ l. (x, t) ∷ l) b.place;
      previous = b.previous;
      enough = b.enough;
      better = ground (arith, b.better, fits);
      least = ground (arith, b.least, b.better);
    })
  ])
  | inr not ↦ rw not (elim (find-cases size bs x target prev used) [
    | inl (kept, none_better) ↦ inl (kept, ground (arith, not, none_better))
    | inr b ↦ inr (record {
      before = (x, t) ∷ b.before;
      room = b.room;
      behind = b.behind;
      place = ap (λ l. (x, t) ∷ l) b.place;
      previous = b.previous;
      enough = b.enough;
      better = b.better;
      least = ground (arith, b.least, b.better, not);
    })
  ])
]
