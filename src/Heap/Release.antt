-- ===== src/Heap/Release.antt =====
-- `addNode`: the loop that looks for the place of a node, and `free`.
use dim_os.Common.{
  ℕ, zero, suc, ◌+◌, ◌≤◌, ◌<◌, ◌≡◌, refl, ◌∙◌, ◌≢◌, ◌⊎◌, inl, inr, true, false, List, [], ◌∷◌, ltb,
  ◌==◌, length, two_64, add_64, update_self, update_ne, arith, Bool-cases, ==_iff, some,
}
use dim_os.Heap.{FreeList, sizeof_node, set_size, block_end, join_front, link_node, add_loop}
use dim_os.Heap.Chain.{IsChain, IsChain-frame, IsChain-above, IsChain-first, apart}
use dim_os.Heap.Insert.{join, insert}
use dim_os.Heap.Place.{
  link, Placed, Agrees, link-Agrees, absorb_next-IsChain, absorb_next-Agrees, block_end-eq,
}
use dim_os.Heap.Link.{link_node-Placed}

-- The first block of a chain above `n` begins behind a block at `n` that overlaps none of it.
apart-first :
    (size next : ℕ → ℕ) (lo a n s : ℕ) (bs : List (ℕ × ℕ))
    → IsChain size next lo a bs
    → apart n s bs ≡ true
    → n < a
    → n + 16 + s ≤ a
unfolding IsChain apart
apart-first size next lo a n s [] c gap lt = absurd (omega (arith, c, lt))
apart-first size next lo a n s ((x, t) ∷ bs) (at, _, _, _, _) gap lt = ground (arith, at, gap)

apart-tail :
    (n s x t : ℕ) (bs : List (ℕ × ℕ))
    → apart n s ((x, t) ∷ bs) ≡ true
    → ((x + 16 + t ≤ n) ⊎ (n + 16 + s ≤ x)) × (apart n s bs ≡ true)
unfolding apart
apart-tail n s x t bs gap = ground arith

-- Writes above `lo` that leave the link alone.
Agrees-Placed :
    (h h' : FreeList) (prev lo : ℕ) (bs : List (ℕ × ℕ))
    → (prev ≡ 0) ⊎ (prev < lo)
    → Agrees lo h h'
    → IsChain h'.size h'.next lo (link h prev) bs
    → Placed h prev lo bs h'
Agrees-Placed h h' prev lo bs below a c = record {
  chain = rw (link-Agrees h h' prev lo below a) c;
  size_kept = a.size;
  next_kept = λ q lt ne. a.next q lt;
  head_kept = λ ne. a.head;
}

-- A node that begins where the block at `x` ends.
join_front-Placed :
    (h : FreeList) (prev lo x t n s : ℕ) (bs : List (ℕ × ℕ))
    → (prev ≡ 0) ⊎ (prev < lo)
    → link h prev ≡ x
    → x + 16 + t ≡ n
    → n + 16 + s < two_64
    → h.size n ≡ s
    → apart n s bs ≡ true
    → IsChain h.size h.next lo x ((x, t) ∷ bs)
    → Placed h prev lo (join x (t + (16 + s)) bs) (join_front h x n)
unfolding join_front IsChain set_size
join_front-Placed h prev lo x t n s bs below at here small sz gap (_, above, sz_x, _, rest) =
    Agrees-Placed h (join_front h x n) prev lo (join x (t + (16 + s)) bs) below
      (record {
        size = λ a q. joined.size a q ∙ update_ne h.size x a _ (omega arith);
        next = λ a q. joined.next a q;
        head = joined.head;
      })
      (rw at (
        absorb_next-IsChain lo grown x (t + (16 + s)) bs above size_x (omega (arith, here, small))
          behind))
  where
    grown : FreeList
    grown = set_size h x (add_64 (h.size x) (add_64 sizeof_node (h.size n)))

    joined : Agrees lo grown (join_front h x n)
    joined = absorb_next-Agrees lo grown x (h.next x) above

    size_x : grown.size x ≡ t + (16 + s)
    size_x = update_self h.size x _ ∙ rw (sz, sz_x) (omega (arith, here, small))

    next_far : h.next x ≢ 0 → n + 16 + s ≤ h.next x
    next_far ne =
        apart-first h.size h.next (x + 16 + t) (h.next x) n s bs rest gap
          (omega (arith, IsChain-first h.size h.next (x + 16 + t) (h.next x) bs rest, ne, here))

    behind : IsChain grown.size grown.next (x + 15 + (t + (16 + s))) (h.next x) bs
    behind =
        IsChain-above grown.size grown.next (x + 16 + t) _ (h.next x) bs
          (λ ne. omega (arith, next_far ne, here))
          (IsChain-frame (x + 16 + t) (h.next x) bs (λ q lt. update_ne h.size x q _ (omega arith))
            (λ q lt. refl) rest)

pub link_pos : (h : FreeList) (p : ℕ) → p ≢ 0 → link h p ≡ h.next p
link_pos h zero ne = absurd (ne refl)
link_pos h (suc p) ne = refl

-- What is placed behind a block that stays is placed behind the node before it.
pub Placed-cons :
    (h h' : FreeList) (prev lo x t : ℕ) (bs : List (ℕ × ℕ))
    → (prev ≡ 0) ⊎ (prev < lo)
    → link h prev ≡ x
    → lo < x
    → x + 16 + t < two_64
    → h.size x ≡ t
    → Placed h x (x + 16 + t) bs h'
    → Placed h prev lo ((x, t) ∷ bs) h'
unfolding IsChain
Placed-cons h h' prev lo x t bs below at above small sz p = record {
  chain = (
    same_link prev below at,
    above,
    p.size_kept x (omega arith) ∙ sz,
    small,
    rw (← link_pos h' x (omega arith)) p.chain,
  );
  size_kept = λ a lt. p.size_kept a (omega arith);
  next_kept = λ a lt ne. p.next_kept a (omega arith) (omega arith);
  head_kept = λ ne. p.head_kept (omega arith);
}
  where
    same_link : (k : ℕ) → (k ≡ 0) ⊎ (k < lo) → link h k ≡ x → link h' k ≡ x
    same_link zero b e = p.head_kept (omega arith) ∙ e
    same_link (suc k) b e = p.next_kept (suc k) (omega (arith, b)) (omega (arith, b)) ∙ e

-- The loop of `addNode`, from the node behind `prev` on.
pub add_loop-Placed :
    (fuel : ℕ) (h : FreeList) (prev lo curr n s : ℕ) (bs : List (ℕ × ℕ))
    → length bs < fuel
    → (prev ≡ 0) ⊎ (prev < lo)
    → link h prev ≡ curr
    → lo < n
    → n + 16 + s < two_64
    → h.size n ≡ s
    → apart n s bs ≡ true
    → IsChain h.size h.next lo curr bs
    → (h' : FreeList) × (add_loop fuel h prev curr n ≡ some h')
      × Placed h prev lo (insert n s bs) h'
unfolding add_loop insert IsChain
add_loop-Placed zero h prev lo curr n s bs enough below at above small sz gap c =
    absurd (omega arith)
add_loop-Placed (suc fuel) h prev lo curr n s [] enough below at above small sz gap c =
    let null : (curr == 0) ≡ true = ground (arith, c) in
    (
      link_node h prev curr n,
      rw null refl,
      link_node-Placed h prev lo n s curr [] below above small sz (inl c) c,
    )
add_loop-Placed (suc fuel) h prev lo curr n s ((x, t) ∷ bs) enough below at above small sz gap c =
    let (here, behind, sz_x, small_x, rest) = c in
    let (side, gap') = apart-tail n s x t bs gap in
    let node : (curr == 0) ≡ false = ground (arith, here) in
    let next = add_loop-Placed fuel h x (x + 16 + t) (h.next x) n s bs in
    elim (Bool-cases (ltb n x)) [
      | inl before ↦
          let stop : ltb n curr ≡ true = ground (arith, here, before) in
          (
            link_node h prev curr n,
            rw (node, stop) refl,
            rw before (
                link_node-Placed h prev lo n s curr ((x, t) ∷ bs) below above small sz
                  (inr (ground (arith, here, side, before))) c),
          )
      | inr after ↦
          let go : ltb n curr ≡ false = ground (arith, here, after) in
          let end = block_end-eq h x t sz_x small_x in
          elim (Bool-cases (x + 16 + t == n)) [
            | inl e ↦
                let touch : (block_end h curr == n) ≡ true = rw here (ground (arith, end, e)) in
                (
                  join_front h curr n,
                  rw (node, go, touch) refl,
                  rw (after, e, here)
                      (join_front-Placed h prev lo x t n s bs below (at ∙ here)
                        ((==_iff (x + 16 + t) n).0 e) small sz gap' (rw here at c)),
                )
            | inr e ↦
                let on : (block_end h curr == n) ≡ false = rw here (ground (arith, end, e)) in
                let past : x + 16 + t < n = ground (arith, side, after, e) in
                let (h', returns, p) =
                  next (omega arith) (inr (omega arith)) (link_pos h x (omega (arith, behind))) past
                    small sz gap' rest in
                let step : add_loop (suc fuel) h prev curr n ≡ add_loop fuel h x (h.next x) n =
                  rw (node, go, on, here) refl in
                (
                  h',
                  step ∙ returns,
                  rw (after, e)
                      (Placed-cons h h' prev lo x t (insert n s bs) below (at ∙ here) behind small_x
                        sz_x p),
                )
          ]
    ]
