-- ===== src/Heap/Link.antt =====
-- The end of `addNode` for a node that joins nothing before it.
use mathlib.Core.Path.{subst}
use dim_os.Common.{
  ℕ, ◌+◌, ◌≤◌, ◌<◌, ◌≡◌, refl, sym, ◌∙◌, ◌≢◌, ◌⊎◌, inl, inr, true, false, List, [], ◌∷◌, ◌==◌,
  two_64, add_64, update_self, update_ne, arith, Bool-cases, ==_iff,
}
use dim_os.Heap.{
  FreeList, sizeof_node, set_size, set_next, set_link, block_end, absorb_next, link_node,
}
use dim_os.Heap.Chain.{IsChain, IsChain-frame, IsChain-above, IsChain-first}
use dim_os.Heap.Insert.{join}
use dim_os.Heap.Place.{
  Placed, IsLinked, set_link-IsLinked, Agrees, linked-Placed, absorb_next-apart, block_end-eq,
}

-- What stands behind a node that was linked below `n`.
module _ (h : FreeList) (prev lo n curr : ℕ) (below : (prev ≡ 0) ⊎ (prev < lo))
    (above : lo < n) where
  abbrev linked : FreeList
  linked = set_link (set_next h n curr) prev n

  linked-IsLinked : IsLinked (set_next h n curr) prev n linked
  linked-IsLinked = set_link-IsLinked (set_next h n curr) prev n

  off : (q : ℕ) → lo < q → (q ≢ prev) ⊎ (prev ≡ 0)
  off q lt = elim below [ inl z ↦ inr z | inr p ↦ inl (omega arith) ]

  linked-size : (q : ℕ) → linked.size q ≡ h.size q
  unfolding set_next
  linked-size q = linked-IsLinked.size_same q

  linked-next_self : linked.next n ≡ curr
  unfolding set_next
  linked-next_self = linked-IsLinked.next_same n (off n above) ∙ update_self h.next n curr

  linked-next_far : (q : ℕ) → lo < q → n ≢ q → linked.next q ≡ h.next q
  unfolding set_next
  linked-next_far q lt ne = linked-IsLinked.next_same q (off q lt) ∙ update_ne h.next n q curr ne

  before : Agrees lo h (set_next h n curr)
  unfolding set_next
  before = record {
    size = λ a q. refl;
    next = λ a q. update_ne h.next n a curr (omega arith);
    head = refl;
  }

  -- The chain behind `n`, with `n` in front.
  untouched :
      (s : ℕ) (bs : List (ℕ × ℕ))
      → h.size n ≡ s
      → n + 16 + s < two_64
      → IsChain h.size h.next (n + 16 + s) curr bs
      → Placed h prev lo ((n, s) ∷ bs) linked
  unfolding IsChain
  untouched s bs sz small c =
      linked-Placed h (set_next h n curr) linked linked prev lo n ((n, s) ∷ bs) below before
        linked-IsLinked (record { size = λ a q. refl; next = λ a q. refl; head = refl })
        (
          refl,
          above,
          linked-size n ∙ sz,
          small,
          rw linked-next_self (
              IsChain-frame (n + 16 + s) curr bs (λ q lt. linked-size q)
                (λ q lt. linked-next_far q (omega arith) (omega arith)) c),
        )

  -- `n` after it took in the node at `curr`.
  abbrev grown : FreeList
  grown =
      set_next (set_size linked n (add_64 (linked.size n) (add_64 sizeof_node (linked.size curr))))
        n (linked.next curr)

  grown-Agrees : Agrees lo linked grown
  unfolding set_next set_size
  grown-Agrees = record { size = λ a q. ground arith; next = λ a q. ground arith; head = refl }

  -- The chain behind `n`, with `n` in front and joined with the block there; nothing else touches it.
  touching :
      (s t : ℕ) (bs : List (ℕ × ℕ))
      → n + 16 + s ≡ curr
      → h.size n ≡ s
      → IsChain h.size h.next lo curr ((curr, t) ∷ bs)
      → Placed h prev lo ((n, s + 16 + t) ∷ bs) (absorb_next grown n (linked.next curr))
  unfolding IsChain set_next set_size
  touching s t bs here sz (_, _, sz_x, small, rest) =
      subst (Placed h prev lo ((n, s + 16 + t) ∷ bs))
        (sym (absorb_next-apart grown n (linked.next curr) dead))
        (linked-Placed h (set_next h n curr) linked grown prev lo n ((n, s + 16 + t) ∷ bs) below
          before linked-IsLinked grown-Agrees
          (
            refl,
            above,
            size_n,
            omega (arith, here, small),
            rw (update_self linked.next n (linked.next curr), y, far)
                (IsChain-frame (curr + 16 + t) (h.next curr) bs
                  (λ q lt. update_ne linked.size n q _ (omega arith) ∙ linked-size q)
                  (λ q lt.
                    update_ne linked.next n q _ (omega arith)
                    ∙ linked-next_far q (omega arith) (omega arith))
                  rest),
          ))
    where
      y : linked.next curr ≡ h.next curr
      y = linked-next_far curr (omega (arith, above, here)) (omega (arith, here))

      far : n + 16 + (s + 16 + t) ≡ curr + 16 + t
      far = omega (arith, here)

      size_n : grown.size n ≡ s + 16 + t
      size_n =
          update_self linked.size n _
          ∙ rw (linked-size n, linked-size curr, sz, sz_x) (omega (arith, small, here))

      dead : linked.next curr ≢ block_end grown n
      dead = rw (y, size_n) (omega (arith, small, here, IsChain-first h.size h.next _ _ bs rest))

-- The end of `addNode` links the node and joins it with the block behind, if there is one and it
-- touches.
pub link_node-Placed :
    (h : FreeList) (prev lo n s curr : ℕ) (bs : List (ℕ × ℕ))
    → (prev ≡ 0) ⊎ (prev < lo)
    → lo < n
    → n + 16 + s < two_64
    → h.size n ≡ s
    → (curr ≡ 0) ⊎ (n + 16 + s ≤ curr)
    → IsChain h.size h.next lo curr bs
    → Placed h prev lo (join n s bs) (link_node h prev curr n)
unfolding link_node join IsChain
link_node-Placed h prev lo n s curr [] below above small sz room c =
    let l = linked h prev lo n curr below above in
    let end = block_end-eq l n s (linked-size h prev lo n curr below above n ∙ sz) small in
    let alone : (block_end l n == curr) ≡ false = ground (arith, end, c) in
    rw alone (untouched h prev lo n curr below above s [] sz small c)
link_node-Placed h prev lo n s curr ((x, t) ∷ bs) below above small sz room c =
    let (at, _, _, _, _) = c in
    let l = linked h prev lo n curr below above in
    let end = block_end-eq l n s (linked-size h prev lo n curr below above n ∙ sz) small in
    elim (Bool-cases (n + 16 + s == x)) [
      | inl e ↦
          let touches : (block_end l n == curr) ≡ true = ground (arith, end, at, e) in
          rw (e, touches)
            (touching h prev lo n curr below above s t bs
              (omega (arith, at, (==_iff (n + 16 + s) x).0 e)) sz
              (subst (λ z. IsChain h.size h.next lo curr ((z, t) ∷ bs)) (sym at) c))
      | inr e ↦
          let alone : (block_end l n == curr) ≡ false = ground (arith, end, at, e) in
          rw (e, alone)
            (untouched h prev lo n curr below above s ((x, t) ∷ bs) sz small (
              IsChain-above h.size h.next lo (n + 16 + s) curr ((x, t) ∷ bs)
                (λ ne. ground (arith, room, at, e)) c))
    ]
