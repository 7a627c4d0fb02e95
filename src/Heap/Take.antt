-- ===== src/Heap/Take.antt =====
-- The end of `alloc`: a block taken off the list, whole or in part.
use dim_os.Common.{
  ℕ, ◌+◌, ◌-◌, ◌≤◌, ◌<◌, ◌≡◌, refl, ◌∙◌, ◌≢◌, ◌⊎◌, inl, inr, Bool, true, false, List, [], ◌∷◌, ◌++◌,
  ltb, if◌then◌else◌, two_64, add_64, sub_64, update, update_self, update_ne, arith, Bool-cases,
  some, none,
}
use dim_os.Heap.{FreeList, sizeof_node, set_size, set_next, set_link, split, take_node}
use dim_os.Heap.Chain.{IsChain, IsChain-frame, IsChain-above, IsChain-first}
use dim_os.Heap.Place.{link, Placed, set_link-IsLinked, linked-Placed}
use dim_os.Heap.Release.{Placed-cons, link_pos}
use dim_os.Heap.Scan.{last_address}

-- Whether the block leaves a part that is worth a node of its own.
abbrev pub leaves : ℕ → ℕ → Bool
leaves t size = ltb (size + 16) t

-- The blocks behind the one taken, with the part that is left.
unfoldable pub remainder : ℕ → ℕ → ℕ → List (ℕ × ℕ) → List (ℕ × ℕ)
remainder x t size bs = if leaves t size then (x + 16 + size, t - size - 16) ∷ bs else bs

-- The size of the block that is handed out.
abbrev pub granted : ℕ → ℕ → ℕ
granted t size = if leaves t size then size else t

split-eq :
    (h : FreeList) (x t size : ℕ)
    → h.size x ≡ t
    → 0 < x
    → x + 16 + t < two_64
    → size ≤ t
    → split h x size ≡ (
        if leaves t size
        then some
            (x + 16 + size, set_next (set_size h (x + 16 + size) (t - size - 16)) (x + 16 + size) 0)
        else none)
unfolding split
split-eq h x t size sz pos small fits = elim (Bool-cases (leaves t size)) [
  | inl e ↦
      let wide : ltb t (add_64 (add_64 size sizeof_node) 1) ≡ false =
        ground (arith, e, pos, small) in
      let part : add_64 (add_64 x sizeof_node) size ≡ x + 16 + size = omega (arith, small, fits) in
      let left : sub_64 (sub_64 t size) sizeof_node ≡ t - size - 16 = ground (arith, e, small) in
      rw (e, sz, wide, part, left) refl
  | inr e ↦
      let narrow : ltb t (add_64 (add_64 size sizeof_node) 1) ≡ true =
        ground (arith, e, pos, small, fits) in
      rw (e, sz, narrow) refl
]

-- The parameters of a block at `x` behind the link at `prev`.
module _ (h : FreeList) (prev lo x t size : ℕ) (bs : List (ℕ × ℕ))
    (below : (prev ≡ 0) ⊎ (prev < lo)) (c : IsChain h.size h.next lo x ((x, t) ∷ bs))
    (fits : size ≤ t) where
  off : (q : ℕ) → lo < q → (q ≢ prev) ⊎ (prev ≡ 0)
  off q lt = elim below [ inl z ↦ inr z | inr p ↦ inl (omega arith) ]

  -- A block taken whole.
  take_whole :
      Placed h prev lo bs (set_link h prev (h.next x)) × ((set_link h prev (h.next x)).size x ≡ t)
  unfolding IsChain
  take_whole =
      let (_, above, sz, small, rest) = c in
      let l = set_link h prev (h.next x) in
      let linked = set_link-IsLinked h prev (h.next x) in
      let same =
        IsChain-frame (x + 16 + t) (h.next x) bs (λ q lt. linked.size_same q)
          (λ q lt. linked.next_same q (off q (omega (arith, above, lt)))) rest in
      (
        linked-Placed h h l l prev lo (h.next x) bs below
            (record { size = λ a q. refl; next = λ a q. refl; head = refl }) linked
            (record { size = λ a q. refl; next = λ a q. refl; head = refl })
            (IsChain-above l.size l.next (x + 16 + t) lo (h.next x) bs
              (λ ne. omega (arith, IsChain-first h.size h.next _ _ bs rest, above, ne)) same),
        linked.size_same x ∙ sz,
      )

  abbrev part : ℕ
  part = x + 16 + size

  abbrev cut : FreeList
  cut = set_next (set_size h part (t - size - 16)) part 0

  abbrev relinked : FreeList
  relinked = set_link cut prev part

  abbrev shrunk : FreeList
  shrunk = set_size (set_next relinked part (relinked.next x)) x size

  -- A block of which a part stays.
  take_part :
      leaves t size ≡ true
      → Placed h prev lo ((part, t - size - 16) ∷ bs) shrunk × (shrunk.size x ≡ size)
  unfolding IsChain set_size set_next
  take_part wide =
      let (_, above, sz, small, rest) = c in
      let long : size + 16 < t = ground (arith, wide) in
      let linked = set_link-IsLinked cut prev part in
      let next_x : relinked.next x ≡ h.next x =
        linked.next_same x (off x above) ∙ update_ne h.next part x 0 (omega arith) in
      let next_part : update relinked.next part (relinked.next x) part ≡ h.next x =
        update_self relinked.next part _ ∙ next_x in
      let size_part : shrunk.size part ≡ t - size - 16 =
        update_ne relinked.size x part size (omega arith)
        ∙ linked.size_same part
        ∙ update_self h.size part _ in
      let far : part + 16 + (t - size - 16) ≡ x + 16 + t = omega (arith, long) in
      let sizes : (q : ℕ) → x + 16 + t < q → shrunk.size q ≡ h.size q = λ q lt.
        update_ne relinked.size x q size (omega (arith, lt))
        ∙ linked.size_same q
        ∙ update_ne h.size part q _ (omega (arith, lt, long)) in
      let nexts : (q : ℕ) → x + 16 + t < q → shrunk.next q ≡ h.next q = λ q lt.
        update_ne relinked.next part q _ (omega (arith, lt, long))
        ∙ linked.next_same q (off q (omega (arith, lt, above)))
        ∙ update_ne h.next part q 0 (omega (arith, lt, long)) in
      (
        linked-Placed h cut relinked shrunk prev lo part ((part, t - size - 16) ∷ bs) below
            (record {
              size = λ a q. update_ne h.size part a _ (omega (arith, above, q));
              next = λ a q. update_ne h.next part a 0 (omega (arith, above, q));
              head = refl;
            })
            linked
            (record {
              size = λ a q. update_ne relinked.size x a size (omega (arith, above, q));
              next = λ a q. update_ne relinked.next part a _ (omega (arith, above, q));
              head = refl;
            })
            (
              refl,
              omega (arith, above),
              size_part,
              omega (arith, small, long),
              rw (next_part, far) (IsChain-frame (x + 16 + t) (h.next x) bs sizes nexts rest),
            ),
        update_self relinked.size x size,
      )

-- Either way the rest of the list stays, with what the block leaves.
take_here :
    (h : FreeList) (prev lo x t size : ℕ) (bs : List (ℕ × ℕ))
    → (prev ≡ 0) ⊎ (prev < lo)
    → IsChain h.size h.next lo x ((x, t) ∷ bs)
    → size ≤ t
    → Placed h prev lo (remainder x t size bs) (take_node h size x prev)
      × ((take_node h size x prev).size x ≡ granted t size)
unfolding take_node remainder IsChain
take_here h prev lo x t size bs below c fits =
    let (_, above, sz, small, rest) = c in
    elim (Bool-cases (leaves t size)) [
      | inl e ↦
          rw (take_node, split-eq h x t size sz (omega (arith, above)) small fits, e)
            (take_part h prev lo x t size bs below c fits e)
      | inr e ↦
          rw (take_node, split-eq h x t size sz (omega (arith, above)) small fits, e)
            (take_whole h prev lo x t size bs below c fits)
    ]

-- The same for a block further down the list.
pub take_node-Placed :
    (before : List (ℕ × ℕ)) (h : FreeList) (prev lo a x t size : ℕ) (bs : List (ℕ × ℕ))
    → (prev ≡ 0) ⊎ (prev < lo)
    → link h prev ≡ a
    → IsChain h.size h.next lo a (before ++ ((x, t) ∷ bs))
    → size ≤ t
    → let h' = take_node h size x (last_address prev before) in
      Placed h prev lo (before ++ remainder x t size bs) h'
      × (h'.size x ≡ granted t size)
      × (0 < x)
      × (x + 16 + t < two_64)
unfolding last_address IsChain
take_node-Placed [] h prev lo a x t size bs below at c fits =
    let (here, above, sz, small, rest) = c in
    let (p, g) = take_here h prev lo x t size bs below (refl, above, sz, small, rest) fits in
    (p, g, omega (arith, above), small)
take_node-Placed ((y, u) ∷ before) h prev lo a x t size bs below at (here, above, sz, small, rest)
      fits =
    let (p, g, pos, bound) =
      take_node-Placed before h y (y + 16 + u) (h.next y) x t size bs (inr (omega arith))
        (link_pos h y (omega (arith, above))) rest fits in
    (
      Placed-cons h _ prev lo y u (before ++ remainder x t size bs) below (at ∙ here) above small sz
          p,
      g,
      pos,
      bound,
    )
