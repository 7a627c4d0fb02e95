-- ===== src/Heap/Place.antt =====
-- The end of `addNode`: the new node linked before a node, and joined with what it touches.
use native.Mathlib.Nat.{mod-eq_of_lt}
use mathlib.Core.Path.{subst}
use dim_os.Common.{
  ℕ, zero, suc, ◌+◌, ◌<◌, ◌≡◌, refl, sym, ap, ◌∙◌, ◌≢◌, ◌⊎◌, inl, inr, true, false, List, [], ◌∷◌,
  ◌==◌, two_64, add_64, update, update_self, arith, Bool-cases, ==_iff,
}
use dim_os.Heap.{FreeList, sizeof_node, set_size, set_next, set_link, block_end, absorb_next}
use dim_os.Heap.Chain.{IsChain, IsChain-frame}
use dim_os.Heap.Insert.{join}

-- The pointer that leads on behind `prev`, the head where there is no node before.
abbrev pub link : FreeList → ℕ → ℕ
link h zero = h.head
link h (suc p) = h.next (suc p)

-- `h'` holds the blocks behind `prev`, and differs from `h` below `lo` at most in the link there.
pub record Placed (h : FreeList) (prev lo : ℕ) (bs : List (ℕ × ℕ)) (h' : FreeList) : Type 0 where
  pub chain : IsChain h'.size h'.next lo (link h' prev) bs
  pub size_kept : (a : ℕ) → a < lo → h'.size a ≡ h.size a
  pub next_kept : (a : ℕ) → a < lo → a ≢ prev → h'.next a ≡ h.next a
  pub head_kept : prev ≢ 0 → h'.head ≡ h.head

-- A sum of sizes below the limit does not wrap.
pub add_64-eq : (a b : ℕ) → a + b < two_64 → add_64 a b ≡ a + b
add_64-eq a b h = mod-eq_of_lt h

set_link-suc : (h : FreeList) (p v : ℕ) → set_link h (suc p) v ≡ set_next h (suc p) v
unfolding set_link
set_link-suc h p v = let there : (suc p == 0) ≡ false = ground arith in rw there refl

-- What `set_link` does.
pub record IsLinked (h : FreeList) (prev n : ℕ) (h' : FreeList) : Type 0 where
  pub target : link h' prev ≡ n
  pub size_same : (a : ℕ) → h'.size a ≡ h.size a
  pub next_same : (a : ℕ) → a ≢ prev ⊎ (prev ≡ 0) → h'.next a ≡ h.next a
  pub head_same : prev ≢ 0 → h'.head ≡ h.head

pub set_link-IsLinked : (h : FreeList) (prev n : ℕ) → IsLinked h prev n (set_link h prev n)
unfolding set_link set_next
set_link-IsLinked h zero n = record {
  target = refl;
  size_same = λ a. refl;
  next_same = λ a ne. refl;
  head_same = λ ne. absurd (ne refl);
}
set_link-IsLinked h (suc p) n = rw (set_link-suc h p n) (record {
  target = update_self h.next (suc p) n;
  size_same = λ a. refl;
  next_same = λ a ne. ground arith;
  head_same = λ ne. refl;
})

-- Two states that agree in the fields below `lo`, and in the head.
pub record Agrees (lo : ℕ) (h h' : FreeList) : Type 0 where
  pub size : (a : ℕ) → a < lo → h'.size a ≡ h.size a
  pub next : (a : ℕ) → a < lo → h'.next a ≡ h.next a
  pub head : h'.head ≡ h.head

pub link-Agrees :
    (h h' : FreeList) (prev lo : ℕ)
    → (prev ≡ 0) ⊎ (prev < lo)
    → Agrees lo h h'
    → link h' prev ≡ link h prev
link-Agrees h h' zero lo below a = a.head
link-Agrees h h' (suc p) lo below a = a.next (suc p) (omega (arith, below))

-- The link set between two groups of writes above `lo`.
pub linked-Placed :
    (h g l h' : FreeList) (prev lo n : ℕ) (bs : List (ℕ × ℕ))
    → (prev ≡ 0) ⊎ (prev < lo)
    → Agrees lo h g
    → IsLinked g prev n l
    → Agrees lo l h'
    → IsChain h'.size h'.next lo n bs
    → Placed h prev lo bs h'
linked-Placed h g l h' prev lo n bs below before linked after c = record {
  chain = rw (link-Agrees l h' prev lo below after ∙ linked.target) c;
  size_kept = λ a q. after.size a q ∙ linked.size_same a ∙ before.size a q;
  next_kept = λ a q ne. after.next a q ∙ linked.next_same a (inl ne) ∙ before.next a q;
  head_kept = λ ne. after.head ∙ linked.head_same ne ∙ before.head;
}

-- `absorb_next` on a node that grew to size `t`, with the rest of the chain behind it.
pub absorb_next-Agrees :
    (lo : ℕ) (h : FreeList) (x y : ℕ) → lo < x → Agrees lo h (absorb_next h x y)
unfolding absorb_next set_size set_next
absorb_next-Agrees lo h x y above = record {
  size = λ a q. ground arith;
  next = λ a q. ground arith;
  head = ground arith;
}

pub block_end-eq :
    (h : FreeList) (x t : ℕ) → h.size x ≡ t → x + 16 + t < two_64 → block_end h x ≡ x + 16 + t
block_end-eq h x t sz small = omega (arith, sz)

-- The node's own fields after `absorb_next`, in its two cases.
pub absorb_next-apart : (h : FreeList) (x y : ℕ) → y ≢ block_end h x → absorb_next h x y ≡ h
unfolding absorb_next
absorb_next-apart h x y ne =
    let apart : (y == block_end h x) ≡ false = ground (arith, ne) in rw apart refl

absorb_next-touching :
    (h : FreeList) (x y : ℕ)
    → y ≡ block_end h x
    → absorb_next h x y
      ≡ set_next (set_size h x (add_64 (h.size x) (add_64 sizeof_node (h.size y)))) x (h.next y)
unfolding absorb_next
absorb_next-touching h x y e =
    let touch : (y == block_end h x) ≡ true = ground (arith, e) in rw touch refl

pub absorb_next-IsChain :
    (lo : ℕ) (h : FreeList) (x t : ℕ) (bs : List (ℕ × ℕ))
    → lo < x
    → h.size x ≡ t
    → x + 16 + t < two_64
    → IsChain h.size h.next (x + 15 + t) (h.next x) bs
    → let h' = absorb_next h x (h.next x) in IsChain h'.size h'.next lo x (join x t bs)
unfolding set_size set_next join IsChain
absorb_next-IsChain lo h x t [] above sz small c =
    rw (absorb_next-apart h x (h.next x) (omega (arith, c, block_end-eq h x t sz small)))
      (refl, above, sz, small, c)
absorb_next-IsChain lo h x t ((y, u) ∷ bs) above sz small (at, behind, sz_y, small_y, rest) =
    let end = block_end-eq h x t sz small in
    elim (Bool-cases (x + 16 + t == y)) [
      | inl e ↦
          let here = (==_iff (x + 16 + t) y).0 e in
          let grown : update h.size x (add_64 (h.size x) (add_64 sizeof_node (h.size (h.next x)))) x
              ≡ t + 16 + u =
            rw (update_self h.size x, ap h.size at) (omega (arith, sz, sz_y, here, small_y)) in
          let onwards : update h.next x (h.next (h.next x)) x ≡ h.next y =
            rw (update_self h.next x) (ap h.next at) in
          let far : x + 16 + (t + 16 + u) ≡ y + 16 + u = omega (arith, here) in
          rw e (
            subst (λ g. IsChain g.size g.next lo x ((x, t + 16 + u) ∷ bs))
              (sym (absorb_next-touching h x (h.next x) (at ∙ sym here ∙ sym end)))
              (
                refl,
                above,
                grown,
                omega (arith, here, small_y),
                rw (far, onwards)
                    (IsChain-frame (y + 16 + u) _ bs (λ q lt. ground arith) (λ q lt. ground arith)
                      rest),
              ))
      | inr e ↦
          let there : x + 16 + t < y = ground (arith, behind) in
          rw e (
            subst (λ g. IsChain g.size g.next lo x ((x, t) ∷ (y, u) ∷ bs))
              (sym (absorb_next-apart h x (h.next x) (omega (arith, at, there, end))))
              (refl, above, sz, small, (at, there, sz_y, small_y, rest)))
    ]
