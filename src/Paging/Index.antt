-- ===== src/Paging/Index.antt =====
-- Indices and addresses stand for each other, and `nextPage` goes on by one page.
use dim_os.Common.{
  ℕ, ◌+◌, ◌*◌, ◌/◌, ◌%◌, ◌^◌, ◌<◌, ◌≡◌, refl, leb, if◌then◌else◌, bit_or, two_64, arith, Bool-cases,
  inl, inr,
}
use dim_os.Common.Bits.Disjoint.{bit_or_sum}
use dim_os.Paging.{IndexOffset, entry_cnt, get_virtual_addr, get_index_offset, bump, next_page}

-- Each index selects an entry of its table.
pub record IsValid (o : IndexOffset) : Type 0 where
  pub h0 : o.i0 < 512
  pub h1 : o.i1 < 512
  pub h2 : o.i2 < 512
  pub h3 : o.i3 < 512

-- The number of the page that the indices select, and the address with the sign bits of 48.
abbrev pub page_number : IndexOffset → ℕ
page_number o = o.i0 * 2 ^ 27 + o.i1 * 2 ^ 18 + o.i2 * 2 ^ 9 + o.i3

abbrev pub canonical : ℕ → ℕ
canonical x = if leb (2 ^ 47) x then x + 65535 * 2 ^ 48 else x

-- For valid indices, `getVirtualAddr` is the number of their page, nine bits for each index, times 4096,
-- with the upper sixteen bits set exactly if bit 47 is.
pub get_virtual_addr_lem :
    (o : IndexOffset) → IsValid o → get_virtual_addr o ≡ canonical (page_number o * 4096)
unfolding get_virtual_addr
get_virtual_addr_lem o v =
    let s0 : o.i0 * 2 ^ 39 % two_64 ≡ o.i0 * 2 ^ 39 = omega (arith, v.h0) in
    let s1 : o.i1 * 2 ^ 30 % two_64 ≡ o.i1 * 2 ^ 30 = omega (arith, v.h1) in
    let s2 : o.i2 * 2 ^ 21 % two_64 ≡ o.i2 * 2 ^ 21 = omega (arith, v.h2) in
    let s3 : o.i3 * 2 ^ 12 % two_64 ≡ o.i3 * 2 ^ 12 = omega (arith, v.h3) in
    let a1 : bit_or (o.i0 * 2 ^ 39) (o.i1 * 2 ^ 30) ≡ (o.i0 * 2 ^ 9 + o.i1) * 2 ^ 30 =
      omega (arith, (bit_or_sum 9 39 o.i0 (o.i1 * 2 ^ 30) v.h0 (omega (arith, v.h1))).0) in
    let a2 : bit_or ((o.i0 * 2 ^ 9 + o.i1) * 2 ^ 30) (o.i2 * 2 ^ 21)
        ≡ ((o.i0 * 2 ^ 9 + o.i1) * 2 ^ 9 + o.i2) * 2 ^ 21 =
      omega (
        arith,
        (bit_or_sum 18 30 (o.i0 * 2 ^ 9 + o.i1) (o.i2 * 2 ^ 21) (omega (arith, v.h0, v.h1))
            (omega (arith, v.h2))).0,
      ) in
    let a3 : bit_or (((o.i0 * 2 ^ 9 + o.i1) * 2 ^ 9 + o.i2) * 2 ^ 21) (o.i3 * 2 ^ 12)
        ≡ page_number o * 4096 =
      omega (
        arith,
        (bit_or_sum 27 21 ((o.i0 * 2 ^ 9 + o.i1) * 2 ^ 9 + o.i2) (o.i3 * 2 ^ 12)
            (omega (arith, v.h0, v.h1, v.h2)) (omega (arith, v.h3))).0,
      ) in
    let below : page_number o * 4096 < 2 ^ 48 = omega (arith, v.h0, v.h1, v.h2, v.h3) in
    let signed : bit_or (page_number o * 4096) 0xffff000000000000
        ≡ 65535 * 2 ^ 48 + page_number o * 4096 =
      (bit_or_sum 16 48 65535 (page_number o * 4096) (omega arith) below).1 in
    rw (s0, s1, s2, s3, a1, a2, a3)
      (elim (Bool-cases (leb (2 ^ 47) (page_number o * 4096))) [
        | inl e ↦ rw e (omega (arith, signed))
        | inr e ↦ rw e refl
      ])

-- The indices of the address that `getVirtualAddr` makes of valid indices are these indices.
pub get_index_offset-get_virtual_addr :
    (o : IndexOffset) → IsValid o → get_index_offset (get_virtual_addr o) ≡ o
unfolding get_index_offset
get_index_offset-get_virtual_addr o v =
    let x = canonical (page_number o * 4096) in
    let p0 : x / 2 ^ 39 % 512 ≡ o.i0 = ground (arith, v.h0, v.h1, v.h2, v.h3) in
    let p1 : x / 2 ^ 30 % 512 ≡ o.i1 = ground (arith, v.h0, v.h1, v.h2, v.h3) in
    let p2 : x / 2 ^ 21 % 512 ≡ o.i2 = ground (arith, v.h0, v.h1, v.h2, v.h3) in
    let p3 : x / 2 ^ 12 % 512 ≡ o.i3 = ground (arith, v.h0, v.h1, v.h2, v.h3) in
    rw (get_virtual_addr_lem o v, p0, p1, p2, p3) refl

-- The loop of `nextPage` on one index: the digit and the carry.
bump_lem :
    (i c : ℕ)
    → i < 512
    → c < 2
    → ((bump i c).0 < 512) × ((bump i c).1 < 2) × ((bump i c).0 + 512 * (bump i c).1 ≡ i + c)
unfolding bump
bump_lem i c h hc = elim (Bool-cases (leb entry_cnt (i + c))) [
  | inl e ↦ rw e (omega arith, omega arith, ground (arith, e))
  | inr e ↦ rw e (ground (arith, e), omega arith, omega arith)
]

-- `nextPage` on valid indices gives valid indices, of the page behind, and of page 0 behind the last.
pub next_page_lem :
    (o : IndexOffset)
    → IsValid o
    → IsValid (next_page o) × (page_number (next_page o) ≡ (page_number o + 1) % 2 ^ 36)
unfolding next_page
next_page_lem o v =
    let (d3, c3, e3) = bump_lem o.i3 1 v.h3 (omega arith) in
    let (d2, c2, e2) = bump_lem o.i2 (bump o.i3 1).1 v.h2 c3 in
    let (d1, c1, e1) = bump_lem o.i1 (bump o.i2 (bump o.i3 1).1).1 v.h1 c2 in
    let (d0, c0, e0) = bump_lem o.i0 (bump o.i1 (bump o.i2 (bump o.i3 1).1).1).1 v.h0 c1 in
    (
      record { h0 = d0; h1 = d1; h2 = d2; h3 = d3 },
      omega (arith, d0, c0, e0, d1, c1, e1, d2, c2, e2, d3, c3, e3),
    )
