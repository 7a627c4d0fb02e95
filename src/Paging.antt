-- ===== src/Paging.antt =====
-- kernel/include/kernel/memory/vmm.h: virtual addresses and the four indices of the page tables.
pub mod Index
pub mod Entry
mod Tests
use dim_os.Common.{ℕ, ◌+◌, ◌*◌, ◌/◌, ◌%◌, ◌^◌, leb, if◌then◌else◌, bit_or, two_64}

-- `IndexOffset`; `i[0]` is the index of the topmost table.
pub record IndexOffset : Type 0 where
  pub i0 : ℕ
  pub i1 : ℕ
  pub i2 : ℕ
  pub i3 : ℕ

-- `Paging::entryCnt`
abbrev pub entry_cnt : ℕ
entry_cnt = 512

-- `getVirtualAddr`; a shift to the left is a product, cut off at 64 bits.
pub get_virtual_addr : IndexOffset → ℕ
get_virtual_addr o =
    let ans =
      bit_or
        (bit_or (bit_or (o.i0 * 2 ^ 39 % two_64) (o.i1 * 2 ^ 30 % two_64)) (o.i2 * 2 ^ 21 % two_64))
        (o.i3 * 2 ^ 12 % two_64) in
    if leb 0x800000000000 ans then bit_or ans 0xffff000000000000 else ans

-- `getIndexOffset`, with `getI0` to `getI3`: nine bits each, as the remainder of a quotient.
pub get_index_offset : ℕ → IndexOffset
get_index_offset x = record {
  i0 = x / 2 ^ 39 % 512;
  i1 = x / 2 ^ 30 % 512;
  i2 = x / 2 ^ 21 % 512;
  i3 = x / 2 ^ 12 % 512;
}

-- One round of the loop in `nextPage`: the index with the carry added, and the carry that goes on.
pub bump : ℕ → ℕ → ℕ × ℕ
bump i carry = if leb entry_cnt (i + carry) then (0, 1) else (i + carry, 0)

pub next_page : IndexOffset → IndexOffset
next_page o =
    let (i3, c3) = bump o.i3 1 in
    let (i2, c2) = bump o.i2 c3 in
    let (i1, c1) = bump o.i1 c2 in
    let (i0, c0) = bump o.i0 c1 in record { i0 = i0; i1 = i1; i2 = i2; i3 = i3 }
