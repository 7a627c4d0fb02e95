-- ===== src/Pmm/Valid.antt =====
-- The invariant of the physical memory manager, and the single frame taken or given back.
use dim_os.Common.{ℕ, ◌^◌, ◌<◌, ◌≡◌, true, false, arith, add_64, sub_64}
use dim_os.Pmm.{Pmm, bitmap_is_set, bitmap_set, bitmap_unset}
use dim_os.Pmm.Bitmap.{used, used-set, used-unset, used-le, used_pos}

-- `usedframes` counts the set bits below `frameCnt`, and the memory has less than 2 ^ 63 bytes.
pub record IsValid (p : Pmm) : Type 0 where
  pub counted : p.usedframes ≡ used p.bitmap p.frame_cnt
  pub small : p.frame_cnt < 2 ^ 51

-- Taking a free frame keeps the invariant.
pub take-IsValid :
    (p : Pmm) (f : ℕ)
    → IsValid p
    → f < p.frame_cnt
    → bitmap_is_set p.bitmap f ≡ false
    → IsValid (record p { bitmap = bitmap_set p.bitmap f; usedframes = add_64 p.usedframes 1 })
take-IsValid p f v h e =
    ground (arith, used-set p.bitmap f p.frame_cnt, used-le p.bitmap p.frame_cnt)

-- Giving back a frame in use keeps it.
pub give-IsValid :
    (p : Pmm) (f : ℕ)
    → IsValid p
    → f < p.frame_cnt
    → bitmap_is_set p.bitmap f ≡ true
    → IsValid (record p { bitmap = bitmap_unset p.bitmap f; usedframes = sub_64 p.usedframes 1 })
give-IsValid p f v h e = ground (
  arith,
  used-unset p.bitmap f p.frame_cnt,
  used-le p.bitmap p.frame_cnt,
  used_pos p.bitmap f p.frame_cnt,
)
