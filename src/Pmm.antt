-- ===== src/Pmm.antt =====
-- kernel/kernel/memory/pmm.cpp and kernel/include/kernel/memory/pmm.h: the physical memory manager,
-- a bitmap with one bit for each frame of 4096 bytes and a count of the used frames.
pub mod Bitmap
pub mod Valid
pub mod FirstFree
pub mod Runs
pub mod Regions
pub mod Alloc
pub mod AllocRun
pub mod Ranges
pub mod Init
mod Tests
use dim_os.Common.{
  ℕ, zero, suc, ◌+◌, ◌-◌, ◌*◌, ◌/◌, ◌%◌, ◌^◌, bit_and, bit_or, Bool, true, false, not, Option, none,
  some, ltb, ◌==◌, if◌then◌else◌, two_64, two_63, add_64, sub_64, slt_64, update,
}

abbrev pub frames_per_element : ℕ
frames_per_element = 64

abbrev pub element_size : ℕ
element_size = 8

abbrev pub frame_size : ℕ
frame_size = 4096

-- `MemRange`
pub record MemRange : Type 0 where
  pub start : ℕ
  pub size : ℕ

-- `PhysicalMemMap`, as far as the manager reads it. `available` is the array behind a pointer.
pub record PhysicalMemMap : Type 0 where
  pub total_size : ℕ
  pub available : ℕ → MemRange
  pub avail_cnt : ℕ

-- The memory behind `bitmap`, by the index of the 64-bit word.
abbrev pub Bitmap : Type 0
Bitmap = ℕ → ℕ

-- `PMM`. `usedframes` is an `int64_t`, kept as its bit pattern. `bitmap_addr` is 0 for `nullptr`.
pub record Pmm : Type 0 where
  pub memory_size : ℕ
  pub usedframes : ℕ
  pub frame_cnt : ℕ
  pub bitmap_addr : ℕ
  pub bitmap : Bitmap

pub bitmap_set : Bitmap → ℕ → Bitmap
bitmap_set w b =
    update w (b / frames_per_element)
      (bit_or (w (b / frames_per_element)) (2 ^ (b % frames_per_element)))

pub bitmap_unset : Bitmap → ℕ → Bitmap
bitmap_unset w b =
    update w (b / frames_per_element)
      (bit_and (w (b / frames_per_element)) (two_64 - 1 - 2 ^ (b % frames_per_element)))

unfoldable pub bitmap_is_set : Bitmap → ℕ → Bool
bitmap_is_set w b = not (bit_and (w (b / frames_per_element)) (2 ^ (b % frames_per_element)) == 0)

-- `elementCnt`, for a count of frames that is far from the end of `int64_t`.
abbrev pub element_cnt : ℕ → ℕ
element_cnt frame_cnt = (frame_cnt + frames_per_element - 1) / frames_per_element

-- `frameSt` of `initRegion` and `deinitRegion`, in the wrapping arithmetic of `uint64_t`.
abbrev pub region_first : ℕ → ℕ
region_first start = add_64 start (frame_size - 1) / frame_size

-- `cnt`. `remSize` is read as signed; if it is negative then so is `cnt`, or 0: no round is made.
abbrev pub region_count : ℕ → ℕ → ℕ
region_count start size =
    let rem = sub_64 size (sub_64 (region_first start * frame_size % two_64) start) in
    if ltb rem two_63 then (rem + frame_size - 1) / frame_size else 0

-- The loop of `initRegion`, by the rounds left.
pub init_loop : ℕ → ℕ → Pmm → Pmm
init_loop zero frame p = p
init_loop (suc cnt) frame p = init_loop cnt (frame + 1) (record p {
  bitmap = bitmap_unset p.bitmap frame;
  usedframes = if bitmap_is_set p.bitmap frame then sub_64 p.usedframes 1 else p.usedframes;
})

pub init_region : ℕ → ℕ → Pmm → Pmm
init_region start size = init_loop (region_count start size) (region_first start)

-- The loop of `deinitRegion`.
pub deinit_loop : ℕ → ℕ → Pmm → Pmm
deinit_loop zero frame p = p
deinit_loop (suc cnt) frame p = deinit_loop cnt (frame + 1) (record p {
  bitmap = bitmap_set p.bitmap frame;
  usedframes = if bitmap_is_set p.bitmap frame then p.usedframes else add_64 p.usedframes 1;
})

pub deinit_region : ℕ → ℕ → Pmm → Pmm
deinit_region start size = deinit_loop (region_count start size) (region_first start)

-- The inner loop of `firstFreeFrame`: `rounds` bits of one word, from bit `j` on.
pub free_bit : ℕ → ℕ → ℕ → Option ℕ
free_bit word zero j = none
free_bit word (suc rounds) j =
    let rest = free_bit word rounds (j + 1) in if bit_and word (2 ^ j) == 0 then some j else rest

-- The outer loop; `none` stands for -1.
pub free_word : Bitmap → ℕ → ℕ → Option ℕ
free_word w zero i = none
free_word w (suc rounds) i =
    let rest = free_word w rounds (i + 1) in
    if w i == two_64 - 1 then rest else elim (free_bit (w i) frames_per_element 0) [
      | some j ↦ some (i * frames_per_element + j)
      | none ↦ rest
    ]

pub first_free_frame : Pmm → Option ℕ
first_free_frame p = free_word p.bitmap (element_cnt p.frame_cnt) 0

-- `!bitmapIsSet(bit)` as a number.
abbrev pub unset_bit : Bitmap → ℕ → ℕ
unset_bit w b = if bitmap_is_set w b then 0 else 1

-- The first loop of `firstNFreeFrames`.
pub window_start : Bitmap → ℕ → ℕ → ℕ → ℕ
window_start w zero i free = free
window_start w (suc rounds) i free = window_start w rounds (i + 1) (free + unset_bit w i)

-- The second loop, with the test behind it. `free` counts a window, and does not fall below 0.
pub slide : Bitmap → ℕ → ℕ → ℕ → ℕ → Option ℕ
slide w n zero i free = if free == n then some (i - n) else none
slide w n (suc rounds) i free =
    let rest = slide w n rounds (i + 1) (free + unset_bit w i - unset_bit w (i - n)) in
    if free == n then some (i - n) else rest

pub first_n_free_frames : ℕ → Pmm → Option ℕ
first_n_free_frames n p =
    if ltb (element_cnt p.frame_cnt) n
    then none
    else slide p.bitmap n (element_cnt p.frame_cnt * frames_per_element - n) n
        (window_start p.bitmap n 0 0)

-- The address returned is 0 where no frame is given.
pub alloc_frame : Pmm → ℕ × Pmm
alloc_frame p = if p.usedframes == p.frame_cnt then (0, p) else elim (first_free_frame p) [
  | none ↦ (0, p)
  | some frame ↦ (
    frame * frame_size % two_64,
    record p { bitmap = bitmap_set p.bitmap frame; usedframes = add_64 p.usedframes 1 },
  )
]

-- The loop of `allocNFrames`.
pub take_frames : ℕ → ℕ → Pmm → Pmm
take_frames zero frame p = p
take_frames (suc rounds) frame p =
    take_frames rounds (frame + 1)
      (record p { bitmap = bitmap_set p.bitmap frame; usedframes = add_64 p.usedframes 1 })

pub alloc_n_frames : ℕ → Pmm → ℕ × Pmm
alloc_n_frames n p =
    if slt_64 (add_64 p.usedframes n) p.frame_cnt
    then elim (first_n_free_frames n p) [
      | none ↦ (0, p)
      | some frame ↦ (frame * frame_size % two_64, take_frames n frame p)
    ]
    else (0, p)

pub free_frame : ℕ → Pmm → Pmm
free_frame addr p =
    if bitmap_is_set p.bitmap (addr / frame_size)
    then record p {
      bitmap = bitmap_unset p.bitmap (addr / frame_size);
      usedframes = sub_64 p.usedframes 1;
    }
    else p

-- The loop of `init` over the available ranges.
pub init_ranges : (ℕ → MemRange) → ℕ → ℕ → Pmm → Pmm
init_ranges ranges zero i p = p
init_ranges ranges (suc rounds) i p =
    init_ranges ranges rounds (i + 1) (init_region (ranges i).start (ranges i).size p)

-- The loop of `init` that looks for room for the bitmap: the first two ranges, however many there are.
pub bitmap_range : PhysicalMemMap → ℕ → ℕ → ℕ → Option MemRange
bitmap_range mem req zero i = none
bitmap_range mem req (suc rounds) i =
    let rest = bitmap_range mem req rounds (i + 1) in
    if ltb (mem.available i).size req
    then rest
    else some (record { start = (mem.available i).start; size = req })

-- The part of `init` behind the search for room: everything in use, then the ranges freed, then the
-- bitmap's own memory and frame 0 taken back.
pub init_with : Bitmap → ℕ → PhysicalMemMap → MemRange → Pmm
init_with bitmap addr mem range =
    let blank : Pmm = record {
      memory_size = mem.total_size;
      usedframes = 0;
      frame_cnt = mem.total_size / frame_size;
      bitmap_addr = addr;
      bitmap = bitmap;
    } in
    let full = deinit_region 0 mem.total_size blank in
    let opened =
      init_ranges mem.available mem.avail_cnt 0 (record full { usedframes = full.frame_cnt }) in
    deinit_region 0 frame_size (deinit_region range.start range.size opened)

-- `init`. `ram addr` is the content of the memory from the virtual address `addr` on, and `none` is
-- the panic: no room for the bitmap, or room at an address that is null.
pub init : (ℕ → ℕ → ℕ) → ℕ → PhysicalMemMap → Option (MemRange × Pmm)
init ram hhdm_offset mem =
    elim (bitmap_range mem (element_cnt (mem.total_size / frame_size) * element_size) 2 0) [
      | none ↦ none
      | some range ↦
          let addr = add_64 range.start hhdm_offset in
          if addr == 0 then none else some (range, init_with (ram addr) addr mem range)
    ]
