-- ===== src/Pmm/Tests.antt =====
-- Runs of the physical memory manager, and its theorems at concrete memories.
use dim_os.Common.{ℕ, zero, suc, ◌≤◌, ◌≡◌, refl, arith, some, ◌==◌, if◌then◌else◌}
use dim_os.Pmm.{
  MemRange, PhysicalMemMap, Pmm, bitmap_is_set, alloc_frame, alloc_n_frames, free_frame,
  first_free_frame, first_n_free_frames, free_word, free_bit, slide, window_start, take_frames,
  init,
}
use dim_os.Pmm.Valid.{IsValid}
use dim_os.Pmm.Runs.{FreeRun}
use dim_os.Pmm.Alloc.{IsAlloc, alloc_frame_some, IsFreed, free_frame-IsFreed, free-alloc}
use dim_os.Pmm.AllocRun.{IsAllocRun, alloc_n_frames_some}
use dim_os.Pmm.Init.{IsUsable, IsInit, init-IsInit}

-- 64 frames of which 0, 1 and 3 are in use.
abbrev three_used : Pmm
three_used = record {
  memory_size = 262144;
  usedframes = 3;
  frame_cnt = 64;
  bitmap_addr = 4096;
  bitmap = λ i. if i == 0 then 0b1011 else 0;
}

three_used-IsValid : IsValid three_used
unfolding bitmap_is_set
three_used-IsValid = omega arith

allocates_two : (alloc_frame three_used).0 ≡ 8192
unfolding alloc_frame first_free_frame free_word free_bit
allocates_two = refl

allocates_run : (alloc_n_frames 1 three_used).0 ≡ 8192
unfolding alloc_n_frames first_n_free_frames slide window_start bitmap_is_set take_frames
allocates_run = refl

-- More than `elementCnt` frames at once are refused, though 60 frames in a row are free.
refuses_two : (alloc_n_frames 2 three_used).0 ≡ 0
unfolding alloc_n_frames first_n_free_frames
refuses_two = refl

alloc_frame_some_example : (f : ℕ) × IsAlloc three_used f (alloc_frame three_used)
alloc_frame_some_example = alloc_frame_some three_used three_used-IsValid (omega arith)

frame_two_free : FreeRun three_used.bitmap 2 1
unfolding bitmap_is_set
frame_two_free zero h = refl
frame_two_free (suc g) h = absurd (omega arith)

alloc_n_frames_some_example :
    (f : ℕ) × (f ≤ 2) × IsAllocRun three_used 1 f (alloc_n_frames 1 three_used)
alloc_n_frames_some_example =
    alloc_n_frames_some three_used 1 2 three_used-IsValid refl (omega arith) (omega arith)
      (omega arith) frame_two_free

abbrev all_used : Pmm
all_used = record {
  memory_size = 262144;
  usedframes = 64;
  frame_cnt = 64;
  bitmap_addr = 4096;
  bitmap = λ i. 0xffffffffffffffff;
}

all_used-IsValid : IsValid all_used
unfolding bitmap_is_set
all_used-IsValid = omega arith

free_frame-IsFreed_example : IsFreed three_used 3 (free_frame 12300 three_used)
free_frame-IsFreed_example = free_frame-IsFreed three_used 12300 three_used-IsValid (omega arith)

-- 64 frames, of which the map offers 8 to 15 and 32 to 63.
abbrev two_ranges : PhysicalMemMap
two_ranges = record {
  total_size = 262144;
  available = λ k.
      if k == 0
      then record { start = 32768; size = 32768 }
      else record { start = 131072; size = 131072 };
  avail_cnt = 2;
}

two_ranges-IsUsable : IsUsable 0xffff800000000000 two_ranges
two_ranges-IsUsable = record {
  small = omega arith;
  whole = refl;
  nonempty = omega arith;
  two = omega arith;
  aligned = λ k h. record { start_page = ground arith; inside = ground arith };
  mapped = λ k h. ground arith;
  room = (0, omega arith, omega arith);
}

init-IsInit_example :
    (r : MemRange) × (q : Pmm) × (init (λ addr i. 0) 0xffff800000000000 two_ranges ≡ some (r, q))
    × IsInit two_ranges r q
init-IsInit_example = init-IsInit (λ addr i. 0) 0xffff800000000000 two_ranges two_ranges-IsUsable

free-alloc_example :
    let (addr, q) = alloc_frame three_used in
    ((g : ℕ) → bitmap_is_set (free_frame addr q).bitmap g ≡ bitmap_is_set three_used.bitmap g)
    × ((free_frame addr q).usedframes ≡ 3)
free-alloc_example = free-alloc three_used three_used-IsValid (omega arith)
