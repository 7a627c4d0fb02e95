-- ===== src/Pmm/Init.antt =====
-- `PMM::init`.
use dim_os.Common.{
  ℕ, ◌*◌, ◌/◌, ◌%◌, ◌^◌, ◌≤◌, ◌<◌, ◌≡◌, true, false, not, ◌==◌, if◌then◌else◌, arith, some,
  Option-cases, inl, inr, add_64, sym, ◌∙◌,
}
use dim_os.Pmm.{
  MemRange, PhysicalMemMap, Pmm, bitmap_is_set, deinit_loop, deinit_region, bitmap_range, init_with,
  init, element_cnt, region_count,
}
use dim_os.Pmm.Ranges.{
  pages, IsAligned, covered, deinit_loop-Writes, deinit_loop-frame_cnt, deinit_range-IsRegion,
  init_ranges-IsOpened, bitmap_range_lem, bitmap_range-none, cut-IsAligned,
}
use dim_os.Pmm.Valid.{IsValid}
use dim_os.Pmm.Bitmap.{used-eq}
use dim_os.Pmm.Regions.{within, deinit_region-IsRegion, region_aligned}

-- What `init` leaves: a valid manager of `totalSize / frameSize` frames, in which a frame is in use
-- unless an available range covers it, it does not hold the bitmap, and it is not frame 0.
pub record IsInit (mem : PhysicalMemMap) (r : MemRange) (q : Pmm) : Type 0 where
  pub valid : IsValid q
  pub frames : q.frame_cnt ≡ mem.total_size / 4096
  pub room : r.size ≡ element_cnt (mem.total_size / 4096) * 8
  pub bits :
      (g : ℕ)
      → g < q.frame_cnt
      → bitmap_is_set q.bitmap g ≡ (
          if g == 0
          then true
          else if within (r.start / 4096) (pages r.size) g
          then true
          else not (covered mem.available mem.avail_cnt 0 g))

deinit_whole :
    (p : Pmm) (size : ℕ)
    → size % 4096 ≡ 0
    → size < 2 ^ 63
    → deinit_region 0 size p ≡ deinit_loop (size / 4096) 0 p
unfolding deinit_region
deinit_whole p size whole small =
    let cnt : region_count 0 size ≡ size / 4096 =
      (region_aligned 0 size (omega arith)).1 ∙ omega arith in
    rw cnt

-- With the whole memory marked and counted, the manager is valid.
full-IsValid :
    (p q : Pmm)
    → p.frame_cnt < 2 ^ 51
    → q ≡ deinit_loop p.frame_cnt 0 p
    → (q.frame_cnt ≡ p.frame_cnt)
      × IsValid (record q { usedframes = q.frame_cnt })
      × ((g : ℕ) → g < p.frame_cnt → bitmap_is_set q.bitmap g ≡ true)
full-IsValid p q small e = (cnt, valid, all)
  where
    cnt : q.frame_cnt ≡ p.frame_cnt
    cnt = rw e (deinit_loop-frame_cnt p.frame_cnt 0 p)

    all : (g : ℕ) → g < p.frame_cnt → bitmap_is_set q.bitmap g ≡ true
    all g h = rw e (ground (arith, deinit_loop-Writes p.frame_cnt 0 p g))

    valid : IsValid (record q { usedframes = q.frame_cnt })
    valid = record {
      counted = sym (used-eq q.bitmap q.frame_cnt (λ g h. all g (rw cnt at h)));
      small = rw cnt small;
    }

init_with-IsInit :
    (bitmap : ℕ → ℕ) (addr : ℕ) (mem : PhysicalMemMap) (r : MemRange)
    → mem.total_size < 2 ^ 63
    → mem.total_size % 4096 ≡ 0
    → 0 < mem.total_size
    → r.size ≡ element_cnt (mem.total_size / 4096) * 8
    → IsAligned (mem.total_size / 4096) r
    → ((k : ℕ) → k < mem.avail_cnt → IsAligned (mem.total_size / 4096) (mem.available k))
    → IsInit mem r (init_with bitmap addr mem r)
unfolding init_with
init_with-IsInit bitmap addr mem r small whole some_mem size al_r al =
    let blank : Pmm = record {
      memory_size = mem.total_size;
      usedframes = 0;
      frame_cnt = mem.total_size / 4096;
      bitmap_addr = addr;
      bitmap = bitmap;
    } in
    let full : Pmm = deinit_region 0 mem.total_size blank in
    let (cnt, valid, all) =
      full-IsValid blank full (omega arith) (deinit_whole blank mem.total_size whole small) in
    let opened =
      init_ranges-IsOpened mem.available mem.avail_cnt 0
        (record full { usedframes = full.frame_cnt }) valid (λ k h. rw cnt (al k (omega arith))) in
    let cnt_opened = opened.same_cnt ∙ cnt in
    let back = deinit_range-IsRegion _ r opened.valid (rw cnt_opened al_r) in
    let cnt_back = back.same_cnt ∙ cnt_opened in
    let zero_frame = deinit_region-IsRegion 0 4096 _ back.valid (rw cnt_back (omega arith)) in
    record {
      valid = zero_frame.valid;
      frames = zero_frame.same_cnt ∙ cnt_back;
      room = size;
      bits = λ g h. ground (
        arith,
        zero_frame.writes g,
        back.writes g,
        opened.bits g,
        all g (rw (zero_frame.same_cnt ∙ cnt_back) at h),
      );
    }

-- A memory map that `init` can work with: page-aligned ranges inside the memory, at least the two
-- that the search looks at, one of these with room for the bitmap, and a mapping of physical memory
-- that takes neither of the two to address 0.
pub record IsUsable (hhdm : ℕ) (mem : PhysicalMemMap) : Type 0 where
  pub small : mem.total_size < 2 ^ 63
  pub whole : mem.total_size % 4096 ≡ 0
  pub nonempty : 0 < mem.total_size
  pub two : 2 ≤ mem.avail_cnt
  pub aligned : (k : ℕ) → k < mem.avail_cnt → IsAligned (mem.total_size / 4096) (mem.available k)
  pub mapped : (k : ℕ) → k < 2 → 0 < add_64 (mem.available k).start hhdm
  pub room : (k : ℕ) × (k < 2) × (element_cnt (mem.total_size / 4096) * 8 ≤ (mem.available k).size)

-- With a usable memory map `init` does not panic, and the manager that it builds is valid and has a
-- frame in use unless an available range covers it, it does not hold the bitmap, and it is not
-- frame 0. This holds whatever the memory of the bitmap held before.
pub init-IsInit :
    (ram : ℕ → ℕ → ℕ) (hhdm : ℕ) (mem : PhysicalMemMap)
    → IsUsable hhdm mem
    → (r : MemRange) × (q : Pmm) × (init ram hhdm mem ≡ some (r, q)) × IsInit mem r q
unfolding init
init-IsInit ram hhdm mem u =
    let req : ℕ = element_cnt (mem.total_size / 4096) * 8 in
    elim (Option-cases (bitmap_range mem req 2 0)) [
      | inl no_room ↦
          let (k, lt, le) = u.room in
          absurd
            (omega (arith, le, bitmap_range-none mem req 2 0 no_room k (omega arith) (omega arith)))
      | inr (range, found) ↦
          let (k, lt, start, size, le) = bitmap_range_lem mem req 2 0 range found in
          let al =
            cut-IsAligned _ range (mem.available k) (u.aligned k (omega (arith, u.two))) start
              (omega arith) in
          let addr : ℕ = add_64 range.start hhdm in
          let fine : (addr == 0) ≡ false = rw start (ground (arith, u.mapped k lt)) in
          (
            range,
            init_with (ram addr) addr mem range,
            rw (init, found, fine),
            init_with-IsInit (ram addr) addr mem range u.small u.whole u.nonempty size al u.aligned,
          )
    ]
