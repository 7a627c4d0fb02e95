-- ===== src/Vmm/Setup.antt =====
-- kernel/kernel/memory/vmm.cpp: `VMM::init`.
use dim_os.Common.{
  ℕ, zero, suc, ◌+◌, Bool, true, false, ltb, leb, if◌then◌else◌, Option, none, some, add_64, sub_64,
  update, ◌>>=◌,
}
use dim_os.Pmm.{MemRange, PhysicalMemMap, alloc_n_frames}
use dim_os.Paging.{IndexOffset, get_index_offset}
use dim_os.Paging.Entry.{table_init}
use dim_os.Vmm.{Vmm, AllocScheme, first_page, first_offset}
use dim_os.Vmm.Pages.{min_available_pages, higher_offset, switch_pml4, assign_page, unalloc_pages}

-- `getFirstUnallocPage` with `USE_PMM`.
abbrev search : ℕ → IndexOffset → Vmm → Option (IndexOffset × Vmm)
search hhdm begin s = first_page hhdm (λ s'. none) AllocScheme.use_pmm begin s

-- The topmost table.
pub root_table : ℕ → Vmm → Vmm
root_table hhdm s =
    let (paddr, frames) = alloc_n_frames 2 s.frames in
    let p = add_64 paddr hhdm in
    record s {
      pml4 = p;
      tables = update s.tables p (table_init (s.tables p) 0);
      usage = record { start = paddr; size = 8192 };
      frames = frames;
    }

-- The loop over the frames of the kernel, by rounds; they run out where the loop does not end.
pub kernel_loop : ℕ → ℕ → ℕ → ℕ → IndexOffset → Vmm → Option Vmm
kernel_loop hhdm zero addr end o s = if ltb addr end then none else some s
kernel_loop hhdm (suc rounds) addr end o s =
    if ltb addr end
    then (do
      (o', s1) ← search hhdm o s
      s2 ← assign_page o' addr true s1
      kernel_loop hhdm rounds (add_64 addr 4096) end o' s2)
    else some s

-- A frame at the place that the higher half gives it, and at its own address.
pub map_frame : ℕ → ℕ → Vmm → Option Vmm
map_frame hhdm addr s = do
  (low, s1) ← search hhdm (get_index_offset addr) s
  (high, s2) ← search hhdm (get_index_offset (add_64 addr hhdm)) s1
  s3 ← assign_page high addr true s2
  assign_page low addr false s3

-- The loop of `setHHDMandIdentityPTE`, by rounds. It reads the end of the range again in each round: the
-- range of the memory in use grows with the tables that the loop makes.
pub range_loop : ℕ → ℕ → ℕ → (Vmm → ℕ) → Vmm → Option Vmm
range_loop hhdm zero addr end s = if ltb addr (end s) then none else some s
range_loop hhdm (suc rounds) addr end s =
    if ltb addr (end s)
    then (map_frame hhdm addr s >>= λ s'. range_loop hhdm rounds (add_64 addr 4096) end s')
    else some s

-- `setHHDMandIdentityPTE`, for a range that is read in the state.
pub map_range : ℕ → ℕ → (Vmm → MemRange) → Vmm → Option Vmm
map_range hhdm rounds range s =
    if leb 4096 (range s).size
    then range_loop hhdm rounds (range s).start (λ s'. add_64 (range s').start (range s').size) s
    else some s

-- The loop over the gaps between the ranges of memory that can be used.
pub gap_loop : ℕ → ℕ → PhysicalMemMap → ℕ → ℕ → ℕ → Vmm → Option (ℕ × Vmm)
gap_loop hhdm rounds mem zero i start s = some (start, s)
gap_loop hhdm rounds mem (suc left) i start s =
    let entry = mem.available i in
    do
      s' ← map_range hhdm rounds (λ s'. record { start = start; size = sub_64 entry.start start }) s
      gap_loop hhdm rounds mem left (i + 1) (add_64 entry.start entry.size) s'

-- The loop over the other ranges.
pub other_loop : ℕ → ℕ → (ℕ → MemRange) → ℕ → ℕ → Vmm → Option Vmm
other_loop hhdm rounds ranges zero i s = some s
other_loop hhdm rounds ranges (suc left) i s = do
  s' ← map_range hhdm rounds (λ s'. ranges i) s
  other_loop hhdm rounds ranges left (i + 1) s'

-- `init`, with the range of the kernel. `rounds` bounds each loop over addresses.
pub init :
    ℕ → ℕ → MemRange → PhysicalMemMap → (ℕ → MemRange) → ℕ → Vmm → Option (Bool × Option ℕ × Vmm)
init hhdm rounds kernel mem others others_len s = do
  s1 ←
      kernel_loop hhdm rounds kernel.start (add_64 kernel.start kernel.size)
        (get_index_offset 0xffffffff80000000) (root_table hhdm s)
  (start, s2) ←
      gap_loop hhdm rounds mem mem.avail_cnt 0 0 (record s1 { available_lh = 0; available_hh = 0 })
  s3 ← map_range hhdm rounds (λ s'. record { start = start; size = sub_64 mem.total_size start }) s2
  s4 ← other_loop hhdm rounds others others_len 0 s3
  s5 ← map_range hhdm rounds (λ (s' : Vmm). s'.usage) s4
  (low, s6) ← unalloc_pages hhdm rounds AllocScheme.use_pmm min_available_pages first_offset s5
  (high, s7) ← unalloc_pages hhdm rounds AllocScheme.use_pmm min_available_pages higher_offset s6
  some (switch_pml4 hhdm s7.pml4 s7)
