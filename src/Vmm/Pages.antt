-- ===== src/Vmm/Pages.antt =====
-- kernel/kernel/memory/vmm.cpp: pages with their frames, and the set-up of the tables.
pub mod Runs
pub mod FirstRun
pub mod Assign
pub mod Framed
pub mod Backed
pub mod Alloc
pub mod Free
pub mod Return
use dim_os.Common.{
  ℕ, zero, suc, ◌+◌, ◌-◌, ◌*◌, ◌%◌, ◌^◌, Bool, true, false, ◌==◌, ltb, leb, if◌then◌else◌, Option,
  none, some, add_64, sub_64, slt_64,
}
use dim_os.Pmm.{Pmm, MemRange, alloc_frame, alloc_n_frames, free_frame}
use dim_os.Paging.{IndexOffset, get_virtual_addr, get_index_offset, next_page}
use dim_os.Paging.Entry.{Entry, set_flags, set_physical_adr, get_physical_addr, table_init}
use dim_os.Common.{update}
use dim_os.Vmm.{
  Vmm, AllocScheme, present_writable, put_entry, get_pte, first_page, first_offset, first_n_pages,
}

-- `VMM::minAvailablePages`
abbrev pub min_available_pages : ℕ
min_available_pages = 11

-- `Paging::defaultEntry`
abbrev pub default_entry : Entry
default_entry = record { word = 0 }

-- The first page of the higher half.
abbrev pub higher_offset : IndexOffset
higher_offset = record { i0 = 256; i1 = 0; i2 = 0; i3 = 0 }

unfoldable pub get_available_pages : Bool → Vmm → ℕ
get_available_pages higher s = if higher then s.available_hh else s.available_lh

-- The count of a half changed.
abbrev pub on_count : Bool → (ℕ → ℕ) → Vmm → Vmm
on_count higher f s =
    if higher
    then record s { available_hh = f s.available_hh }
    else record s { available_lh = f s.available_lh }

-- `switchPML4`: the result, and the address that is loaded into `cr3`.
pub switch_pml4 : ℕ → ℕ → Vmm → Bool × Option ℕ × Vmm
switch_pml4 hhdm table s =
    if table == 0
    then (false, none, s)
    else (true, some (sub_64 table hhdm), record s { pml4 = table })

-- `assignFrameToPage`, for the entry `i` of the table `p`.
pub assign_frame : ℕ → ℕ → ℕ → Bool → Vmm → Vmm
assign_frame p i frame higher s =
    on_count higher (λ n. sub_64 n 1)
      (put_entry s p i
        (set_flags (set_physical_adr ((s.tables p).entries i) frame) present_writable))

-- `assignFrameToPage(getPTE(o), ...)`; `none` is a null pointer.
pub assign_page : IndexOffset → ℕ → Bool → Vmm → Option Vmm
assign_page o frame higher s = elim (get_pte s o) [
  | none ↦ none
  | some (p, i) ↦ some (assign_frame p i frame higher s)
]

-- `freePage`
pub free_page : ℕ → ℕ → Vmm → Option Vmm
free_page hhdm addr s =
    let o = get_index_offset addr in
    elim (get_pte s o) [
      | none ↦ none
      | some (p, i) ↦
          let s1 : Vmm = record s {
            frames = free_frame (get_physical_addr ((s.tables p).entries i)) s.frames;
          } in
          some (
            on_count (leb hhdm (get_virtual_addr o)) (λ n. add_64 n 1)
              (put_entry s1 p i default_entry))
    ]

-- `getFirstNUnallocPage` with `NO_ALLOC`, by rounds.
pub free_pages : ℕ → ℕ → ℕ → IndexOffset → Vmm → Option (IndexOffset × Vmm)
free_pages hhdm rounds n begin s =
    first_n_pages (first_page hhdm (λ s'. none) AllocScheme.no_alloc) rounds n begin s

-- `getFirstNUnallocPage`; with `USE_VMM` a table takes two pages of the higher half.
pub unalloc_pages : ℕ → ℕ → AllocScheme → ℕ → IndexOffset → Vmm → Option (IndexOffset × Vmm)
unalloc_pages hhdm rounds scheme n begin s =
    first_n_pages (first_page hhdm (free_pages hhdm rounds 2 higher_offset) scheme) rounds n begin s

-- What `allocPages` comes to: an address, `panic`, or no result.
pub data Allocated : Type 0 where
  done : ℕ → Vmm → Allocated
  panicked : Vmm → Allocated
  stuck : Allocated

-- Its loop, by the pages left.
pub assign_loop : ℕ → ℕ → IndexOffset → Vmm → Option Vmm
assign_loop hhdm zero curr s = some s
assign_loop hhdm (suc rounds) curr s =
    let (frame, frames) = alloc_frame s.frames in
    elim (assign_page curr frame (leb hhdm (get_virtual_addr curr))
      (record s { frames = frames })) [
        | none ↦ none
        | some s' ↦ assign_loop hhdm rounds (next_page curr) s'
      ]

-- The pages searched, and their frames.
pub assign_pages : ℕ → ℕ → IndexOffset → ℕ → Vmm → Allocated
assign_pages hhdm rounds begin n s =
    if slt_64 (sub_64 s.frames.frame_cnt s.frames.usedframes) n
    then Allocated.panicked s
    else elim (unalloc_pages hhdm rounds AllocScheme.no_alloc n begin s) [
      | none ↦ Allocated.stuck
      | some (first, s') ↦ elim (assign_loop hhdm n first s') [
        | none ↦ Allocated.stuck
        | some s'' ↦ Allocated.done (get_virtual_addr first) s''
      ]
    ]

-- `<` of `int`, on 64-bit patterns that are cut off at 32 bits.
abbrev pub slt_32 : ℕ → ℕ → Bool
slt_32 a b = ltb ((a + 2 ^ 31) % 2 ^ 32) ((b + 2 ^ 31) % 2 ^ 32)

-- `allocPages`, for a count that is not negative.
pub alloc_pages : ℕ → ℕ → Bool → Bool → ℕ → Vmm → Allocated
alloc_pages hhdm rounds higher min_check n s =
    let begin = if higher then higher_offset else first_offset in
    let required = min_available_pages + n in
    if (if min_check then slt_32 (get_available_pages higher s) required else false)
    then elim (unalloc_pages hhdm rounds AllocScheme.use_vmm required begin s) [
      | none ↦ Allocated.stuck
      | some (page, s') ↦ assign_pages hhdm rounds begin n s'
    ]
    else assign_pages hhdm rounds begin n s

-- `allocPage` and `allocNPages`
pub alloc_page : ℕ → ℕ → Bool → Vmm → Allocated
alloc_page hhdm rounds higher s = alloc_pages hhdm rounds higher true 1 s

pub alloc_n_pages : ℕ → ℕ → Bool → ℕ → Vmm → Allocated
alloc_n_pages hhdm rounds higher n s = alloc_pages hhdm rounds higher true n s
