-- ===== src/Vmm/Pages/Alloc.antt =====
-- `allocPages` where enough pages are there already.
use dim_os.Common.{
  ℕ, ◌+◌, ◌^◌, ◌≤◌, ◌≡◌, refl, ◌∙◌, Bool, true, false, if◌then◌else◌, arith, some, slt_64, sub_64,
}
use dim_os.Pmm.{Pmm}
use dim_os.Paging.{IndexOffset, get_virtual_addr}
use dim_os.Paging.Index.{page_number}
use dim_os.Vmm.{Vmm, AllocScheme, first_offset, index_at}
use dim_os.Vmm.Offsets.{Fits}
use dim_os.Vmm.Tables.{IsValid}
use dim_os.Vmm.Pages.{
  Allocated, get_available_pages, higher_offset, min_available_pages, slt_32, free_pages,
  unalloc_pages, assign_loop, assign_pages, alloc_pages,
}
use dim_os.Vmm.Pages.Runs.{FreePages}
use dim_os.Vmm.Pages.FirstRun.{IsFirstRun, first_n_pages-IsFirstRun}
use dim_os.Vmm.Pages.Backed.{IsBacked, assign_loop-IsBacked}

-- There are so many frames that the check of `allocPages` passes, and their addresses have 52 bits.
pub record HasFrames (n : ℕ) (p : Pmm) : Type 0 where
  pub room : p.usedframes + n ≤ p.frame_cnt
  pub small : p.frame_cnt ≤ 2 ^ 40

-- The pages found get frames.
found_pages :
    (hhdm n : ℕ) (first : IndexOffset) (s : Vmm) (b : ℕ)
    → IsValid hhdm s
    → HasFrames n s.frames
    → IsFirstRun s b n first
    → page_number first + n ≤ 2 ^ 36
    → (s' : Vmm) × (assign_loop hhdm n first s ≡ some s') × IsBacked hhdm s (page_number first) n s'
found_pages hhdm n first s b v frames run inside =
    assign_loop-IsBacked hhdm n (page_number first) first s v run.fits (λ some_pages. refl) inside
      (λ x fx from to. (run.free (page_number x) from to x fx refl).1 refl) frames.room frames.small

assign_pages_lem :
    (hhdm rounds n : ℕ) (begin first : IndexOffset) (s s' : Vmm)
    → slt_64 (sub_64 s.frames.frame_cnt s.frames.usedframes) n ≡ false
    → unalloc_pages hhdm rounds AllocScheme.no_alloc n begin s ≡ some (first, s)
    → assign_loop hhdm n first s ≡ some s'
    → assign_pages hhdm rounds begin n s ≡ Allocated.done (get_virtual_addr first) s'
unfolding assign_pages
assign_pages_lem hhdm rounds n begin first s s' enough found assigned =
    rw (assign_pages, enough, found, assigned) refl

start_page : Bool → IndexOffset
start_page higher = if higher then higher_offset else first_offset

start_page-Fits : (higher : Bool) → Fits (start_page higher)
unfolding start_page index_at
start_page-Fits true l = ground arith
start_page-Fits false l = ground arith

checked :
    (hhdm rounds n : ℕ) (higher min_check : Bool) (s : Vmm)
    → (if min_check then slt_32 (get_available_pages higher s) (min_available_pages + n) else false)
      ≡ false
    → alloc_pages hhdm rounds higher min_check n s
      ≡ assign_pages hhdm rounds (start_page higher) n s
unfolding alloc_pages start_page
checked hhdm rounds n higher min_check s plenty = rw (alloc_pages, plenty) refl

-- In a valid state in which the count of available pages is enough or is not asked for, `n` pages in a row, `n` at
-- least 1, are free from number `r` on in the half asked for or behind it, and `n` of at most 2 ^ 40 frames are not in
-- use, `allocPages` returns the address of the first such run of pages. Each of its pages has a frame
-- of its own that was free, all other pages are as before, the tables are where they were, `n` more frames are counted,
-- and the invariant holds. As many rounds as the number of the last page of the run are enough.
pub alloc_pages-IsBacked :
    (hhdm rounds n r : ℕ) (higher min_check : Bool) (s : Vmm)
    → IsValid hhdm s
    → 1 ≤ n
    → page_number (if higher then higher_offset else first_offset) ≤ r
    → r + n ≤ 2 ^ 36
    → FreePages s r n
    → r + n ≤ rounds
    → HasFrames n s.frames
    → (if min_check then slt_32 (get_available_pages higher s) (min_available_pages + n) else false)
      ≡ false
    → (first : IndexOffset) × (s' : Vmm) × (alloc_pages hhdm rounds higher min_check n s
        ≡ Allocated.done (get_virtual_addr first) s')
      × IsFirstRun s (page_number (if higher then higher_offset else first_offset)) n first
      × IsBacked hhdm s (page_number first) n s'
unfolding start_page unalloc_pages
alloc_pages-IsBacked hhdm rounds n r higher min_check s v some_pages least inside run enough frames
      plenty =
    let begin = start_page higher in
    let (first, found, is_first, bound) =
      first_n_pages-IsFirstRun hhdm (free_pages hhdm rounds 2 higher_offset) begin s n r rounds v
        (start_page-Fits higher) some_pages least inside run (omega (arith, enough)) in
    let (s', assigned, backed) =
      found_pages hhdm n first s (page_number begin) v frames is_first
        (omega (arith, bound, inside)) in
    let few : slt_64 (sub_64 s.frames.frame_cnt s.frames.usedframes) n ≡ false =
      ground (arith, frames.room, frames.small) in
    (
      first,
      s',
      checked hhdm rounds n higher min_check s plenty
          ∙ assign_pages_lem hhdm rounds n begin first s s' few found assigned,
      is_first,
      backed,
    )
