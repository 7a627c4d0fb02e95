-- ===== src/Vmm/Tests.antt =====
-- Runs of the virtual memory manager, and its theorems at concrete states.
mod State
mod Chain
use mathlib.Core.Path.{subst}
use native.Mathlib.Decide.{ℕ_discrete}
use dim_os.Common.{
  ℕ, zero, suc, ◌+◌, ◌*◌, ◌-◌, ◌^◌, ◌≤◌, ◌<◌, ◌≡◌, ◌≢◌, ◌⊎◌, inl, inr, refl, sym, ap, ◌∙◌, true,
  false, arith, Option, none, some, ◌==◌, ltb, if◌then◌else◌, update, none_ne_some, Option-cases,
  Bool-cases, ==_iff,
}
use dim_os.Pmm.{Pmm, MemRange, bitmap_is_set}
use dim_os.Pmm.Valid
use dim_os.Pmm.Runs.{FreeRun}
use dim_os.Paging.{IndexOffset, get_virtual_addr}
use dim_os.Paging.Index.{page_number}
use dim_os.Paging.Entry.{
  Entry, Table, is_present, test_flag, get_level, get_physical_addr, table_init,
}
use dim_os.Paging.Entry.Present.{table_init_lem}
use dim_os.Vmm.{Vmm, AllocScheme, first_page, first_n_pages, first_offset, index_at}
use dim_os.Vmm.Offsets.{Fits, Agree}
use dim_os.Vmm.Tables.{
  behind, table_at, translate, table_at-behind, table_at-none, none_further, Owned, IsValid,
  Extends,
}
use dim_os.Vmm.Create.{CanMake, CanMake-run}
use dim_os.Vmm.Search.{Wanted}
use dim_os.Vmm.Result.{IsFirst, IsMiss, first_page-IsFirst}
use dim_os.Vmm.Pages.Runs.{FreePages, page_number-eq}
use dim_os.Vmm.Pages.{Allocated, get_available_pages, alloc_pages, assign_loop, free_page}
use dim_os.Vmm.Pages.Backed.{IsBacked, assign_loop-IsBacked}
use dim_os.Vmm.Pages.Alloc.{HasFrames, alloc_pages-IsBacked}
use dim_os.Vmm.Pages.Free.{IsFreedPage, free_page-IsFreedPage, free_page_forgets}
use dim_os.Vmm.Pages.Return.{free_page-IsBacked}
use dim_os.Vmm.Pages.FirstRun.{IsFirstRun, first_n_pages-IsFirstRun}
use State.{hhdm, blank, three_tables, blank-IsValid}
use Chain.{chain, twelve_used, chain-IsValid, chain_at, Placed}

abbrev page_3 : IndexOffset
page_3 = record { i0 = 256; i1 = 0; i2 = 0; i3 = 3 }

page_3-Fits : Fits page_3
unfolding index_at
page_3-Fits l = ground arith

first_page-IsFirst_example :
    (page : IndexOffset) × (s' : Vmm) × (first_page hhdm
        (λ s. none)
        AllocScheme.use_pmm
        page_3
        blank
      ≡ some (page, s'))
    × (IsFirst hhdm AllocScheme.use_pmm page_3 blank page s'
        ⊎ IsMiss AllocScheme.use_pmm page_3 blank page s')
first_page-IsFirst_example =
    first_page-IsFirst hhdm AllocScheme.use_pmm (λ s. none) page_3 blank blank-IsValid page_3-Fits
      three_tables

abbrev low_page : ℕ → IndexOffset
low_page y = record { i0 = 0; i1 = 0; i2 = 0; i3 = y }

low_page-Fits : (y : ℕ) → y < 512 → Fits (low_page y)
unfolding index_at
low_page-Fits y h l = ground (arith, h)

low_page-Wanted : (y : ℕ) → y ≢ 0 → y ≢ 7 → Wanted AllocScheme.no_alloc chain (low_page y)
unfolding translate table_at index_at is_present test_flag
low_page-Wanted y not_0 not_7 =
    let no_0 : (y == 0) ≡ false = ground (arith, not_0) in
    let no_7 : (y == 7) ≡ false = ground (arith, not_7) in
    (rw (no_0, no_7) refl, λ no_making lost. none_ne_some (sym lost))

pages_free : FreePages chain 5 2
pages_free y from to o fo number =
    subst (Wanted AllocScheme.no_alloc chain)
      (page_number-eq (low_page y) o (low_page-Fits y (omega (arith, to))) fo
        (omega (arith, number)))
      (low_page-Wanted y (λ e. omega (arith, e, from)) (λ e. omega (arith, e, to)))

first_n_pages-IsFirstRun_example :
    (res : IndexOffset) × (first_n_pages
        (first_page hhdm (λ s. none) AllocScheme.no_alloc)
        7
        2
        first_offset
        chain
      ≡ some (res, chain))
    × IsFirstRun chain 0 2 res
    × (page_number res ≤ 5)
first_n_pages-IsFirstRun_example =
    first_n_pages-IsFirstRun hhdm (λ s. none) first_offset chain 2 5 7 chain-IsValid
      (low_page-Fits 0 (omega arith)) (omega arith) (omega arith) (omega arith) pages_free
      (omega arith)

twelve_used-HasFrames : (n : ℕ) → n ≤ 2 → HasFrames n twelve_used
twelve_used-HasFrames n h = record { room = omega (arith, h); small = omega arith }

alloc_pages-IsBacked_example :
    (first : IndexOffset) × (s' : Vmm) × (alloc_pages hhdm 7 false true 2 chain
      ≡ Allocated.done (get_virtual_addr first) s')
    × IsFirstRun chain 0 2 first
    × IsBacked hhdm chain (page_number first) 2 s'
unfolding get_available_pages
alloc_pages-IsBacked_example =
    alloc_pages-IsBacked hhdm 7 2 5 false true chain chain-IsValid (omega arith) (omega arith)
      (omega arith) pages_free (omega arith) (twelve_used-HasFrames 2 (omega arith)) refl

low_mapped :
    (translate chain (low_page 7) ≡ some (13 * 4096)) × (translate chain (low_page 0) ≡ some 49152)
unfolding translate table_at index_at is_present test_flag get_physical_addr
low_mapped = (refl, refl)

free_page-IsFreedPage_example :
    (s' : Vmm) × (free_page hhdm (get_virtual_addr (low_page 7)) chain ≡ some s')
    × IsFreedPage hhdm 13 (low_page 7) chain s'
unfolding index_at Placed
free_page-IsFreedPage_example =
    free_page-IsFreedPage hhdm 13 (low_page 7) chain chain-IsValid (low_page-Fits 7 (omega arith))
      (omega arith) low_mapped.0 (omega arith)
      (λ l q x h fx at. λ same. omega (arith, (chain_at l q x h at).0, same, h))

free_page_forgets_example :
    (s' : Vmm) × (free_page hhdm (get_virtual_addr (low_page 0)) chain ≡ some s')
    × (¬ (IsValid hhdm s'))
unfolding index_at
free_page_forgets_example =
    free_page_forgets hhdm 49152 (low_page 0) chain chain-IsValid (low_page-Fits 0 (omega arith))
      refl low_mapped.1

five_backed :
    (s' : Vmm) × (assign_loop hhdm 1 (low_page 5) chain ≡ some s') × IsBacked hhdm chain 5 1 s'
five_backed =
    assign_loop-IsBacked hhdm 1 5 (low_page 5) chain chain-IsValid (low_page-Fits 5 (omega arith))
      (λ h. refl) (omega arith)
      (λ x fx from to. (pages_free (page_number x) from (omega (arith, to)) x fx refl).1 refl)
      (omega arith) (omega arith)

free_page-IsBacked_example :
    (s'' : Vmm) × (free_page hhdm (get_virtual_addr (low_page 5)) five_backed.0 ≡ some s'')
    × IsValid hhdm s''
    × ((x : IndexOffset) → Fits x → translate s'' x ≡ translate chain x)
    × (s''.frames.usedframes ≡ 12)
unfolding index_at
free_page-IsBacked_example =
    free_page-IsBacked hhdm (low_page 5) chain five_backed.0 chain-IsValid
      (low_page-Fits 5 (omega arith)) (omega arith)
      (low_page-Wanted 5 (λ e. omega (arith, e)) (λ e. omega (arith, e))).0 five_backed.2
