-- ===== src/Vmm/Pages/Return.antt =====
-- `freePage` of a page that `allocPages` gave.
use dim_os.Common.{
  ℕ, ◌+◌, ◌*◌, ◌≤◌, ◌<◌, ◌≡◌, ◌≢◌, ◌⊎◌, sym, ap, ◌∙◌, false, arith, inl, inr, none, some, add_64,
}
use native.Mathlib.Decide.{ℕ_discrete, dec_lt}
use dim_os.Pmm.{bitmap_is_set}
use dim_os.Paging.{IndexOffset, get_virtual_addr}
use dim_os.Paging.Index.{page_number}
use dim_os.Vmm.{Vmm, index_at}
use dim_os.Vmm.Offsets.{Fits}
use dim_os.Vmm.Tables.{table_at, translate, IsValid}
use dim_os.Vmm.Pages.{free_page}
use dim_os.Vmm.Pages.Runs.{page_number-eq}
use dim_os.Vmm.Pages.Backed.{IsBacked}
use dim_os.Vmm.Pages.Free.{free_page-IsFreedPage}

-- Where a page without a frame got one, as `allocPages` does it in a valid state, and its entry is not the first of
-- its table, `freePage` restores the map of all pages and the number of frames in use, and the
-- invariant holds.
pub free_page-IsBacked :
    (hhdm : ℕ) (o : IndexOffset) (s s' : Vmm)
    → IsValid hhdm s
    → Fits o
    → 0 < index_at o 3
    → translate s o ≡ none
    → IsBacked hhdm s (page_number o) 1 s'
    → (s'' : Vmm) × (free_page hhdm (get_virtual_addr o) s' ≡ some s'')
      × IsValid hhdm s''
      × ((x : IndexOffset) → Fits x → translate s'' x ≡ translate s x)
      × (s''.frames.usedframes ≡ s.frames.usedframes)
free_page-IsBacked hhdm o s s' v fits not_first unmapped b =
    let (f, known, unset, set, inside) = b.backed o fits (omega arith) (omega arith) in
    let no_table : (l q : ℕ) (x : IndexOffset)
        → l < 4
        → Fits x
        → table_at s' l x ≡ some q
        → q ≢ add_64 (f * 4096) hhdm =
      λ l q x h fx at same.
        let (g, place, small, used) = v.owned l q x h fx (sym (b.same_tables l x h fx) ∙ at) in
        let equal : g ≡ f =
          omega (arith, place, same, small, inside, v.frames_valid.small, v.offset) in
        let other : bitmap_is_set s.frames.bitmap g ≡ false =
          ap (bitmap_is_set s.frames.bitmap) equal ∙ unset in
        cc (used, other) in
    let (s'', gives, k) =
      free_page-IsFreedPage hhdm f o s' b.valid fits not_first known
        (omega (arith, inside, b.same_cnt)) no_table in
    (
      s'',
      gives,
      k.valid,
      (λ x fx. elim (ℕ_discrete (page_number x) (page_number o)) [
        | yes e ↦
            (let same : x ≡ o = page_number-eq x o fx fits e in
              ap (translate s'') same ∙ k.unmapped ∙ sym unmapped ∙ ap (translate s) (sym same))
        | no ne ↦
            k.elsewhere x fx ne ∙ b.elsewhere x fx (outside (page_number x) (page_number o) ne)
      ]),
      ground (arith, k.count, set, b.count),
    )
  where
    outside : (x y : ℕ) → x ≢ y → (x < y) ⊎ (y + 1 ≤ x)
    outside x y ne = elim (dec_lt x y) [
      | yes less ↦ inl less
      | no other ↦ inr (omega (arith, ne, other))
    ]
