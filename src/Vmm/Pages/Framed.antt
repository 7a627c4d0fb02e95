-- ===== src/Vmm/Pages/Framed.antt =====
-- `assignFrameToPage` gives a page its frame.
use mathlib.Core.Path.{subst}
use dim_os.Common.{
  ℕ, ◌*◌, ◌^◌, ◌<◌, ◌≡◌, ◌≢◌, refl, sym, ap, ◌∙◌, Bool, true, false, if◌then◌else◌, update, inl,
  inr, none, some, Option-cases,
}
use dim_os.Pmm.{Pmm, bitmap_is_set}
use dim_os.Pmm.Valid
use dim_os.Paging.{IndexOffset}
use dim_os.Paging.Index.{page_number}
use dim_os.Paging.Entry.{get_physical_addr, set_flags, set_physical_adr}
use dim_os.Paging.Entry.Present.{get_level-update, level_flags_last, present_flags_last}
use dim_os.Paging.Entry.Address.{assigned_addr}
use dim_os.Vmm.{Vmm, index_at, get_pte, put_entry}
use dim_os.Vmm.Offsets.{Fits}
use dim_os.Vmm.Tables.{table_at, frame_of, translate, IsValid}
use dim_os.Vmm.Pages.{assign_page, assign_frame}
use dim_os.Vmm.Pages.Assign.{IsWritten, written-IsWritten, get_pte-table_at}

assign_frame_keeps :
    (p i a : ℕ) (higher : Bool) (s : Vmm)
    → let s' = assign_frame p i a higher s in
      (s'.pml4 ≡ s.pml4)
      × (s'.tables
          ≡ update s.tables p (record (s.tables p) {
            entries =
                update
                  (s.tables p).entries
                  i
                  (set_flags (set_physical_adr ((s.tables p).entries i) a) 3);
          }))
      × (s'.frames ≡ s.frames)
unfolding assign_frame put_entry
assign_frame_keeps p i a true s = (refl, refl, refl)
assign_frame_keeps p i a false s = (refl, refl, refl)

get_pte_frames :
    (s : Vmm) (k : Pmm) (o : IndexOffset) → get_pte (record s { frames = k }) o ≡ get_pte s o
unfolding get_pte
get_pte_frames s k o = refl

-- `assignFrameToPage` for a page that has a table, where the frames are those of `k`: the page gets the frame, the
-- map of all other pages stays, and so does the invariant.
pub assign_page-IsWritten :
    (hhdm f : ℕ) (higher : Bool) (s : Vmm) (k : Pmm) (o : IndexOffset)
    → IsValid hhdm s
    → Valid.IsValid k
    → ((g : ℕ) → bitmap_is_set s.frames.bitmap g ≡ true → bitmap_is_set k.bitmap g ≡ true)
    → Fits o
    → table_at s 3 o ≢ none
    → f < 2 ^ 40
    → (s' : Vmm) × (assign_page o (f * 4096) higher (record s { frames = k }) ≡ some s')
      × IsValid hhdm s'
      × (translate s' o ≡ some (f * 4096))
      × ((x : IndexOffset)
          → Fits x
          → page_number x ≢ page_number o
          → translate s' x ≡ translate s x)
      × ((l : ℕ) (x : IndexOffset) → l < 4 → Fits x → table_at s' l x ≡ table_at s l x)
      × (s'.frames ≡ k)
unfolding assign_page
assign_page-IsWritten hhdm f higher s k o v k_valid grown fits has small =
    elim (Option-cases (table_at s 3 o)) [
      | inl gone ↦ absurd (has gone)
      | inr (p, at) ↦
          let old = (s.tables p).entries (index_at o 3) in
          let e = set_flags (set_physical_adr old (f * 4096)) 3 in
          let s0 : Vmm = record s { frames = k } in
          let s' = assign_frame p (index_at o 3) (f * 4096) higher s0 in
          let (root, tables, frames) = assign_frame_keeps p (index_at o 3) (f * 4096) higher s0 in
          let w : IsWritten hhdm s o e s' =
            written-IsWritten hhdm s s' o p e v fits at root tables
              (get_level-update (s.tables p) (index_at o 3) e (level_flags_last old (f * 4096)).0
                (level_flags_last old (f * 4096)).1)
              (subst Valid.IsValid (sym frames) k_valid)
              (λ l q x h fx known (g, place, bound, used). (
                g,
                place,
                bound,
                ap (λ (z : Pmm). bitmap_is_set z.bitmap g) frames ∙ grown g used,
              )) in
          let found : frame_of e ≡ some (f * 4096) =
            ap (λ b. if b then some (get_physical_addr e) else none)
              (present_flags_last old (f * 4096))
            ∙ ap some (assigned_addr old f small) in
          (
            s',
            rw (assign_page, get_pte_frames s k o ∙ get_pte-table_at s p o at) refl,
            w.valid,
            w.here ∙ found,
            w.elsewhere,
            w.same_tables,
            frames,
          )
    ]
