-- ===== src/Vmm/Pages/Free.antt =====
-- `freePage`.
use mathlib.Core.Path.{subst}
use dim_os.Common.{
  ℕ, ◌+◌, ◌*◌, ◌/◌, ◌<◌, ◌≡◌, ◌≢◌, refl, sym, ap, ◌∙◌, Bool, true, false, leb, ◌==◌, if◌then◌else◌,
  update, update_ne, update_self, arith, Bool-cases, inl, inr, none, some, Option-cases,
  none_ne_some, add_64,
}
use dim_os.Common.Bits.{bit}
use dim_os.Pmm.{Pmm, bitmap_is_set, free_frame}
use dim_os.Pmm.Valid
use dim_os.Pmm.Alloc.{IsFreed, free_frame-IsFreed}
use dim_os.Paging.{IndexOffset, get_virtual_addr, get_index_offset}
use dim_os.Paging.Index.{page_number, get_index_offset-get_virtual_addr}
use dim_os.Paging.Entry.{Entry, Table, is_present, get_level, test_flag, get_physical_addr}
use dim_os.Paging.Entry.Address.{cleared_absent}
use dim_os.Paging.Entry.Present.{get_level_same}
use dim_os.Vmm.{Vmm, index_at, get_pte, put_entry}
use dim_os.Vmm.Offsets.{Fits}
use dim_os.Vmm.Tables.{table_at, frame_of, translate, translate-behind, translate-none, IsValid}
use dim_os.Vmm.Pages.{free_page, on_count, default_entry}
use dim_os.Vmm.Pages.Runs.{Fits→IsValid}
use dim_os.Vmm.Pages.Assign.{
  IsWritten, this_table, same_tables, written-IsWritten, get_pte-table_at,
}

-- The frame of a page that has one, from its entry.
framed :
    (s : Vmm) (o : IndexOffset) (a : ℕ)
    → translate s o ≡ some a
    → (p : ℕ) × (table_at s 3 o ≡ some p)
      × (get_physical_addr ((s.tables p).entries (index_at o 3)) ≡ a)
framed s o a known = elim (Option-cases (table_at s 3 o)) [
  | inl gone ↦ absurd (none_ne_some (sym (translate-none s o gone) ∙ known))
  | inr (p, at) ↦
      let e = (s.tables p).entries (index_at o 3) in
      let frame : frame_of e ≡ some a = sym (translate-behind s p o at) ∙ known in
      elim (Bool-cases (is_present e)) [
        | inl here ↦
            let addr : some (get_physical_addr e) ≡ some a =
              ap (λ b. if b then some (get_physical_addr e) else none) (sym here) ∙ frame in
            (p, at, cc addr)
        | inr absent ↦ absurd (
            none_ne_some
              (ap (λ b. if b then some (get_physical_addr e) else none) (sym absent) ∙ frame))
      ]
]

-- The state that `freePage` makes.
abbrev freed : ℕ → ℕ → ℕ → Bool → Vmm → Vmm
freed p i a higher s =
    on_count higher (λ n. add_64 n 1)
      (put_entry (record s { frames = free_frame a s.frames }) p i default_entry)

freed_keeps :
    (p i a : ℕ) (higher : Bool) (s : Vmm)
    → let s' = freed p i a higher s in
      (s'.pml4 ≡ s.pml4)
      × (s'.tables
          ≡ update s.tables p
              (record (s.tables p) { entries = update (s.tables p).entries i default_entry }))
      × (s'.frames ≡ free_frame a s.frames)
unfolding put_entry
freed_keeps p i a true s = (refl, refl, refl)
freed_keeps p i a false s = (refl, refl, refl)

free_page_at :
    (hhdm p i a addr : ℕ) (s : Vmm)
    → get_pte s (get_index_offset addr) ≡ some (p, i)
    → get_physical_addr ((s.tables p).entries i) ≡ a
    → free_page hhdm addr s
      ≡ some (freed p i a (leb hhdm (get_virtual_addr (get_index_offset addr))) s)
unfolding free_page
free_page_at hhdm p i a addr s entry frame = rw (free_page, entry, frame) refl

free_page_lem :
    (hhdm p a : ℕ) (o : IndexOffset) (s : Vmm)
    → Fits o
    → table_at s 3 o ≡ some p
    → get_physical_addr ((s.tables p).entries (index_at o 3)) ≡ a
    → free_page hhdm (get_virtual_addr o) s
      ≡ some (freed p (index_at o 3) a (leb hhdm (get_virtual_addr o)) s)
free_page_lem hhdm p a o s fits at frame =
    let same : get_index_offset (get_virtual_addr o) ≡ o =
      get_index_offset-get_virtual_addr o (Fits→IsValid o fits) in
    free_page_at hhdm p (index_at o 3) a (get_virtual_addr o) s
      (ap (get_pte s) same ∙ get_pte-table_at s p o at) frame
    ∙ ap (λ z. some (freed p (index_at o 3) a (leb hhdm (get_virtual_addr z)) s)) same

level_cleared : (t : Table) → t.entries 0 ≡ default_entry → get_level t ≡ 0
unfolding get_level test_flag
level_cleared t e = rw e refl

-- What `freePage` makes of a page with the frame `f`.
pub record IsFreedPage (hhdm f : ℕ) (o : IndexOffset) (s s' : Vmm) : Type 0 where
  pub valid : IsValid hhdm s'
  pub unmapped : translate s' o ≡ none
  pub elsewhere :
      (x : IndexOffset) → Fits x → page_number x ≢ page_number o → translate s' x ≡ translate s x
  pub frames :
      (g : ℕ)
      → bitmap_is_set s'.frames.bitmap g
        ≡ (if f == g then false else bitmap_is_set s.frames.bitmap g)
  pub count :
      s'.frames.usedframes + (if bitmap_is_set s.frames.bitmap f then 1 else 0)
      ≡ s.frames.usedframes

-- In a valid state, `freePage` at a page that has the frame `f` of the managed memory, at which no table is, and whose
-- entry is not the first of its table: the page has no frame, the frame is free and no longer counted, all other
-- pages and frames are as before, and the invariant holds.
pub free_page-IsFreedPage :
    (hhdm f : ℕ) (o : IndexOffset) (s : Vmm)
    → IsValid hhdm s
    → Fits o
    → 0 < index_at o 3
    → translate s o ≡ some (f * 4096)
    → f < s.frames.frame_cnt
    → ((l q : ℕ) (x : IndexOffset)
        → l < 4
        → Fits x
        → table_at s l x ≡ some q
        → q ≢ add_64 (f * 4096) hhdm)
    → (s' : Vmm) × (free_page hhdm (get_virtual_addr o) s ≡ some s') × IsFreedPage hhdm f o s s'
free_page-IsFreedPage hhdm f o s v fits not_first known inside no_table =
    let (p, at, addr) = framed s o (f * 4096) known in
    let higher = leb hhdm (get_virtual_addr o) in
    let s' = freed p (index_at o 3) (f * 4096) higher s in
    let (root, tables, frames) = freed_keeps p (index_at o 3) (f * 4096) higher s in
    let k : IsFreed s.frames f (free_frame (f * 4096) s.frames) =
      let page : f * 4096 / 4096 ≡ f = omega arith in
      subst (λ z. IsFreed s.frames z (free_frame (f * 4096) s.frames)) page
        (free_frame-IsFreed s.frames (f * 4096) v.frames_valid (omega (arith, inside))) in
    let t = s.tables p in
    let first : update t.entries (index_at o 3) default_entry 0 ≡ t.entries 0 =
      update_ne t.entries (index_at o 3) 0 default_entry (λ e. omega (arith, e, not_first)) in
    let level =
      get_level_same t (record t { entries = update t.entries (index_at o 3) default_entry })
        (ap (λ (e : Entry). bit e.word 9) first) (ap (λ (e : Entry). bit e.word 10) first) in
    let w : IsWritten hhdm s o default_entry s' =
      written-IsWritten hhdm s s' o p default_entry v fits at root tables level
        (subst Valid.IsValid (sym frames) k.valid)
        (λ l q x h fx known_q (g, place, bound, used).
          let other : f ≢ g =
            λ e. no_table l q x h fx known_q (place ∙ ap (λ z. add_64 (z * 4096) hhdm) (sym e)) in
          (
            g,
            place,
            bound,
            ap (λ (z : Pmm). bitmap_is_set z.bitmap g) frames
                ∙ ground (arith, k.cleared g, other, used),
          )) in
    (
      s',
      free_page_lem hhdm p (f * 4096) o s fits at addr,
      record {
        valid = w.valid;
        unmapped =
            w.here
            ∙ ap (λ b. if b then some (get_physical_addr default_entry) else none) cleared_absent;
        elsewhere = w.elsewhere;
        frames = λ g. ap (λ (z : Pmm). bitmap_is_set z.bitmap g) frames ∙ k.cleared g;
        count =
            ap (λ (z : Pmm). z.usedframes + (if bitmap_is_set s.frames.bitmap f then 1 else 0))
              frames
            ∙ k.count;
      },
    )

-- In a valid state, `freePage` at a page that has a frame and whose entry is the first of its table has a
-- result in which the invariant does not hold: the table has lost its level.
pub free_page_forgets :
    (hhdm a : ℕ) (o : IndexOffset) (s : Vmm)
    → IsValid hhdm s
    → Fits o
    → index_at o 3 ≡ 0
    → translate s o ≡ some a
    → (s' : Vmm) × (free_page hhdm (get_virtual_addr o) s ≡ some s') × (¬ (IsValid hhdm s'))
free_page_forgets hhdm a o s v fits is_first known =
    let (p, at, addr) = framed s o a known in
    let higher = leb hhdm (get_virtual_addr o) in
    let s' = freed p (index_at o 3) a higher s in
    let (root, tables, frames) = freed_keeps p (index_at o 3) a higher s in
    let t = s.tables p in
    let entry : (s'.tables p).entries 0 ≡ default_entry =
      ap (λ (t' : Table). t'.entries 0)
        (this_table hhdm s s' o p default_entry v fits at root tables)
      ∙ ap (λ i. update t.entries i default_entry 0) is_first
      ∙ update_self t.entries 0 default_entry in
    let still : table_at s' 3 o ≡ some p =
      same_tables hhdm s s' o p default_entry v fits at root tables 3 o (omega arith) fits ∙ at in
    (
      s',
      free_page_lem hhdm p a o s fits at addr,
      λ valid.
          omega (
            arith,
            valid.leveled 3 p o (omega arith) fits still,
            level_cleared (s'.tables p) entry,
          ),
    )
