-- ===== src/Vmm/Create.antt =====
-- The search makes a table where there is none.
use mathlib.Core.Path.{subst}
use dim_os.Common.{
  ℕ, zero, suc, ◌+◌, ◌*◌, ◌%◌, ◌≤◌, ◌<◌, ◌≡◌, ◌≢◌, refl, sym, ap, ◌∙◌, true, false, arith, Option,
  some, add_64,
}
use dim_os.Pmm.{Pmm, alloc_n_frames, bitmap_is_set, element_cnt}
use dim_os.Pmm.Valid
use dim_os.Pmm.AllocRun.{IsAllocRun, alloc_n_frames_some}
use dim_os.Pmm.Runs.{FreeRun}
use dim_os.Paging.{IndexOffset}
use dim_os.Paging.Entry.{is_present}
use dim_os.Vmm.{Vmm, AllocScheme, index_at, table_frames, table_memory, link_table}
use dim_os.Vmm.Offsets.{Fits, Agree}
use dim_os.Vmm.Tables.{table_at, Owned, IsValid, Extends}
use dim_os.Vmm.Link.{IsLinked-Extends, IsLinked-table_at}
use dim_os.Vmm.LinkTable.{link_table-tables, link_table-IsLinked}

-- The manager of the frames can give two frames behind each other `n` times.
abbrev pub CanMake : ℕ → Pmm → Type 0
CanMake zero p = 0 ≤ 0
CanMake (suc n) p =
    (f : ℕ) × IsAllocRun p 2 f (alloc_n_frames 2 p) × CanMake n (alloc_n_frames 2 p).1

-- It can where a run of `2 * n` frames is free.
pub CanMake-run :
    (n s : ℕ) (p : Pmm)
    → Valid.IsValid p
    → p.frame_cnt % 64 ≡ 0
    → 2 ≤ element_cnt p.frame_cnt
    → p.usedframes + 2 * n < p.frame_cnt
    → s + 2 * n ≤ p.frame_cnt
    → FreeRun p.bitmap s (2 * n)
    → CanMake n p
CanMake-run zero s p v whole few room inside run = omega arith
CanMake-run (suc n) s p v whole few room inside run =
    let (f, first, k) =
      alloc_n_frames_some p 2 s v whole few (omega (arith, room)) (omega (arith, inside))
        (λ g h. run g (omega (arith, h))) in
    let p' = (alloc_n_frames 2 p).1 in
    let run_on : (g : ℕ) → g < 2 * n → bitmap_is_set p.bitmap (s + 2 + g) ≡ false = λ g h.
      let e : s + (g + 2) ≡ s + 2 + g = omega arith in
      ap (bitmap_is_set p.bitmap) (sym e) ∙ run (g + 2) (omega (arith, h)) in
    let same : p'.frame_cnt ≡ p.frame_cnt = k.region.same_cnt in
    (
      f,
      k,
      CanMake-run n (s + 2) p' k.region.valid (ap (λ z. z % 64) same ∙ whole)
          (subst (λ z. 2 ≤ element_cnt z) (sym same) few) (omega (arith, k.count, same, room))
          (omega (arith, same, inside))
          (λ g h. ground (arith, k.region.writes (s + 2 + g), first, run_on g h)),
    )

-- A table that no page led to before, made behind entry `i` of the table `p` of `path`: the map from pages to
-- frames stays, and frames for `n` tables are left.
unfoldable pub Made :
    ℕ
    → ℕ
    → ℕ
    → ℕ
    → (Vmm → Option (IndexOffset × Vmm))
    → IndexOffset
    → IndexOffset
    → Vmm
    → ℕ
    → Type 0
Made hhdm l p n first_pages original path s i =
    (q : ℕ) × (paddr : ℕ) × (s0 : Vmm) × (table_memory hhdm first_pages AllocScheme.use_pmm s
      ≡ some (q, paddr, s0))
    × (let s' = link_table hhdm original l p i q paddr s0 in
        Extends hhdm s s'
        × ((s'.tables p).next_tables i ≡ some q)
        × ((o : IndexOffset) → Agree (suc l) path o → table_at s' (suc l) o ≡ some q)
        × ((j : ℕ) → j < 512 → is_present ((s'.tables q).entries j) ≡ false)
        × CanMake n s'.frames)

-- Where two frames are free, the search gets a table.
pub table_memory-Made :
    (hhdm l p n : ℕ) (first_pages : Vmm → Option (IndexOffset × Vmm)) (original path : IndexOffset)
    (s : Vmm)
    → IsValid hhdm s
    → Fits path
    → l < 3
    → table_at s l path ≡ some p
    → is_present ((s.tables p).entries (index_at path l)) ≡ false
    → CanMake (suc n) s.frames
    → Made hhdm l p n first_pages original path s (index_at path l)
unfolding table_memory table_frames Made
table_memory-Made hhdm l p n first_pages original path s v fits high at absent (f, run, more) =
    let out = alloc_n_frames 2 s.frames in
    let q = add_64 out.0 hhdm in
    let s0 : Vmm = record s {
      frames = out.1;
      usage = record s.usage { size = add_64 s.usage.size 8192 };
    } in
    let s' = link_table hhdm original l p (index_at path l) q out.0 s0 in
    let place : q ≡ add_64 (f * 4096) hhdm = ap (λ a. add_64 a hhdm) run.address in
    let fresh : (m : ℕ) (o : IndexOffset) → m < 4 → Fits o → table_at s m o ≢ some q =
      λ m o h fo known.
        let (f', place', small, used) = v.owned m q o h fo known in
        let same : f' ≡ f + 0 =
          omega (arith, place, place', small, run.inside, v.frames_valid.small, v.offset) in
        let unused : bitmap_is_set s.frames.bitmap f' ≡ false =
          ap (bitmap_is_set s.frames.bitmap) same ∙ run.were_free 0 (omega arith) in
        cc (used, unused) in
    let apart : q ≢ p = λ e. fresh l path (omega (arith, high)) fits (at ∙ ap some (sym e)) in
    let k =
      link_table-IsLinked hhdm l p (index_at path l) q out.0 original s s0 apart high refl refl in
    let (tables, frames, root) = link_table-tables hhdm l p (index_at path l) q out.0 original s0 in
    let taken : bitmap_is_set out.1.bitmap f ≡ true = ground (arith, run.region.writes f) in
    let new_owned : Owned hhdm s' q = (
      f,
      place,
      omega (arith, run.inside, v.frames_valid.small),
      ap (λ (x : Pmm). bitmap_is_set x.bitmap f) frames ∙ taken,
    ) in
    let grown : (g : ℕ)
        → bitmap_is_set s.frames.bitmap g ≡ true
        → bitmap_is_set s'.frames.bitmap g ≡ true =
      λ g used.
        ap (λ (x : Pmm). bitmap_is_set x.bitmap g) frames
        ∙ ground (arith, run.region.writes g, used) in
    let frames_valid = subst Valid.IsValid (sym frames) run.region.valid in
    (
      q,
      out.0,
      s0,
      refl,
      (
        IsLinked-Extends hhdm s s' l p q path v fits high at absent fresh k frames_valid new_owned
            grown,
        k.now_behind,
        IsLinked-table_at hhdm s s' l p q path v fits high at absent fresh k frames_valid new_owned
            grown,
        k.empty,
        subst (CanMake n) (sym frames) more,
      ),
    )
