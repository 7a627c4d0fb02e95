-- ===== src/Vmm/Pages/Backed.antt =====
-- `allocPages` maps a run of free pages to frames that were free.
use native.Mathlib.Decide.{ℕ_discrete}
use dim_os.Common.{
  ℕ, zero, suc, ◌+◌, ◌*◌, ◌^◌, ◌≤◌, ◌<◌, ◌≡◌, ◌≢◌, ◌⊎◌, inl, inr, refl, sym, ap, ◌∙◌, true, false,
  leb, ◌==◌, if◌then◌else◌, arith, none, some,
}
use dim_os.Pmm.{Pmm, bitmap_is_set, alloc_frame}
use dim_os.Pmm.Alloc.{alloc_frame_some}
use dim_os.Paging.{IndexOffset, get_virtual_addr, next_page}
use dim_os.Paging.Index.{page_number, next_page_lem}
use dim_os.Vmm.{Vmm}
use dim_os.Vmm.Offsets.{Fits, Fits-IsValid}
use dim_os.Vmm.Tables.{table_at, translate, IsValid}
use dim_os.Vmm.Pages.{assign_page, assign_loop}
use dim_os.Vmm.Pages.Runs.{Fits→IsValid, page_number-eq}
use dim_os.Vmm.Pages.Framed.{assign_page-IsWritten}

-- The `n` pages from number `b` on have frames of their own that were free; all other pages are as before.
pub record IsBacked (hhdm : ℕ) (s : Vmm) (b n : ℕ) (s' : Vmm) : Type 0 where
  pub valid : IsValid hhdm s'
  pub backed :
      (x : IndexOffset)
      → Fits x
      → b ≤ page_number x
      → page_number x < b + n
      → (f : ℕ) × (translate s' x ≡ some (f * 4096))
        × (bitmap_is_set s.frames.bitmap f ≡ false)
        × (bitmap_is_set s'.frames.bitmap f ≡ true)
        × (f < s.frames.frame_cnt)
  pub apart :
      (x x' : IndexOffset)
      → Fits x
      → Fits x'
      → b ≤ page_number x
      → page_number x < page_number x'
      → page_number x' < b + n
      → translate s' x ≢ translate s' x'
  pub elsewhere :
      (x : IndexOffset)
      → Fits x
      → (page_number x < b) ⊎ (b + n ≤ page_number x)
      → translate s' x ≡ translate s x
  pub same_tables : (l : ℕ) (x : IndexOffset) → l < 4 → Fits x → table_at s' l x ≡ table_at s l x
  pub grown :
      (g : ℕ) → bitmap_is_set s.frames.bitmap g ≡ true → bitmap_is_set s'.frames.bitmap g ≡ true
  pub same_cnt : s'.frames.frame_cnt ≡ s.frames.frame_cnt
  pub count : s'.frames.usedframes ≡ s.frames.usedframes + n

-- One page first, then the rest.
IsBacked-cons :
    (hhdm b n f : ℕ) (s s1 s' : Vmm) (curr : IndexOffset)
    → Fits curr
    → page_number curr ≡ b
    → translate s1 curr ≡ some (f * 4096)
    → ((x : IndexOffset) → Fits x → page_number x ≢ b → translate s1 x ≡ translate s x)
    → bitmap_is_set s.frames.bitmap f ≡ false
    → ((g : ℕ)
        → bitmap_is_set s1.frames.bitmap g
          ≡ (if f == g then true else bitmap_is_set s.frames.bitmap g))
    → s1.frames.usedframes ≡ s.frames.usedframes + 1
    → s1.frames.frame_cnt ≡ s.frames.frame_cnt
    → f < s.frames.frame_cnt
    → ((l : ℕ) (x : IndexOffset) → l < 4 → Fits x → table_at s1 l x ≡ table_at s l x)
    → IsBacked hhdm s1 (b + 1) n s'
    → IsBacked hhdm s b (suc n) s'
IsBacked-cons hhdm b n f s s1 s' curr fits number gets others was_free marked count cnt small tables
      rest =
    let first : (x : IndexOffset) → Fits x → page_number x ≡ b → translate s' x ≡ some (f * 4096) =
      λ x fx e.
        rest.elsewhere x fx (inl (omega (arith, e)))
        ∙ ap (translate s1) (page_number-eq x curr fx fits (e ∙ sym number))
        ∙ gets in
    record {
      valid = rest.valid;
      backed = λ x fx from to. elim (ℕ_discrete (page_number x) b) [
        | yes e ↦ (f, first x fx e, was_free, rest.grown f (ground (arith, marked f)), small)
        | no ne ↦
            let (g, known, unset, set, bound) =
              rest.backed x fx (omega (arith, from, ne)) (omega (arith, to)) in
            (g, known, ground (arith, marked g, unset), set, omega (arith, bound, cnt))
      ];
      apart = λ x x' fx fx' from less to. elim (ℕ_discrete (page_number x) b) [
        | yes e ↦ λ same.
            let (g, known, unset, set, bound) =
              rest.backed x' fx' (omega (arith, e, less)) (omega (arith, to)) in
            let equal : some (f * 4096) ≡ some (g * 4096) = sym (first x fx e) ∙ same ∙ known in
            let value : f * 4096 ≡ g * 4096 = cc equal in ground (arith, marked g, unset, value)
        | no ne ↦ rest.apart x x' fx fx' (omega (arith, from, ne)) less (omega (arith, to))
      ];
      elsewhere = λ x fx out. rest.elsewhere x fx (outer x out) ∙ others x fx (away x out);
      same_tables = λ l x h fx. rest.same_tables l x h fx ∙ tables l x h fx;
      grown = λ g used. rest.grown g (ground (arith, marked g, used));
      same_cnt = rest.same_cnt ∙ cnt;
      count = omega (arith, rest.count, count);
    }
  where
    outer :
        (x : IndexOffset)
        → (page_number x < b) ⊎ (b + suc n ≤ page_number x)
        → (page_number x < b + 1) ⊎ (b + 1 + n ≤ page_number x)
    outer x (inl low) = inl (omega (arith, low))
    outer x (inr high) = inr (omega (arith, high))

    away : (x : IndexOffset) → (page_number x < b) ⊎ (b + suc n ≤ page_number x) → page_number x ≢ b
    away x (inl low) e = omega (arith, low, e)
    away x (inr high) e = omega (arith, high, e)

pub assign_loop-IsBacked :
    (hhdm n b : ℕ) (curr : IndexOffset) (s : Vmm)
    → IsValid hhdm s
    → Fits curr
    → (0 < n → page_number curr ≡ b)
    → b + n ≤ 2 ^ 36
    → ((x : IndexOffset)
        → Fits x
        → b ≤ page_number x
        → page_number x < b + n
        → table_at s 3 x ≢ none)
    → s.frames.usedframes + n ≤ s.frames.frame_cnt
    → s.frames.frame_cnt ≤ 2 ^ 40
    → (s' : Vmm) × (assign_loop hhdm n curr s ≡ some s') × IsBacked hhdm s b n s'
unfolding assign_loop
assign_loop-IsBacked hhdm zero b curr s v fits number inside has room small = (
  s,
  refl,
  record {
    valid = v;
    backed = λ x fx from to. absurd (omega (arith, from, to));
    apart = λ x x' fx fx' from less to. absurd (omega (arith, from, less, to));
    elsewhere = λ x fx out. refl;
    same_tables = λ l x h fx. refl;
    grown = λ g used. used;
    same_cnt = refl;
    count = omega arith;
  },
)
assign_loop-IsBacked hhdm (suc n) b curr s v fits number inside has room small =
    let here : page_number curr ≡ b = number (omega arith) in
    let (f, a) = alloc_frame_some s.frames v.frames_valid (λ full. omega (arith, full, room)) in
    let k = (alloc_frame s.frames).1 in
    let higher = leb hhdm (get_virtual_addr curr) in
    let (s1, gives, v1, gets, others, tables, frames) =
      assign_page-IsWritten hhdm f higher s k curr v a.valid
        (λ g used. ground (arith, a.marked g, used)) fits
        (has curr fits (omega (arith, here)) (omega (arith, here)))
        (omega (arith, a.inside, small)) in
    let (valid, next) = next_page_lem curr (Fits→IsValid curr fits) in
    let (s', rest, good) =
      assign_loop-IsBacked hhdm n (b + 1) (next_page curr) s1 v1
        (Fits-IsValid (next_page curr) valid)
        (λ some_left. omega (arith, next, here, inside, some_left)) (omega (arith, inside))
        (λ x fx from to lost.
          has x fx (omega (arith, from)) (omega (arith, to))
            (sym (tables 3 x (omega arith) fx) ∙ lost))
        (omega (
          arith,
          ap (λ (z : Pmm). z.usedframes) frames,
          ap (λ (z : Pmm). z.frame_cnt) frames,
          a.count,
          a.same_cnt,
          room,
        ))
        (omega (arith, ap (λ (z : Pmm). z.frame_cnt) frames, a.same_cnt, small)) in
    let step : assign_page curr (alloc_frame s.frames).0 higher (record s { frames = k })
        ≡ some s1 =
      ap (λ z. assign_page curr z higher (record s { frames = k })) a.address ∙ gives in
    (
      s',
      rw (assign_loop, step) rest,
      IsBacked-cons hhdm b n f s s1 s' curr fits here gets
          (λ x fx ne. others x fx (λ e. ne (e ∙ here))) a.was_free
          (λ g. ap (λ (z : Pmm). bitmap_is_set z.bitmap g) frames ∙ a.marked g)
          (ap (λ (z : Pmm). z.usedframes) frames ∙ a.count)
          (ap (λ (z : Pmm). z.frame_cnt) frames ∙ a.same_cnt) a.inside tables good,
    )
