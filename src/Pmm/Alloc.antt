-- ===== src/Pmm/Alloc.antt =====
-- `allocFrame` and `freeFrame`.
use dim_os.Common.{
  ℕ, ◌+◌, ◌*◌, ◌/◌, ◌<◌, ◌≡◌, refl, ◌≢◌, true, false, ◌==◌, if◌then◌else◌, arith, some, Bool-cases,
  Option-cases, inl, inr, ◌∙◌,
}
use dim_os.Pmm.{Pmm, bitmap_is_set, alloc_frame, free_frame, first_free_frame}
use native.Mathlib.Decide.{dec_lt}
use dim_os.Pmm.Bitmap.{used-eq, used-le, used_pos, is_set-set, is_set-unset}
use dim_os.Pmm.Valid.{IsValid, take-IsValid, give-IsValid}
use dim_os.Pmm.FirstFree.{first_free_frame-IsFirstFree}

-- What `allocFrame` promises when it gives frame `f`: the address, the least free frame, exactly one
-- more bit set, one more frame counted, and the invariant.
pub record IsAlloc (p : Pmm) (f : ℕ) (out : ℕ × Pmm) : Type 0 where
  pub inside : f < p.frame_cnt
  pub address : out.0 ≡ f * 4096
  pub was_free : bitmap_is_set p.bitmap f ≡ false
  pub least : (g : ℕ) → g < f → bitmap_is_set p.bitmap g ≡ true
  pub marked :
      (g : ℕ) → bitmap_is_set out.1.bitmap g ≡ (if f == g then true else bitmap_is_set p.bitmap g)
  pub count : out.1.usedframes ≡ p.usedframes + 1
  pub same_cnt : out.1.frame_cnt ≡ p.frame_cnt
  pub valid : IsValid out.1

-- A count below the number of frames leaves a free frame below that number.
first_free_in_range :
    (p : Pmm)
    → IsValid p
    → p.usedframes ≢ p.frame_cnt
    → (f : ℕ) × (first_free_frame p ≡ some f)
      × (f < p.frame_cnt)
      × (bitmap_is_set p.bitmap f ≡ false)
      × ((g : ℕ) → g < f → bitmap_is_set p.bitmap g ≡ true)
first_free_in_range p v ne = elim (Option-cases (first_free_frame p)) [
  | inl full ↦
      let found = rw full at (first_free_frame-IsFirstFree p) in
      absurd
        (ne (v.counted ∙ used-eq p.bitmap p.frame_cnt (λ g h. found g (omega arith) (omega arith))))
  | inr (f, e) ↦
      let found = rw e at (first_free_frame-IsFirstFree p) in
      elim (dec_lt f p.frame_cnt) [
        | yes h ↦ (f, e, h, found.2, λ g q. found.3 g (omega arith) q)
        | no h ↦ absurd (
            ne (
              v.counted
              ∙ used-eq p.bitmap p.frame_cnt (λ g q. found.3 g (omega arith) (omega arith))))
      ]
]

-- While the count is below the number of frames, `allocFrame` gives the least free frame.
pub alloc_frame_some :
    (p : Pmm) → IsValid p → p.usedframes ≢ p.frame_cnt → (f : ℕ) × IsAlloc p f (alloc_frame p)
unfolding alloc_frame
alloc_frame_some p v ne =
    let (f, found, inside, free, least) = first_free_in_range p v ne in
    let not_full : (p.usedframes == p.frame_cnt) ≡ false = ground arith in
    (
      f,
      rw (not_full, found)
          (record {
            inside = inside;
            address = omega (arith, v.small);
            was_free = free;
            least = least;
            marked = λ g. is_set-set p.bitmap f g;
            count = omega (arith, v.counted, used-le p.bitmap p.frame_cnt, v.small);
            same_cnt = refl;
            valid = take-IsValid p f v inside free;
          }),
    )

-- When every frame is in use, `allocFrame` returns 0 and changes nothing.
pub alloc_frame_none : (p : Pmm) → p.usedframes ≡ p.frame_cnt → alloc_frame p ≡ (0, p)
unfolding alloc_frame
alloc_frame_none p e = let full : (p.usedframes == p.frame_cnt) ≡ true = ground arith in rw full

-- What `freeFrame` promises at an address of frame `f`.
pub record IsFreed (p : Pmm) (f : ℕ) (q : Pmm) : Type 0 where
  pub cleared :
      (g : ℕ) → bitmap_is_set q.bitmap g ≡ (if f == g then false else bitmap_is_set p.bitmap g)
  pub count : q.usedframes + (if bitmap_is_set p.bitmap f then 1 else 0) ≡ p.usedframes
  pub same_cnt : q.frame_cnt ≡ p.frame_cnt
  pub valid : IsValid q

-- `freeFrame` at any address inside frame `f` of the managed memory clears the bit of that frame and
-- no other, counts one frame less exactly if the bit was set, and keeps the invariant; freeing a
-- free frame therefore changes nothing.
pub free_frame-IsFreed :
    (p : Pmm) (addr : ℕ)
    → IsValid p
    → addr / 4096 < p.frame_cnt
    → IsFreed p (addr / 4096) (free_frame addr p)
unfolding free_frame
free_frame-IsFreed p addr v h = elim (Bool-cases (bitmap_is_set p.bitmap (addr / 4096))) [
  | inl set ↦ rw set (record {
    cleared = λ g. is_set-unset p.bitmap (addr / 4096) g;
    count =
        ground
          (arith, used_pos p.bitmap (addr / 4096) p.frame_cnt h set, used-le p.bitmap p.frame_cnt);
    same_cnt = refl;
    valid = give-IsValid p (addr / 4096) v h set;
  })
  | inr free ↦
      rw free
        (record { cleared = λ g. ground arith; count = ground arith; same_cnt = refl; valid = v })
]

-- Freeing the address that `allocFrame` gave restores the set of frames in use and their number.
pub free-alloc :
    (p : Pmm)
    → IsValid p
    → p.usedframes ≢ p.frame_cnt
    → let (addr, q) = alloc_frame p in
      ((g : ℕ) → bitmap_is_set (free_frame addr q).bitmap g ≡ bitmap_is_set p.bitmap g)
      × ((free_frame addr q).usedframes ≡ p.usedframes)
free-alloc p v ne =
    let (f, a) = alloc_frame_some p v ne in
    let page : (alloc_frame p).0 / 4096 ≡ f = omega (arith, a.address) in
    let freed =
      free_frame-IsFreed (alloc_frame p).1 (alloc_frame p).0 a.valid
        (rw (page, a.same_cnt) a.inside) in
    (
      λ g. ground (arith, freed.cleared g, a.marked g, a.was_free, page),
      ground (arith, freed.count, a.marked f, a.count, page),
    )
