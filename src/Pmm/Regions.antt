-- ===== src/Pmm/Regions.antt =====
-- `initRegion`, `deinitRegion` and the loop of `allocNFrames`: which frames they touch.
use dim_os.Common.{
  ℕ, zero, suc, ◌+◌, ◌-◌, ◌*◌, ◌/◌, ◌%◌, ◌^◌, ◌≤◌, ◌<◌, ◌≡◌, refl, Bool, true, false, ◌&&◌, ltb,
  leb, ◌==◌, if◌then◌else◌, arith, add_64, sub_64, two_64, Bool-cases, inl, inr, ◌∙◌,
}
use native.Mathlib.Nat.{add-zero}
use dim_os.Pmm.{
  Pmm, Bitmap, bitmap_is_set, bitmap_set, bitmap_unset, init_loop, deinit_loop, take_frames,
  init_region, deinit_region, region_first, region_count,
}
use dim_os.Pmm.Bitmap.{is_set-set, is_set-unset, used-le, used-set, used-unset}
use dim_os.Pmm.Valid.{IsValid, take-IsValid, give-IsValid}

-- Frame `g` is one of the `cnt` frames from `first` on.
abbrev pub within : ℕ → ℕ → ℕ → Bool
within first cnt g = leb first g && ltb g (first + cnt)

-- The bits of `w` are those of `v`, but `b` on `cnt` frames from `first` on.
abbrev pub Writes : Bool → ℕ → ℕ → Bitmap → Bitmap → Type 0
Writes b first cnt v w =
    (g : ℕ) → bitmap_is_set w g ≡ (if within first cnt g then b else bitmap_is_set v g)

-- What a loop over a region inside the managed memory keeps.
pub record IsRegion (b : Bool) (first cnt : ℕ) (p q : Pmm) : Type 0 where
  pub writes : Writes b first cnt p.bitmap q.bitmap
  pub same_cnt : q.frame_cnt ≡ p.frame_cnt
  pub valid : IsValid q

-- One frame, then the rest of the region.
pub Writes-cons :
    (b : Bool) (first cnt : ℕ) (v m w : Bitmap)
    → ((g : ℕ) → bitmap_is_set m g ≡ (if first == g then b else bitmap_is_set v g))
    → Writes b (first + 1) cnt m w
    → Writes b first (suc cnt) v w
Writes-cons b first cnt v m w one rest g = ground (arith, one g, rest g)

IsRegion-cons :
    (b : Bool) (first cnt : ℕ) (p m q : Pmm)
    → ((g : ℕ) → bitmap_is_set m.bitmap g ≡ (if first == g then b else bitmap_is_set p.bitmap g))
    → m.frame_cnt ≡ p.frame_cnt
    → IsRegion b (first + 1) cnt m q
    → IsRegion b first (suc cnt) p q
IsRegion-cons b first cnt p m q one e r = record {
  writes = Writes-cons b first cnt p.bitmap m.bitmap q.bitmap one r.writes;
  same_cnt = r.same_cnt ∙ e;
  valid = r.valid;
}

IsRegion-nil : (b : Bool) (first : ℕ) (p : Pmm) → IsValid p → IsRegion b first 0 p p
IsRegion-nil b first p v = record { writes = λ g. ground arith; same_cnt = refl; valid = v }

-- Clearing the bit of any frame keeps the invariant, and so does setting it.
clear-IsValid :
    (p : Pmm) (f : ℕ)
    → IsValid p
    → f < p.frame_cnt
    → IsValid (record p {
      bitmap = bitmap_unset p.bitmap f;
      usedframes = if bitmap_is_set p.bitmap f then sub_64 p.usedframes 1 else p.usedframes;
    })
clear-IsValid p f v h = elim (Bool-cases (bitmap_is_set p.bitmap f)) [
  | inl set ↦ rw set (give-IsValid p f v h set)
  | inr free ↦ rw free (ground (arith, used-unset p.bitmap f p.frame_cnt))
]

mark-IsValid :
    (p : Pmm) (f : ℕ)
    → IsValid p
    → f < p.frame_cnt
    → IsValid (record p {
      bitmap = bitmap_set p.bitmap f;
      usedframes = if bitmap_is_set p.bitmap f then p.usedframes else add_64 p.usedframes 1;
    })
mark-IsValid p f v h = elim (Bool-cases (bitmap_is_set p.bitmap f)) [
  | inl set ↦ rw set (ground (arith, used-set p.bitmap f p.frame_cnt))
  | inr free ↦ rw free (take-IsValid p f v h free)
]

pub init_loop-IsRegion :
    (cnt first : ℕ) (p : Pmm)
    → IsValid p
    → first + cnt ≤ p.frame_cnt
    → IsRegion false first cnt p (init_loop cnt first p)
unfolding init_loop
init_loop-IsRegion zero first p v h = IsRegion-nil false first p v
init_loop-IsRegion (suc cnt) first p v h =
    IsRegion-cons false first cnt p _ _ (λ g. is_set-unset p.bitmap first g) refl
      (init_loop-IsRegion cnt (first + 1) _ (clear-IsValid p first v (omega arith)) (omega arith))

pub deinit_loop-IsRegion :
    (cnt first : ℕ) (p : Pmm)
    → IsValid p
    → first + cnt ≤ p.frame_cnt
    → IsRegion true first cnt p (deinit_loop cnt first p)
unfolding deinit_loop
deinit_loop-IsRegion zero first p v h = IsRegion-nil true first p v
deinit_loop-IsRegion (suc cnt) first p v h =
    IsRegion-cons true first cnt p _ _ (λ g. is_set-set p.bitmap first g) refl
      (deinit_loop-IsRegion cnt (first + 1) _ (mark-IsValid p first v (omega arith)) (omega arith))

-- At a page-aligned start the region begins at its frame and reaches up to the last byte.
pub region_aligned :
    (a size : ℕ)
    → a * 4096 + size < 2 ^ 63
    → (region_first (a * 4096) ≡ a) × (region_count (a * 4096) size ≡ (size + 4095) / 4096)
region_aligned a size h = (omega arith, count)
  where
    first : (a * 4096 + 4095) % two_64 / 4096 ≡ a
    first = omega arith

    gap : (a * 4096 % two_64 + (two_64 - a * 4096)) % two_64 ≡ 0
    gap = omega arith

    count : region_count (a * 4096) size ≡ (size + 4095) / 4096
    count = rw (first, gap) (ground arith)

still_free :
    (p : Pmm) (first n : ℕ)
    → ((g : ℕ) → g < suc n → bitmap_is_set p.bitmap (first + g) ≡ false)
    → (g : ℕ) → g < n
    → bitmap_is_set (bitmap_set p.bitmap first) (first + 1 + g) ≡ false
still_free p first n free g q =
    let e : first + 1 + g ≡ first + suc g = omega arith in
    rw e (ground (arith, is_set-set p.bitmap first (first + suc g), free (suc g) (omega arith)))

-- The loop of `allocNFrames`, over frames that are free.
pub take_frames-IsRegion :
    (n first : ℕ) (p : Pmm)
    → IsValid p
    → first + n ≤ p.frame_cnt
    → ((g : ℕ) → g < n → bitmap_is_set p.bitmap (first + g) ≡ false)
    → IsRegion true first n p (take_frames n first p)
      × ((take_frames n first p).usedframes ≡ p.usedframes + n)
unfolding take_frames
take_frames-IsRegion zero first p v h free = (IsRegion-nil true first p v, omega arith)
take_frames-IsRegion (suc n) first p v h free =
    let free_first : bitmap_is_set p.bitmap first ≡ false = rw add-zero at (free 0 (omega arith)) in
    let (r, count) =
      take_frames-IsRegion n (first + 1) _ (take-IsValid p first v (omega arith) free_first)
        (omega arith) (λ g q. still_free p first n free g q) in
    (
      IsRegion-cons true first n p _ _ (λ g. is_set-set p.bitmap first g) refl r,
      omega (arith, count, v.counted, used-le p.bitmap p.frame_cnt, v.small),
    )

-- At a page-aligned start, for a region whose frames lie in the managed memory, `initRegion`
-- frees exactly the frames that the region touches, the last one also if the region ends inside
-- it, and keeps the invariant.
pub init_region-IsRegion :
    (a size : ℕ) (p : Pmm)
    → IsValid p
    → a + (size + 4095) / 4096 ≤ p.frame_cnt
    → IsRegion false a ((size + 4095) / 4096) p (init_region (a * 4096) size p)
unfolding init_region
init_region-IsRegion a size p v h =
    let (first, cnt) = region_aligned a size (omega (arith, v.small)) in
    rw (cnt, first) (init_loop-IsRegion ((size + 4095) / 4096) a p v h)

-- At a page-aligned start, for a region whose frames lie in the managed memory, `deinitRegion`
-- marks exactly the frames that the region touches, the last one also if the region ends inside
-- it, and keeps the invariant.
pub deinit_region-IsRegion :
    (a size : ℕ) (p : Pmm)
    → IsValid p
    → a + (size + 4095) / 4096 ≤ p.frame_cnt
    → IsRegion true a ((size + 4095) / 4096) p (deinit_region (a * 4096) size p)
unfolding deinit_region
deinit_region-IsRegion a size p v h =
    let (first, cnt) = region_aligned a size (omega (arith, v.small)) in
    rw (cnt, first) (deinit_loop-IsRegion ((size + 4095) / 4096) a p v h)
