-- ===== src/Pmm/AllocRun.antt =====
-- `allocNFrames`.
use dim_os.Common.{
  ℕ, ◌+◌, ◌*◌, ◌%◌, ◌≤◌, ◌<◌, ◌≡◌, true, false, arith, some, Option-cases, ◌⊎◌, inl, inr, add_64,
  slt_64,
}
use native.Mathlib.Decide.{dec_lt}
use dim_os.Pmm.{Pmm, alloc_n_frames, first_n_free_frames, element_cnt}
use dim_os.Pmm.Valid.{IsValid}
use dim_os.Pmm.Bitmap.{used-le}
use dim_os.Pmm.Runs.{FreeRun, first_n_free_frames-IsFirstRun}
use dim_os.Pmm.Regions.{IsRegion, take_frames-IsRegion}

-- What `allocNFrames` promises when it gives the `n` frames from `f` on.
pub record IsAllocRun (p : Pmm) (n f : ℕ) (out : ℕ × Pmm) : Type 0 where
  pub inside : f + n ≤ p.frame_cnt
  pub address : out.0 ≡ f * 4096
  pub were_free : FreeRun p.bitmap f n
  pub least : (s : ℕ) → s < f → ¬ (FreeRun p.bitmap s n)
  pub region : IsRegion true f n p out.1
  pub count : out.1.usedframes ≡ p.usedframes + n

guard_passes :
    (p : Pmm) (n : ℕ)
    → IsValid p
    → p.usedframes + n < p.frame_cnt
    → slt_64 (add_64 p.usedframes n) p.frame_cnt ≡ true
guard_passes p n v h = ground arith

guard_stops :
    (p : Pmm) (n : ℕ)
    → IsValid p
    → n ≤ element_cnt p.frame_cnt
    → p.frame_cnt ≤ p.usedframes + n
    → slt_64 (add_64 p.usedframes n) p.frame_cnt ≡ false
guard_stops p n v few h = ground (arith, used-le p.bitmap p.frame_cnt)

alloc_found :
    (p : Pmm) (n f : ℕ)
    → IsValid p
    → p.frame_cnt % 64 ≡ 0
    → n ≤ element_cnt p.frame_cnt
    → p.usedframes + n < p.frame_cnt
    → first_n_free_frames n p ≡ some f
    → IsAllocRun p n f (alloc_n_frames n p)
unfolding alloc_n_frames
alloc_found p n f v whole few room found =
    let (lo, hi, run, least) = rw found at (first_n_free_frames-IsFirstRun n p few) in
    let inside : f + n ≤ p.frame_cnt = omega (arith, hi) in
    let (r, count) = take_frames-IsRegion n f p v inside run in
    rw (guard_passes p n v room, found)
      (record {
        inside = inside;
        address = omega (arith, inside, room, v.small);
        were_free = run;
        least = λ s h. least s (omega arith) h;
        region = r;
        count = count;
      })

first_le :
    (p : Pmm) (n s f : ℕ)
    → FreeRun p.bitmap s n
    → ((t : ℕ) → t < f → ¬ (FreeRun p.bitmap t n))
    → f ≤ s
first_le p n s f run least = elim (dec_lt s f) [
  | yes h ↦ absurd (least s h run)
  | no h ↦ omega arith
]

-- If the invariant holds, the number of frames is a multiple of 64, at most `elementCnt` frames
-- are asked for, the frames in use and these stay below the number of frames, and some run of
-- so many free frames lies inside the memory, then `allocNFrames` takes the first such run,
-- whole, counts it, and keeps the invariant.
pub alloc_n_frames_some :
    (p : Pmm) (n s : ℕ)
    → IsValid p
    → p.frame_cnt % 64 ≡ 0
    → n ≤ element_cnt p.frame_cnt
    → p.usedframes + n < p.frame_cnt
    → s + n ≤ p.frame_cnt
    → FreeRun p.bitmap s n
    → (f : ℕ) × (f ≤ s) × IsAllocRun p n f (alloc_n_frames n p)
alloc_n_frames_some p n s v whole few room inside run =
    elim (Option-cases (first_n_free_frames n p)) [
      | inl missed ↦
          absurd (
            rw missed at (first_n_free_frames-IsFirstRun n p few) s (omega arith) (omega arith) run)
      | inr (f, found) ↦
          let first = rw found at (first_n_free_frames-IsFirstRun n p few) in
          (
            f,
            first_le p n s f run (λ t h. first.3 t (omega arith) h),
            alloc_found p n f v whole few room found,
          )
    ]

-- If the invariant holds and at most `elementCnt` frames are asked for, but the frames in use
-- and these reach the number of frames, or there is no run of so many free frames in the words
-- of the bitmap, then `allocNFrames` returns 0 and changes nothing.
pub alloc_n_frames_none :
    (p : Pmm) (n : ℕ)
    → IsValid p
    → n ≤ element_cnt p.frame_cnt
    → (p.frame_cnt ≤ p.usedframes + n)
      ⊎ ((s : ℕ) → s + n ≤ element_cnt p.frame_cnt * 64 → ¬ (FreeRun p.bitmap s n))
    → alloc_n_frames n p ≡ (0, p)
unfolding alloc_n_frames
alloc_n_frames_none p n v few (inl full) = rw (guard_stops p n v few full)
alloc_n_frames_none p n v few (inr no_run) = elim (Option-cases (first_n_free_frames n p)) [
  | inl missed ↦ rw missed (ground arith)
  | inr (f, found) ↦
      let first = rw found at (first_n_free_frames-IsFirstRun n p few) in
      absurd (no_run f first.1 first.2)
]
