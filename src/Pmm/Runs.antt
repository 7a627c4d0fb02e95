-- ===== src/Pmm/Runs.antt =====
-- `firstNFreeFrames`: the sliding window finds the first run of free frames.
use dim_os.Common.{
  ℕ, zero, suc, ◌+◌, ◌-◌, ◌*◌, ◌≤◌, ◌<◌, ◌≡◌, refl, true, false, ltb, ◌==◌, arith, Option, none,
  some, Bool-cases, inl, inr,
}
use native.Mathlib.Nat.{zero-add}
use native.Mathlib.Numerals.{add-one}
use native.Mathlib.Decide.{dec_lt}
use dim_os.Pmm.{
  Bitmap, Pmm, bitmap_is_set, unset_bit, window_start, slide, first_n_free_frames, element_cnt,
}

-- Frames `s`, `s + 1`, …, `s + n - 1` are free.
abbrev pub FreeRun : Bitmap → ℕ → ℕ → Type 0
FreeRun w s n = (g : ℕ) → g < n → bitmap_is_set w (s + g) ≡ false

-- How many frames of a window are free.
abbrev free_count : Bitmap → ℕ → ℕ → ℕ
free_count w s zero = 0
free_count w s (suc n) = free_count w s n + unset_bit w (s + n)

free_count-le : (w : Bitmap) (s n : ℕ) → free_count w s n ≤ n
free_count-le w s zero = omega arith
free_count-le w s (suc n) = ground (arith, free_count-le w s n)

free_count-FreeRun : (w : Bitmap) (s n : ℕ) → free_count w s n ≡ n → FreeRun w s n
free_count-FreeRun w s zero e g h = absurd (omega arith)
free_count-FreeRun w s (suc n) e g h = elim (dec_lt g n) [
  | yes lt ↦ free_count-FreeRun w s n (ground (arith, free_count-le w s n)) g lt
  | no ge ↦ let last : g ≡ n = omega arith in rw last (ground (arith, free_count-le w s n))
]

FreeRun-free_count : (w : Bitmap) (s n : ℕ) → FreeRun w s n → free_count w s n ≡ n
FreeRun-free_count w s zero h = refl
FreeRun-free_count w s (suc n) h =
    ground (arith, FreeRun-free_count w s n (λ g q. h g (omega arith)), h n (omega arith))

-- The window moves by one frame.
free_count-slide :
    (w : Bitmap) (s n : ℕ)
    → free_count w (s + 1) n + unset_bit w s ≡ free_count w s n + unset_bit w (s + n)
free_count-slide w s zero = let e : s + 0 ≡ s = omega arith in rw e
free_count-slide w s (suc n) =
    let e : s + 1 + n ≡ s + suc n = omega arith in rw e (omega (arith, free_count-slide w s n))

window_start-eq :
    (w : Bitmap) (rounds i j free : ℕ)
    → j ≡ i + rounds
    → free ≡ free_count w 0 i
    → window_start w rounds i free ≡ free_count w 0 j
unfolding window_start
window_start-eq w zero i j free e f = let e' : j ≡ i = omega arith in rw e' f
window_start-eq w (suc rounds) i j free e f =
    window_start-eq w rounds (i + 1) j _ (omega arith) (rw (f, add-one) (rw zero-add))

-- What the search for `n` frames found among the runs that start at `lo` or later and end by `hi`.
abbrev pub IsFirstRun : Bitmap → ℕ → ℕ → ℕ → Option ℕ → Type 0
IsFirstRun w n lo hi none = (s : ℕ) → lo ≤ s → s + n ≤ hi → ¬ (FreeRun w s n)
IsFirstRun w n lo hi (some f) =
    (lo ≤ f) × (f + n ≤ hi) × FreeRun w f n × ((s : ℕ) → lo ≤ s → s < f → ¬ (FreeRun w s n))

IsFirstRun-cons :
    (w : Bitmap) (n lo hi : ℕ) (r : Option ℕ)
    → ¬ (FreeRun w lo n)
    → IsFirstRun w n (lo + 1) hi r
    → IsFirstRun w n lo hi r
IsFirstRun-cons w n lo hi none no_run h = λ s p q run. elim (dec_lt lo s) [
  | yes lt ↦ h s (omega arith) q run
  | no ge ↦ let e : s ≡ lo = omega arith in no_run (rw e at run)
]
IsFirstRun-cons w n lo hi (some f) no_run h = (
  omega arith,
  h.1,
  h.2,
  λ s p q run. elim (dec_lt lo s) [
    | yes lt ↦ h.3 s (omega arith) q run
    | no ge ↦ let e : s ≡ lo = omega arith in no_run (rw e at run)
  ],
)

-- A window with a frame in use is no run.
no_run :
    (w : Bitmap) (lo n free : ℕ)
    → free ≡ free_count w lo n
    → (free == n) ≡ false
    → ¬ (FreeRun w lo n)
no_run w lo n free e h run = ground (arith, FreeRun-free_count w lo n run)

run_found :
    (w : Bitmap) (n lo hi i free : ℕ)
    → i ≡ lo + n
    → i ≤ hi
    → free ≡ free_count w lo n
    → (free == n) ≡ true
    → IsFirstRun w n lo hi (some (i - n))
run_found w n lo hi i free e le f h =
    let at : i - n ≡ lo = omega arith in
    rw at (
      omega arith,
      omega arith,
      free_count-FreeRun w lo n (ground arith),
      λ s p q run. absurd (omega arith),
    )

slide-IsFirstRun :
    (w : Bitmap) (n rounds lo hi i free : ℕ)
    → i ≡ lo + n
    → hi ≡ i + rounds
    → free ≡ free_count w lo n
    → IsFirstRun w n lo hi (slide w n rounds i free)
unfolding slide
slide-IsFirstRun w n zero lo hi i free e f c = elim (Bool-cases (free == n)) [
  | inl found ↦ rw found (run_found w n lo hi i free e (omega arith) c found)
  | inr other ↦
      rw other
        λ s p q run. let at : s ≡ lo = omega arith in no_run w lo n free c other (rw at at run)
]
slide-IsFirstRun w n (suc rounds) lo hi i free e f c = elim (Bool-cases (free == n)) [
  | inl found ↦ rw found (run_found w n lo hi i free e (omega arith) c found)
  | inr other ↦ rw other (
      IsFirstRun-cons w n lo hi _ (no_run w lo n free c other)
        (slide-IsFirstRun w n rounds (lo + 1) hi (i + 1) _ (omega arith) (omega arith) moved))
]
  where
    moved : free + unset_bit w i - unset_bit w (i - n) ≡ free_count w (lo + 1) n
    moved =
        let at : i - n ≡ lo = omega arith in rw (at, e, c) (omega (arith, free_count-slide w lo n))

-- For a request of at most `elementCnt` frames, `firstNFreeFrames` returns the start of the first run
-- of that many free frames among those that the words of the bitmap hold, and -1 exactly if there is
-- no such run.
pub first_n_free_frames-IsFirstRun :
    (n : ℕ) (p : Pmm)
    → n ≤ element_cnt p.frame_cnt
    → IsFirstRun p.bitmap n 0 (element_cnt p.frame_cnt * 64) (first_n_free_frames n p)
unfolding first_n_free_frames
first_n_free_frames-IsFirstRun n p h =
    let fits : ltb (element_cnt p.frame_cnt) n ≡ false = ground arith in
    rw fits (
      slide-IsFirstRun p.bitmap n (element_cnt p.frame_cnt * 64 - n) 0
        (element_cnt p.frame_cnt * 64) n _ (omega arith) (omega arith)
        (window_start-eq p.bitmap n 0 n 0 (omega arith) refl))
