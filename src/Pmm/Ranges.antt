-- ===== src/Pmm/Ranges.antt =====
-- The parts of `PMM::init`: the search for room, the loop over the ranges, whole ranges taken back.
use dim_os.Common.{
  ℕ, zero, suc, ◌+◌, ◌*◌, ◌/◌, ◌%◌, ◌≤◌, ◌<◌, ◌≡◌, refl, Bool, true, false, ◌||◌, ltb,
  if◌then◌else◌, arith, none, some, Bool-cases, inl, inr, ◌∙◌,
}
use mathlib.Core.Path.{subst}
use native.Mathlib.Decide.{dec_lt}
use dim_os.Pmm.{
  MemRange, PhysicalMemMap, Pmm, bitmap_is_set, deinit_loop, deinit_region, init_region,
  init_ranges, bitmap_range,
}
use dim_os.Pmm.Valid.{IsValid}
use dim_os.Pmm.Bitmap.{is_set-set}
use dim_os.Pmm.Regions.{
  within, Writes, Writes-cons, IsRegion, init_region-IsRegion, deinit_region-IsRegion,
}

-- The number of pages that a size touches from an aligned start on.
abbrev pub pages : ℕ → ℕ
pages size = (size + 4095) / 4096

-- A range starts at a page and lies in the first `cnt` frames.
pub record IsAligned (cnt : ℕ) (r : MemRange) : Type 0 where
  pub start_page : r.start % 4096 ≡ 0
  pub inside : r.start / 4096 + pages r.size ≤ cnt

-- Frame `g` belongs to one of the ranges from `i` on.
abbrev pub covered : (ℕ → MemRange) → ℕ → ℕ → ℕ → Bool
covered ranges zero i g = false
covered ranges (suc rounds) i g =
    within ((ranges i).start / 4096) (pages (ranges i).size) g || covered ranges rounds (i + 1) g

-- The loop writes the region whatever the count of used frames is.
pub deinit_loop-Writes :
    (cnt first : ℕ) (p : Pmm) → Writes true first cnt p.bitmap (deinit_loop cnt first p).bitmap
unfolding deinit_loop
deinit_loop-Writes zero first p = λ g. ground arith
deinit_loop-Writes (suc cnt) first p =
    Writes-cons true first cnt p.bitmap _ _ (λ g. is_set-set p.bitmap first g)
      (deinit_loop-Writes cnt (first + 1) _)

pub deinit_loop-frame_cnt :
    (cnt first : ℕ) (p : Pmm) → (deinit_loop cnt first p).frame_cnt ≡ p.frame_cnt
unfolding deinit_loop
deinit_loop-frame_cnt zero first p = refl
deinit_loop-frame_cnt (suc cnt) first p = deinit_loop-frame_cnt cnt (first + 1) _

-- A start on a page is the address of its frame.
start_frame : (cnt : ℕ) (r : MemRange) → IsAligned cnt r → r.start / 4096 * 4096 ≡ r.start
start_frame cnt r al = omega arith

init_range-IsRegion :
    (p : Pmm) (r : MemRange)
    → IsValid p
    → IsAligned p.frame_cnt r
    → IsRegion false (r.start / 4096) (pages r.size) p (init_region r.start r.size p)
init_range-IsRegion p r v al =
    subst (λ s. IsRegion false (r.start / 4096) (pages r.size) p (init_region s r.size p))
      (start_frame p.frame_cnt r al) (init_region-IsRegion (r.start / 4096) r.size p v al.inside)

pub deinit_range-IsRegion :
    (p : Pmm) (r : MemRange)
    → IsValid p
    → IsAligned p.frame_cnt r
    → IsRegion true (r.start / 4096) (pages r.size) p (deinit_region r.start r.size p)
deinit_range-IsRegion p r v al =
    subst (λ s. IsRegion true (r.start / 4096) (pages r.size) p (deinit_region s r.size p))
      (start_frame p.frame_cnt r al) (deinit_region-IsRegion (r.start / 4096) r.size p v al.inside)

-- What the loop over the ranges leaves behind.
pub record IsOpened (ranges : ℕ → MemRange) (rounds i : ℕ) (p q : Pmm) : Type 0 where
  pub valid : IsValid q
  pub same_cnt : q.frame_cnt ≡ p.frame_cnt
  pub bits :
      (g : ℕ)
      → bitmap_is_set q.bitmap g
        ≡ (if covered ranges rounds i g then false else bitmap_is_set p.bitmap g)

-- Freeing the ranges one after the other frees exactly what they cover.
pub init_ranges-IsOpened :
    (ranges : ℕ → MemRange) (rounds i : ℕ) (p : Pmm)
    → IsValid p
    → ((k : ℕ) → k < i + rounds → IsAligned p.frame_cnt (ranges k))
    → IsOpened ranges rounds i p (init_ranges ranges rounds i p)
unfolding init_ranges
init_ranges-IsOpened ranges zero i p v al = record { valid = v; same_cnt = refl; bits = λ g. refl }
init_ranges-IsOpened ranges (suc rounds) i p v al =
    let one = init_range-IsRegion p (ranges i) v (al i (omega arith)) in
    let rest =
      init_ranges-IsOpened ranges rounds (i + 1) _ one.valid
        (λ k h. rw one.same_cnt (al k (omega arith))) in
    record {
      valid = rest.valid;
      same_cnt = rest.same_cnt ∙ one.same_cnt;
      bits = λ g. ground (arith, rest.bits g, one.writes g);
    }

-- The search for room returns one of the first two ranges, cut to the size wanted.
pub bitmap_range_lem :
    (mem : PhysicalMemMap) (req rounds i : ℕ) (r : MemRange)
    → bitmap_range mem req rounds i ≡ some r
    → (k : ℕ) × (k < i + rounds)
      × (r.start ≡ (mem.available k).start)
      × (r.size ≡ req)
      × (req ≤ (mem.available k).size)
unfolding bitmap_range
bitmap_range_lem mem req zero i r e = cc
bitmap_range_lem mem req (suc rounds) i r e = elim (Bool-cases (ltb (mem.available i).size req)) [
  | inl small ↦
      let (k, lt, s, z, le) = bitmap_range_lem mem req rounds (i + 1) r (rw small at e) in
      (k, omega arith, s, z, le)
  | inr fits ↦ let same = rw fits at e in (i, omega arith, ground arith, ground arith, ground arith)
]

-- The search fails only if the ranges it looks at are too small.
pub bitmap_range-none :
    (mem : PhysicalMemMap) (req rounds i : ℕ)
    → bitmap_range mem req rounds i ≡ none
    → (k : ℕ) → i ≤ k
    → k < i + rounds
    → (mem.available k).size < req
unfolding bitmap_range
bitmap_range-none mem req zero i e k p q = absurd (omega arith)
bitmap_range-none mem req (suc rounds) i e k p q =
    elim (Bool-cases (ltb (mem.available i).size req)) [
      | inl small ↦ elim (dec_lt i k) [
        | yes lt ↦
            bitmap_range-none mem req rounds (i + 1) (rw small at e) k (omega arith) (omega arith)
        | no ge ↦ let at : k ≡ i = omega arith in rw at (ground arith)
      ]
      | inr fits ↦ cc (rw fits at e)
    ]

pub cut-IsAligned :
    (cnt : ℕ) (r s : MemRange)
    → IsAligned cnt s
    → r.start ≡ s.start
    → r.size ≤ s.size
    → IsAligned cnt r
cut-IsAligned cnt r s al start le = record {
  start_page = rw start al.start_page;
  inside = rw start (omega (arith, al.inside));
}
