-- ===== src/Pmm/FirstFree.antt =====
-- `firstFreeFrame`: the two loops find the first free frame of the bitmap's words.
use dim_os.Common.{
  ℕ, zero, suc, ◌+◌, ◌-◌, ◌*◌, ◌/◌, ◌%◌, ◌^◌, ◌≤◌, ◌<◌, bit_and, ◌≡◌, refl, ◌∙◌, true, false, not,
  ◌==◌, if◌then◌else◌, arith, two_64, Option, none, some, Option-cases, Bool-cases, inl, inr,
}
use native.Mathlib.Nat.{add-zero}
use dim_os.Common.Bits.{bit-all_ones}
use dim_os.Pmm.{
  Bitmap, Pmm, bitmap_is_set, free_bit, free_word, first_free_frame, element_cnt,
  frames_per_element,
}
use dim_os.Pmm.Bitmap.{is_set-bit}

-- What a search from `lo` to `hi` found: the first free frame, or none.
abbrev pub IsFirstFree : Bitmap → ℕ → ℕ → Option ℕ → Type 0
IsFirstFree w lo hi none = (g : ℕ) → lo ≤ g → g < hi → bitmap_is_set w g ≡ true
IsFirstFree w lo hi (some f) =
    (lo ≤ f)
    × (f < hi)
    × (bitmap_is_set w f ≡ false)
    × ((g : ℕ) → lo ≤ g → g < f → bitmap_is_set w g ≡ true)

-- The frame of bit `j` of word `i`, if any.
abbrev frame_of : ℕ → Option ℕ → Option ℕ
frame_of i none = none
frame_of i (some j) = some (i * frames_per_element + j)

is_set-in_word :
    (w : Bitmap) (i j : ℕ)
    → j < 64
    → bitmap_is_set w (i * 64 + j) ≡ not (bit_and (w i) (2 ^ j) == 0)
unfolding bitmap_is_set
is_set-in_word w i j h =
    let row : (i * 64 + j) / 64 ≡ i = omega arith in
    let col : (i * 64 + j) % 64 ≡ j = omega arith in rw (row, col)

-- A search that goes on from `mid`, with every frame before it in use.
IsFirstFree-append :
    (w : Bitmap) (lo mid hi : ℕ) (r : Option ℕ)
    → lo ≤ mid
    → IsFirstFree w lo mid none
    → IsFirstFree w mid hi r
    → IsFirstFree w lo hi r
IsFirstFree-append w lo mid hi none le before h = λ g p q. grind (arith, before g, h g)
IsFirstFree-append w lo mid hi (some f) le before h =
    (omega arith, h.1, h.2, λ g p q. grind (arith, before g, h.3 g))

-- One found early stays found.
IsFirstFree-widen :
    (w : Bitmap) (lo mid hi f : ℕ)
    → mid ≤ hi
    → IsFirstFree w lo mid (some f)
    → IsFirstFree w lo hi (some f)
IsFirstFree-widen w lo mid hi f le h = (h.0, omega arith, h.2, h.3)

free_bit-IsFirstFree :
    (w : Bitmap) (i rounds j : ℕ)
    → rounds + j ≡ 64
    → IsFirstFree w (i * 64 + j) (i * 64 + 64) (frame_of i (free_bit (w i) rounds j))
unfolding free_bit
free_bit-IsFirstFree w i zero j e = λ g p q. absurd (omega arith)
free_bit-IsFirstFree w i (suc rounds) j e = elim (Bool-cases (bit_and (w i) (2 ^ j) == 0)) [
  | inl free ↦ rw free (
    omega arith,
    omega arith,
    ground (arith, is_set-in_word w i j),
    λ g p q. absurd (omega arith),
  )
  | inr set ↦ rw set (
      IsFirstFree-append w (i * 64 + j) (i * 64 + (j + 1)) (i * 64 + 64) _ (omega arith)
        (λ g p q.
          let at_j : g ≡ i * 64 + j = omega arith in rw at_j (ground (arith, is_set-in_word w i j)))
        (free_bit-IsFirstFree w i rounds (j + 1) (omega arith)))
]

-- A word of ones has no free bit.
full_word :
    (w : Bitmap) (i : ℕ) → (w i == two_64 - 1) ≡ true → IsFirstFree w (i * 64) (i * 64 + 64) none
full_word w i e g p q =
    let row : g / 64 ≡ i = omega arith in
    let full : w (g / 64) ≡ two_64 - 1 = rw row (ground arith) in
    is_set-bit w g ∙ rw full (rw (bit-all_ones 64 (g % 64) (omega arith)))

-- One round of the outer loop, before `rest`.
free_word_round :
    (w : Bitmap) (i hi : ℕ) (rest : Option ℕ)
    → i * 64 + 64 ≤ hi
    → IsFirstFree w (i * 64 + 64) hi rest
    → IsFirstFree w (i * 64) hi (
        if w i == two_64 - 1
        then rest
        else (elim (free_bit (w i) 64 0) [ some j ↦ some (i * 64 + j) | none ↦ rest ]))
free_word_round w i hi rest le later = elim (Bool-cases (w i == two_64 - 1)) [
  | inl full ↦ rw full (go (full_word w i full))
  | inr other ↦ rw other (elim (Option-cases (free_bit (w i) 64 0)) [
    | inl full ↦ rw full (go (rw full at word))
    | inr (j, found) ↦
        rw found (IsFirstFree-widen w (i * 64) (i * 64 + 64) hi (i * 64 + j) le (rw found at word))
  ])
]
  where
    word : IsFirstFree w (i * 64) (i * 64 + 64) (frame_of i (free_bit (w i) 64 0))
    word = rw (add-zero (i * 64)) at (free_bit-IsFirstFree w i 64 0 refl)

    go : IsFirstFree w (i * 64) (i * 64 + 64) none → IsFirstFree w (i * 64) hi rest
    go h = IsFirstFree-append w (i * 64) (i * 64 + 64) hi rest (omega arith) h later

free_word-IsFirstFree :
    (w : Bitmap) (rounds i lo hi : ℕ)
    → lo ≡ i * 64
    → hi ≡ (i + rounds) * 64
    → IsFirstFree w lo hi (free_word w rounds i)
unfolding free_word
free_word-IsFirstFree w zero i lo hi from to = λ g p q. absurd (omega arith)
free_word-IsFirstFree w (suc rounds) i lo hi from to = rw from (
    free_word_round w i hi _ (omega arith)
      (free_word-IsFirstFree w rounds (i + 1) (i * 64 + 64) hi (omega arith) (omega arith)))

-- `firstFreeFrame` returns the first frame whose bit is clear among those that the words of the
-- bitmap hold, and -1 exactly if all of these are set.
pub first_free_frame-IsFirstFree :
    (p : Pmm) → IsFirstFree p.bitmap 0 (element_cnt p.frame_cnt * 64) (first_free_frame p)
unfolding first_free_frame
first_free_frame-IsFirstFree p =
    free_word-IsFirstFree p.bitmap (element_cnt p.frame_cnt) 0 0 _ refl (omega arith)
