-- ===== src/Vmm/Offsets.antt =====
-- The indices of a page by level, and the order of pages from a level on.
use dim_os.Common.{
  ℕ, zero, suc, ◌+◌, ◌≤◌, ◌<◌, ◌≡◌, ◌⊎◌, inl, inr, refl, sym, ◌∙◌, ◌==◌, ltb, leb, if◌then◌else◌,
  arith, Bool-cases, ==_iff,
}
use dim_os.Paging.{IndexOffset}
use dim_os.Paging.Index.{page_number}
use dim_os.Paging.Index
use dim_os.Vmm.{index_at, put_index, zero_loop}

-- All four indices select an entry.
abbrev pub Fits : IndexOffset → Type 0
Fits o = (l : ℕ) → index_at o l < 512

pub Fits-IsValid : (o : IndexOffset) → Index.IsValid o → Fits o
unfolding index_at
Fits-IsValid o v l = ground (arith, v.h0, v.h1, v.h2, v.h3)

pub index_at-put_index :
    (o : IndexOffset) (l m v : ℕ)
    → l < 4
    → m < 4
    → index_at (put_index o l v) m ≡ (if l == m then v else index_at o m)
unfolding index_at put_index
index_at-put_index o l m v hl hm = ground (arith, hl, hm)

pub put_index-Fits : (o : IndexOffset) (l v : ℕ) → Fits o → v < 512 → Fits (put_index o l v)
unfolding index_at put_index
put_index-Fits o l v fits h m = ground (arith, fits 0, fits 1, fits 2, fits 3, h)

pub index_at-zero_loop :
    (rounds j m : ℕ) (o : IndexOffset)
    → j + rounds ≡ 4
    → m < 4
    → index_at (zero_loop rounds j o) m ≡ (if leb j m then 0 else index_at o m)
unfolding zero_loop
index_at-zero_loop zero j m o e h = ground (arith, e, h)
index_at-zero_loop (suc rounds) j m o e h =
    index_at-zero_loop rounds (j + 1) m (put_index o j 0) (omega (arith, e)) h
    ∙ ground (arith, index_at-put_index o j m 0 (omega (arith, e)) h)

pub zero_loop-Fits : (rounds j : ℕ) (o : IndexOffset) → Fits o → Fits (zero_loop rounds j o)
unfolding zero_loop
zero_loop-Fits zero j o fits = fits
zero_loop-Fits (suc rounds) j o fits =
    zero_loop-Fits rounds (j + 1) (put_index o j 0) (put_index-Fits o j 0 fits (omega arith))

-- Two pages with the same indices above a level.
abbrev pub Agree : ℕ → IndexOffset → IndexOffset → Type 0
Agree l o o' = (m : ℕ) → m < l → index_at o m ≡ index_at o' m

-- The order of pages by their indices from level `l` on, over `h` levels.
unfoldable pub AtMost : ℕ → ℕ → IndexOffset → IndexOffset → Type 0
AtMost zero l o o' = 0 ≤ 0
AtMost (suc h) l o o' =
    (index_at o l < index_at o' l) ⊎ ((index_at o l ≡ index_at o' l) × AtMost h (suc l) o o')

unfoldable pub Below : ℕ → ℕ → IndexOffset → IndexOffset → Type 0
Below zero l o o' = 0 < 0
Below (suc h) l o o' =
    (index_at o l < index_at o' l) ⊎ ((index_at o l ≡ index_at o' l) × Below h (suc l) o o')

-- The order reads the indices alone.
pub AtMost-same :
    (h l : ℕ) (o o' x : IndexOffset)
    → l + h ≡ 4
    → ((m : ℕ) → l ≤ m → m < 4 → index_at o m ≡ index_at o' m)
    → AtMost h l o x
    → AtMost h l o' x
unfolding AtMost
AtMost-same zero l o o' x e same h = h
AtMost-same (suc h) l o o' x e same (inl less) =
    inl (omega (arith, less, same l (omega arith) (omega (arith, e))))
AtMost-same (suc h) l o o' x e same (inr (equal, rest)) = inr (
  sym (same l (omega arith) (omega (arith, e))) ∙ equal,
  AtMost-same h (suc l) o o' x (omega (arith, e)) (λ m a b. same m (omega (arith, a)) b) rest,
)

pub AtMost-same_last :
    (h l : ℕ) (o x x' : IndexOffset)
    → l + h ≡ 4
    → ((m : ℕ) → l ≤ m → m < 4 → index_at x m ≡ index_at x' m)
    → AtMost h l o x
    → AtMost h l o x'
unfolding AtMost
AtMost-same_last zero l o x x' e same h = h
AtMost-same_last (suc h) l o x x' e same (inl less) =
    inl (omega (arith, less, same l (omega arith) (omega (arith, e))))
AtMost-same_last (suc h) l o x x' e same (inr (equal, rest)) = inr (
  equal ∙ same l (omega arith) (omega (arith, e)),
  AtMost-same_last h (suc l) o x x' (omega (arith, e)) (λ m a b. same m (omega (arith, a)) b) rest,
)

pub Below-same :
    (h l : ℕ) (o o' x : IndexOffset)
    → l + h ≡ 4
    → ((m : ℕ) → l ≤ m → m < 4 → index_at o m ≡ index_at o' m)
    → Below h l x o
    → Below h l x o'
unfolding Below
Below-same zero l o o' x e same h = h
Below-same (suc h) l o o' x e same (inl less) =
    inl (omega (arith, less, same l (omega arith) (omega (arith, e))))
Below-same (suc h) l o o' x e same (inr (equal, rest)) = inr (
  equal ∙ same l (omega arith) (omega (arith, e)),
  Below-same h (suc l) o o' x (omega (arith, e)) (λ m a b. same m (omega (arith, a)) b) rest,
)

-- Indices that are 0 from a level on are the least.
pub zeros-AtMost :
    (h l : ℕ) (o x : IndexOffset)
    → l + h ≡ 4
    → ((m : ℕ) → l ≤ m → m < 4 → index_at o m ≡ 0)
    → AtMost h l o x
unfolding AtMost
zeros-AtMost zero l o x e zeros = omega arith
zeros-AtMost (suc h) l o x e zeros = elim (Bool-cases (index_at x l == 0)) [
  | inl none_left ↦ inr (
    zeros l (omega arith) (omega (arith, e)) ∙ sym ((==_iff (index_at x l) 0).0 none_left),
    zeros-AtMost h (suc l) o x (omega (arith, e)) (λ m a b. zeros m (omega (arith, a)) b),
  )
  | inr some_left ↦ inl (ground (arith, some_left, zeros l (omega arith) (omega (arith, e))))
]

pub AtMost-refl : (h l : ℕ) (o : IndexOffset) → AtMost h l o o
unfolding AtMost
AtMost-refl zero l o = omega arith
AtMost-refl (suc h) l o = inr (refl, AtMost-refl h (suc l) o)

pub AtMost-index_at :
    (h l : ℕ) (o x : IndexOffset) → AtMost (suc h) l o x → index_at o l ≤ index_at x l
unfolding AtMost
AtMost-index_at h l o x (inl less) = omega (arith, less)
AtMost-index_at h l o x (inr (equal, rest)) = omega (arith, equal)

-- From the topmost level on, this is the order of the page numbers.
pub AtMost-page_number :
    (o o' : IndexOffset) → Fits o → Fits o' → AtMost 4 0 o o' → page_number o ≤ page_number o'
unfolding AtMost index_at
AtMost-page_number o o' f f' h = ground (arith, h, f 0, f 1, f 2, f 3, f' 0, f' 1, f' 2, f' 3)

pub page_number-AtMost :
    (o o' : IndexOffset) → Fits o → Fits o' → page_number o ≤ page_number o' → AtMost 4 0 o o'
unfolding AtMost index_at
page_number-AtMost o o' f f' h = ground (arith, h, f 0, f 1, f 2, f 3, f' 0, f' 1, f' 2, f' 3)

pub page_number-Below :
    (o o' : IndexOffset) → Fits o → Fits o' → page_number o < page_number o' → Below 4 0 o o'
unfolding Below index_at
page_number-Below o o' f f' h = ground (arith, h, f 0, f 1, f 2, f 3, f' 0, f' 1, f' 2, f' 3)

-- The indices of one page above a level, and those of another from it on.
abbrev pub join : ℕ → IndexOffset → IndexOffset → IndexOffset
join l path c = record {
  i0 = if ltb 0 l then index_at path 0 else index_at c 0;
  i1 = if ltb 1 l then index_at path 1 else index_at c 1;
  i2 = if ltb 2 l then index_at path 2 else index_at c 2;
  i3 = if ltb 3 l then index_at path 3 else index_at c 3;
}

pub index_at-join :
    (l m : ℕ) (path c : IndexOffset)
    → m < 4
    → index_at (join l path c) m ≡ (if ltb m l then index_at path m else index_at c m)
unfolding index_at
index_at-join l m path c h = ground (arith, h)

pub join-Fits : (l : ℕ) (path c : IndexOffset) → Fits path → Fits c → Fits (join l path c)
unfolding index_at
join-Fits l path c f f' m = ground (arith, f 0, f 1, f 2, f 3, f' 0, f' 1, f' 2, f' 3)
