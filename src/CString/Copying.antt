-- ===== src/CString/Copying.antt =====
-- The routines that write memory.
use native.Mathlib.Decide.{ℕ_discrete}
use dim_os.Common.{
  ℕ, zero, suc, ◌+◌, ◌-◌, ◌%◌, ◌≤◌, ◌<◌, ◌≡◌, ◌≢◌, ◌⊎◌, inl, inr, refl, ap, ◌∙◌, false, ◌&&◌, ◌==◌,
  ltb, leb, if◌then◌else◌, update, arith, Bool-cases, some,
}
use dim_os.CString.{
  Memory, copy_up, copy_down, memcpy, memmove, set_loop, memset, length_loop, strlen, strcpy,
}

-- The loop upwards copies what was there before, if no byte is written before it is read.
copy_up_lem :
    (rounds i dst src : ℕ) (m : Memory) (p : ℕ)
    → (dst ≤ src) ⊎ (src + (i + rounds) ≤ dst)
    → copy_up rounds i dst src m p
      ≡ (if leb (dst + i) p && ltb p (dst + (i + rounds)) then m (src + (p - dst)) else m p)
unfolding copy_up
copy_up_lem zero i dst src m p safe = ground arith
copy_up_lem (suc rounds) i dst src m p safe =
    let safe' : (dst ≤ src) ⊎ (src + (i + 1 + rounds) ≤ dst) = elim safe [
      | inl h ↦ inl h
      | inr h ↦ inr (omega (arith, h))
    ] in
    copy_up_lem rounds (i + 1) dst src (update m (dst + i) (m (src + i))) p safe'
    ∙ elim (ℕ_discrete (dst + i) p) [
      | yes here ↦
          let from : src + (p - dst) ≡ src + i = omega (arith, here) in
          ground (arith, here, ap m from)
      | no ne ↦ ground (arith, ne, safe)
    ]

copy_down_lem :
    (i dst src : ℕ) (m : Memory) (p : ℕ)
    → src ≤ dst
    → copy_down i dst src m p ≡ (if leb dst p && ltb p (dst + i) then m (src + (p - dst)) else m p)
unfolding copy_down
copy_down_lem zero dst src m p safe = ground arith
copy_down_lem (suc i) dst src m p safe =
    copy_down_lem i dst src (update m (dst + i) (m (src + i))) p safe
    ∙ elim (ℕ_discrete (dst + i) p) [
      | yes here ↦
          let from : src + (p - dst) ≡ src + i = omega (arith, here) in
          ground (arith, here, ap m from)
      | no ne ↦ ground (arith, ne, safe)
    ]

-- Whether the two ranges overlap or not, `memmove` leaves in the destination the bytes that the source had
-- before, and no other byte changes.
pub memmove_lem :
    (dst src size : ℕ) (m : Memory) (p : ℕ)
    → memmove dst src size m p
      ≡ (if leb dst p && ltb p (dst + size) then m (src + (p - dst)) else m p)
unfolding memmove
memmove_lem dst src size m p = elim (Bool-cases (ltb dst src)) [
  | inl below ↦
      rw (memmove, below)
        (ground (arith, copy_up_lem size 0 dst src m p (inl (ground (arith, below)))))
  | inr above ↦ rw (memmove, above) (copy_down_lem size dst src m p (ground (arith, above)))
]

-- On ranges that do not overlap, `memcpy` does what `memmove` does.
pub memcpy_lem :
    (dst src size : ℕ) (m : Memory) (p : ℕ)
    → (dst + size ≤ src) ⊎ (src + size ≤ dst)
    → memcpy dst src size m p ≡ memmove dst src size m p
unfolding memcpy
memcpy_lem dst src size m p apart =
    let safe : (dst ≤ src) ⊎ (src + (0 + size) ≤ dst) = elim apart [
      | inl h ↦ inl (omega (arith, h))
      | inr h ↦ inr (omega (arith, h))
    ] in
    ground (arith, copy_up_lem size 0 dst src m p safe, memmove_lem dst src size m p)

set_loop_lem :
    (rounds i buf value : ℕ) (m : Memory) (p : ℕ)
    → set_loop rounds i buf value m p
      ≡ (if leb (buf + i) p && ltb p (buf + (i + rounds)) then value % 256 else m p)
unfolding set_loop
set_loop_lem zero i buf value m p = ground arith
set_loop_lem (suc rounds) i buf value m p =
    set_loop_lem rounds (i + 1) buf value (update m (buf + i) (value % 256)) p ∙ ground arith

pub memset_lem :
    (buf value size : ℕ) (m : Memory) (p : ℕ)
    → memset buf value size m p ≡ (if leb buf p && ltb p (buf + size) then value % 256 else m p)
unfolding memset
memset_lem buf value size m p = ground (arith, set_loop_lem size 0 buf value m p)

length_loop_lem :
    (rounds len str n : ℕ) (m : Memory)
    → len ≤ n
    → n < len + rounds
    → m (str + n) ≡ 0
    → ((j : ℕ) → len ≤ j → j < n → m (str + j) ≢ 0)
    → length_loop rounds len str m ≡ some n
unfolding length_loop
length_loop_lem zero len str n m lo hi end on = absurd (omega (arith, lo, hi))
length_loop_lem (suc rounds) len str n m lo hi end on = elim (ℕ_discrete len n) [
  | yes here ↦
      let stop : m (str + len) ≡ 0 = ap (λ k. m (str + k)) here ∙ end in
      rw (length_loop, stop) (ap some here)
  | no ne ↦
      let go : (m (str + len) == 0) ≡ false =
        ground (arith, on len (omega arith) (omega (arith, ne, lo))) in
      rw (length_loop, go)
        (length_loop_lem rounds (len + 1) str n m (omega (arith, ne, lo)) (omega (arith, hi)) end
          (λ j a b. on j (omega (arith, a)) b))
]

-- On a string of length `n` whose bytes are apart from the destination, with more than `n` rounds,
-- `strlen` gives `n`, and `strcpy` copies the `n` bytes before the zero and changes no other byte: the one
-- behind them at the destination is not written.
pub strcpy_lem :
    (rounds dest src n : ℕ) (m : Memory)
    → n < rounds
    → m (src + n) ≡ 0
    → ((j : ℕ) → j < n → m (src + j) ≢ 0)
    → (dest + n ≤ src) ⊎ (src + n ≤ dest)
    → (strlen rounds src m ≡ some n)
      × ((e : Memory) × (strcpy rounds dest src m ≡ some e)
          × ((p : ℕ)
              → e p ≡ (if leb dest p && ltb p (dest + n) then m (src + (p - dest)) else m p)))
unfolding strlen strcpy
strcpy_lem rounds dest src n m enough end on apart =
    let found =
      length_loop_lem rounds 0 src n m (omega arith) (omega (arith, enough)) end
        (λ j a b. on j b) in
    (
      found,
      (
        memcpy dest src n m,
        rw (strcpy, strlen, found) refl,
        λ p. memcpy_lem dest src n m p apart ∙ memmove_lem dest src n m p,
      ),
    )
