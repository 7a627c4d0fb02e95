-- ===== src/Paging/Entry/Present.antt =====
-- Entries that are present, and tables that are empty.
use dim_os.Common.{
  ℕ, zero, suc, ◌+◌, ◌/◌, ◌^◌, ◌<◌, ◌≡◌, refl, ap, ◌∙◌, true, false, ◌&&◌, ◌==◌, ltb, leb,
  if◌then◌else◌, update, update_self, update_ne, max, arith,
}
use mathlib.Core.Path.{subst}
use native.Mathlib.Decide.{ℕ_discrete}
use dim_os.Common.Bits.{bit, bit-lt, bit-bit_or, bit_and-pow}
use dim_os.Paging.Entry.{
  Entry, Table, set_flags, test_flag, is_present, set_physical_adr, get_level, set_level,
  clear_loop, table_init,
}
use dim_os.Paging.Entry.Laws.{test_level, test_level_2, set_physical_adr_lem, set_level_lem}

pub is_present-bit : (e : Entry) → is_present e ≡ (bit e.word 0 == 1)
unfolding is_present test_flag
is_present-bit e = ground (arith, bit_and-pow (e.word / 2 ^ 0) 0, bit-lt e.word 0)

pub flags-bit : (e : Entry) (i : ℕ) → bit (set_flags e 3).word i ≡ max (bit e.word i) (bit 3 i)
unfolding set_flags
flags-bit e i = bit-bit_or e.word 3 i

-- An entry that got a frame and the flags, in either order, is present.
pub present_flags_first :
    (e : Entry) (a : ℕ) → is_present (set_physical_adr (set_flags e 3) a) ≡ true
present_flags_first e a =
    is_present-bit (set_physical_adr (set_flags e 3) a)
    ∙ ground (
      arith,
      set_physical_adr_lem (set_flags e 3) a 0 (omega arith),
      flags-bit e 0,
      bit-lt e.word 0,
    )

pub present_flags_last :
    (e : Entry) (a : ℕ) → is_present (set_flags (set_physical_adr e a) 3) ≡ true
present_flags_last e a =
    is_present-bit (set_flags (set_physical_adr e a) 3)
    ∙ ground (arith, flags-bit (set_physical_adr e a) 0, bit-lt (set_physical_adr e a).word 0)

-- The level is in the bits 9 and 10 of the first entry.
pub get_level_same :
    (t t' : Table)
    → bit (t'.entries 0).word 9 ≡ bit (t.entries 0).word 9
    → bit (t'.entries 0).word 10 ≡ bit (t.entries 0).word 10
    → get_level t' ≡ get_level t
unfolding get_level
get_level_same t t' low high = omega (
  arith,
  test_level (t.entries 0),
  test_level_2 (t.entries 0),
  test_level (t'.entries 0),
  test_level_2 (t'.entries 0),
  low,
  high,
)

-- Neither order touches them.
pub level_flags_first :
    (e : Entry) (a : ℕ)
    → (bit (set_physical_adr (set_flags e 3) a).word 9 ≡ bit e.word 9)
      × (bit (set_physical_adr (set_flags e 3) a).word 10 ≡ bit e.word 10)
level_flags_first e a = (
  ground (arith, set_physical_adr_lem (set_flags e 3) a 9 (omega arith), flags-bit e 9),
  ground (arith, set_physical_adr_lem (set_flags e 3) a 10 (omega arith), flags-bit e 10),
)

pub level_flags_last :
    (e : Entry) (a : ℕ)
    → (bit (set_flags (set_physical_adr e a) 3).word 9 ≡ bit e.word 9)
      × (bit (set_flags (set_physical_adr e a) 3).word 10 ≡ bit e.word 10)
level_flags_last e a = (
  ground (arith, set_physical_adr_lem e a 9 (omega arith), flags-bit (set_physical_adr e a) 9),
  ground (arith, set_physical_adr_lem e a 10 (omega arith), flags-bit (set_physical_adr e a) 10),
)

-- An entry written into a table that keeps its bits 9 and 10.
pub get_level-update :
    (t : Table) (i : ℕ) (e : Entry)
    → bit e.word 9 ≡ bit (t.entries i).word 9
    → bit e.word 10 ≡ bit (t.entries i).word 10
    → get_level (record t { entries = update t.entries i e }) ≡ get_level t
get_level-update t i e low high = elim (ℕ_discrete i 0) [
  | no ne ↦
      let same : update t.entries i e 0 ≡ t.entries 0 = update_ne t.entries i 0 e ne in
      get_level_same t (record t { entries = update t.entries i e })
        (ap (λ (x : Entry). bit x.word 9) same) (ap (λ (x : Entry). bit x.word 10) same)
  | yes here ↦
      let now : update t.entries i e 0 ≡ e =
        ap (λ z. update t.entries z e 0) here ∙ update_self t.entries 0 e in
      let was : t.entries i ≡ t.entries 0 = ap t.entries here in
      get_level_same t (record t { entries = update t.entries i e })
        (ap (λ (x : Entry). bit x.word 9) now ∙ low ∙ ap (λ (x : Entry). bit x.word 9) was)
        (ap (λ (x : Entry). bit x.word 10) now ∙ high ∙ ap (λ (x : Entry). bit x.word 10) was)
]

clear_loop_lem :
    (rounds i j : ℕ) (t : Table)
    → ((clear_loop rounds i t).entries j).word
      ≡ (if leb i j && ltb j (i + rounds) then 0 else (t.entries j).word)
unfolding clear_loop
clear_loop_lem zero i j t = ground arith
clear_loop_lem (suc rounds) i j t = clear_loop_lem rounds (i + 1) j _ ∙ elim (ℕ_discrete i j) [
  | yes here ↦
      ground
        (arith, here, ap (λ (e : Entry). e.word) (update_self t.entries i (record { word = 0 })))
  | no ne ↦
      ground
        (arith, ne, ap (λ (e : Entry). e.word) (update_ne t.entries i j (record { word = 0 }) ne))
]

-- `Table::init` leaves an empty table of the level.
pub table_init_lem :
    (t : Table) (level : ℕ)
    → level < 4
    → (get_level (table_init t level) ≡ level)
      × ((j : ℕ) → j < 512 → is_present ((table_init t level).entries j) ≡ false)
unfolding table_init
table_init_lem t level small =
    let blank = clear_loop 512 0 t in
    let (known, bits, others) = set_level_lem blank level small in
    (
      known,
      λ j h. elim (ℕ_discrete 0 j) [
        | yes first ↦
            let low : bit ((set_level blank level).entries 0).word 0 ≡ bit 0 0 =
              bits 0 (omega arith) (λ e. omega (arith, e)) (λ e. omega (arith, e))
              ∙ ap (λ w. bit w 0) (clear_loop_lem 512 0 0 t) in
            subst (λ z. is_present ((set_level blank level).entries z) ≡ false) first
              (is_present-bit ((set_level blank level).entries 0) ∙ rw low refl)
        | no ne ↦
            let word : (blank.entries j).word ≡ 0 = ground (arith, clear_loop_lem 512 0 j t, h) in
            is_present-bit ((set_level blank level).entries j) ∙ rw (others j ne, word) refl
      ],
    )
