-- ===== src/Paging/Entry/Laws.antt =====
-- The bits of an entry, and the level of a table.
use dim_os.Common.{
  all_below, all_below_lem, ℕ, ◌-◌, ◌*◌, ◌/◌, ◌%◌, ◌^◌, ◌<◌, ◌≡◌, ◌≢◌, refl, ap, ◌∙◌, Bool, true,
  ◌&&◌, ◌||◌, ◌==◌, ltb, leb, if◌then◌else◌, update_ne, two_64, min, max, bit_and, arith, ==_iff,
}
use dim_os.Common.Bits.{bit, bit-lt, bit-bit_or, bit-bit_and, bit-complement, bit_and-pow}
use dim_os.Paging.Entry.{
  Entry, Table, FlagOffset, set_flags, remove_flags, test_flag, flag_bit, set_physical_adr,
  get_level, set_level,
}

-- The bits of the mask for the address.
mask_test : ℕ → Bool
mask_test i = bit 0x000ffffffffff000 i == (if leb 12 i && ltb i 52 then 1 else 0)

pub mask_bits :
    (i : ℕ) → i < 64 → bit 0x000ffffffffff000 i ≡ (if leb 12 i && ltb i 52 then 1 else 0)
unfolding mask_test
mask_bits i h =
    (==_iff (bit 0x000ffffffffff000 i) (if leb 12 i && ltb i 52 then 1 else 0)).0
      (all_below_lem 64 mask_test refl i h)

pub removed-bit :
    (e : Entry) (flags i : ℕ)
    → flags < 2 ^ 64
    → i < 64
    → bit (remove_flags e flags).word i ≡ min (bit e.word i) (1 - bit flags i)
unfolding remove_flags
removed-bit e flags i small h =
    bit-bit_and e.word (2 ^ 64 - 1 - flags) i
    ∙ ap (λ z. min (bit e.word i) z) (bit-complement 64 flags i small h)

-- After `setPhysicalAdr` the bits 12 to 51 are those of the address, and the flags are as before.
pub set_physical_adr_lem :
    (e : Entry) (addr i : ℕ)
    → i < 64
    → bit (set_physical_adr e addr).word i
      ≡ (if leb 12 i && ltb i 52 then bit addr i else bit e.word i)
unfolding set_physical_adr
set_physical_adr_lem e addr i h =
    let mask : ℕ = 0x000ffffffffff000 in
    ground (
      arith,
      bit-bit_or (remove_flags e mask).word (bit_and addr mask) i,
      bit-bit_and addr mask i,
      removed-bit e mask i (omega arith) h,
      mask_bits i h,
      bit-lt addr i,
      bit-lt e.word i,
    )

-- The bits 9 and 10 of a word.
pub test_level : (e : Entry) → flag_bit e FlagOffset.table_level ≡ bit e.word 9
unfolding test_flag
test_level e = ground (arith, bit_and-pow (e.word / 2 ^ 9) 0)

pub test_level_2 : (e : Entry) → flag_bit e FlagOffset.table_level_2 ≡ bit e.word 10
unfolding test_flag
test_level_2 e = ground (arith, bit_and-pow (e.word / 2 ^ 10) 0)

-- A level shifted to its place has no other bits.
level_test : ℕ → ℕ → Bool
level_test level i = (i == 9) || (i == 10) || (bit (level * 512) i == 0) && (bit 1536 i == 0)

level_tests : ℕ → Bool
level_tests level = all_below 64 (level_test level)

level_bits :
    (level i : ℕ)
    → level < 4
    → i < 64
    → i ≢ 9
    → i ≢ 10
    → (bit (level * 512) i ≡ 0) × (bit 1536 i ≡ 0)
unfolding level_tests level_test
level_bits level i small h no_9 no_10 =
    let all : level_tests level ≡ true = all_below_lem 4 level_tests refl level small in
    let one : level_test level i ≡ true = all_below_lem 64 (level_test level) all i h in
    (ground (arith, one, no_9, no_10), ground (arith, one, no_9, no_10))

-- The bits of the first entry after `setLevel`.
leveled-bit :
    (t : Table) (level i : ℕ)
    → level < 4
    → i < 64
    → bit ((set_level t level).entries 0).word i
      ≡ max (min (bit (t.entries 0).word i) (1 - bit 1536 i)) (bit (level * 512) i)
unfolding set_level set_flags
leveled-bit t level i small h =
    let fits : level * 512 % two_64 ≡ level * 512 = omega (arith, small) in
    rw fits (
      bit-bit_or (remove_flags (t.entries 0) 1536).word (level * 512) i
      ∙ ap (λ z. max z (bit (level * 512) i)) (removed-bit (t.entries 0) 1536 i (omega arith) h))

-- For a level below 4, `getLevel` gives the level that `setLevel` put in the first entry, and the other
-- bits of that entry below 64 and all other entries stay.
pub set_level_lem :
    (t : Table) (level : ℕ)
    → level < 4
    → (get_level (set_level t level) ≡ level)
      × ((i : ℕ)
          → i < 64
          → i ≢ 9
          → i ≢ 10
          → bit ((set_level t level).entries 0).word i ≡ bit (t.entries 0).word i)
      × ((k : ℕ) → 0 ≢ k → (set_level t level).entries k ≡ t.entries k)
unfolding get_level set_level
set_level_lem t level small =
    let e = (set_level t level).entries 0 in
    (
      omega (
        arith,
        test_level e,
        test_level_2 e,
        leveled-bit t level 9 small (omega arith),
        leveled-bit t level 10 small (omega arith),
        small,
      ),
      λ i h no_9 no_10.
          let (clear, off) = level_bits level i small h no_9 no_10 in
          leveled-bit t level i small h ∙ omega (arith, clear, off, bit-lt (t.entries 0).word i),
      λ k ne. update_ne t.entries 0 k _ ne,
    )
