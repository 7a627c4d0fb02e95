-- ===== src/Paging/Entry/Address.antt =====
-- The address in an entry that got a frame, and in one that was cleared.
use dim_os.Common.{
  ℕ, zero, suc, ◌*◌, ◌/◌, ◌^◌, ◌<◌, ◌≡◌, refl, ◌∙◌, false, ◌&&◌, ltb, leb, if◌then◌else◌, arith,
}
use dim_os.Common.Bits.{bit, bit-lt, bit-bit_and, bit_and-lt_last, bit_eq, bit_above}
use dim_os.Paging.Entry.{
  Entry, set_flags, set_physical_adr, get_physical_addr, is_present, test_flag,
}
use dim_os.Paging.Entry.Laws.{mask_bits, set_physical_adr_lem}
use dim_os.Paging.Entry.Present.{flags-bit}

-- Only the bits 12 to 51 are in the address of an entry.
get_physical_addr-bit :
    (e : Entry) (i : ℕ)
    → i < 64
    → bit (get_physical_addr e) i ≡ (if leb 12 i && ltb i 52 then bit e.word i else 0)
unfolding get_physical_addr
get_physical_addr-bit e i h =
    ground (arith, bit-bit_and e.word 0x000ffffffffff000 i, mask_bits i h, bit-lt e.word i)

-- A number doubled `k` times has no bits below `k`.
abbrev doubled : ℕ → ℕ → ℕ
doubled zero f = f
doubled (suc k) f = 2 * doubled k f

doubled-bit : (k f i : ℕ) → i < k → bit (doubled k f) i ≡ 0
doubled-bit zero f i h = absurd (omega (arith, h))
doubled-bit (suc k) f zero h = omega arith
doubled-bit (suc k) f (suc i) h =
    let half : 2 * doubled k f / 2 ≡ doubled k f = omega arith in
    rw half (doubled-bit k f i (omega (arith, h)))

frame-bit : (f i : ℕ) → i < 12 → bit (f * 4096) i ≡ 0
frame-bit f i h = let e : doubled 12 f ≡ f * 4096 = omega arith in rw⁻¹ e (doubled-bit 12 f i h)

-- After `assignFrameToPage` the address in the entry is that of the frame, if it has 52 bits.
pub assigned_addr :
    (e : Entry) (f : ℕ)
    → f < 2 ^ 40
    → get_physical_addr (set_flags (set_physical_adr e (f * 4096)) 3) ≡ f * 4096
unfolding get_physical_addr
assigned_addr e f small =
    let e' = set_flags (set_physical_adr e (f * 4096)) 3 in
    bit_eq 64 (get_physical_addr e') (f * 4096)
      (bit_and-lt_last 64 e'.word 0x000ffffffffff000 (omega arith)) (omega (arith, small))
      (λ i h.
        get_physical_addr-bit e' i h
        ∙ ground (
          arith,
          flags-bit (set_physical_adr e (f * 4096)) i,
          set_physical_adr_lem e (f * 4096) i h,
          bit_above 52 (f * 4096) i (omega (arith, small)),
          bit_above 2 3 i (omega arith),
          frame-bit f i,
          bit-lt (f * 4096) i,
        ))

-- A cleared entry is not present.
pub cleared_absent : is_present (record { word = 0 }) ≡ false
unfolding is_present test_flag
cleared_absent = refl
