-- ===== src/Keyboard/Ascii.antt =====
-- `keyCodeToASCII`: what the modifiers do to a character.
use dim_os.Common.{
  ℕ, ◌-◌, ◌%◌, ◌≤◌, ◌<◌, ◌≡◌, refl, inl, inr, Bool, true, false, not, ◌&&◌, ◌||◌, leb,
  if◌then◌else◌, arith, Bool-cases,
}
use dim_os.Keyboard.{Keyboard, key_code_to_ascii, is_lower, is_digit, shift_digit, shift_sign}

shift_digit_lt : (k : ℕ) → k < 128 → shift_digit k < 128
unfolding shift_digit
shift_digit_lt k h = ground (arith, h)

shift_sign_lt : (k : ℕ) → k < 128 → shift_sign k < 128
unfolding shift_sign
shift_sign_lt k h = ground (arith, h)

shift_sign_upper : (k : ℕ) → 65 ≤ k → k ≤ 90 → shift_sign k ≡ k
unfolding shift_sign
shift_sign_upper k lo hi = ground (arith, lo, hi)

shifted_lt :
    (u : ℕ) (b : Bool)
    → u < 128
    → (if b then (if is_digit u then shift_digit u else shift_sign u) else u) < 128
shifted_lt u b h = ground (arith, h, shift_digit_lt u h, shift_sign_lt u h)

raised_lt : (k : ℕ) (a : Bool) → k < 128 → (if a && is_lower k then k - 32 else k) < 128
raised_lt k a h = ground (arith, h)

ascii_lt :
    (k : ℕ) (a b : Bool)
    → (if leb k 127
        then (let upper = if a && is_lower k then k - 32 else k in
            if b then (if is_digit upper then shift_digit upper else shift_sign upper) else upper)
        else 0)
      < 128
ascii_lt k a b = elim (Bool-cases (leb k 127)) [
  | inr large ↦ rw large (omega arith)
  | inl small ↦
      let upper = if a && is_lower k then k - 32 else k in
      rw small (shifted_lt upper b (raised_lt k a (ground (arith, small))))
]

-- The number of a key is cut to eight bits, and the result is always an ASCII character: the letters are
-- in upper case with shift or caps lock, and caps lock leaves all other characters as they are, as no
-- modifier does; a number that is not ASCII then gives 0.
pub key_code_to_ascii_lem :
    (d : Keyboard) (code : ℕ)
    → (key_code_to_ascii d code ≡ key_code_to_ascii d (code % 256))
      × (key_code_to_ascii d code < 128)
      × (is_lower (code % 256) ≡ true
          → key_code_to_ascii d code
            ≡ (if d.shift || d.caps_lock then code % 256 - 32 else code % 256))
      × (is_lower (code % 256) ≡ false
          → (d.shift && not d.caps_lock) ≡ false
          → key_code_to_ascii d code ≡ (if leb (code % 256) 127 then code % 256 else 0))
unfolding key_code_to_ascii
key_code_to_ascii_lem d code =
    let again : code % 256 % 256 ≡ code % 256 = omega arith in
    (
      rw again refl,
      ascii_lt (code % 256) (d.shift || d.caps_lock) (d.shift && not d.caps_lock),
      λ low. ground (arith, low, shift_sign_upper (code % 256 - 32)),
      λ low free. ground (arith, low, free),
    )
