-- ===== src/Printf/Readback.antt =====
-- The printed numbers read back.
use dim_os.Common.{
  ℕ, zero, suc, ◌+◌, ◌-◌, ◌%◌, ◌^◌, ◌≤◌, ◌<◌, ◌≡◌, refl, ap, ◌∙◌, Bool, true, false, ◌==◌, leb,
  if◌then◌else◌, some, List, [], ◌∷◌, ◌++◌, length, arith, ℤ, is_negative, magnitude,
}
use dim_os.Printf.{
  print_decimal, print_decimal_64, print_unsigned_decimal_64, print_hex_64, decimal_digit,
  hex_digit,
}
use dim_os.Printf.Numeral.{read_number, read_number-numeral, numeral-all, length-numeral}
use dim_os.Printf.Numbers.{
  decimal, hexadecimal, with_sign, nested, decimal_shrink, hex_shrink, decimal_digit_on,
  hex_digit_on, print_decimal-text, print_decimal_64-text, print_unsigned_decimal_64-text,
  print_hex_64-text,
}
use dim_os.Printf.Literal.{sent, sent-append}

abbrev pub decimal_worth : ℕ → ℕ
decimal_worth c = c - b'0'

abbrev pub hex_worth : ℕ → ℕ
hex_worth c = if leb c b'9' then c - b'0' else c - b'a' + 10

-- The number that a text with a sign stands for.
abbrev negated : ℕ → ℤ
negated zero = ℤ.pos 0
negated (suc n) = ℤ.negsuc n

pub read_int : List ℕ → ℤ
read_int [] = ℤ.pos 0
read_int (c ∷ s) =
    if c == b'-'
    then negated (read_number 10 decimal_worth 0 s)
    else ℤ.pos (read_number 10 decimal_worth 0 (c ∷ s))

-- A number of `w` bits and a sign, the least one left out.
abbrev pub Fits : ℕ → ℤ → Type 0
Fits w (ℤ.pos n) = n < 2 ^ w
Fits w (ℤ.negsuc n) = n + 1 < 2 ^ w

read-decimal : (n : ℕ) → n < 2 ^ 64 → read_number 10 decimal_worth 0 (decimal n) ≡ n
unfolding decimal
read-decimal n h =
    read_number-numeral 10 decimal_digit decimal_digit_on decimal_shrink decimal_worth
      (λ m. omega arith) 21 n (omega (arith, h))

sent-decimal : (n : ℕ) → sent (decimal n) ≡ decimal n
unfolding decimal
sent-decimal =
    numeral-all 10 decimal_digit decimal_digit_on decimal_shrink (λ s. sent s ≡ s) refl
      (λ s n h.
        let byte : decimal_digit (n % 10) % 256 ≡ decimal_digit (n % 10) = omega arith in
        rw (sent-append s (decimal_digit (n % 10) ∷ []), h, byte) refl)
      21

sent-hexadecimal : (n : ℕ) → sent (hexadecimal n) ≡ hexadecimal n
unfolding hexadecimal
sent-hexadecimal =
    numeral-all 16 hex_digit hex_digit_on hex_shrink (λ s. sent s ≡ s) refl
      (λ s n h.
        let byte : hex_digit (n % 16) % 256 ≡ hex_digit (n % 16) = ground arith in
        rw (sent-append s (hex_digit (n % 16) ∷ []), h, byte) refl)
      21

abbrev starts_minus : List ℕ → Bool
starts_minus [] = false
starts_minus (c ∷ s) = c == b'-'

decimal-starts_minus : (n : ℕ) → starts_minus (decimal n) ≡ false
unfolding decimal
decimal-starts_minus =
    numeral-all 10 decimal_digit decimal_digit_on decimal_shrink (λ s. starts_minus s ≡ false) refl
      more 21
  where
    more :
        (s : List ℕ) (n : ℕ)
        → starts_minus s ≡ false
        → starts_minus (s ++ (decimal_digit (n % 10) ∷ [])) ≡ false
    more [] n h = ground arith
    more (c ∷ s) n h = h

read_int-plain :
    (s : List ℕ) → starts_minus s ≡ false → read_int s ≡ ℤ.pos (read_number 10 decimal_worth 0 s)
unfolding read_int read_number
read_int-plain [] h = refl
read_int-plain (c ∷ s) h = rw (read_int, h) refl

-- The text of a number with a sign.
signed-read :
    (w : ℕ) (val : ℤ)
    → 2 ^ w ≤ 2 ^ 63
    → Fits w val
    → (size : ℕ) × (magnitude w val ≡ some size)
      × (size < 2 ^ w)
      × (sent (with_sign (is_negative val) (decimal size))
          ≡ with_sign (is_negative val) (decimal size))
      × (read_int (with_sign (is_negative val) (decimal size)) ≡ val)
unfolding read_int
signed-read w (ℤ.pos n) small fits = (
  n,
  refl,
  fits,
  sent-decimal n,
  read_int-plain (decimal n) (decimal-starts_minus n)
      ∙ ap ℤ.pos (read-decimal n (omega (arith, small, fits))),
)
signed-read w (ℤ.negsuc n) small fits =
    let inside : (n + 1 == 2 ^ w) ≡ false = ground (arith, fits) in
    let next : n + 1 ≡ suc n = omega arith in
    (
      n + 1,
      rw inside refl,
      fits,
      ap (λ s. b'-' ∷ s) (sent-decimal (n + 1)),
      ap negated (read-decimal (n + 1) (omega (arith, small, fits)) ∙ next),
    )

-- `print_decimal` of any `int` but the least prints a text that reads back as that number.
pub print_decimal-read :
    (stack : ℕ → ℕ) (depth : ℕ) (out : List ℕ) (val : ℤ)
    → Fits 31 val
    → (s : List ℕ) × (print_decimal (nested stack depth out) stack out val ≡ (out ++ s, some true))
      × (read_int s ≡ val)
print_decimal-read stack depth out val fits =
    let (size, known, small, same, back) = signed-read 31 val (omega arith) fits in
    (
      with_sign (is_negative val) (decimal size),
      rw same at (print_decimal-text stack depth out size val known small),
      back,
    )

-- `print_decimal_64` of any `int64_t` but the least prints a text that reads back as that number.
pub print_decimal_64-read :
    (stack : ℕ → ℕ) (depth : ℕ) (out : List ℕ) (val : ℤ)
    → Fits 63 val
    → (s : List ℕ) × (print_decimal_64 (nested stack depth out) stack out val
        ≡ (out ++ s, some true))
      × (read_int s ≡ val)
print_decimal_64-read stack depth out val fits =
    let (size, known, small, same, back) = signed-read 63 val (omega arith) fits in
    (
      with_sign (is_negative val) (decimal size),
      rw same at (print_decimal_64-text stack depth out size val known small),
      back,
    )

-- `print_unsigned_decimal_64` of any number of 64 bits prints at most 20 digits, which read back as it.
pub print_unsigned_decimal_64-read :
    (stack : ℕ → ℕ) (depth : ℕ) (out : List ℕ) (val : ℕ)
    → val < 2 ^ 64
    → (s : List ℕ) × (print_unsigned_decimal_64 (nested stack depth out) stack out val
        ≡ (out ++ s, some true))
      × (length s ≤ 20)
      × (read_number 10 decimal_worth 0 s ≡ val)
unfolding decimal
print_unsigned_decimal_64-read stack depth out val h = (
  decimal val,
  rw (sent-decimal val) at (print_unsigned_decimal_64-text stack depth out val h),
  length-numeral 10 decimal_digit decimal_digit_on decimal_shrink 21 19 val (omega (arith, h)),
  read-decimal val h,
)

-- `print_hex_64` of any number of 64 bits prints `0x` and at most 16 digits, which read back as it.
pub print_hex_64-read :
    (stack : ℕ → ℕ) (depth : ℕ) (out : List ℕ) (val : ℕ)
    → val < 2 ^ 64
    → (s : List ℕ) × (print_hex_64 (nested stack depth out) stack out val
        ≡ (out ++ b'0' ∷ b'x' ∷ s, some true))
      × (length s ≤ 16)
      × (read_number 16 hex_worth 0 s ≡ val)
unfolding hexadecimal
print_hex_64-read stack depth out val h = (
  hexadecimal val,
  rw (sent-hexadecimal val) at (print_hex_64-text stack depth out val (omega (arith, h))),
  length-numeral 16 hex_digit hex_digit_on hex_shrink 21 15 val (omega (arith, h)),
  read_number-numeral 16 hex_digit hex_digit_on hex_shrink hex_worth (λ n. ground arith) 21 val
      (omega (arith, h)),
)
