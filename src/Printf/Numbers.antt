-- ===== src/Printf/Numbers.antt =====
-- The functions that print one number.
use dim_os.Common.{
  ℕ, zero, suc, ◌+◌, ◌-◌, ◌*◌, ◌/◌, ◌%◌, ◌^◌, ◌≤◌, ◌<◌, ◌≡◌, ◌≢◌, refl, ap, ◌∙◌, inl, inr, Bool,
  true, if◌then◌else◌, some, List, [], ◌∷◌, ◌++◌, length, append-nil, update, update_self, arith,
  Bool-cases, ℤ, is_negative, magnitude,
}
use dim_os.Printf.{
  Run, int_max, plain, printf, digit_loop, c_string, put_front, print_from, print_unsigned,
  print_signed, print_hex_64, print_decimal, print_decimal_64, print_unsigned_decimal,
  print_unsigned_decimal_64, decimal_digit, hex_digit,
}
use dim_os.Printf.Numeral.{
  numeral, limit, IsPut, digit_loop-IsPut, put_front-IsPut, length-numeral, numeral_same,
  numeral-all,
}
use dim_os.Printf.Literal.{sent, IsPlain, IsPlain-append, printf-IsPlain}

pub decimal_shrink : (n b : ℕ) → n < 10 * b → n / 10 < b
decimal_shrink n b h = omega (arith, h)

pub hex_shrink : (n b : ℕ) → n < 16 * b → n / 16 < b
hex_shrink n b h = omega (arith, h)

pub decimal_digit_on : (x : ℕ) → decimal_digit x ≢ 0
decimal_digit_on x = λ h. omega (arith, h)

pub hex_digit_on : (x : ℕ) → hex_digit x ≢ 0
hex_digit_on x = λ h. ground (arith, h)

-- The numerals of the numbers of 64 bits.
unfoldable pub decimal : ℕ → List ℕ
decimal = numeral 10 decimal_digit 21

unfoldable pub hexadecimal : ℕ → List ℕ
hexadecimal = numeral 16 hex_digit 21

decimal-IsPlain : (f n : ℕ) → IsPlain (numeral 10 decimal_digit f n)
unfolding plain
decimal-IsPlain =
    numeral-all 10 decimal_digit decimal_digit_on decimal_shrink IsPlain refl
      (λ s n h. IsPlain-append s (decimal_digit (n % 10) ∷ []) h (ground arith))

hexadecimal-IsPlain : (f n : ℕ) → IsPlain (numeral 16 hex_digit f n)
unfolding plain
hexadecimal-IsPlain =
    numeral-all 16 hex_digit hex_digit_on hex_shrink IsPlain refl
      (λ s n h. IsPlain-append s (hex_digit (n % 16) ∷ []) h (ground arith))

-- The text of a number from that of its value without the sign.
abbrev pub with_sign : Bool → List ℕ → List ℕ
with_sign negative s = if negative then b'-' ∷ s else s

c_string_stop : (str : ℕ → ℕ) (p : ℕ) → str p ≡ 0 → c_string 1 str p ≡ []
unfolding c_string
c_string_stop str p stop = rw (c_string, stop) refl

-- The call of `printf` in the functions, at a depth that is left.
module _ (stack : ℕ → ℕ) (depth : ℕ) (out : List ℕ) where
  abbrev pub nested : List ℕ → List ℕ → Run ℤ
  nested o s = printf stack (suc depth) o s []

  print_from_lem :
      (end : ℕ) (str : ℕ → ℕ) (s : List ℕ) (place : ℕ × (ℕ → ℕ))
      → IsPut end str s place
      → str end ≡ 0
      → IsPlain s
      → length s ≤ end
      → end ≤ int_max
      → print_from nested out (end + 1) place ≡ (out ++ sent s, some true)
  unfolding print_from
  print_from_lem end str s (zero, cells) put stop clear fits small =
      absurd (omega (arith, put.placed))
  print_from_lem end str s (suc p, cells) put stop clear fits small =
      let room : end + 1 - p ≡ length s + 1 = omega (arith, put.position) in
      let at : suc p - 1 ≡ p = omega arith in
      let last : c_string 1 str end ≡ [] = c_string_stop str end stop in
      let found : c_string (length s + 1) cells p ≡ s =
        rw at at (put.content 1) ∙ rw last (append-nil s) in
      rw (room, found, printf-IsPlain stack depth out s clear (omega (arith, fits, small))) refl

  pub print_unsigned-text :
      (p val : ℕ)
      → val < limit 10 (suc p)
      → suc p ≤ int_max
      → print_unsigned nested stack (suc p) out val
        ≡ (out ++ sent (numeral 10 decimal_digit (suc p) val), some true)
  unfolding print_unsigned
  print_unsigned-text p val h small =
      let s = numeral 10 decimal_digit (suc p) val in
      let str = update stack (suc p) 0 in
      print_from_lem (suc p) str s (digit_loop 10 decimal_digit (suc p) val str)
        (digit_loop-IsPut 10 decimal_digit decimal_digit_on decimal_shrink p val str h)
        (update_self stack (suc p) 0) (decimal-IsPlain (suc p) val)
        (length-numeral 10 decimal_digit decimal_digit_on decimal_shrink (suc p) p val h) small

  print_signed-text :
      (p w size : ℕ) (val : ℤ)
      → magnitude w val ≡ some size
      → size < limit 10 (suc p)
      → suc (suc p) ≤ int_max
      → print_signed nested stack (suc (suc p)) w out val ≡ (
        out ++ sent (with_sign (is_negative val) (numeral 10 decimal_digit (suc (suc p)) size)),
        some true,
      )
  unfolding print_signed plain
  print_signed-text p w size val known h small =
      let s = numeral 10 decimal_digit (suc (suc p)) size in
      let str = update stack (suc (suc p)) 0 in
      let place = digit_loop 10 decimal_digit (suc (suc p)) size str in
      let long : limit 10 (suc p) ≤ limit 10 (suc (suc p)) = omega arith in
      let put =
        digit_loop-IsPut 10 decimal_digit decimal_digit_on decimal_shrink (suc p) size str
          (omega (arith, h, long)) in
      let few =
        length-numeral 10 decimal_digit decimal_digit_on decimal_shrink (suc (suc p)) p size h in
      let clear = decimal-IsPlain (suc (suc p)) size in
      elim (Bool-cases (is_negative val)) [
        | inr positive ↦
            rw (print_signed, known, positive)
              (print_from_lem (suc (suc p)) str s place put (update_self stack (suc (suc p)) 0)
                clear (omega (arith, few)) small)
        | inl negative ↦
            rw (print_signed, known, negative)
              (print_from_lem (suc (suc p)) str (b'-' ∷ s) (put_front b'-' place)
                (put_front-IsPut (suc (suc p)) b'-' str s place (λ h. omega (arith, h))
                  (omega (arith, few)) put)
                (update_self stack (suc (suc p)) 0) (ground (arith, clear)) (omega (arith, few))
                small)
      ]

  pub print_hex_64-text :
      (val : ℕ)
      → val < limit 16 19
      → print_hex_64 nested stack out val ≡ (out ++ sent (b'0' ∷ b'x' ∷ hexadecimal val), some true)
  unfolding print_hex_64 hexadecimal plain
  print_hex_64-text val h =
      let s = numeral 16 hex_digit 21 val in
      let str = update stack 21 0 in
      let place = digit_loop 16 hex_digit 21 val str in
      let put =
        digit_loop-IsPut 16 hex_digit hex_digit_on hex_shrink 20 val str (omega (arith, h)) in
      let few = length-numeral 16 hex_digit hex_digit_on hex_shrink 21 18 val h in
      let clear = hexadecimal-IsPlain 21 val in
      let marked =
        put_front-IsPut 21 b'x' str s place (λ h. omega (arith, h)) (omega (arith, few)) put in
      print_from_lem 21 str (b'0' ∷ b'x' ∷ s) (put_front b'0' (put_front b'x' place))
        (put_front-IsPut 21 b'0' str (b'x' ∷ s) (put_front b'x' place) (λ h. omega (arith, h))
          (omega (arith, few)) marked)
        (update_self stack 21 0) (ground (arith, clear)) (omega (arith, few)) (omega arith)

  -- The four functions that `printf` calls.
  pub print_decimal-text :
      (size : ℕ) (val : ℤ)
      → magnitude 31 val ≡ some size
      → size < 2 ^ 31
      → print_decimal nested stack out val
        ≡ (out ++ sent (with_sign (is_negative val) (decimal size)), some true)
  unfolding print_decimal decimal
  print_decimal-text size val known h =
      print_signed-text 10 31 size val known (omega (arith, h)) (omega arith)
      ∙ ap (λ s. (out ++ sent (with_sign (is_negative val) s), some true))
          (numeral_same 10 decimal_digit decimal_digit_on decimal_shrink 11 20 size
            (omega (arith, h)) (omega (arith, h)))

  pub print_decimal_64-text :
      (size : ℕ) (val : ℤ)
      → magnitude 63 val ≡ some size
      → size < 2 ^ 63
      → print_decimal_64 nested stack out val
        ≡ (out ++ sent (with_sign (is_negative val) (decimal size)), some true)
  unfolding print_decimal_64 decimal
  print_decimal_64-text size val known h =
      print_signed-text 19 63 size val known (omega (arith, h)) (omega arith)

  pub print_unsigned_decimal_64-text :
      (val : ℕ)
      → val < 2 ^ 64
      → print_unsigned_decimal_64 nested stack out val ≡ (out ++ sent (decimal val), some true)
  unfolding print_unsigned_decimal_64 decimal
  print_unsigned_decimal_64-text val h = print_unsigned-text 20 val (omega (arith, h)) (omega arith)

  pub print_unsigned_decimal-text :
      (val : ℕ)
      → val < 2 ^ 32
      → print_unsigned_decimal nested stack out val ≡ (out ++ sent (decimal val), some true)
  unfolding print_unsigned_decimal decimal
  print_unsigned_decimal-text val h =
      print_unsigned-text 11 val (omega (arith, h)) (omega arith)
      ∙ ap (λ s. (out ++ sent s, some true))
          (numeral_same 10 decimal_digit decimal_digit_on decimal_shrink 11 20 val
            (omega (arith, h)) (omega (arith, h)))
