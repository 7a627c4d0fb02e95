-- ===== src/Printf.antt =====
-- libc/stdio/printf.c and libc/stdio/putchar.c: formatted output.
pub mod Numeral
pub mod Numbers
pub mod Render
pub mod Literal
pub mod Convert
pub mod Scan
pub mod Readback
mod Tests
use dim_os.Common.{
  ℕ, zero, suc, ◌+◌, ◌-◌, ◌/◌, ◌%◌, ◌^◌, ◌≡◌, Bool, true, false, not, ◌&&◌, ◌||◌, ◌==◌, ltb, leb,
  if◌then◌else◌, Option, some, none, List, [], ◌∷◌, ◌++◌, length, take, drop, update, ℤ,
  is_negative, is_minus_one, as_word, magnitude,
}

-- A C string is the list of its bytes before the zero, and the output so far a list of bytes. An
-- operation gives the output and its result; it has none where the behaviour of the source is undefined.
abbrev pub Run : Type 0 → Type 0
Run A = List ℕ × Option A

abbrev pub int_max : ℕ
int_max = 2 ^ 31 - 1

-- `putchar`: the character goes out and is the result.
pub putchar : List ℕ → ℕ → List ℕ × ℤ
putchar out ic = (out ++ (ic % 256) ∷ [], ℤ.pos ic)

-- `print`, of the bytes before its `length`
pub print : List ℕ → List ℕ → List ℕ × Bool
print out [] = (out, true)
print out (c ∷ s) =
    let rest = print (putchar out c).0 s in
    if is_minus_one (putchar out c).1 then ((putchar out c).0, false) else rest

-- The loops that write digits from the end of `str`: `pos + 1` before and after. It is 0 if the loop
-- runs off the start.
pub digit_loop : ℕ → (ℕ → ℕ) → ℕ → ℕ → (ℕ → ℕ) → ℕ × (ℕ → ℕ)
digit_loop base digit zero val str = (0, str)
digit_loop base digit (suc p) val str =
    let rest = digit_loop base digit p (val / base) (update str p (digit (val % base))) in
    if val / base == 0 then (suc p, update str p (digit (val % base))) else rest

abbrev pub decimal_digit : ℕ → ℕ
decimal_digit x = b'0' + x

abbrev pub hex_digit : ℕ → ℕ
hex_digit x = if leb x 9 then b'0' + x else b'a' + (x - 10)

-- A character in front: `str[--pos] = c`, which is out of the array at its start.
pub put_front : ℕ → ℕ × (ℕ → ℕ) → ℕ × (ℕ → ℕ)
put_front c (zero, str) = (0, str)
put_front c (suc zero, str) = (0, str)
put_front c (suc (suc p), str) = (suc p, update str p c)

-- The C string at `p`, in an array with `room` places from there.
pub c_string : ℕ → (ℕ → ℕ) → ℕ → List ℕ
c_string zero str p = []
c_string (suc room) str p =
    let rest = c_string room str (p + 1) in if str p == 0 then [] else str p ∷ rest

-- `printf(str + pos)` in an array of `size` places, and `res != -1`.
pub print_from : (List ℕ → List ℕ → Run ℤ) → List ℕ → ℕ → ℕ × (ℕ → ℕ) → Run Bool
print_from nested out size (zero, str) = (out, none)
print_from nested out size (suc p, str) =
    let (out', res) = nested out (c_string (size - p) str p) in
    (out', elim res [ none ↦ none | some z ↦ some (not (is_minus_one z)) ])

-- The functions below write in an array on the stack, with the content `stack`.
pub print_unsigned : (List ℕ → List ℕ → Run ℤ) → (ℕ → ℕ) → ℕ → List ℕ → ℕ → Run Bool
print_unsigned nested stack end out val =
    print_from nested out (end + 1) (digit_loop 10 decimal_digit end val (update stack end 0))

pub print_signed : (List ℕ → List ℕ → Run ℤ) → (ℕ → ℕ) → ℕ → ℕ → List ℕ → ℤ → Run Bool
print_signed nested stack end w out val = elim (magnitude w val) [
  | none ↦ (out, none)
  | some size ↦
      let digits = digit_loop 10 decimal_digit end size (update stack end 0) in
      print_from nested out (end + 1) (if is_negative val then put_front b'-' digits else digits)
]

pub print_decimal : (List ℕ → List ℕ → Run ℤ) → (ℕ → ℕ) → List ℕ → ℤ → Run Bool
print_decimal nested stack = print_signed nested stack 12 31

pub print_unsigned_decimal : (List ℕ → List ℕ → Run ℤ) → (ℕ → ℕ) → List ℕ → ℕ → Run Bool
print_unsigned_decimal nested stack = print_unsigned nested stack 12

pub print_decimal_64 : (List ℕ → List ℕ → Run ℤ) → (ℕ → ℕ) → List ℕ → ℤ → Run Bool
print_decimal_64 nested stack = print_signed nested stack 21 63

pub print_unsigned_decimal_64 : (List ℕ → List ℕ → Run ℤ) → (ℕ → ℕ) → List ℕ → ℕ → Run Bool
print_unsigned_decimal_64 nested stack = print_unsigned nested stack 21

pub print_hex_64 : (List ℕ → List ℕ → Run ℤ) → (ℕ → ℕ) → List ℕ → ℕ → Run Bool
print_hex_64 nested stack out val =
    print_from nested out 22
      (put_front b'0' (put_front b'x' (digit_loop 16 hex_digit 21 val (update stack 21 0))))

-- What `va_arg` finds: a number or a string.
pub data Arg : Type 0 where
  number : ℤ → Arg
  text : List ℕ → Arg

-- One conversion: it went on with so many characters counted and these arguments, it returned -1, its
-- behaviour is undefined, or there is no such letter.
pub data Conversion : Type 0 where
  went : ℕ → List Arg → Conversion
  failed undefined unknown : Conversion

-- How a conversion that counts `n` goes on from the `bool` of a print.
abbrev pub counted : ℕ → List Arg → List ℕ × Option Bool → List ℕ × Conversion
counted n args (out, none) = (out, Conversion.undefined)
counted n args (out, some true) = (out, Conversion.went n args)
counted n args (out, some false) = (out, Conversion.failed)

-- The conversions that print a number.
abbrev pub print_number : (List ℕ → List ℕ → Run ℤ) → (ℕ → ℕ) → List ℕ → ℕ → ℤ → Run Bool
print_number nested stack out k d =
    if k == b'd'
    then print_decimal nested stack out d
    else (if k == b'l'
        then print_decimal_64 nested stack out d
        else (if k == b'u'
            then print_unsigned_decimal_64 nested stack out (as_word 64 d)
            else print_hex_64 nested stack out (as_word 64 d)))

abbrev pub is_number_letter : ℕ → Bool
is_number_letter k = (k == b'd') || (k == b'l') || (k == b'u') || (k == b'x')

abbrev pub done : List ℕ × Bool → Run Bool
done (out, b) = (out, some b)

pub convert_number :
    (List ℕ → List ℕ → Run ℤ) → (ℕ → ℕ) → List ℕ → ℕ → ℕ → List Arg → List ℕ × Conversion
convert_number nested stack out max_rem k (Arg.number d ∷ args) =
    if max_rem == 0
    then (out, Conversion.failed)
    else (if k == b'c'
        then counted 1 args (done (print out (as_word 8 d ∷ [])))
        else counted 1 args (print_number nested stack out k d))
convert_number nested stack out max_rem k args = (out, Conversion.undefined)

pub convert_text : List ℕ → ℕ → List Arg → List ℕ × Conversion
convert_text out max_rem (Arg.text s ∷ args) =
    if ltb max_rem (length s)
    then (out, Conversion.failed)
    else counted (length s) args (done (print out s))
convert_text out max_rem args = (out, Conversion.undefined)

-- The chain of conversions by the letter behind `%`.
pub convert : (List ℕ → List ℕ → Run ℤ) → (ℕ → ℕ) → List ℕ → ℕ → ℕ → List Arg → List ℕ × Conversion
convert nested stack out max_rem k args =
    if k == b's'
    then convert_text out max_rem args
    else (if (k == b'c') || is_number_letter k
        then convert_number nested stack out max_rem k args
        else (out, Conversion.unknown))

-- The characters before the next `%`.
pub plain : List ℕ → ℕ
plain [] = 0
plain (c ∷ s) = let rest = plain s in if c == b'%' then 0 else 1 + rest

-- A run of characters that are printed as they are: what is left of the format, and the count.
pub data Copied : Type 0 where
  copied : ℕ → Copied
  too_long : Copied

pub copy : List ℕ → ℕ → List ℕ → List ℕ × Copied
copy out written s =
    if ltb (int_max - written) (length s)
    then (out, Copied.too_long)
    else (let (out', ok) = print out s in
        (out', if ok then Copied.copied (written + length s) else Copied.too_long))

-- The first character is one to copy, or the `%` before a letter.
abbrev pub is_literal : ℕ → List ℕ → Bool
is_literal c [] = not (c == b'%')
is_literal c (k ∷ s) = not (c == b'%') || (k == b'%')

-- The format from the first character to copy: `%%` gives its second `%`.
abbrev pub literal : ℕ → List ℕ → List ℕ
literal c s = if c == b'%' then s else c ∷ s

-- The character behind a `%`; it is the zero at the end of the format.
abbrev pub letter : List ℕ → ℕ
letter [] = 0
letter (k ∷ s) = k

-- The loop of `printf`, by rounds.
pub printf_loop : (List ℕ → List ℕ → Run ℤ) → (ℕ → ℕ) → ℕ → List ℕ → ℕ → List ℕ → List Arg → Run ℤ
printf_loop nested stack zero out written format args = (out, none)
printf_loop nested stack (suc rounds) out written [] args = (out, some (ℤ.pos written))
printf_loop nested stack (suc rounds) out written (c ∷ s) args = elim (is_literal c s) [
  | true ↦
      let run = literal c s in
      let amount = 1 + plain (drop 1 run) in
      (let (out', r) = copy out written (take amount run) in
        elim r [
          | copied written' ↦ printf_loop nested stack rounds out' written' (drop amount run) args
          | too_long ↦ (out', some (ℤ.negsuc 0))
        ])
  | false ↦
      let (out', step) = convert nested stack out (int_max - written) (letter s) args in
      elim step [
        | went n args' ↦ printf_loop nested stack rounds out' (written + n) (drop 1 s) args'
        | failed ↦ (out', some (ℤ.negsuc 0))
        | undefined ↦ (out', none)
        | unknown ↦
            (let (out'', r) = copy out' written (c ∷ s) in
              elim r [
                | copied written' ↦ printf_loop nested stack rounds out'' written' [] args
                | too_long ↦ (out'', some (ℤ.negsuc 0))
              ])
      ]
]

-- `printf`, by the depth of the calls from the numbers.
unfoldable pub printf : (ℕ → ℕ) → ℕ → List ℕ → List ℕ → List Arg → Run ℤ
printf stack zero out format args = (out, none)
printf stack (suc depth) out format args =
    printf_loop (λ out s. printf stack depth out s []) stack (length format + 1) out 0 format args

pub puts : (ℕ → ℕ) → ℕ → List ℕ → List ℕ → Run ℤ
puts stack depth out s = printf stack depth out (b'%' ∷ b's' ∷ 10 ∷ []) (Arg.text s ∷ [])
