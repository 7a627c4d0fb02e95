-- ===== src/Printf/Tests.antt =====
-- The theorems about printf.c at small numbers and formats, and runs of the code on them.
use dim_os.Common.{ℕ, ◌≤◌, ◌≡◌, refl, true, some, List, [], ◌∷◌, ◌++◌, length, arith, ℤ}
use dim_os.Printf.{Arg, printf, print_decimal_64, print_hex_64}
use dim_os.Printf.Numeral.{read_number, numeral}
use dim_os.Printf.Numbers.{nested, decimal}
use dim_os.Printf.Render.{render, conversion}
use dim_os.Printf.Literal.{sent}
use dim_os.Printf.Scan.{printf-render}
use dim_os.Printf.Readback.{read_int, hex_worth, print_decimal_64-read, print_hex_64-read}

abbrev blank : ℕ → ℕ
blank i = 0

-- The format `%d%%%c` and its arguments.
abbrev format : List ℕ
format = b'%' ∷ b'd' ∷ b'%' ∷ b'%' ∷ b'%' ∷ b'c' ∷ []

abbrev two_args : List Arg
two_args = Arg.number (ℤ.negsuc 41) ∷ Arg.number (ℤ.pos 33) ∷ []

rendered : render format two_args ≡ some (b'-' ∷ b'4' ∷ b'2' ∷ b'%' ∷ b'!' ∷ [], 3)
unfolding render conversion decimal numeral
rendered = refl

printf-render_example :
    printf blank 2 [] format two_args
    ≡ (sent (b'-' ∷ b'4' ∷ b'2' ∷ b'%' ∷ b'!' ∷ []), some (ℤ.pos 3))
printf-render_example =
    printf-render blank 0 [] format two_args (b'-' ∷ b'4' ∷ b'2' ∷ b'%' ∷ b'!' ∷ []) 3 rendered
      (omega arith)

print_decimal_64-read_example :
    (s : List ℕ) × (print_decimal_64 (nested blank 0 []) blank [] (ℤ.pos 70000)
      ≡ ([] ++ s, some true))
    × (read_int s ≡ ℤ.pos 70000)
print_decimal_64-read_example = print_decimal_64-read blank 0 [] (ℤ.pos 70000) (omega arith)

print_hex_64-read_example :
    (s : List ℕ) × (print_hex_64 (nested blank 0 []) blank [] 4094
      ≡ ([] ++ b'0' ∷ b'x' ∷ s, some true))
    × (length s ≤ 16)
    × (read_number 16 hex_worth 0 s ≡ 4094)
print_hex_64-read_example = print_hex_64-read blank 0 [] 4094 (omega arith)
