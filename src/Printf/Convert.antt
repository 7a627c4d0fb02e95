-- ===== src/Printf/Convert.antt =====
-- One conversion of `printf` prints the text that it means.
use dim_os.Common.{
  ℕ, ◌≤◌, ◌<◌, ◌^◌, ◌≡◌, refl, ap, ap₂, ◌∙◌, inl, inr, true, false, ◌==◌, ltb, Option, some, List,
  [], ◌∷◌, ◌++◌, length, arith, Bool-cases, Option-cases, none_ne_some, ℤ, is_negative, as_word,
  magnitude,
}
use dim_os.Printf.{
  Arg, Conversion, is_number_letter, letter, print_number, convert, convert_number, convert_text,
}
use dim_os.Printf.Numbers.{
  decimal, hexadecimal, with_sign, nested, print_decimal-text, print_decimal_64-text,
  print_unsigned_decimal_64-text, print_hex_64-text,
}
use dim_os.Printf.Literal.{sent, print_lem}
use dim_os.Printf.Render.{signed_text, number_text, conversion, is_letter}

as_word_lt : (d : ℤ) → as_word 64 d < 2 ^ 64
as_word_lt (ℤ.pos n) = omega arith
as_word_lt (ℤ.negsuc n) = omega arith

signed_text-some :
    (w : ℕ) (d : ℤ) (s : List ℕ)
    → signed_text w d ≡ some s
    → (size : ℕ) × (magnitude w d ≡ some size)
      × (size < 2 ^ w)
      × (with_sign (is_negative d) (decimal size) ≡ s)
signed_text-some w d s known = elim (Option-cases (magnitude w d)) [
  | inl over ↦ absurd (none_ne_some (rw (signed_text, over) at known))
  | inr (size, found) ↦ elim (Bool-cases (ltb size (2 ^ w))) [
    | inl small ↦ (size, found, ground (arith, small), cc (rw (signed_text, found, small) at known))
    | inr large ↦ absurd (none_ne_some (rw (signed_text, found, large) at known))
  ]
]

module _ (stack : ℕ → ℕ) (depth : ℕ) (out : List ℕ) where
  number_lem :
      (k : ℕ) (d : ℤ) (s : List ℕ)
      → (k == b'c') ≡ false
      → number_text k d ≡ some s
      → print_number (nested stack depth out) stack out k d ≡ (out ++ sent s, some true)
  number_lem k d s other known = elim (Bool-cases (k == b'd')) [
    | inl letter ↦
        let (size, found, small, text) = signed_text-some 31 d s (rw (other, letter) at known) in
        rw (letter, ← text) (print_decimal-text stack depth out size d found small)
    | inr no_d ↦ elim (Bool-cases (k == b'l')) [
      | inl letter ↦
          let (size, found, small, text) =
            signed_text-some 63 d s (rw (other, no_d, letter) at known) in
          rw (no_d, letter, ← text) (print_decimal_64-text stack depth out size d found small)
      | inr no_l ↦ elim (Bool-cases (k == b'u')) [
        | inl letter ↦
            let text : some (decimal (as_word 64 d)) ≡ some s =
              rw (other, no_d, no_l, letter) at known in
            let same : decimal (as_word 64 d) ≡ s = cc text in
            rw (no_d, no_l, letter, ← same)
              (print_unsigned_decimal_64-text stack depth out (as_word 64 d) (as_word_lt d))
        | inr no_u ↦
            let text : some (b'0' ∷ b'x' ∷ hexadecimal (as_word 64 d)) ≡ some s =
              rw (other, no_d, no_l, no_u) at known in
            let same : b'0' ∷ b'x' ∷ hexadecimal (as_word 64 d) ≡ s = cc text in
            rw (no_d, no_l, no_u, ← same)
              (print_hex_64-text stack depth out (as_word 64 d) (omega (arith, as_word_lt d)))
      ]
    ]
  ]

  pub convert_lem :
      (max_rem k : ℕ) (args : List Arg) (t : List ℕ) (n : ℕ) (args' : List Arg)
      → is_letter k ≡ true
      → conversion k args ≡ some (t, n, args')
      → n ≤ max_rem
      → convert (nested stack depth out) stack out max_rem k args
        ≡ (out ++ sent t, Conversion.went n args')
  unfolding convert convert_number convert_text conversion
  convert_lem max_rem k [] t n args' letter known room = absurd (cc known)
  convert_lem max_rem k (Arg.text s ∷ args) t n args' letter known room =
      elim (Bool-cases (k == b's')) [
        | inr other ↦ absurd (cc (rw other at known))
        | inl is_text ↦
            let same : ◌≡◌ {A = Option (List ℕ × ℕ × List Arg)} (some (s, length s, args))
                (some (t, n, args')) =
              rw is_text at known in
            let text : s ≡ t = cc same in
            let count : length s ≡ n = cc same in
            let left : args ≡ args' = cc same in
            let fits : ltb max_rem (length s) ≡ false = ground (arith, count, room) in
            rw (convert, is_text, fits, print_lem out s, count, left, text) refl
      ]
  convert_lem max_rem k (Arg.number d ∷ args) t n args' letter known room =
      elim (Bool-cases (k == b's')) [
        | inl is_text ↦ absurd (cc (rw is_text at known))
        | inr other ↦ elim (Option-cases (number_text k d)) [
          | inl undefined ↦ absurd (cc (rw (other, undefined) at known))
          | inr (s, found) ↦
              let same : ◌≡◌ {A = Option (List ℕ × ℕ × List Arg)} (some (s, 1, args))
                  (some (t, n, args')) =
                rw (other, found) at known in
              let text : s ≡ t = cc same in
              let count : 1 ≡ n = cc same in
              let left : args ≡ args' = cc same in
              let some_room : (max_rem == 0) ≡ false = ground (arith, count, room) in
              elim (Bool-cases (k == b'c')) [
                | inl is_char ↦
                    let one : some (as_word 8 d ∷ []) ≡ some s = rw is_char at found in
                    let one' : as_word 8 d ∷ [] ≡ s = cc one in
                    rw (convert, other, is_char, some_room, print_lem out (as_word 8 d ∷ []))
                      (ap (λ z. (out ++ sent z, Conversion.went 1 args)) (one' ∙ text)
                        ∙ ap₂ (λ m rest. (out ++ sent t, Conversion.went m rest)) count left)
                | inr no_char ↦
                    let number : is_number_letter k ≡ true =
                      ground (arith, letter, other, no_char) in
                    rw
                      (
                        convert,
                        other,
                        no_char,
                        number,
                        some_room,
                        number_lem k d s no_char found,
                        text,
                        count,
                        left,
                      )
                      refl
              ]
        ]
      ]
