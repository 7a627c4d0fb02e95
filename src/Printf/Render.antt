-- ===== src/Printf/Render.antt =====
-- What a format and its arguments mean: the text to print and the count of `printf`, one character after
-- another. A number counts as one character.
use dim_os.Common.{
  ℕ, suc, ◌+◌, ◌≤◌, ◌^◌, ◌≡◌, refl, ap, ◌∙◌, inl, inr, Bool, true, false, ◌||◌, ◌==◌, ltb,
  if◌then◌else◌, Option, some, none, List, [], ◌∷◌, ◌++◌, length, length-take, length-drop,
  append_assoc, take, drop, arith, Bool-cases, ℤ, is_negative, as_word, magnitude,
}
use dim_os.Printf.{Arg, plain, is_number_letter, is_literal, literal}
use dim_os.Printf.Literal.{plain-le}
use dim_os.Printf.Numbers.{decimal, hexadecimal}

-- `none` for a number out of range, and for the least number.
abbrev pub signed_text : ℕ → ℤ → Option (List ℕ)
signed_text w d = elim (magnitude w d) [
  | none ↦ none
  | some size ↦
      if ltb size (2 ^ w)
      then some (if is_negative d then b'-' ∷ decimal size else decimal size)
      else none
]

abbrev pub number_text : ℕ → ℤ → Option (List ℕ)
number_text k d =
    if k == b'c'
    then some (as_word 8 d ∷ [])
    else (if k == b'd'
        then signed_text 31 d
        else (if k == b'l'
            then signed_text 63 d
            else (if k == b'u'
                then some (decimal (as_word 64 d))
                else some (b'0' ∷ b'x' ∷ hexadecimal (as_word 64 d)))))

-- The text of a conversion, its count and the arguments left; `none` for a missing or wrong argument.
unfoldable pub conversion : ℕ → List Arg → Option (List ℕ × ℕ × List Arg)
conversion k [] = none
conversion k (Arg.text s ∷ args) = if k == b's' then some (s, length s, args) else none
conversion k (Arg.number d ∷ args) =
    if k == b's' then none else elim (number_text k d) [ none ↦ none | some s ↦ some (s, 1, args) ]

abbrev pub is_letter : ℕ → Bool
is_letter k = (k == b's') || (k == b'c') || is_number_letter k

abbrev pub joined : List ℕ → ℕ → Option (List ℕ × ℕ) → Option (List ℕ × ℕ)
joined s n none = none
joined s n (some (t, m)) = some (s ++ t, n + m)

unfoldable pub render : List ℕ → List Arg → Option (List ℕ × ℕ)
render [] args = some ([], 0)
render (c ∷ []) args = some (c ∷ [], 1)
render (c ∷ k ∷ s) args = elim (c == b'%') [
  | false ↦ joined (c ∷ []) 1 (render (k ∷ s) args)
  | true ↦ elim (k == b'%') [
    | true ↦ joined (k ∷ []) 1 (render s args)
    | false ↦ elim (is_letter k) [
      | true ↦ elim (conversion k args) [
        | none ↦ none
        | some (t, n, args') ↦ joined t n (render s args')
      ]
      | false ↦ some (c ∷ k ∷ s, length (c ∷ k ∷ s))
    ]
  ]
]

pub joined-some :
    (s : List ℕ) (n : ℕ) (o : Option (List ℕ × ℕ)) (t : List ℕ) (m : ℕ)
    → joined s n o ≡ some (t, m)
    → (t' : List ℕ) × (m' : ℕ) × (o ≡ some (t', m')) × (s ++ t' ≡ t) × (n + m' ≡ m)
joined-some s n none t m h = absurd (cc h)
joined-some s n (some (t', m')) t m h = (t', m', refl, cc h, cc h)

joined_twice :
    (s s' : List ℕ) (n n' : ℕ) (o : Option (List ℕ × ℕ))
    → joined s n (joined s' n' o) ≡ joined (s ++ s') (n + n') o
joined_twice s s' n n' none = refl
joined_twice s s' n n' (some (t, m)) =
    let sum : n + (n' + m) ≡ n + n' + m = omega arith in rw (append_assoc s s' t, sum) refl

joined_none : (o : Option (List ℕ × ℕ)) → o ≡ joined [] 0 o
joined_none none = refl
joined_none (some (t, m)) = let sum : 0 + m ≡ m = omega arith in rw sum refl

-- An ordinary character in front.
render_ordinary :
    (c : ℕ) (s : List ℕ) (args : List Arg)
    → (c == b'%') ≡ false
    → render (c ∷ s) args ≡ joined (c ∷ []) 1 (render s args)
unfolding render
render_ordinary c [] args h = refl
render_ordinary c (k ∷ s) args h = rw (render, h) refl

-- The characters before the next `%`.
pub render-plain :
    (s : List ℕ) (args : List Arg)
    → render s args ≡ joined (take (plain s) s) (plain s) (render (drop (plain s) s) args)
unfolding plain
render-plain [] args = joined_none (render [] args)
render-plain (c ∷ s) args = elim (Bool-cases (c == b'%')) [
  | inl percent ↦ rw (plain, percent) (joined_none (render (c ∷ s) args))
  | inr ordinary ↦
      let next : 1 + plain s ≡ suc (plain s) = omega arith in
      rw
        (
          plain,
          ordinary,
          next,
          render_ordinary c s args ordinary,
          render-plain s args,
          joined_twice (c ∷ []) (take (plain s) s) 1 (plain s) (render (drop (plain s) s) args),
          next,
        )
        refl
]

-- A character and those up to the next `%`.
copied_front :
    (c : ℕ) (s : List ℕ) (args : List Arg)
    → (joined (c ∷ []) 1 (render s args)
        ≡ joined
            (take (1 + plain s) (c ∷ s))
            (1 + plain s)
            (render (drop (1 + plain s) (c ∷ s)) args))
      × (length (take (1 + plain s) (c ∷ s)) ≡ 1 + plain s)
      × (length (drop (1 + plain s) (c ∷ s)) ≤ length s)
copied_front c s args =
    let next : 1 + plain s ≡ suc (plain s) = omega arith in
    rw next (
      ap (joined (c ∷ []) 1) (render-plain s args)
          ∙ joined_twice (c ∷ []) (take (plain s) s) 1 (plain s) (render (drop (plain s) s) args)
          ∙ ap (λ n. joined (c ∷ take (plain s) s) n (render (drop (plain s) s) args)) next,
      omega (arith, length-take (plain s) s, plain-le s),
      omega (arith, length-drop (plain s) s),
    )

-- The characters that one round of `printf` copies.
pub render-literal :
    (c : ℕ) (s : List ℕ) (args : List Arg)
    → is_literal c s ≡ true
    → let run = literal c s in
      let amount = 1 + plain (drop 1 run) in
      (render (c ∷ s) args ≡ joined (take amount run) amount (render (drop amount run) args))
      × (length (take amount run) ≡ amount)
      × (length (drop amount run) ≤ length s)
unfolding render
render-literal c s args first = elim (Bool-cases (c == b'%')) [
  | inr ordinary ↦
      let (text, count, left) = copied_front c s args in
      rw ordinary (render_ordinary c s args ordinary ∙ text, count, left)
  | inl percent ↦ doubled s first percent
]
  where
    doubled :
        (s : List ℕ)
        → is_literal c s ≡ true
        → (c == b'%') ≡ true
        → let run = literal c s in
          let amount = 1 + plain (drop 1 run) in
          (render (c ∷ s) args ≡ joined (take amount run) amount (render (drop amount run) args))
          × (length (take amount run) ≡ amount)
          × (length (drop amount run) ≤ length s)
    doubled [] first percent = absurd (ground (arith, first, percent))
    doubled (k ∷ s) first percent =
        let twice : (k == b'%') ≡ true = ground (arith, first, percent) in
        let (text, count, left) = copied_front k s args in
        rw (render, percent, twice) (text, count, omega (arith, left))
