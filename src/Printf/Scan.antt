-- ===== src/Printf/Scan.antt =====
-- `printf` prints what its format and arguments mean.
use dim_os.Common.{
  ℕ, zero, suc, ◌+◌, ◌-◌, ◌≤◌, ◌<◌, ◌≡◌, refl, sym, ap, ◌∙◌, inl, inr, true, false, ◌||◌, ◌==◌,
  Option, some, List, [], ◌∷◌, ◌++◌, length, append_assoc, append-nil, take, drop, arith,
  Bool-cases, Option-cases, ℤ,
}
use dim_os.Printf.{
  Run, Arg, Conversion, int_max, plain, is_number_letter, letter, is_literal, literal, convert,
  printf, printf_loop,
}
use dim_os.Printf.Numbers.{nested}
use dim_os.Printf.Literal.{sent, sent-append, copy_lem, literal_round, loop_end}
use dim_os.Printf.Render.{conversion, is_letter, joined, joined-some, render, render-literal}
use dim_os.Printf.Convert.{convert_lem}

-- One round that converts.
module _ (stack : ℕ → ℕ) (depth r : ℕ) (out : List ℕ) (written c : ℕ) (args : List Arg)
    (percent : (c == b'%') ≡ true) where
  abbrev rounds_left : List ℕ → ℕ → List ℕ → List Arg → Run ℤ
  rounds_left = printf_loop (nested stack depth out) stack r

  -- Behind a `%` that no letter follows, the rest of the format goes out.
  unknown_round :
      (s : List ℕ)
      → is_literal c s ≡ false
      → is_letter (letter s) ≡ false
      → written + length (c ∷ s) ≤ int_max
      → printf_loop (nested stack depth out) stack (suc r) out written (c ∷ s) args
        ≡ rounds_left (out ++ sent (c ∷ s)) (written + length (c ∷ s)) [] args
  unfolding printf_loop convert
  unknown_round s first no_letter room =
      let no_s : (letter s == b's') ≡ false = ground (arith, no_letter) in
      let no_c : ((letter s == b'c') || is_number_letter (letter s)) ≡ false =
        ground (arith, no_letter) in
      let step = copy_lem out written (c ∷ s) room in
      let gone : convert (nested stack depth out) stack out (int_max - written) (letter s) args
          ≡ (out, Conversion.unknown) =
        rw (convert, no_s, no_c) refl in
      let same : (convert (nested stack depth out) stack out (int_max - written) (letter s) args).0
          ≡ out =
        ap (λ z. z.0) gone in
      rw (printf_loop, first, gone, same, step, same)
        (ap (λ z. rounds_left z.0 (written + length (c ∷ s)) [] args) step)

  letter_round :
      (k : ℕ) (s : List ℕ) (t : List ℕ) (n : ℕ) (args' : List Arg)
      → is_literal c (k ∷ s) ≡ false
      → is_letter k ≡ true
      → conversion k args ≡ some (t, n, args')
      → written + n ≤ int_max
      → printf_loop (nested stack depth out) stack (suc r) out written (c ∷ k ∷ s) args
        ≡ rounds_left (out ++ sent t) (written + n) s args'
  unfolding printf_loop
  letter_round k s t n args' first is known room =
      let step =
        convert_lem stack depth out (int_max - written) k args t n args' is known
          (omega (arith, room)) in
      rw (printf_loop, first, step) (ap (λ z. rounds_left z.0 (written + n) s args') step)

-- A text printed behind another.
sent_up :
    (out t t' : List ℕ) (written n n' : ℕ) (u : List ℕ) (m : ℕ)
    → t ++ t' ≡ u
    → n + n' ≡ m
    → ◌≡◌ {A = Run ℤ}
        ((out ++ sent t) ++ sent t', some (ℤ.pos (written + n + n')))
        (out ++ sent u, some (ℤ.pos (written + m)))
sent_up out t t' written n n' u m texts counts =
    let sum : written + n + n' ≡ written + m = omega (arith, counts) in
    rw (append_assoc out (sent t) (sent t'), ← sent-append t t', texts, sum) refl

-- In so many rounds, the loop prints what is left of the format.
abbrev Printed : (ℕ → ℕ) → ℕ → ℕ → Type 0
Printed stack depth rounds =
    (out : List ℕ) (written : ℕ) (format : List ℕ) (args : List Arg) (t : List ℕ) (n : ℕ)
    → length format < rounds
    → render format args ≡ some (t, n)
    → written + n ≤ int_max
    → printf_loop (nested stack depth out) stack rounds out written format args
      ≡ (out ++ sent t, some (ℤ.pos (written + n)))

percent_first : (c : ℕ) (s : List ℕ) → is_literal c s ≡ false → (c == b'%') ≡ true
percent_first c [] h = ground (arith, h)
percent_first c (k ∷ s) h = ground (arith, h)

-- A `%` that no second one follows, if the rounds behind it print what is left.
module _ (stack : ℕ → ℕ) (depth r : ℕ) (out : List ℕ) (written c : ℕ) (args : List Arg) (t : List ℕ)
    (n : ℕ) (room : written + n ≤ int_max) (is_percent : (c == b'%') ≡ true)
    (loop : Printed stack depth r) where
  -- The rest of the format goes out as it is.
  unknown_rest :
      (s : List ℕ)
      → suc (length s) < suc r
      → is_literal c s ≡ false
      → is_letter (letter s) ≡ false
      → c ∷ s ≡ t
      → suc (length s) ≡ n
      → printf_loop (nested stack depth out) stack (suc r) out written (c ∷ s) args
        ≡ (out ++ sent t, some (ℤ.pos (written + n)))
  unfolding render
  unknown_rest s enough converts no_letter text count =
      unknown_round stack depth r out written c args is_percent s converts no_letter
        (omega (arith, count, room))
      ∙ loop (out ++ sent (c ∷ s)) (written + suc (length s)) [] args [] 0 (omega (arith, enough))
          refl (omega (arith, count, room))
      ∙ sent_up out (c ∷ s) [] written (suc (length s)) 0 t n (append-nil (c ∷ s) ∙ text)
          (omega (arith, count))

  percent_rest :
      (s : List ℕ)
      → suc (length s) < suc r
      → render (c ∷ s) args ≡ some (t, n)
      → is_literal c s ≡ false
      → printf_loop (nested stack depth out) stack (suc r) out written (c ∷ s) args
        ≡ (out ++ sent t, some (ℤ.pos (written + n)))
  unfolding render
  percent_rest [] enough known converts = unknown_rest [] enough converts refl (cc known) (cc known)
  percent_rest (k ∷ s) enough known converts =
      let twice : (k == b'%') ≡ false = ground (arith, converts, is_percent) in
      elim (Bool-cases (is_letter k)) [
        | inr no_letter ↦
            let all : ◌≡◌ {A = Option (List ℕ × ℕ)} (some (c ∷ k ∷ s, suc (suc (length s))))
                (some (t, n)) =
              rw (render, is_percent, twice, no_letter) at known in
            unknown_rest (k ∷ s) enough converts no_letter (cc all) (cc all)
        | inl is ↦ elim (Option-cases (conversion k args)) [
          | inl missing ↦ absurd (cc (rw (render, is_percent, twice, is, missing) at known))
          | inr ((t1, n1, args'), found) ↦
              let all : joined t1 n1 (render s args') ≡ some (t, n) =
                rw (render, is_percent, twice, is, found) at known in
              let (t', n', later, texts, counts) = joined-some t1 n1 (render s args') t n all in
              letter_round stack depth r out written c args is_percent k s t1 n1 args' converts is
                found (omega (arith, counts, room))
              ∙ loop (out ++ sent t1) (written + n1) s args' t' n' (omega (arith, enough)) later
                  (omega (arith, counts, room))
              ∙ sent_up out t1 t' written n1 n' t n texts counts
        ]
      ]

-- The loop prints what is left of the format.
printf_loop-render : (stack : ℕ → ℕ) (depth rounds : ℕ) → Printed stack depth rounds
unfolding render
printf_loop-render stack depth zero out written format args t n enough known room =
    absurd (omega (arith, enough))
printf_loop-render stack depth (suc r) out written [] args t n enough known room =
    let empty : [] ≡ t = cc known in
    let none_counted : 0 ≡ n = cc known in
    let same : written + 0 ≡ written = omega arith in
    loop_end (nested stack depth out) stack r out written args
    ∙ rw (← empty, ← none_counted, same, append-nil out) refl
printf_loop-render stack depth (suc r) out written (c ∷ s) args t n enough known room =
    elim (Bool-cases (is_literal c s)) [
      | inl copies ↦
          let run = literal c s in
          let amount = 1 + plain (drop 1 run) in
          let (text, count, left) = render-literal c s args copies in
          let (t', n', later, texts, counts) =
            joined-some (take amount run) amount (render (drop amount run) args) t n
              (sym text ∙ known) in
          literal_round (nested stack depth out) stack r out written c s args copies
            (omega (arith, count, counts, room))
          ∙ printf_loop-render stack depth r (out ++ sent (take amount run))
              (written + length (take amount run)) (drop amount run) args t' n'
              (omega (arith, left, enough)) later (omega (arith, count, counts, room))
          ∙ sent_up out (take amount run) t' written (length (take amount run)) n' t n texts
              (omega (arith, count, counts))
      | inr converts ↦
          percent_rest stack depth r out written c args t n room (percent_first c s converts)
            (printf_loop-render stack depth r) s enough known converts
    ]

-- Where the format and the arguments have a meaning, and no number overflows the count, `printf` prints
-- exactly the text that they mean and returns its count; the calls of `printf` from the functions that
-- print numbers need one level of depth.
pub printf-render :
    (stack : ℕ → ℕ) (depth : ℕ) (out format : List ℕ) (args : List Arg) (t : List ℕ) (n : ℕ)
    → render format args ≡ some (t, n)
    → n ≤ int_max
    → printf stack (suc (suc depth)) out format args ≡ (out ++ sent t, some (ℤ.pos n))
unfolding printf
printf-render stack depth out format args t n known room =
    let none_before : 0 + n ≡ n = omega arith in
    rw none_before at (
      printf_loop-render stack depth (length format + 1) out 0 format args t n (omega arith) known
        (omega (arith, room)))
