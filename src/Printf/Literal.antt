-- ===== src/Printf/Literal.antt =====
-- The characters that are printed as they are.
use dim_os.Common.{
  ℕ, suc, ◌+◌, ◌-◌, ◌%◌, ◌≤◌, ◌≡◌, refl, sym, ap, ◌∙◌, true, false, ◌==◌, ltb, some, List, [], ◌∷◌,
  ◌++◌, length, append_assoc, append-nil, take, drop, arith, ℤ,
}
use dim_os.Printf.{
  print, putchar, plain, copy, Copied, int_max, printf, printf_loop, is_literal, literal, Run, Arg,
}

-- The bytes of a text.
abbrev pub sent : List ℕ → List ℕ
sent [] = []
sent (c ∷ s) = (c % 256) ∷ sent s

pub sent-append : (s t : List ℕ) → sent (s ++ t) ≡ sent s ++ sent t
sent-append [] t = refl
sent-append (c ∷ s) t = rw (sent-append s t) refl

pub print_lem : (out s : List ℕ) → print out s ≡ (out ++ sent s, true)
unfolding print putchar
print_lem out [] = rw (append-nil out) refl
print_lem out (c ∷ s) =
    rw (print_lem (out ++ (c % 256) ∷ []) s, append_assoc out ((c % 256) ∷ []) (sent s)) refl

pub copy_lem :
    (out : List ℕ) (written : ℕ) (s : List ℕ)
    → written + length s ≤ int_max
    → copy out written s ≡ (out ++ sent s, Copied.copied (written + length s))
unfolding copy
copy_lem out written s h =
    let short : ltb (int_max - written) (length s) ≡ false = ground (arith, h) in
    rw (short, print_lem out s) refl

-- A text without `%`.
abbrev pub IsPlain : List ℕ → Type 0
IsPlain s = plain s ≡ length s

pub plain-le : (s : List ℕ) → plain s ≤ length s
unfolding plain
plain-le [] = omega arith
plain-le (c ∷ s) = ground (arith, plain-le s)

pub IsPlain-append : (s t : List ℕ) → IsPlain s → IsPlain t → IsPlain (s ++ t)
unfolding plain
IsPlain-append [] t h h' = h'
IsPlain-append (c ∷ s) t h h' =
    ground (arith, h, IsPlain-append s t (ground (arith, h, plain-le s)) h')

take_all : (s : List ℕ) → take (length s) s ≡ s
take_all [] = refl
take_all (c ∷ s) = rw (take_all s) refl

drop_all : (s : List ℕ) → drop (length s) s ≡ []
drop_all [] = refl
drop_all (c ∷ s) = drop_all s

pub loop_end :
    (nested : List ℕ → List ℕ → Run ℤ) (stack : ℕ → ℕ) (r : ℕ) (out : List ℕ) (written : ℕ)
    (args : List Arg)
    → printf_loop nested stack (suc r) out written [] args ≡ (out, some (ℤ.pos written))
unfolding printf_loop
loop_end nested stack r out written args = refl

-- One round that copies characters.
pub literal_round :
    (nested : List ℕ → List ℕ → Run ℤ) (stack : ℕ → ℕ) (r : ℕ) (out : List ℕ) (written c : ℕ)
    (s : List ℕ) (args : List Arg)
    → is_literal c s ≡ true
    → let run = literal c s in
      let amount = 1 + plain (drop 1 run) in
      written + length (take amount run) ≤ int_max
      → printf_loop nested stack (suc r) out written (c ∷ s) args
        ≡ printf_loop nested stack r
            (out ++ sent (take amount run))
            (written + length (take amount run))
            (drop amount run)
            args
unfolding printf_loop
literal_round nested stack r out written c s args first short =
    let run = literal c s in
    let step = copy_lem out written (take (1 + plain (drop 1 run)) run) short in
    rw (printf_loop, first, step)
      (ap
        (λ z.
          printf_loop nested stack r z.0 (written + length (take (1 + plain (drop 1 run)) run))
            (drop (1 + plain (drop 1 run)) run) args)
        step)

pub literal_ordinary : (c : ℕ) (s : List ℕ) → (c == 37) ≡ false → is_literal c s ≡ true
literal_ordinary c [] e = rw e refl
literal_ordinary c (k ∷ s) e = rw e refl

-- A plain format goes out as it is in two rounds.
plain_rounds :
    (nested : List ℕ → List ℕ → Run ℤ) (stack : ℕ → ℕ) (r : ℕ) (out : List ℕ) (c : ℕ) (s : List ℕ)
    → IsPlain (c ∷ s)
    → suc (length s) ≤ int_max
    → printf_loop nested stack (suc (suc r)) out 0 (c ∷ s) []
      ≡ (out ++ sent (c ∷ s), some (ℤ.pos (suc (length s))))
unfolding plain
plain_rounds nested stack r out c s h short =
    let ordinary : (c == 37) ≡ false = ground (arith, h) in
    let amount : 1 + plain s ≡ suc (length s) = ground (arith, h) in
    let start : literal c s ≡ c ∷ s = rw ordinary refl in
    let taken : take (1 + plain (drop 1 (literal c s))) (literal c s) ≡ c ∷ s =
      rw (start, amount, take_all s) refl in
    let left : drop (1 + plain (drop 1 (literal c s))) (literal c s) ≡ [] =
      rw (start, amount, drop_all s) refl in
    let none_before : 0 + suc (length s) ≡ suc (length s) = omega arith in
    literal_round nested stack (suc r) out 0 c s [] (literal_ordinary c s ordinary)
      (rw taken (omega (arith, short)))
    ∙ rw (taken, left, none_before)
        (loop_end nested stack r (out ++ sent (c ∷ s)) (suc (length s)) [])

-- A plain format goes out as it is, and its length is the result.
pub printf-IsPlain :
    (stack : ℕ → ℕ) (depth : ℕ) (out s : List ℕ)
    → IsPlain s
    → length s ≤ int_max
    → printf stack (suc depth) out s [] ≡ (out ++ sent s, some (ℤ.pos (length s)))
unfolding printf
printf-IsPlain stack depth out [] h short =
    loop_end (λ o t. printf stack depth o t []) stack 0 out 0 []
    ∙ ap (λ o. (o, some (ℤ.pos 0))) (sym (append-nil out))
printf-IsPlain stack depth out (c ∷ s) h short =
    let rounds : suc (length s) + 1 ≡ suc (suc (length s)) = omega arith in
    rw rounds (plain_rounds (λ o t. printf stack depth o t []) stack (length s) out c s h short)
