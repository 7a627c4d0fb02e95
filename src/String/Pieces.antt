-- ===== src/String/Pieces.antt =====
-- `split` gives the pieces of a text.
use mathlib.Core.Path.{subst}
use dim_os.Common.{
  ℕ, zero, suc, ◌+◌, ◌-◌, ◌<◌, ◌≡◌, inl, inr, refl, sym, ap, ap₂, ◌∙◌, true, false, ◌==◌, List, [],
  ◌∷◌, ◌++◌, map, length, length-append, append_assoc, append-nil, arith, none, some,
}
use dim_os.String.{String, of_text, size, find, substr, split_loop, split}
use dim_os.String.Cells.{size-of_text}
use dim_os.String.Split.{
  chop, trimmed, pieces, avoids, cut, chop-avoids, chop-cut, find-avoids, find-cut, substr-of_text,
}

abbrev rest_pieces : ℕ → List ℕ → List (List ℕ)
rest_pieces d u = let (p, ps) = chop d u in trimmed p ps

trimmed-cons : (p q : List ℕ) (qs : List (List ℕ)) → trimmed p (q ∷ qs) ≡ p ∷ trimmed q qs
trimmed-cons [] q qs = refl
trimmed-cons (c ∷ p) q qs = refl

-- The loop behind `a`, at the rest `u` of a text that is not empty.
module _ (d : ℕ) where
  abbrev Splits : ℕ → List ℕ → List ℕ → List String → Type 0
  Splits rounds a u res =
      split_loop rounds d (length a) (of_text (a ++ u)) res
      ≡ some (res ++ map of_text (rest_pieces d u))

  -- No character `d` is left.
  last_piece :
      (rounds : ℕ) (a u : List ℕ) (res : List String)
      → 0 < length a + length u
      → avoids d u ≡ true
      → Splits (suc rounds) a u res
  unfolding split_loop
  last_piece rounds a [] res some_text h =
      let total : size (of_text (a ++ [])) ≡ length a =
        size-of_text (a ++ []) ∙ ap length (append-nil a) in
      let not_empty : (size (of_text (a ++ [])) == 0) ≡ false = ground (arith, total, some_text) in
      let at_end : (length a == size (of_text (a ++ []))) ≡ true = ground (arith, total) in
      rw (split_loop, find-avoids d a [] h, not_empty, at_end) (ap some (sym (append-nil res)))
  last_piece rounds a (c ∷ t) res some_text h =
      let u = c ∷ t in
      let total : size (of_text (a ++ u)) ≡ length a + suc (length t) =
        size-of_text (a ++ u) ∙ length-append a u in
      let not_empty : (size (of_text (a ++ u)) == 0) ≡ false = ground (arith, total) in
      let not_end : (length a == size (of_text (a ++ u))) ≡ false = ground (arith, total) in
      let left : size (of_text (a ++ u)) - length a ≡ length u = omega (arith, total) in
      let taken : substr (length a) (length u) (of_text (a ++ u)) ≡ some (of_text u) =
        ap (λ z. substr (length a) (length u) (of_text (a ++ z))) (sym (append-nil u))
        ∙ substr-of_text d a u [] in
      let chopped : rest_pieces d u ≡ u ∷ [] =
        ap (λ (z : List ℕ × List (List ℕ)). trimmed z.0 z.1) (chop-avoids d u h) in
      let whole : split_loop (suc rounds) d (length a) (of_text (a ++ u)) res
          ≡ some (res ++ (of_text u ∷ [])) =
        rw (split_loop, find-avoids d a u h, not_empty, not_end, left, taken) refl in
      whole ∙ ap (λ z. some (res ++ map of_text z)) (sym chopped)

  -- A piece in front of a `d`, and the rest.
  one_piece :
      (rounds : ℕ) (a p v : List ℕ) (res : List String)
      → avoids d p ≡ true
      → Splits rounds (a ++ (p ++ (d ∷ []))) v (res ++ (of_text p ∷ []))
      → Splits (suc rounds) a (p ++ (d ∷ v)) res
  unfolding split_loop
  one_piece rounds a p v res free rest =
      let u = p ++ (d ∷ v) in
      let front = a ++ (p ++ (d ∷ [])) in
      let same : front ++ v ≡ a ++ u =
        append_assoc a (p ++ (d ∷ [])) v ∙ ap (λ z. a ++ z) (append_assoc p (d ∷ []) v) in
      let place : length front ≡ length a + length p + 1 =
        omega (arith, length-append a (p ++ (d ∷ [])), length-append p (d ∷ [])) in
      let gap : length a + length p - length a ≡ length p = omega arith in
      let whole : split_loop (suc rounds) d (length a) (of_text (a ++ u)) res
          ≡ split_loop rounds d (length a + length p + 1) (of_text (a ++ u))
              (res ++ (of_text p ∷ [])) =
        rw (split_loop, find-cut d a p v free, gap, substr-of_text d a p (d ∷ v)) refl in
      let moved : split_loop rounds d (length a + length p + 1) (of_text (a ++ u))
            (res ++ (of_text p ∷ []))
          ≡ split_loop rounds d (length front) (of_text (front ++ v)) (res ++ (of_text p ∷ [])) =
        ap₂ (λ l z. split_loop rounds d l (of_text z) (res ++ (of_text p ∷ []))) (sym place)
          (sym same) in
      let chopped : rest_pieces d u ≡ p ∷ rest_pieces d v =
        ap (λ (z : List ℕ × List (List ℕ)). trimmed z.0 z.1) (chop-cut d p v free)
        ∙ trimmed-cons p (chop d v).0 (chop d v).1 in
      whole
      ∙ moved
      ∙ rest
      ∙ ap some (
          append_assoc res (of_text p ∷ []) (map of_text (rest_pieces d v))
          ∙ ap (λ z. res ++ map of_text z) (sym chopped))

  pub split_loop_lem :
      (rounds : ℕ) (a u : List ℕ) (res : List String)
      → 0 < length a + length u
      → length u < rounds
      → Splits rounds a u res
  unfolding split_loop
  split_loop_lem zero a u res some_text enough = absurd (omega (arith, enough))
  split_loop_lem (suc rounds) a u res some_text enough = elim (cut d u) [
    | inl free ↦ last_piece rounds a u res some_text free
    | inr (p, v, e, free) ↦
        subst (λ z. Splits (suc rounds) a z res) (sym e)
          (one_piece rounds a p v res free (
            split_loop_lem rounds (a ++ (p ++ (d ∷ []))) v (res ++ (of_text p ∷ []))
              (omega (arith, length-append a (p ++ (d ∷ [])), length-append p (d ∷ [])))
              (omega (arith, enough, ap length e, length-append p (d ∷ v)))))
  ]

-- `split` of a string gives the pieces of its text between the delimiters, without an empty one at the end of a text that is not
-- empty. It always ends, and reads inside the buffer.
pub split-of_text : (d : ℕ) (t : List ℕ) → split d (of_text t) ≡ some (map of_text (pieces d t))
unfolding split split_loop
split-of_text d [] =
    let none_left : find d 0 (of_text []) ≡ none = find-avoids d [] [] refl in
    let total : size (of_text []) ≡ 0 = size-of_text [] in
    let taken : substr 0 0 (of_text []) ≡ some (of_text []) = substr-of_text d [] [] [] in
    rw (split, total) (rw (split_loop, none_left, total, taken) refl)
split-of_text d (c ∷ t) =
    let total : size (of_text (c ∷ t)) ≡ suc (length t) = size-of_text (c ∷ t) in
    split_loop_lem d (size (of_text (c ∷ t)) + 1) [] (c ∷ t) [] (omega arith) (omega (arith, total))
