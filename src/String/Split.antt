-- ===== src/String/Split.antt =====
-- `split` against a definition by the characters.
use dim_os.Common.{
  ℕ, suc, ◌+◌, ◌≡◌, ◌⊎◌, inl, inr, refl, ap, ◌∙◌, Bool, true, false, not, ◌&&◌, ◌==◌, leb,
  if◌then◌else◌, Bool-cases, ==_iff, List, [], ◌∷◌, ◌++◌, length, length-append, drop, append_assoc,
  arith, none, some,
}
use dim_os.String.{of_text, size, find_cell, find, substr}
use dim_os.String.Cells.{drop-append, size-of_text, substr_lem}

-- The piece in front of the first `d`, and the other pieces.
abbrev pub chop : ℕ → List ℕ → List ℕ × List (List ℕ)
chop d [] = ([], [])
chop d (c ∷ t) = let (p, ps) = chop d t in if c == d then ([], p ∷ ps) else (c ∷ p, ps)

-- All pieces, but no empty one at the end.
abbrev pub trimmed : List ℕ → List (List ℕ) → List (List ℕ)
trimmed [] [] = []
trimmed (c ∷ p) [] = (c ∷ p) ∷ []
trimmed p (q ∷ ps) = p ∷ trimmed q ps

-- The pieces of a text; the empty text has one.
abbrev pub pieces : ℕ → List ℕ → List (List ℕ)
pieces d [] = [] ∷ []
pieces d (c ∷ t) = let (p, ps) = chop d (c ∷ t) in trimmed p ps

abbrev pub avoids : ℕ → List ℕ → Bool
avoids d [] = true
avoids d (c ∷ t) = not (c == d) && avoids d t

-- A text without `d`, or one in which `p` stands in front of the first.
abbrev pub IsCut : ℕ → List ℕ → Type 0
IsCut d u =
    (avoids d u ≡ true) ⊎ ((p : List ℕ) × (v : List ℕ) × (u ≡ p ++ (d ∷ v)) × (avoids d p ≡ true))

pub cut : (d : ℕ) (u : List ℕ) → IsCut d u
cut d [] = inl refl
cut d (c ∷ u) = elim (Bool-cases (c == d)) [
  | inl here ↦ inr ([], u, ap (λ z. z ∷ u) ((==_iff c d).0 here), refl)
  | inr other ↦ elim (cut d u) [
    | inl none_left ↦ inl (rw (other, none_left) refl)
    | inr (p, v, e, free) ↦ inr (c ∷ p, v, ap (λ z. c ∷ z) e, rw (other, free) refl)
  ]
]

head_avoids :
    (d c : ℕ) (p : List ℕ) → avoids d (c ∷ p) ≡ true → ((c == d) ≡ false) × (avoids d p ≡ true)
head_avoids d c p h = ground (arith, h)

pub chop-avoids : (d : ℕ) (u : List ℕ) → avoids d u ≡ true → chop d u ≡ (u, [])
chop-avoids d [] h = refl
chop-avoids d (c ∷ u) h =
    let (other, rest) = head_avoids d c u h in rw (other, chop-avoids d u rest) refl

pub chop-cut :
    (d : ℕ) (p v : List ℕ)
    → avoids d p ≡ true
    → chop d (p ++ (d ∷ v)) ≡ (p, (let (q, qs) = chop d v in q ∷ qs))
chop-cut d [] v h = let same : (d == d) ≡ true = ground arith in rw same refl
chop-cut d (c ∷ p) v h =
    let (other, rest) = head_avoids d c p h in rw (other, chop-cut d p v rest) refl

find_cell-cut :
    (d i : ℕ) (p v : List ℕ)
    → avoids d p ≡ true
    → find_cell d (p ++ (d ∷ v)) i ≡ some (i + length p)
unfolding find_cell
find_cell-cut d i [] v h =
    let same : (d == d) ≡ true = ground arith in rw same (ap some (omega arith))
find_cell-cut d i (c ∷ p) v h =
    let (other, rest) = head_avoids d c p h in
    rw other (find_cell-cut d (i + 1) p v rest ∙ ap some (omega arith))

-- A search for a character that is not there ends at the 0 or behind it.
find_cell-avoids :
    (d i : ℕ) (u : List ℕ)
    → avoids d u ≡ true
    → (find_cell d (u ++ (0 ∷ [])) i ≡ none) ⊎ (find_cell d (u ++ (0 ∷ [])) i ≡ some (i + length u))
unfolding find_cell
find_cell-avoids d i [] h = elim (Bool-cases (0 == d)) [
  | inl here ↦ inr (rw here (ap some (omega arith)))
  | inr other ↦ inl (rw other refl)
]
find_cell-avoids d i (c ∷ u) h =
    let (other, rest) = head_avoids d c u h in
    elim (find_cell-avoids d (i + 1) u rest) [
      | inl gone ↦ inl (rw other gone)
      | inr found ↦ inr (rw other (found ∙ ap some (omega arith)))
    ]

-- `find` from the place behind `a`.
module _ (d : ℕ) (a : List ℕ) where
  rest_of : (u : List ℕ) → drop (length a) (of_text (a ++ u)).chars ≡ u ++ (0 ∷ [])
  unfolding of_text
  rest_of u = ap (drop (length a)) (append_assoc a u (0 ∷ [])) ∙ drop-append a (u ++ (0 ∷ []))

  pub find-avoids : (u : List ℕ) → avoids d u ≡ true → find d (length a) (of_text (a ++ u)) ≡ none
  unfolding find
  find-avoids u h =
      let total : size (of_text (a ++ u)) ≡ length a + length u =
        size-of_text (a ++ u) ∙ length-append a u in
      elim (find_cell-avoids d (length a) u h) [
        | inl gone ↦ rw (find, rest_of u, gone) refl
        | inr found ↦
            let past : leb (size (of_text (a ++ u))) (length a + length u) ≡ true =
              ground (arith, total) in
            rw (find, rest_of u, found, past) refl
      ]

  pub find-cut :
      (p v : List ℕ)
      → avoids d p ≡ true
      → find d (length a) (of_text (a ++ (p ++ (d ∷ v)))) ≡ some (length a + length p)
  unfolding find
  find-cut p v h =
      let u = p ++ (d ∷ v) in
      let total : size (of_text (a ++ u)) ≡ length a + (length p + suc (length v)) =
        size-of_text (a ++ u)
        ∙ length-append a u
        ∙ ap (λ z. length a + z) (length-append p (d ∷ v)) in
      let found : find_cell d (u ++ (0 ∷ [])) (length a) ≡ some (length a + length p) =
        ap (λ z. find_cell d z (length a)) (append_assoc p (d ∷ v) (0 ∷ []))
        ∙ find_cell-cut d (length a) p (v ++ (0 ∷ [])) h in
      let before : leb (size (of_text (a ++ u))) (length a + length p) ≡ false =
        ground (arith, total) in
      rw (find, rest_of u, found, before) refl

  pub substr-of_text :
      (p v : List ℕ) → substr (length a) (length p) (of_text (a ++ (p ++ v))) ≡ some (of_text p)
  unfolding of_text
  substr-of_text p v =
      ap (λ z. substr (length a) (length p) (record { chars = z }))
        (append_assoc a (p ++ v) (0 ∷ []) ∙ ap (λ z. a ++ z) (append_assoc p v (0 ∷ [])))
      ∙ substr_lem p a (v ++ (0 ∷ []))
