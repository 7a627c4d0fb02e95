-- ===== src/String/Text.antt =====
-- The operations on strings by the text in front of the terminating 0.
use dim_os.Common.{
  ℕ, ◌-◌, ◌≡◌, refl, ap, ap₂, ◌∙◌, List, [], ◌∷◌, ◌++◌, length, length-append, set, take, arith,
}
use dim_os.String.{of_text, size, push_back, pop_back, append}
use dim_os.String.Cells.{set-append, size-of_text}

take-append : (a b : List ℕ) → take (length a) (a ++ b) ≡ a
take-append [] [] = refl
take-append [] (c ∷ b) = refl
take-append (x ∷ a) b = ap (λ z. x ∷ z) (take-append a b)

last_place : (t : List ℕ) → length (of_text t).chars - 1 ≡ length t
unfolding of_text
last_place t = omega (arith, length-append t (0 ∷ []))

-- `push_back` puts the character behind the text.
pub push_back-of_text : (t : List ℕ) (c : ℕ) → push_back c (of_text t) ≡ of_text (t ++ (c ∷ []))
unfolding push_back of_text
push_back-of_text t c =
    ap (λ z. record { chars = set (t ++ (0 ∷ [])) z c ++ (0 ∷ []) }) (last_place t)
    ∙ ap (λ z. record { chars = z ++ (0 ∷ []) }) (set-append t [] 0 c)

-- `pop_back` takes the last character away.
pub pop_back-of_text : (t : List ℕ) (c : ℕ) → pop_back (of_text (t ++ (c ∷ []))) ≡ of_text t
unfolding pop_back of_text
pop_back-of_text t c =
    let whole = t ++ (c ∷ []) in
    let rest : take (length (whole ++ (0 ∷ [])) - 1) (whole ++ (0 ∷ [])) ≡ whole =
      ap (λ z. take z (whole ++ (0 ∷ []))) (last_place whole) ∙ take-append whole (0 ∷ []) in
    let last : length whole - 1 ≡ length t = omega (arith, length-append t (c ∷ [])) in
    ap (λ z. record { chars = set z (length z - 1) 0 }) rest
    ∙ ap (λ z. record { chars = set whole z 0 }) last
    ∙ ap (λ z. record { chars = z }) (set-append t [] c 0)

-- `+=` joins the texts.
pub append-of_text : (s t : List ℕ) → append (of_text s) (of_text t) ≡ of_text (s ++ t)
unfolding append of_text
append-of_text s t =
    let front : take (length (of_text s).chars - 1) (of_text s).chars ≡ s =
      ap (λ z. take z (of_text s).chars) (last_place s) ∙ take-append s (0 ∷ []) in
    let end : take (size (of_text t)) (of_text t).chars ≡ t =
      ap (λ z. take z (of_text t).chars) (size-of_text t) ∙ take-append t (0 ∷ []) in
    ap₂ (λ a b. record { chars = (a ++ b) ++ (0 ∷ []) }) front end
