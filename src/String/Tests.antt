-- ===== src/String/Tests.antt =====
-- Runs of the operations on strings, and their theorem at a concrete text.
use dim_os.Common.{◌≡◌, refl, [], ◌∷◌, map, some}
use dim_os.String.{of_text, split, stoi, reverse, swap_loop, digits_loop, push_back, size}
use dim_os.String.Pieces.{split-of_text}

-- "/a//b/" at the slash: the pieces "", "a", "" and "b".
split-of_text_example :
    split 47 (of_text (47 ∷ 97 ∷ 47 ∷ 47 ∷ 98 ∷ 47 ∷ []))
    ≡ some (map of_text ([] ∷ (97 ∷ []) ∷ [] ∷ (98 ∷ []) ∷ []))
split-of_text_example = split-of_text 47 (47 ∷ 97 ∷ 47 ∷ 47 ∷ 98 ∷ 47 ∷ [])

digits_of_407 : (stoi 407).chars ≡ 52 ∷ 48 ∷ 55 ∷ 0 ∷ []
unfolding stoi reverse swap_loop digits_loop push_back size of_text
digits_of_407 = refl

-- Zero has no digits.
digits_of_0 : (stoi 0).chars ≡ 0 ∷ []
unfolding stoi reverse swap_loop digits_loop push_back size of_text
digits_of_0 = refl
