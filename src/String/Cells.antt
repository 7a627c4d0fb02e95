-- ===== src/String/Cells.antt =====
-- Characters of a string by their place.
use dim_os.Common.{
  ℕ, suc, ◌+◌, ◌≡◌, refl, sym, ap, ◌∙◌, List, [], ◌∷◌, ◌++◌, length, length-append, get_elem?, set,
  drop, replicate, append_assoc, arith, some,
}
use dim_os.String.{of_text, size, substr_loop, substr, blank}

pub get_elem?-append : (a b : List ℕ) (c : ℕ) → get_elem? (a ++ (c ∷ b)) (length a) ≡ some c
get_elem?-append [] b c = refl
get_elem?-append (x ∷ a) b c = get_elem?-append a b c

pub set-append : (a b : List ℕ) (c d : ℕ) → set (a ++ (c ∷ b)) (length a) d ≡ a ++ (d ∷ b)
set-append [] b c d = refl
set-append (x ∷ a) b c d = ap (λ z. x ∷ z) (set-append a b c d)

pub drop-append : (a b : List ℕ) → drop (length a) (a ++ b) ≡ b
drop-append [] b = refl
drop-append (x ∷ a) b = drop-append a b

pub size-of_text : (t : List ℕ) → size (of_text t) ≡ length t
unfolding size of_text
size-of_text t = omega (arith, length-append t (0 ∷ []))

-- The loop of `substr` copies the characters `p`.
substr_loop_lem :
    (p q a b : List ℕ) (i offset : ℕ)
    → i ≡ length q
    → i + offset ≡ length a
    → substr_loop (length p) i offset (a ++ (p ++ b)) (q ++ replicate (suc (length p)) 0)
      ≡ some (q ++ (p ++ (0 ∷ [])))
unfolding substr_loop
substr_loop_lem [] q a b i offset e e' = refl
substr_loop_lem (c ∷ p) q a b i offset e e' =
    let read : get_elem? (a ++ (c ∷ (p ++ b))) (i + offset) ≡ some c =
      ap (get_elem? (a ++ (c ∷ (p ++ b)))) e' ∙ get_elem?-append a (p ++ b) c in
    let written : set (q ++ replicate (suc (suc (length p))) 0) i c
        ≡ (q ++ (c ∷ [])) ++ replicate (suc (length p)) 0 =
      ap (λ z. set (q ++ replicate (suc (suc (length p))) 0) z c) e
      ∙ set-append q (replicate (suc (length p)) 0) 0 c
      ∙ sym (append_assoc q (c ∷ []) (replicate (suc (length p)) 0)) in
    let here : a ++ (c ∷ (p ++ b)) ≡ (a ++ (c ∷ [])) ++ (p ++ b) =
      sym (append_assoc a (c ∷ []) (p ++ b)) in
    rw (substr_loop, read, written, here)
      (substr_loop_lem p (q ++ (c ∷ [])) (a ++ (c ∷ [])) b (i + 1) offset
          (omega (arith, e, length-append q (c ∷ []))) (omega (arith, e', length-append a (c ∷ [])))
        ∙ ap some (append_assoc q (c ∷ []) (p ++ (0 ∷ []))))

-- `substr` gives the characters from the place `length a` on.
pub substr_lem :
    (p a b : List ℕ)
    → substr (length a) (length p) (record { chars = a ++ (p ++ b) }) ≡ some (of_text p)
unfolding substr blank of_text
substr_lem p a b = rw (substr, substr_loop_lem p [] a b 0 (length a) refl (omega arith)) refl
