-- ===== src/Common/Erase.antt =====
-- An element moved to the end and dropped: the multiset that stays.
use Prim.Native.Nat.{ℕ, zero, suc, ◌<◌}
use mathlib.Core.Path.{◌≡◌, refl, ap, ◌∙◌}
use mathlib.Core.Logic.{◌≢◌}
use mathlib.Core.List.{List, [], ◌∷◌, Perm}
use mathlib.Core.List.Perm
use native.Mathlib.Omega.{arith}
use dim_os.Common.Lists.{length, set, take, get_or, length-take}

module _ {ℓ} {A : Type ℓ} where
  pub get_or-set_self :
      (xs : List A) (i : ℕ) (v d : A) → i < length xs → get_or (set xs i v) i d ≡ v
  get_or-set_self [] i v d h = absurd (omega arith)
  get_or-set_self (x ∷ xs) zero v d h = refl
  get_or-set_self (x ∷ xs) (suc i) v d h = get_or-set_self xs i v d (omega arith)

  pub get_or-set_ne :
      (xs : List A) (i j : ℕ) (v d : A) → i ≢ j → get_or (set xs i v) j d ≡ get_or xs j d
  get_or-set_ne [] i j v d h = refl
  get_or-set_ne (x ∷ xs) zero zero v d h = absurd (h refl)
  get_or-set_ne (x ∷ xs) zero (suc j) v d h = refl
  get_or-set_ne (x ∷ xs) (suc i) zero v d h = refl
  get_or-set_ne (x ∷ xs) (suc i) (suc j) v d h = get_or-set_ne xs i j v d (λ e. h (ap suc e))

  -- A write behind the part that is kept does not matter, and one inside can wait.
  pub take-set_past : (n : ℕ) (xs : List A) (v : A) → take n (set xs n v) ≡ take n xs
  take-set_past zero xs v = refl
  take-set_past (suc n) [] v = refl
  take-set_past (suc n) (x ∷ xs) v = ap (λ l. x ∷ l) (take-set_past n xs v)

  pub take-set :
      (n : ℕ) (xs : List A) (i : ℕ) (v : A) → i < n → take n (set xs i v) ≡ set (take n xs) i v
  take-set zero xs i v h = absurd (omega arith)
  take-set (suc n) [] i v h = refl
  take-set (suc n) (x ∷ xs) zero v h = refl
  take-set (suc n) (x ∷ xs) (suc i) v h = ap (λ l. x ∷ l) (take-set n xs i v (omega arith))

  -- What is replaced stands in front of what stays, up to order.
  pub perm-set :
      (xs : List A) (i : ℕ) (v d : A) → i < length xs → Perm (get_or xs i d ∷ set xs i v) (v ∷ xs)
  perm-set [] i v d h = absurd (omega arith)
  perm-set (x ∷ xs) zero v d h = Perm.swap v x xs
  perm-set (x ∷ xs) (suc i) v d h =
      Perm.trans (Perm.swap x (get_or xs i d) (set xs i v))
        (Perm.trans (Perm.cons x (perm-set xs i v d (omega arith))) (Perm.swap v x xs))

  pub perm_last :
      (xs : List A) (n : ℕ) (d : A) → length xs ≡ suc n → Perm (get_or xs n d ∷ take n xs) xs
  perm_last [] n d h = absurd (omega arith)
  perm_last (x ∷ []) zero d h = Perm.refl _
  perm_last (x ∷ y ∷ xs) zero d h = absurd (omega arith)
  perm_last (x ∷ xs) (suc n) d h =
      Perm.trans (Perm.swap x (get_or xs n d) (take n xs))
        (Perm.cons x (perm_last xs n d (omega arith)))

  -- The last element moved to place `i`, and the end dropped.
  unfoldable pub move_last : List A → ℕ → ℕ → A → List A
  move_last xs n i d = take n (set (set xs i (get_or xs n d)) n (get_or xs i d))

  pub move_last-eq :
      (xs : List A) (n i : ℕ) (d : A)
      → i < n
      → move_last xs n i d ≡ set (take n xs) i (get_or xs n d)
  unfolding move_last
  move_last-eq xs n i d h =
      take-set_past n (set xs i (get_or xs n d)) (get_or xs i d) ∙ take-set n xs i (get_or xs n d) h

  pub get_or-take :
      (n : ℕ) (xs : List A) (i : ℕ) (d : A) → i < n → get_or (take n xs) i d ≡ get_or xs i d
  get_or-take zero xs i d h = absurd (omega arith)
  get_or-take (suc n) [] i d h = refl
  get_or-take (suc n) (x ∷ xs) zero d h = refl
  get_or-take (suc n) (x ∷ xs) (suc i) d h = get_or-take n xs i d (omega arith)

  pub perm_move_last :
      (xs : List A) (n i : ℕ) (d : A)
      → length xs ≡ suc n
      → i < n
      → Perm (get_or xs i d ∷ move_last xs n i d) xs
  perm_move_last xs n i d e h =
      let len : length (take n xs) ≡ n = omega (arith, length-take n xs) in
      let moved = perm-set (take n xs) i (get_or xs n d) d (rw len h) in
      rw (move_last-eq xs n i d h)
        (Perm.trans (rw (get_or-take n xs i d h) at moved) (perm_last xs n d e))
