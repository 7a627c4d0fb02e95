-- ===== src/Printf/Numeral.antt =====
-- The digits of a number, first digit first, and the loops of printf.c that write them.
use dim_os.Common.{
  ℕ, zero, suc, ◌+◌, ◌-◌, ◌*◌, ◌/◌, ◌%◌, ◌≤◌, ◌<◌, ◌≡◌, ◌≢◌, refl, inl, inr, true, false, ◌==◌,
  if◌then◌else◌, List, [], ◌∷◌, ◌++◌, length, length-append, append_assoc, update, arith,
  Bool-cases,
}
use dim_os.Printf.{digit_loop, c_string, put_front}

-- The number that the characters of a text stand for, behind the number `n` that is read.
unfoldable pub read_number : ℕ → (ℕ → ℕ) → ℕ → List ℕ → ℕ
read_number base worth n [] = n
read_number base worth n (c ∷ s) = read_number base worth (n * base + worth c) s

pub read_number-append :
    (base : ℕ) (worth : ℕ → ℕ) (n : ℕ) (s t : List ℕ)
    → read_number base worth n (s ++ t) ≡ read_number base worth (read_number base worth n s) t
unfolding read_number
read_number-append base worth n [] t = refl
read_number-append base worth n (c ∷ s) t = read_number-append base worth (n * base + worth c) s t

-- The numeral of `n` in at most `f` digits.
unfoldable pub numeral : ℕ → (ℕ → ℕ) → ℕ → ℕ → List ℕ
numeral base digit zero n = []
numeral base digit (suc f) n =
    let rest = numeral base digit f (n / base) in
    if n / base == 0 then digit (n % base) ∷ [] else rest ++ (digit (n % base) ∷ [])

-- The count of numbers with `f` digits.
abbrev pub limit : ℕ → ℕ → ℕ
limit base zero = 1
limit base (suc f) = base * limit base f

-- A place in front of a string does not change it.
pub c_string-update :
    (room : ℕ) (str : ℕ → ℕ) (p q v : ℕ)
    → q < p
    → c_string room (update str q v) p ≡ c_string room str p
unfolding c_string
c_string-update zero str p q v h = refl
c_string-update (suc room) str p q v h =
    let same : update str q v p ≡ str p = ground (arith, h) in
    rw (same, c_string-update room str (p + 1) q v (omega (arith, h))) refl

pub c_string-cons :
    (room : ℕ) (str : ℕ → ℕ) (p c : ℕ)
    → c ≢ 0
    → c_string (suc room) (update str p c) p ≡ c ∷ c_string room str (p + 1)
unfolding c_string
c_string-cons room str p c ne =
    let here : update str p c p ≡ c = ground arith in
    let on : (c == 0) ≡ false = ground (arith, ne) in
    rw (here, on, c_string-update room str (p + 1) p c (omega arith)) refl

-- What the loop of the digits leaves, with `p` places in front of `m` more of the array.
pub record IsPut (p : ℕ) (str : ℕ → ℕ) (s : List ℕ) (out : ℕ × (ℕ → ℕ)) : Type 0 where
  pub position : out.0 + length s ≡ p + 1
  pub placed : 1 ≤ out.0
  pub content : (m : ℕ) → c_string (length s + m) out.1 (out.0 - 1) ≡ s ++ c_string m str p

pub put_front-IsPut :
    (p c : ℕ) (str : ℕ → ℕ) (s : List ℕ) (out : ℕ × (ℕ → ℕ))
    → c ≢ 0
    → length s < p
    → IsPut p str s out
    → IsPut p str (c ∷ s) (put_front c out)
unfolding put_front
put_front-IsPut p c str s (zero, cells) ne fits h = absurd (omega (arith, h.placed))
put_front-IsPut p c str s (suc zero, cells) ne fits h = absurd (omega (arith, h.position))
put_front-IsPut p c str s (suc (suc q), cells) ne fits h = record {
  position = omega (arith, h.position);
  placed = omega arith;
  content = λ m.
      let at : suc q - 1 ≡ q = omega arith in
      let at' : suc (suc q) - 1 ≡ q + 1 = omega arith in
      let room : suc (length s) + m ≡ suc (length s + m) = omega arith in
      let old : c_string (length s + m) cells (q + 1) ≡ s ++ c_string m str p =
        rw at' at (h.content m) in
      rw (at, room, c_string-cons (length s + m) cells q c ne, old) refl;
}

module _ (base : ℕ) (digit : ℕ → ℕ) (nonzero : (x : ℕ) → digit x ≢ 0)
    (shrink : (n b : ℕ) → n < base * b → n / base < b) where
  -- Below the base there is one digit.
  one_digit : (n : ℕ) → n < limit base 1 → (n / base == 0) ≡ true
  one_digit n h = ground (arith, shrink n 1 h)

  pub length-numeral :
      (f g n : ℕ) → n < limit base (suc g) → length (numeral base digit f n) ≤ suc g
  unfolding numeral
  length-numeral zero g n h = omega arith
  length-numeral (suc f) zero n h = rw (one_digit n h) (omega arith)
  length-numeral (suc f) (suc g) n h = elim (Bool-cases (n / base == 0)) [
    | inl last ↦ rw last (omega arith)
    | inr more ↦
        let rest = length-numeral f g (n / base) (shrink n (limit base (suc g)) h) in
        rw more (
          omega
            (arith, rest, length-append (numeral base digit f (n / base)) (digit (n % base) ∷ [])))
  ]

  IsPut-one :
      (p val : ℕ) (str : ℕ → ℕ)
      → IsPut (suc p) str (digit (val % base) ∷ []) (suc p, update str p (digit (val % base)))
  IsPut-one p val str = record {
    position = omega arith;
    placed = omega arith;
    content = λ m.
        let room : 1 + m ≡ suc m = omega arith in
        let at : suc p - 1 ≡ p = omega arith in
        let next : p + 1 ≡ suc p = omega arith in
        rw (room, at, c_string-cons m str p (digit (val % base)) (nonzero (val % base)), next) refl;
  }

  IsPut-behind :
      (p c : ℕ) (str : ℕ → ℕ) (s : List ℕ) (out : ℕ × (ℕ → ℕ))
      → c ≢ 0
      → IsPut p (update str p c) s out
      → IsPut (suc p) str (s ++ (c ∷ [])) out
  IsPut-behind p c str s out ne h =
      let more : length (s ++ (c ∷ [])) ≡ length s + 1 = length-append s (c ∷ []) in
      record {
        position = omega (arith, h.position, more);
        placed = h.placed;
        content = λ m.
            let room : length (s ++ (c ∷ [])) + m ≡ length s + suc m = omega (arith, more) in
            let next : p + 1 ≡ suc p = omega arith in
            rw
              (
                room,
                h.content (suc m),
                c_string-cons m str p c ne,
                next,
                append_assoc s (c ∷ []) (c_string m str (suc p)),
              )
              refl;
      }

  pub digit_loop-IsPut :
      (p val : ℕ) (str : ℕ → ℕ)
      → val < limit base (suc p)
      → IsPut (suc p) str (numeral base digit (suc p) val) (digit_loop base digit (suc p) val str)
  unfolding digit_loop numeral
  digit_loop-IsPut zero val str h = rw (one_digit val h) (IsPut-one zero val str)
  digit_loop-IsPut (suc p) val str h = elim (Bool-cases (val / base == 0)) [
    | inl last ↦ rw last (IsPut-one (suc p) val str)
    | inr more ↦ rw more (
        IsPut-behind (suc p) (digit (val % base)) str (numeral base digit (suc p) (val / base))
          (digit_loop base digit (suc p) (val / base) (update str (suc p) (digit (val % base))))
          (nonzero (val % base))
          (digit_loop-IsPut p (val / base) (update str (suc p) (digit (val % base)))
            (shrink val (limit base (suc p)) h)))
  ]

  -- The places beyond those that the number needs do not count.
  pub numeral_same :
      (f g n : ℕ)
      → n < limit base (suc f)
      → n < limit base (suc g)
      → numeral base digit (suc f) n ≡ numeral base digit (suc g) n
  unfolding numeral
  numeral_same zero g n h h' = rw (one_digit n h) refl
  numeral_same (suc f) zero n h h' = rw (one_digit n h') refl
  numeral_same (suc f) (suc g) n h h' =
      rw
        (numeral_same f g (n / base) (shrink n (limit base (suc f)) h)
          (shrink n (limit base (suc g)) h'))
        refl

  -- The characters of a numeral are digits.
  pub numeral-all :
      (P : List ℕ → Type 0)
      → P []
      → ((s : List ℕ) (n : ℕ) → P s → P (s ++ (digit (n % base) ∷ [])))
      → (f n : ℕ) → P (numeral base digit f n)
  unfolding numeral
  numeral-all P none_left more zero n = none_left
  numeral-all P none_left more (suc f) n = elim (Bool-cases (n / base == 0)) [
    | inl last ↦ rw last (more [] n none_left)
    | inr longer ↦
        rw longer
          (more (numeral base digit f (n / base)) n (numeral-all P none_left more f (n / base)))
  ]

  pub read_number-numeral :
      (worth : ℕ → ℕ)
      → ((n : ℕ) → n / base * base + worth (digit (n % base)) ≡ n)
      → (f n : ℕ) → n < limit base f
      → read_number base worth 0 (numeral base digit f n) ≡ n
  unfolding read_number numeral
  read_number-numeral worth join zero n h = omega (arith, h)
  read_number-numeral worth join (suc f) n h = elim (Bool-cases (n / base == 0)) [
    | inl last ↦ rw last (ground (arith, join n, last))
    | inr more ↦
        rw
          (
            more,
            read_number-append base worth 0 (numeral base digit f (n / base))
                (digit (n % base) ∷ []),
            read_number-numeral worth join f (n / base) (shrink n (limit base f) h),
          )
          (join n)
  ]
