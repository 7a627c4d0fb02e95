-- ===== src/String.antt =====
-- kernel/include/kernel/cpp/string.hpp: strings over a vector of characters that ends with a 0.
pub mod Cells
pub mod Split
pub mod Pieces
pub mod Text
mod Tests
use dim_os.Common.{
  ℕ, zero, suc, ◌+◌, ◌-◌, ◌/◌, ◌%◌, Bool, true, false, not, ◌==◌, ◌||◌, ltb, leb, if◌then◌else◌,
  List, [], ◌∷◌, ◌++◌, length, get_elem?, set, take, replicate, Option, none, some, drop, get_or,
}

-- `String`: the characters of `data`, with the terminating 0.
pub record String : Type 0 where
  pub chars : List ℕ

-- `String(const char *)`, for the characters in front of the terminating 0.
pub of_text : List ℕ → String
of_text t = record { chars = t ++ (0 ∷ []) }

-- `String(size_t)`
pub blank : ℕ → String
blank n = record { chars = replicate (suc n) 0 }

pub size : String → ℕ
size s = length s.chars - 1

pub push_back : ℕ → String → String
push_back c s = record { chars = set s.chars (length s.chars - 1) c ++ (0 ∷ []) }

pub pop_back : String → String
pop_back s =
    let rest = take (length s.chars - 1) s.chars in record { chars = set rest (length rest - 1) 0 }

-- `operator+=`
pub append : String → String → String
append s t = record {
  chars = (take (length s.chars - 1) s.chars ++ take (size t) t.chars) ++ (0 ∷ []);
}

-- `operator==`, of the vectors.
pub eq_cells : List ℕ → List ℕ → Bool
eq_cells [] [] = true
eq_cells [] (d ∷ t) = false
eq_cells (c ∷ s) [] = false
eq_cells (c ∷ s) (d ∷ t) = let rest = eq_cells s t in if c == d then rest else false

pub eq_string : String → String → Bool
eq_string s t = eq_cells s.chars t.chars

-- `back`; `none` is a read in front of the buffer.
pub back : String → Option ℕ
back s = if size s == 0 then none else get_elem? s.chars (size s - 1)

-- The loop of `Vector::find`, by the elements left.
pub find_cell : ℕ → List ℕ → ℕ → Option ℕ
find_cell c [] i = none
find_cell c (d ∷ s) i = let rest = find_cell c s (i + 1) in if d == c then some i else rest

-- `find`; `none` is `npos`.
pub find : ℕ → ℕ → String → Option ℕ
find c begin s = elim (find_cell c (drop begin s.chars) begin) [
  | none ↦ none
  | some pos ↦ if leb (size s) pos then none else some pos
]

-- The loop of `substr`; `none` is a read behind the buffer.
pub substr_loop : ℕ → ℕ → ℕ → List ℕ → List ℕ → Option (List ℕ)
substr_loop zero i offset cells res = some res
substr_loop (suc rounds) i offset cells res = elim (get_elem? cells (i + offset)) [
  | none ↦ none
  | some c ↦ substr_loop rounds (i + 1) offset cells (set res i c)
]

pub substr : ℕ → ℕ → String → Option String
substr offset n s = elim (substr_loop n 0 offset s.chars (blank n).chars) [
  | none ↦ none
  | some res ↦ some (record { chars = res })
]

-- The loop of `split` and what follows it, by rounds.
pub split_loop : ℕ → ℕ → ℕ → String → List String → Option (List String)
split_loop zero c l s res = none
split_loop (suc rounds) c l s res = elim (find c l s) [
  | some r ↦ elim (substr l (r - l) s) [
    | none ↦ none
    | some piece ↦ split_loop rounds c (r + 1) s (res ++ (piece ∷ []))
  ]
  | none ↦
      if (size s == 0) || not (l == size s)
      then elim (substr l (size s - l) s) [ none ↦ none | some piece ↦ some (res ++ (piece ∷ [])) ]
      else some res
]

-- `split`: a round takes at least one character.
pub split : ℕ → String → Option (List String)
split c s = split_loop (size s + 1) c 0 s []

-- The loop of `reverse`, by the rounds left.
pub swap_loop : ℕ → ℕ → String → String
swap_loop zero i s = s
swap_loop (suc rounds) i s =
    let a = get_or s.chars i 0 in
    let b = get_or s.chars (size s - 1 - i) 0 in
    swap_loop rounds (i + 1) (record { chars = set (set s.chars i b) (size s - 1 - i) a })

pub reverse : String → String
reverse s = swap_loop (size s / 2) 0 s

-- The loop of `stoi`, for a number that is not negative, by rounds.
pub digits_loop : ℕ → ℕ → String → String
digits_loop zero n res = res
digits_loop (suc rounds) n res =
    let rest = digits_loop rounds (n / 10) (push_back (48 + n % 10) res) in
    if n == 0 then res else rest

-- `stoi`: ten rounds are enough for an `int`.
pub stoi : ℕ → String
stoi n = reverse (digits_loop 10 n (of_text []))
