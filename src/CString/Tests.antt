-- ===== src/CString/Tests.antt =====
-- The theorems about the string routines at a small memory.
use dim_os.Common.{
  ℕ, ◌+◌, ◌-◌, ◌<◌, ◌≡◌, ◌≢◌, inr, refl, ◌&&◌, ltb, leb, if◌then◌else◌, some, arith,
}
use dim_os.CString.{Memory, memmove, strlen, strcpy}
use dim_os.CString.Copying.{memmove_lem, strcpy_lem}

-- The bytes 65 and 66 at 10 and 11, and zeros elsewhere.
abbrev two_letters : Memory
two_letters p = if ltb p 10 then 0 else (if ltb p 12 then 55 + p else 0)

memmove_lem_example : memmove 11 10 2 two_letters 12 ≡ 66
memmove_lem_example = memmove_lem 11 10 2 two_letters 12

letters_on : (j : ℕ) → j < 2 → two_letters (10 + j) ≢ 0
letters_on j h = λ e. ground (arith, e, h)

strcpy_lem_example :
    (strlen 5 10 two_letters ≡ some 2)
    × ((e : Memory) × (strcpy 5 20 10 two_letters ≡ some e)
        × ((p : ℕ)
            → e p ≡ (if leb 20 p && ltb p 22 then two_letters (10 + (p - 20)) else two_letters p)))
strcpy_lem_example =
    strcpy_lem 5 20 10 2 two_letters (omega arith) refl letters_on (inr (omega arith))
