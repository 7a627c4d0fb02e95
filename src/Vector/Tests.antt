-- ===== src/Vector/Tests.antt =====
-- The theorems about vectors at a vector of three numbers.
use dim_os.Common.{ℕ, ◌+◌, ◌≡◌, arith, some, none}
use dim_os.Vector.{Vector, push_back, resize}
use dim_os.Vector.Grow.{
  IsValid, IsPushed, IsRealloc, push_back-IsPushed, resize-IsRealloc, resize_fails,
}

-- Room for three elements, and three in it.
abbrev three : Vector ℕ
three = record { cells = λ i. i + 10; m_size = 3; capacity = 3 }

three-IsValid : IsValid three
three-IsValid = omega arith

push_back-IsPushed_example :
    (w : Vector ℕ) × (push_back (λ i. 99) 0 7 three ≡ some w) × IsPushed 7 three w
push_back-IsPushed_example = push_back-IsPushed (λ i. 99) 0 7 three three-IsValid

resize-IsRealloc_example :
    (w : Vector ℕ) × (resize (λ i. 99) 0 5 three ≡ some w)
    × IsValid w
    × IsRealloc 0 three 5 w.capacity w
resize-IsRealloc_example = resize-IsRealloc (λ i. 99) 0 5 three (omega arith)

resize_fails_example : resize (λ i. 99) 0 8 three ≡ none
resize_fails_example = resize_fails (λ i. 99) 0 8 three (omega arith)
