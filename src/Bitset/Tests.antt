-- ===== src/Bitset/Tests.antt =====
-- The theorems about bitsets at a set of seventy numbers.
use dim_os.Common.{◌≡◌, true}
use dim_os.Bitset.{Bitset, test, assign, with_size}
use dim_os.Bitset.Laws.{test-assign}

abbrev seventy : Bitset
seventy = with_size (λ i. 5) 70

test-assign_example : test (assign seventy 65 1) 65 ≡ true
test-assign_example = test-assign seventy 65 1 65
