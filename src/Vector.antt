-- ===== src/Vector.antt =====
-- kernel/include/kernel/cpp/vector.hpp: the growing array of the kernel.
pub mod Loops
pub mod Grow
pub mod Order
mod Tests
use dim_os.Common.{
  ℕ, zero, suc, ◌+◌, ◌-◌, ◌*◌, ◌/◌, Bool, true, false, Option, none, some, ltb, leb, ◌==◌,
  if◌then◌else◌, update, min,
}

-- `Vector`: the buffer `data` as a function from an index to an element. A cell behind `m_size` is storage.
pub record Vector {ℓ} (A : Type ℓ) : Type ℓ where
  pub cells : ℕ → A
  pub m_size : ℕ
  pub capacity : ℕ

module _ {ℓ} {A : Type ℓ} where
  -- The two loops of `realloc`, and the one of `fill`, by the rounds left.
  pub move_loop : ℕ → ℕ → (ℕ → A) → (ℕ → A) → ℕ → A
  move_loop zero i old new = new
  move_loop (suc rounds) i old new = move_loop rounds (i + 1) old (update new i (old i))

  pub fill_loop : ℕ → ℕ → A → (ℕ → A) → ℕ → A
  fill_loop zero i val cells = cells
  fill_loop (suc rounds) i val cells = fill_loop rounds (i + 1) val (update cells i val)

  -- `realloc`. `fresh` is the new buffer as the allocator gives it, `T{}` is `blank`, and `none` is the
  -- failed assertion.
  pub realloc : (ℕ → A) → A → ℕ → ℕ → Vector A → Option (Vector A)
  realloc fresh blank new_size new_capacity v =
      if ltb new_capacity new_size
      then none
      else (let min_size = min v.m_size new_size in
          some (record {
            cells =
                fill_loop (new_size - min_size) min_size blank (move_loop min_size 0 v.cells fresh);
            m_size = new_size;
            capacity = new_capacity;
          }))

  -- `Vector(size, val)`
  unfoldable pub create : (ℕ → A) → ℕ → A → Vector A
  create fresh size val = record {
    cells = fill_loop size 0 val fresh;
    m_size = size;
    capacity = size;
  }

  pub resize : (ℕ → A) → A → ℕ → Vector A → Option (Vector A)
  resize fresh blank new_size v =
      realloc fresh blank new_size
        (if ltb v.capacity new_size then v.capacity * 2 + 1 else v.capacity) v

  -- `data[m_size++] = val;`
  pub append : A → Vector A → Vector A
  append val v = record v { cells = update v.cells v.m_size val; m_size = v.m_size + 1 }

  pub push_back : (ℕ → A) → A → A → Vector A → Option (Vector A)
  push_back fresh blank val v =
      if v.capacity == v.m_size
      then elim (realloc fresh blank v.m_size (v.m_size * 2 + 1) v) [
        | none ↦ none
        | some v' ↦ some (append val v')
      ]
      else some (append val v)

  -- `pop_back`; `none` is the failed assertion.
  pub pop_back : Vector A → Option (Vector A)
  pop_back v = if v.m_size == 0 then none else some (record v { m_size = v.m_size - 1 })

  pub swap : ℕ → ℕ → (ℕ → A) → ℕ → A
  swap i j cells = update (update cells i (cells j)) j (cells i)

  -- `find`, with the comparison of elements as an argument; `none` is `npos`.
  pub find_loop : (A → A → Bool) → A → (ℕ → A) → ℕ → ℕ → Option ℕ
  find_loop eq c cells zero i = none
  find_loop eq c cells (suc rounds) i =
      let rest = find_loop eq c cells rounds (i + 1) in if eq (cells i) c then some i else rest

  pub find : (A → A → Bool) → A → ℕ → Vector A → Option ℕ
  find eq c begin v = find_loop eq c v.cells (v.m_size - begin) begin

  -- `fastErase` at a position, or at `npos`. On an empty vector the source reads out of bounds.
  pub fast_erase : Option ℕ → Vector A → Option (Vector A)
  fast_erase none v = some v
  fast_erase (some pos) v =
      if pos == v.m_size - 1
      then pop_back v
      else pop_back (record v { cells = swap pos (v.m_size - 1) v.cells })

  pub reverse_loop : ℕ → ℕ → ℕ → (ℕ → A) → ℕ → A
  reverse_loop size zero i cells = cells
  reverse_loop size (suc rounds) i cells =
      reverse_loop size rounds (i + 1) (swap i (size - 1 - i) cells)

  pub reverse : Vector A → Vector A
  reverse v = record v { cells = reverse_loop v.m_size (v.m_size / 2) 0 v.cells }
