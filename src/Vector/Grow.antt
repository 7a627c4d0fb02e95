-- ===== src/Vector/Grow.antt =====
-- The operations that change the size of a vector.
use dim_os.Common.{
  ℕ, ◌+◌, ◌-◌, ◌*◌, ◌≤◌, ◌<◌, ◌≡◌, refl, ap, true, false, ◌&&◌, ltb, leb, ◌==◌, if◌then◌else◌,
  update_self, update_ne, arith, min, some, none, Bool-cases, inl, inr,
}
use dim_os.Vector.{Vector, realloc, move_loop, fill_loop, resize, append, push_back, pop_back}
use dim_os.Vector.Loops.{move_loop_lem, fill_loop_lem}

module _ {ℓ} {A : Type ℓ} where
  -- A vector with room for its elements.
  abbrev pub IsValid : Vector A → Type 0
  IsValid v = v.m_size ≤ v.capacity

  -- What `realloc` returns: the elements that still fit, then `T{}`.
  pub record IsRealloc (blank : A) (v : Vector A) (size capacity : ℕ) (w : Vector A) : Type ℓ where
    pub new_size : w.m_size ≡ size
    pub new_capacity : w.capacity ≡ capacity
    pub kept : (j : ℕ) → j < v.m_size → j < size → w.cells j ≡ v.cells j
    pub blanks : (j : ℕ) → v.m_size ≤ j → j < size → w.cells j ≡ blank

  abbrev moved_to : (ℕ → A) → A → ℕ → ℕ → Vector A → Vector A
  moved_to fresh blank size capacity v = record {
    cells =
        fill_loop (size - min v.m_size size) (min v.m_size size) blank
          (move_loop (min v.m_size size) 0 v.cells fresh);
    m_size = size;
    capacity = capacity;
  }

  pub realloc-IsRealloc :
      (fresh : ℕ → A) (blank : A) (size capacity : ℕ) (v : Vector A)
      → size ≤ capacity
      → (w : Vector A) × (realloc fresh blank size capacity v ≡ some w)
        × IsRealloc blank v size capacity w
  unfolding realloc
  realloc-IsRealloc fresh blank size capacity v h =
      let fits : ltb capacity size ≡ false = ground arith in
      (
        moved_to fresh blank size capacity v,
        rw fits refl,
        record {
          new_size = refl;
          new_capacity = refl;
          kept = λ j old new.
              let low : (leb (min v.m_size size) j
                    && ltb j (min v.m_size size + (size - min v.m_size size)))
                  ≡ false =
                ground arith in
              let moved : (leb 0 j && ltb j (0 + min v.m_size size)) ≡ true = ground arith in
              rw
                (
                  fill_loop_lem (size - min v.m_size size) (min v.m_size size) blank _ j,
                  low,
                  move_loop_lem (min v.m_size size) 0 v.cells fresh j,
                  moved,
                )
                refl;
          blanks = λ j old new.
              let high : (leb (min v.m_size size) j
                    && ltb j (min v.m_size size + (size - min v.m_size size)))
                  ≡ true =
                ground arith in
              rw (fill_loop_lem (size - min v.m_size size) (min v.m_size size) blank _ j, high)
                refl;
        },
      )

  -- What `push_back` returns.
  pub record IsPushed (val : A) (v w : Vector A) : Type ℓ where
    pub one_more : w.m_size ≡ v.m_size + 1
    pub valid : IsValid w
    pub last : w.cells v.m_size ≡ val
    pub kept : (j : ℕ) → j < v.m_size → w.cells j ≡ v.cells j
    pub capacity : w.capacity ≡ (if v.capacity == v.m_size then v.m_size * 2 + 1 else v.capacity)

  -- On a vector with room for its elements `push_back` never fails, whatever the new memory holds: it
  -- keeps the elements, puts the new one behind them, and if there was no room grows the capacity to
  -- twice the size and one.
  pub push_back-IsPushed :
      (fresh : ℕ → A) (blank val : A) (v : Vector A)
      → IsValid v
      → (w : Vector A) × (push_back fresh blank val v ≡ some w) × IsPushed val v w
  unfolding push_back append
  push_back-IsPushed fresh blank val v valid = elim (Bool-cases (v.capacity == v.m_size)) [
    | inl full ↦
        let (w, returns, r) =
          realloc-IsRealloc fresh blank v.m_size (v.m_size * 2 + 1) v (omega arith) in
        (
          append val w,
          rw (full, returns) refl,
          record {
            one_more = ap (λ n. n + 1) r.new_size;
            valid = omega (arith, r.new_size, r.new_capacity);
            last = rw (r.new_size, update_self w.cells v.m_size val) refl;
            kept = λ j h.
                rw (r.new_size, update_ne w.cells v.m_size j val (omega arith)) (r.kept j h h);
            capacity = rw full r.new_capacity;
          },
        )
    | inr room ↦ (
      append val v,
      rw room refl,
      record {
        one_more = refl;
        valid = ground (arith, room, valid);
        last = update_self v.cells v.m_size val;
        kept = λ j h. update_ne v.cells v.m_size j val (omega arith);
        capacity = rw room refl;
      },
    )
  ]

  -- `pop_back` behind `push_back` gives the size and the elements back.
  pub pop_back-push_back :
      (fresh : ℕ → A) (blank val : A) (v : Vector A)
      → IsValid v
      → (w u : Vector A) × (push_back fresh blank val v ≡ some w)
        × (pop_back w ≡ some u)
        × (u.m_size ≡ v.m_size)
        × ((j : ℕ) → j < v.m_size → u.cells j ≡ v.cells j)
  unfolding pop_back
  pop_back-push_back fresh blank val v valid =
      let (w, returns, p) = push_back-IsPushed fresh blank val v valid in
      let some_left : (w.m_size == 0) ≡ false = ground (arith, p.one_more) in
      (
        w,
        record w { m_size = w.m_size - 1 },
        returns,
        rw some_left refl,
        omega (arith, p.one_more),
        p.kept,
      )

  -- `resize` to at most twice the capacity and one keeps the elements that fit, fills the rest with
  -- `T{}`, and has room for all of them.
  pub resize-IsRealloc :
      (fresh : ℕ → A) (blank : A) (size : ℕ) (v : Vector A)
      → size ≤ v.capacity * 2 + 1
      → (w : Vector A) × (resize fresh blank size v ≡ some w)
        × IsValid w
        × IsRealloc blank v size w.capacity w
  unfolding resize
  resize-IsRealloc fresh blank size v small =
      let grown = if ltb v.capacity size then v.capacity * 2 + 1 else v.capacity in
      let fits : size ≤ grown = ground arith in
      let (w, returns, r) = realloc-IsRealloc fresh blank size grown v fits in
      (
        w,
        returns,
        omega (arith, fits, r.new_size, r.new_capacity),
        record { new_size = r.new_size; new_capacity = refl; kept = r.kept; blanks = r.blanks },
      )

  -- `resize` to more than twice the capacity and one fails the assertion of `realloc`: the capacity is
  -- doubled once, whatever size is asked for.
  pub resize_fails :
      (fresh : ℕ → A) (blank : A) (size : ℕ) (v : Vector A)
      → v.capacity * 2 + 1 < size
      → resize fresh blank size v ≡ none
  unfolding resize realloc
  resize_fails fresh blank size v large =
      let full : ltb v.capacity size ≡ true = ground arith in
      let short : ltb (v.capacity * 2 + 1) size ≡ true = ground arith in rw (full, short) refl
