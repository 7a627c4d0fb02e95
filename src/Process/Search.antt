-- ===== src/Process/Search.antt =====
-- The two searches of `getNext`: the previous task by its identifier, and the next one that can run.
use dim_os.Common.{
  ℕ, zero, suc, ◌+◌, ◌-◌, ◌%◌, ◌≤◌, ◌<◌, ◌≡◌, ◌∙◌, ap, true, false, Option, none, some, List, [],
  ◌∷◌, ◌==◌, length, arith, Bool-cases, inl, inr, sym, Option-cases, ==_iff,
}
use native.Mathlib.Nat.{add-zero, mod-lt, add-mod_right, mod-eq_of_lt, mod-add-mod}
use mathlib.Core.Path.{subst}
use native.Mathlib.Decide.{dec_lt}
use dim_os.Process.{Thread, thread_at, is_runnable_state, find_task, next_runnable, pick_next}

-- No two threads have the same identifier.
abbrev pub UniqueIds : List Thread → Type 0
UniqueIds ts =
    (i j : ℕ) → i < length ts → j < length ts → (thread_at ts i).id ≡ (thread_at ts j).id → i ≡ j

pub find_task-first :
    (ts : List Thread) (i : ℕ)
    → i < length ts
    → let f = find_task ts (thread_at ts i).id in
      (f ≤ i) × ((thread_at ts f).id ≡ (thread_at ts i).id)
unfolding find_task
find_task-first [] i h = absurd (omega arith)
find_task-first (t ∷ ts) zero h = ground arith
find_task-first (t ∷ ts) (suc i) h = ground (arith, find_task-first ts i)

pub find_task-eq :
    (ts : List Thread) (i : ℕ) → UniqueIds ts → i < length ts → find_task ts (thread_at ts i).id ≡ i
find_task-eq ts i unique h =
    let (le, same) = find_task-first ts i h in unique _ i (omega (arith, le)) h same

-- What a search from `next` round the tasks found in `tries` tries.
abbrev pub IsFound : List Thread → ℕ → ℕ → Option ℕ → Type 0
IsFound ts tries next none =
    (k : ℕ) → k < tries → is_runnable_state (thread_at ts ((next + k) % length ts)).state ≡ false
IsFound ts tries next (some r) =
    (k : ℕ) × (k < tries)
    × (r ≡ (next + k) % length ts)
    × (is_runnable_state (thread_at ts r).state ≡ true)
    × ((j : ℕ) → j < k → is_runnable_state (thread_at ts ((next + j) % length ts)).state ≡ false)

here : (n next : ℕ) → next < n → (next + 0) % n ≡ next
here n next h = rw (add-zero, mod-eq_of_lt h)

further : (n next k : ℕ) → ((next + 1) % n + k) % n ≡ (next + suc k) % n
further n next k = rw mod-add-mod (ap (λ (t : ℕ). t % n) (omega arith))

not_before :
    (ts : List Thread) (next tries : ℕ)
    → next < length ts
    → is_runnable_state (thread_at ts next).state ≡ false
    → ((j : ℕ)
        → j < tries
        → is_runnable_state (thread_at ts (((next + 1) % length ts + j) % length ts)).state ≡ false)
    → (j : ℕ) → j < suc tries
    → is_runnable_state (thread_at ts ((next + j) % length ts)).state ≡ false
not_before ts next tries h not rest zero q = rw (here (length ts) next h) not
not_before ts next tries h not rest (suc j) q =
    rw (further (length ts) next j) at (rest j (omega arith))

-- A search that goes on after a task that cannot run.
IsFound-cons :
    (ts : List Thread) (tries next : ℕ) (r : Option ℕ)
    → next < length ts
    → is_runnable_state (thread_at ts next).state ≡ false
    → IsFound ts tries ((next + 1) % length ts) r
    → IsFound ts (suc tries) next r
IsFound-cons ts tries next none h not found = not_before ts next tries h not found
IsFound-cons ts tries next (some r) h not (k, lt, at, can, before) =
    (suc k, omega arith, at ∙ further (length ts) next k, can, not_before ts next k h not before)

pub next_runnable-IsFound :
    (ts : List Thread) (tries next : ℕ)
    → next < length ts
    → IsFound ts tries next (next_runnable ts tries next)
unfolding next_runnable
next_runnable-IsFound ts zero next h = λ k q. absurd (omega arith)
next_runnable-IsFound ts (suc tries) next h =
    elim (Bool-cases (is_runnable_state (thread_at ts next).state)) [
      | inl can ↦
          rw can (0, omega arith, sym (here (length ts) next h), can, λ j q. absurd (omega arith))
      | inr not ↦ rw not (
          IsFound-cons ts tries next _ h not
            (next_runnable-IsFound ts tries ((next + 1) % length ts) (omega arith)))
    ]

-- What `getNext` picks behind index `prev`: the first task that can run in cyclic order from `prev + 1`
-- on, or the number of tasks, and then no task at all can run.
pub data IsPicked (ts : List Thread) (prev : ℕ) : ℕ → Type 0 where
  nobody :
      ((i : ℕ) → i < length ts → is_runnable_state (thread_at ts i).state ≡ false)
      → IsPicked ts prev (length ts)
  picked :
      {next : ℕ} (k : ℕ)
      → next < length ts
      → k < length ts
      → next ≡ (prev + 1 + k) % length ts
      → is_runnable_state (thread_at ts next).state ≡ true
      → ((j : ℕ)
          → j < k
          → is_runnable_state (thread_at ts ((prev + 1 + j) % length ts)).state ≡ false)
      → IsPicked ts prev next

-- Every index is reached from every start.
reaches : (n start i : ℕ) → start < n → i < n → (k : ℕ) × (k < n) × ((start + k) % n ≡ i)
reaches n start i hs hi = elim (dec_lt i start) [
  | yes below ↦
      let at : start + (i + n - start) ≡ i + n = omega arith in
      (i + n - start, omega arith, rw (at, add-mod_right, mod-eq_of_lt hi))
  | no above ↦
      let at : start + (i - start) ≡ i = omega arith in
      (i - start, omega arith, rw (at, mod-eq_of_lt hi))
]

found-IsPicked :
    (ts : List Thread) (prev next : ℕ)
    → 0 < length ts
    → IsFound ts (length ts) ((prev + 1) % length ts) (some next)
    → IsPicked ts prev next
found-IsPicked ts prev next pos (k, lt, at, can, before) =
    picked k (rw at (mod-lt _ pos)) lt (at ∙ mod-add-mod (prev + 1) (length ts) k) can
      (λ j h. rw mod-add-mod at (before j h))

none_found-IsPicked :
    (ts : List Thread) (prev : ℕ)
    → 0 < length ts
    → IsFound ts (length ts) ((prev + 1) % length ts) none
    → IsPicked ts prev (length ts)
none_found-IsPicked ts prev pos none_found = nobody λ i h.
    let (k, lt, at) = reaches (length ts) ((prev + 1) % length ts) i (mod-lt _ pos) h in
    rw at at (none_found k lt)

-- The end of `getNext` picks the first task that can run in cyclic order behind an index, for
-- any index, and gives the number of tasks exactly if no task can run.
pub pick_next-IsPicked : (ts : List Thread) (prev : ℕ) → IsPicked ts prev (pick_next ts prev)
unfolding pick_next
pick_next-IsPicked ts prev = elim (Bool-cases (length ts == 0)) [
  | inl empty ↦ rw empty (
      subst (IsPicked ts prev) ((==_iff (length ts) 0).0 empty)
        (nobody (λ i h. absurd (omega (arith, (==_iff (length ts) 0).0 empty)))))
  | inr full ↦
      let pos : 0 < length ts = ground arith in
      let found = next_runnable-IsFound ts (length ts) ((prev + 1) % length ts) (mod-lt _ pos) in
      rw full (elim (Option-cases (next_runnable ts (length ts) ((prev + 1) % length ts))) [
        | inl e ↦ rw e (none_found-IsPicked ts prev pos (rw e at found))
        | inr (next, e) ↦ rw e (found-IsPicked ts prev next pos (rw e at found))
      ])
]
