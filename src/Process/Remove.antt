-- ===== src/Process/Remove.antt =====
-- The removal of a completed task: swapped to the end and dropped.
use mathlib.Core.List.{Perm}
use dim_os.Common.{
  ℕ, ◌+◌, ◌-◌, ◌<◌, ◌≡◌, List, ◌∷◌, ◌==◌, length, set, arith, Bool-cases, ==_iff, inl, inr,
  length-take, length-set,
}
use dim_os.Common.Erase.{move_last, perm_move_last, perm_last}
use dim_os.Process.{Thread, thread_at, no_thread, remove_task}

-- `getNext` removes the task at the index, keeps every other one, and loses or doubles none.
pub remove_task-perm :
    (ts : List Thread) (i : ℕ) → i < length ts → Perm (thread_at ts i ∷ remove_task ts i) ts
unfolding remove_task move_last
remove_task-perm ts i h = elim (Bool-cases (i == length ts - 1)) [
  | inl last ↦
      rw (last, (==_iff i (length ts - 1)).0 last)
        (perm_last ts (length ts - 1) no_thread (omega arith))
  | inr inner ↦
      rw inner (perm_move_last ts (length ts - 1) i no_thread (omega arith) (ground arith))
]

pub length-remove_task :
    (ts : List Thread) (i : ℕ) → i < length ts → length (remove_task ts i) + 1 ≡ length ts
unfolding remove_task
length-remove_task ts i h = ground (
  arith,
  length-take (length ts - 1) ts,
  length-take (length ts - 1)
      (set (set ts i (thread_at ts (length ts - 1))) (length ts - 1) (thread_at ts i)),
  length-set (set ts i (thread_at ts (length ts - 1))) (length ts - 1) (thread_at ts i),
  length-set ts i (thread_at ts (length ts - 1)),
)
