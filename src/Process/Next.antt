-- ===== src/Process/Next.antt =====
-- `RRScheduler::getNext` on each kind of previous task.
use mathlib.Core.List.{Perm}
use dim_os.Common.{
  ℕ, ◌+◌, ◌<◌, ◌≡◌, refl, ◌≢◌, true, false, List, ◌∷◌, lt→ltb, length, set, arith, length-set,
}
use dim_os.Common.Erase.{get_or-set_self, get_or-set_ne}
use dim_os.Process.{
  Thread, TaskState, thread_at, no_thread, is_state, is_runnable_state, get_next, remove_task,
}
use dim_os.Process.Search.{UniqueIds, find_task-eq, IsPicked, pick_next-IsPicked}
use dim_os.Process.Remove.{remove_task-perm, length-remove_task}

is_state-ne : (a b : TaskState) → a ≢ b → is_state a b ≡ false
is_state-ne a b ne = ground arith

-- With distinct identifiers, a previous task that must not be disturbed is picked again, and
-- nothing changes.
pub get_next-undisturbed :
    (ts : List Thread) (cur : ℕ)
    → UniqueIds ts
    → cur < length ts
    → (thread_at ts cur).state ≡ TaskState.do_not_disturb
    → get_next ts cur ≡ (ts, cur)
unfolding get_next
get_next-undisturbed ts cur unique h e =
    rw (find_task-eq ts cur unique h, lt→ltb cur (length ts) h, e) refl

-- What `getNext` does behind a completed task.
pub record IsRemoved (ts : List Thread) (cur : ℕ) (out : List Thread × ℕ) : Type 0 where
  pub removed : Perm (thread_at ts cur ∷ out.0) ts
  pub one_less : length out.0 + 1 ≡ length ts
  pub next : IsPicked out.0 cur out.1

-- With distinct identifiers, a completed previous task leaves the vector and every other one
-- stays, up to order; then the first task that can run in cyclic order behind its index is
-- picked, or the number of tasks that are left if none can.
pub get_next-IsRemoved :
    (ts : List Thread) (cur : ℕ)
    → UniqueIds ts
    → cur < length ts
    → (thread_at ts cur).state ≡ TaskState.completed
    → IsRemoved ts cur (get_next ts cur)
unfolding get_next
get_next-IsRemoved ts cur unique h e =
    rw (find_task-eq ts cur unique h, lt→ltb cur (length ts) h, e)
      (record {
        removed = remove_task-perm ts cur h;
        one_less = length-remove_task ts cur h;
        next = pick_next-IsPicked (remove_task ts cur) cur;
      })

-- What `getNext` does behind any other task.
pub record IsRotated (ts : List Thread) (cur : ℕ) (out : List Thread × ℕ) : Type 0 where
  pub same_length : length out.0 ≡ length ts
  pub others : (i : ℕ) → cur ≢ i → thread_at out.0 i ≡ thread_at ts i
  pub previous : thread_at out.0 cur ≡ record (thread_at ts cur) { state = TaskState.running }
  pub in_range : out.1 < length ts
  pub next : IsPicked out.0 cur out.1

-- If the task at an index can run, somebody is picked.
somebody :
    (ts : List Thread) (prev i : ℕ) {out : ℕ}
    → i < length ts
    → is_runnable_state (thread_at ts i).state ≡ true
    → IsPicked ts prev out
    → out < length ts
somebody ts prev i h can (IsPicked.nobody none_can) = cc (can, none_can i h)
somebody ts prev i h can (IsPicked.picked k lt q at r s) = lt

-- With distinct identifiers, a previous task that is neither completed nor undisturbed stays in
-- its place and is marked running, also if it slept or was blocked; the others are unchanged;
-- and the first task that can run in cyclic order behind it is picked, so that there always is
-- one.
pub get_next-IsRotated :
    (ts : List Thread) (cur : ℕ)
    → UniqueIds ts
    → cur < length ts
    → (thread_at ts cur).state ≢ TaskState.completed
    → (thread_at ts cur).state ≢ TaskState.do_not_disturb
    → IsRotated ts cur (get_next ts cur)
unfolding get_next
get_next-IsRotated ts cur unique h live free =
    rw
      (
        find_task-eq ts cur unique h,
        lt→ltb cur (length ts) h,
        is_state-ne _ _ free,
        is_state-ne _ _ live,
      )
      (record {
        same_length = length-set ts cur _;
        others = λ i ne. get_or-set_ne ts cur i _ no_thread ne;
        previous = self;
        in_range = rw (length-set ts cur woken) at (
            somebody kept cur cur (rw (length-set ts cur woken) h) (rw self refl)
              (pick_next-IsPicked kept cur));
        next = pick_next-IsPicked kept cur;
      })
  where
    woken : Thread
    woken = record (thread_at ts cur) { state = TaskState.running }

    kept : List Thread
    kept = set ts cur woken

    self : thread_at kept cur ≡ woken
    self = get_or-set_self ts cur woken no_thread h
