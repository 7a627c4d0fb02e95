-- ===== src/Process/Switch.antt =====
-- `scheduleKernelThread`, `premptiveScheduler` and `getThread`.
use dim_os.Common.{
  ℕ, zero, suc, ◌<◌, ◌≡◌, refl, ◌≢◌, ◌∙◌, false, some, List, [], ◌∷◌, ◌==◌, length, set, arith,
  length-set, ap, sym,
}
use dim_os.Common.Erase.{get_or-set_self, get_or-set_ne}
use native.Mathlib.Decide.{ℕ_discrete}
use dim_os.Process.{
  Thread, TaskState, Method, IsrFrame, thread_at, no_thread, get_next, schedule_kernel_thread,
  premptive_scheduler, get_thread, reset_context_switch_info, copy_from_isr_frame, park, yield_mark,
  find_task,
}
use dim_os.Process.Search.{UniqueIds, find_task-eq, IsPicked}
use dim_os.Process.Next.{IsRotated, get_next-IsRotated}

-- A write to one task that keeps its identifier keeps the identifiers unique.
set-UniqueIds :
    (ts : List Thread) (cur : ℕ) (t : Thread)
    → UniqueIds ts
    → cur < length ts
    → t.id ≡ (thread_at ts cur).id
    → UniqueIds (set ts cur t)
set-UniqueIds ts cur t unique h same i j hi hj e =
    unique i j (rw (length-set ts cur t) at hi) (rw (length-set ts cur t) at hj)
      (sym (id_of i) ∙ e ∙ id_of j)
  where
    id_of : (k : ℕ) → (thread_at (set ts cur t) k).id ≡ (thread_at ts k).id
    id_of k = elim (ℕ_discrete cur k) [
      | yes here ↦ rw (← here, get_or-set_self ts cur t no_thread h) same
      | no there ↦ rw (get_or-set_ne ts cur k t no_thread there)
    ]

-- What a switch away from a task that is neither completed nor undisturbed returns.
pub record IsSwitched (ts : List Thread) (cur : ℕ) (out : List Thread × ℕ × Method) : Type 0 where
  pub same_length : length out.0 ≡ length ts
  pub others : (i : ℕ) → cur ≢ i → thread_at out.0 i ≡ thread_at ts i
  pub previous : thread_at out.0 cur ≡ record (thread_at ts cur) {
    state = TaskState.running;
    method = Method.normally_interrupted;
  }
  pub in_range : out.1 < length ts
  pub next : IsPicked out.0 cur out.1
  pub info : out.2 ≡ (thread_at ts cur).method

-- With distinct identifiers, a switch away from a task that is neither completed nor
-- undisturbed never panics: it hands over the way in which the task was left, resets it in the
-- task, marks the task running, leaves the others as they are, and makes the first task that
-- can run behind it the current one.
pub schedule_kernel_thread-IsSwitched :
    (ts : List Thread) (cur : ℕ)
    → UniqueIds ts
    → cur < length ts
    → (thread_at ts cur).state ≢ TaskState.completed
    → (thread_at ts cur).state ≢ TaskState.do_not_disturb
    → (out : List Thread × ℕ × Method) × (schedule_kernel_thread ts cur ≡ some out)
      × IsSwitched ts cur out
unfolding schedule_kernel_thread reset_context_switch_info
schedule_kernel_thread-IsSwitched ts cur unique h live free = (
  ((get_next base cur).0, (get_next base cur).1, (thread_at ts cur).method),
  returns,
  record {
    same_length = len;
    others = λ i ne. rotated.others i ne ∙ get_or-set_ne ts cur i reset no_thread ne;
    previous = rotated.previous ∙ rw self refl;
    in_range = next_lt;
    next = rotated.next;
    info = refl;
  },
)
  where
    reset : Thread
    reset = record (thread_at ts cur) { method = Method.normally_interrupted }

    base : List Thread
    base = set ts cur reset

    self : thread_at base cur ≡ reset
    self = get_or-set_self ts cur reset no_thread h

    rotated : IsRotated base cur (get_next base cur)
    rotated =
        get_next-IsRotated base cur (set-UniqueIds ts cur reset unique h refl)
          (rw (length-set ts cur reset) h) (rw self live) (rw self free)

    len : length (get_next base cur).0 ≡ length ts
    len = rotated.same_length ∙ length-set ts cur reset

    next_lt : (get_next base cur).1 < length ts
    next_lt = rw (length-set ts cur reset) at rotated.in_range

    returns :
        schedule_kernel_thread ts cur
        ≡ some ((get_next base cur).0, (get_next base cur).1, (thread_at ts cur).method)
    returns =
        let some_next : ((get_next base cur).1 == length (get_next base cur).0) ≡ false =
          rw len (ground (arith, next_lt)) in
        rw (schedule_kernel_thread, some_next)

-- With distinct identifiers, a thread that parks itself is left running by the switch that
-- follows: it does not sleep.
pub parked_runs :
    (ts : List Thread) (cur : ℕ)
    → UniqueIds ts
    → cur < length ts
    → (out : List Thread × ℕ × Method) × (schedule_kernel_thread
          (set ts cur (park (thread_at ts cur)))
          cur
        ≡ some out)
      × ((thread_at out.0 cur).state ≡ TaskState.running)
      × (out.2 ≡ Method.yielded)
unfolding park yield_mark
parked_runs ts cur unique h =
    let parked = park (thread_at ts cur) in
    let self : thread_at (set ts cur parked) cur ≡ parked =
      get_or-set_self ts cur parked no_thread h in
    let (out, returns, switched) =
      schedule_kernel_thread-IsSwitched (set ts cur parked) cur
        (set-UniqueIds ts cur parked unique h refl) (rw (length-set ts cur parked) h)
        (rw self (λ e. cc)) (rw self (λ e. cc)) in
    (out, returns, ap (λ t. t.state) switched.previous, switched.info ∙ ap (λ t. t.method) self)

-- With distinct identifiers, the switch away from a preempted task that is neither completed nor undisturbed
-- does not panic. The task keeps the general registers, the flags, the stack pointer and the instruction
-- pointer of its interrupt frame, and is running; the other tasks are as they are, and the next is
-- the first behind it that can run.
pub premptive_scheduler_saves :
    (frame : IsrFrame) (ts : List Thread) (cur : ℕ)
    → UniqueIds ts
    → cur < length ts
    → (thread_at ts cur).state ≢ TaskState.completed
    → (thread_at ts cur).state ≢ TaskState.do_not_disturb
    → (out : List Thread × ℕ × Method) × (premptive_scheduler frame ts cur ≡ some out)
      × ((thread_at out.0 cur).exec_context ≡ record {
        rsp = frame.interrupt_frame.rsp;
        rip = frame.interrupt_frame.rip;
        gen_registers = frame.gen_registers;
        rflags = frame.interrupt_frame.rflags;
      })
      × ((thread_at out.0 cur).state ≡ TaskState.running)
      × IsPicked out.0 cur out.1
      × ((i : ℕ) → cur ≢ i → thread_at out.0 i ≡ thread_at ts i)
unfolding premptive_scheduler copy_from_isr_frame
premptive_scheduler_saves frame ts cur unique h live free =
    let saved = copy_from_isr_frame frame (thread_at ts cur) in
    let self : thread_at (set ts cur saved) cur ≡ saved =
      get_or-set_self ts cur saved no_thread h in
    let (out, returns, switched) =
      schedule_kernel_thread-IsSwitched (set ts cur saved) cur
        (set-UniqueIds ts cur saved unique h refl) (rw (length-set ts cur saved) h) (rw self live)
        (rw self free) in
    (
      out,
      returns,
      ap (λ t. t.exec_context) switched.previous ∙ ap (λ t. t.exec_context) self,
      ap (λ t. t.state) switched.previous,
      switched.next,
      λ i ne. switched.others i ne ∙ get_or-set_ne ts cur i saved no_thread ne,
    )

get_thread-find :
    (ts : List Thread) (i : ℕ)
    → i < length ts
    → get_thread ts (thread_at ts i).id ≡ some (thread_at ts (find_task ts (thread_at ts i).id))
unfolding get_thread find_task
get_thread-find [] i h = absurd (omega arith)
get_thread-find (t ∷ ts) zero h = ground arith
get_thread-find (t ∷ ts) (suc i) h = ground (arith, get_thread-find ts i)

-- With distinct identifiers, `getThread` returns the thread at an index when asked for its
-- identifier.
pub get_thread_lem :
    (ts : List Thread) (i : ℕ)
    → UniqueIds ts
    → i < length ts
    → get_thread ts (thread_at ts i).id ≡ some (thread_at ts i)
get_thread_lem ts i unique h =
    get_thread-find ts i h ∙ ap (λ k. some (thread_at ts k)) (find_task-eq ts i unique h)
