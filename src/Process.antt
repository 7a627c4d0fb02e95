-- ===== src/Process.antt =====
-- kernel/include/kernel/process/kthread.h, kernel/include/kernel/process/scheduler.h,
-- kernel/kernel/process/kthread.cpp, kernel/include/kernel/cpu.h and kernel/include/kernel/isr.h:
-- kernel threads and the round-robin scheduler.
pub mod Search
pub mod Remove
pub mod Next
pub mod Switch
mod Tests
use dim_os.Common.{
  ℕ, zero, suc, ◌+◌, ◌-◌, ◌%◌, Bool, true, false, not, ◌&&◌, ◌||◌, Option, none, some, List, [],
  ◌∷◌, ltb, ◌==◌, if◌then◌else◌, length, get_or, set, take,
}

-- `TaskState`
pub data TaskState : Type 0 where
  not_started running sleeping blocked completed do_not_disturb : TaskState

-- `==` of `TaskState`, on the values that the enumeration gives.
abbrev pub state_code : TaskState → ℕ
state_code TaskState.not_started = 0
state_code TaskState.running = 1
state_code TaskState.sleeping = 2
state_code TaskState.blocked = 4
state_code TaskState.completed = 8
state_code TaskState.do_not_disturb = 16

abbrev pub is_state : TaskState → TaskState → Bool
is_state a b = state_code a == state_code b

abbrev pub is_runnable_state : TaskState → Bool
is_runnable_state s = is_state s TaskState.not_started || is_state s TaskState.running

-- `cpu::GenRegisters`
pub record GenRegisters : Type 0 where
  pub r15 : ℕ
  pub r14 : ℕ
  pub r13 : ℕ
  pub r12 : ℕ
  pub r11 : ℕ
  pub r10 : ℕ
  pub r9 : ℕ
  pub r8 : ℕ
  pub rbp : ℕ
  pub rdi : ℕ
  pub rsi : ℕ
  pub rdx : ℕ
  pub rcx : ℕ
  pub rbx : ℕ
  pub rax : ℕ

-- `cpu::InterruptFrame`
pub record InterruptFrame : Type 0 where
  pub rip : ℕ
  pub cs : ℕ
  pub rflags : ℕ
  pub rsp : ℕ
  pub ss : ℕ

-- `ISRFrame`
pub record IsrFrame : Type 0 where
  pub gen_registers : GenRegisters
  pub isr_number : ℕ
  pub error_code : ℕ
  pub interrupt_frame : InterruptFrame

-- `ExecContext`
pub record ExecContext : Type 0 where
  pub rsp : ℕ
  pub rip : ℕ
  pub gen_registers : GenRegisters
  pub rflags : ℕ

-- `ContextSwitchInfo::Method`
pub data Method : Type 0 where
  normally_interrupted yielded : Method

-- `Thread`, without its stack and its file descriptors, which the scheduler only moves along.
pub record Thread : Type 0 where
  pub exec_context : ExecContext
  pub method : Method
  pub id : ℕ
  pub state : TaskState

pub copy_from_isr_frame : IsrFrame → Thread → Thread
copy_from_isr_frame f t = record t {
  exec_context = record {
    rsp = f.interrupt_frame.rsp;
    rip = f.interrupt_frame.rip;
    gen_registers = f.gen_registers;
    rflags = f.interrupt_frame.rflags;
  };
}

pub reset_context_switch_info : Thread → Thread
reset_context_switch_info t = record t { method = Method.normally_interrupted }

-- `setpark`, `park` up to the interrupt of `yield`, and `unpark`
pub setpark : Thread → Thread
setpark t = record t { state = TaskState.do_not_disturb }

pub yield_mark : Thread → Thread
yield_mark t = record t { method = Method.yielded }

pub park : Thread → Thread
park t = yield_mark (record t { state = TaskState.sleeping })

pub unpark : Thread → Thread
unpark t = record t { state = TaskState.running }

-- A task for an index that is out of range; no theorem reads it.
abbrev pub no_thread : Thread
no_thread = record {
  exec_context = record {
    rsp = 0;
    rip = 0;
    gen_registers = record {
      r15 = 0;
      r14 = 0;
      r13 = 0;
      r12 = 0;
      r11 = 0;
      r10 = 0;
      r9 = 0;
      r8 = 0;
      rbp = 0;
      rdi = 0;
      rsi = 0;
      rdx = 0;
      rcx = 0;
      rbx = 0;
      rax = 0;
    };
    rflags = 514;
  };
  method = Method.normally_interrupted;
  id = 0;
  state = TaskState.not_started;
}

abbrev pub thread_at : List Thread → ℕ → Thread
thread_at ts i = get_or ts i no_thread

-- The first loop of `getNext`: the index of the first task with the identifier, or the size.
pub find_task : List Thread → ℕ → ℕ
find_task [] id = 0
find_task (t ∷ ts) id = let rest = find_task ts id in if t.id == id then 0 else suc rest

-- `swap` with the last task, unless it is the last, then `pop_back`.
pub remove_task : List Thread → ℕ → List Thread
remove_task ts i =
    let last = length ts - 1 in
    let swapped =
      if i == last then ts else set (set ts i (thread_at ts last)) last (thread_at ts i) in
    take last swapped

-- The last loop of `getNext`, by the tries left: the index at its end, or `none` if all tries failed.
pub next_runnable : List Thread → ℕ → ℕ → Option ℕ
next_runnable ts zero next = none
next_runnable ts (suc tries) next =
    let rest = next_runnable ts tries ((next + 1) % length ts) in
    if is_runnable_state (thread_at ts next).state then some next else rest

-- The end of `getNext`: the next index behind `prev`, or the size if no task can run.
pub pick_next : List Thread → ℕ → ℕ
pick_next ts prev =
    if length ts == 0 then 0 else elim (next_runnable ts (length ts) ((prev + 1) % length ts)) [
      | some next ↦ next
      | none ↦ length ts
    ]

-- `getNext`. `prevTask` is a reference to the task at index `cur`, as every caller passes it, so the
-- write to its state is a write to the vector.
pub get_next : List Thread → ℕ → List Thread × ℕ
get_next ts cur =
    let task = thread_at ts cur in
    let prev = find_task ts task.id in
    let valid = ltb prev (length ts) in
    if valid && is_state task.state TaskState.do_not_disturb
    then (ts, prev)
    else if is_state task.state TaskState.completed
    then (let kept = if valid then remove_task ts prev else ts in (kept, pick_next kept prev))
    else (let kept = set ts cur (record task { state = TaskState.running }) in
        (kept, pick_next kept prev))

-- `scheduleKernelThread` up to the return to the next thread: the threads, the index of the current
-- one, and the switch information handed to `return_from_interrupt`. `none` is the panic.
pub schedule_kernel_thread : List Thread → ℕ → Option (List Thread × ℕ × Method)
schedule_kernel_thread ts cur =
    let info = (thread_at ts cur).method in
    let reset = set ts cur (reset_context_switch_info (thread_at ts cur)) in
    let (ts', next) = get_next reset cur in
    if next == length ts' then none else some (ts', next, info)

-- `premptiveScheduler`
pub premptive_scheduler : IsrFrame → List Thread → ℕ → Option (List Thread × ℕ × Method)
premptive_scheduler frame ts cur =
    schedule_kernel_thread (set ts cur (copy_from_isr_frame frame (thread_at ts cur))) cur

-- `getThread`; `none` is the panic.
pub get_thread : List Thread → ℕ → Option Thread
get_thread [] id = none
get_thread (t ∷ ts) id = let rest = get_thread ts id in if t.id == id then some t else rest
