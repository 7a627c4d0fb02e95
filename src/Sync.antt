-- ===== src/Sync.antt =====
-- kernel/kernel/concurrency/primitives.cpp and kernel/include/kernel/concurrency/primitives.h: the
-- mutex as threads that interleave, and the calls of the primitives by one thread at a time.
pub mod Family
pub mod Mutex
pub mod Release
pub mod Calls
mod Tests
use dim_os.Common.{
  ℕ, zero, suc, ◌+◌, ◌-◌, ◌%◌, ◌^◌, ◌≡◌, ◌≢◌, Bool, true, false, ◌||◌, Option, none, some, List, [],
  ◌∷◌, ltb, ◌==◌, if◌then◌else◌, update,
}
use dim_os.Process.{TaskState}

-- `MutexLock`. The vector `queue` is used as a stack: its back is the head of the list.
pub record MutexLock : Type 0 where
  pub flag : ℕ
  pub lock : ℕ
  pub queue : List ℕ

-- The states of the threads, by identifier.
abbrev pub States : Type 0
States = ℕ → TaskState

-- Where a thread stands in `acquireLock` and `releaseLock`.
pub data Pc : Type 0 where
  idle : Pc  -- outside both, without the mutex
  acq_spin : Pc  -- the inner `while` of `acquireLock`
  acq_guard : Pc  -- before the test of `flag`
  acq_free : Pc  -- `flag` was 0, before `flag = 1`
  acq_got : Pc  -- `flag` set, before `lock = 0`
  acq_busy : Pc  -- `flag` was not 0, before the push on the queue
  acq_queued : Pc  -- pushed on the queue, before `setpark`
  acq_marked : Pc  -- before `lock = 0` of the other branch
  acq_park : Pc  -- before `park`
  critical : Pc  -- returned from `acquireLock`, before `releaseLock`
  rel_spin : Pc  -- the `while` of `releaseLock`
  rel_guard : Pc  -- before the test of `queue.size()`
  rel_empty : Pc  -- the queue was empty, before `flag = 0`
  rel_waiting : Pc  -- the queue was not empty, before `queue.back()`
  rel_next : ℕ → Pc  -- with the back of the queue, before `queue.pop_back()`
  rel_popped : ℕ → Pc  -- before `unpark`
  rel_done : Pc  -- before the last `lock = 0`

-- One step of thread `me`: the mutex, the thread's place, all states. A step is one read or write of
-- `flag`, one write or compare-and-swap of `lock`, one call on the queue, or one change of a state.
pub data Move (me : ℕ) (m : MutexLock) (st : States) : Pc → MutexLock → Pc → States → Type 0 where
  enter : Move me m st Pc.idle m Pc.acq_spin st
  acq_wait : m.lock ≡ 1 → Move me m st Pc.acq_spin m Pc.acq_spin st
  acq_take : m.lock ≡ 0 → Move me m st Pc.acq_spin (record m { lock = 1 }) Pc.acq_guard st
  see_free : m.flag ≡ 0 → Move me m st Pc.acq_guard m Pc.acq_free st
  set_flag : Move me m st Pc.acq_free (record m { flag = 1 }) Pc.acq_got st
  got : Move me m st Pc.acq_got (record m { lock = 0 }) Pc.critical st
  see_taken : m.flag ≢ 0 → Move me m st Pc.acq_guard m Pc.acq_busy st
  push : Move me m st Pc.acq_busy (record m { queue = me ∷ m.queue }) Pc.acq_queued st
  mark : Move me m st Pc.acq_queued m Pc.acq_marked (update st me TaskState.do_not_disturb)
  unguard : Move me m st Pc.acq_marked (record m { lock = 0 }) Pc.acq_park st
  sleep : Move me m st Pc.acq_park m Pc.acq_spin (update st me TaskState.sleeping)
  leave : Move me m st Pc.critical m Pc.rel_spin st
  rel_wait : m.lock ≡ 1 → Move me m st Pc.rel_spin m Pc.rel_spin st
  rel_take : m.lock ≡ 0 → Move me m st Pc.rel_spin (record m { lock = 1 }) Pc.rel_guard st
  see_empty : m.queue ≡ [] → Move me m st Pc.rel_guard m Pc.rel_empty st
  clear_flag : Move me m st Pc.rel_empty (record m { flag = 0 }) Pc.rel_done st
  see_queued :
      {next : ℕ} {rest : List ℕ}
      → m.queue ≡ next ∷ rest
      → Move me m st Pc.rel_guard m Pc.rel_waiting st
  read_back :
      {next : ℕ} {rest : List ℕ}
      → m.queue ≡ next ∷ rest
      → Move me m st Pc.rel_waiting m (Pc.rel_next next) st
  pop :
      {next last : ℕ} {rest : List ℕ}
      → m.queue ≡ last ∷ rest
      → Move me m st (Pc.rel_next next) (record m { queue = rest }) (Pc.rel_popped next) st
  wake :
      {next : ℕ}
      → Move me m st (Pc.rel_popped next) m Pc.rel_done (update st next TaskState.running)
  finish : Move me m st Pc.rel_done (record m { lock = 0 }) Pc.idle st

-- Any number of threads that share one mutex. No schedule is ruled out, so what holds here holds
-- also where the scheduler leaves a thread undisturbed or lets it sleep.
pub record System : Type 0 where
  pub mutex : MutexLock
  pub pc : ℕ → Pc
  pub states : States

pub data Step (s : System) : System → Type 0 where
  move :
      (me : ℕ) {m : MutexLock} {p : Pc} {st : States}
      → Move me s.mutex s.states (s.pc me) m p st
      → Step s (record { mutex = m; pc = update s.pc me p; states = st })

pub data Reach (s : System) : System → Type 0 where
  start : Reach s s
  later : {t u : System} → Reach s t → Step t u → Reach s u

-- `MutexLock()` before any call.
abbrev pub init : States → System
init st = record {
  mutex = record { flag = 0; lock = 0; queue = [] };
  pc = λ i. Pc.idle;
  states = st;
}

-- `releaseLock` by one thread with nobody else at work; `none` is the endless spin on `lock`.
pub release_lock : MutexLock → States → Option (MutexLock × States)
release_lock m st = if m.lock == 1 then none else elim m.queue [
  | [] ↦ some (record m { flag = 0; lock = 0 }, st)
  | next ∷ rest ↦ some (record m { queue = rest; lock = 0 }, update st next TaskState.running)
]

-- `ConditionVariable`
pub record ConditionVariable : Type 0 where
  pub lock : ℕ
  pub queue : List ℕ

pub notify_one : ConditionVariable → States → Option (ConditionVariable × States)
notify_one c st = if c.lock == 1 then none else elim c.queue [
  | [] ↦ some (record { lock = 0; queue = [] }, st)
  | next ∷ rest ↦ some (record { lock = 0; queue = rest }, update st next TaskState.running)
]

-- The loop of `notifyAll`.
pub wake_all : List ℕ → States → States
wake_all [] st = st
wake_all (next ∷ rest) st = wake_all rest (update st next TaskState.running)

pub notify_all : ConditionVariable → States → Option (ConditionVariable × States)
notify_all c st =
    if c.lock == 1 then none else some (record { lock = 0; queue = [] }, wake_all c.queue st)

-- `Sempahore`; `value` is an `int32_t` as its bit pattern.
pub record Semaphore : Type 0 where
  pub value : ℕ
  pub mutex : MutexLock
  pub condition : ConditionVariable

-- The memory that the calls share: a semaphore, whose mutex and condition variable the calls on these
-- use, and the states of the threads.
pub record Shared : Type 0 where
  pub semaphore : Semaphore
  pub states : States

-- A call by one thread, from one switch to the next: it returns, or it parks and goes on in the state in
-- which the thread runs again. `stuck` is the endless spin on a guard, or fuel that ran out.
pub data Call : Type 0 where
  done : Shared → Call
  parked : Shared → (Shared → Call) → Call
  stuck : Call

pub and_then : Call → (Shared → Call) → Call
and_then (Call.done w) k = k w
and_then (Call.parked w rest) k = Call.parked w (λ u. and_then (rest u) k)
and_then Call.stuck k = Call.stuck

abbrev pub with_mutex : Shared → MutexLock → States → Shared
with_mutex w m st = record { semaphore = record w.semaphore { mutex = m }; states = st }

-- `acquireLock`, by the rounds of its outer loop; each round but the last parks.
pub acquire_lock : ℕ → ℕ → Shared → Call
acquire_lock zero me w = Call.stuck
acquire_lock (suc rounds) me w =
    let m = w.semaphore.mutex in
    if m.lock == 1
    then Call.stuck
    else if m.flag == 0
    then Call.done (with_mutex w (record m { flag = 1; lock = 0 }) w.states)
    else Call.parked
        (with_mutex w (record m { queue = me ∷ m.queue; lock = 0 })
          (update w.states me TaskState.sleeping))
        (λ u. acquire_lock rounds me u)

pub release_call : Shared → Call
release_call w = elim (release_lock w.semaphore.mutex w.states) [
  | none ↦ Call.stuck
  | some (m, st) ↦ Call.done (with_mutex w m st)
]

-- `ConditionVariable::wait`: nothing follows `park`.
pub wait : ℕ → Shared → Call
wait me w =
    let c = w.semaphore.condition in
    if c.lock == 1 then Call.stuck else elim (release_lock w.semaphore.mutex w.states) [
      | none ↦ Call.stuck
      | some (m, st) ↦
          Call.parked
            (record {
              semaphore = record w.semaphore {
                mutex = m;
                condition = record { lock = 0; queue = me ∷ c.queue };
              };
              states = update st me TaskState.sleeping;
            })
            (λ u. Call.done u)
    ]

-- `value <= 0`
abbrev pub not_positive : ℕ → Bool
not_positive v = v == 0 || ltb (2 ^ 31 - 1) v

-- The loop of `Sempahore::wait`, by rounds.
pub wait_loop : ℕ → ℕ → Shared → Call
wait_loop zero me w = Call.stuck
wait_loop (suc rounds) me w =
    if not_positive w.semaphore.value
    then and_then (wait me w) (λ u. wait_loop rounds me u)
    else Call.done w

-- `value--` and `value++`
abbrev pub take_one : Shared → Shared
take_one w = record w {
  semaphore = record w.semaphore { value = (w.semaphore.value + 2 ^ 32 - 1) % 2 ^ 32 };
}

abbrev pub add_one : Shared → Shared
add_one w = record w { semaphore = record w.semaphore { value = (w.semaphore.value + 1) % 2 ^ 32 } }

-- `Sempahore::wait`, with `rounds` for each of the two loops.
pub sem_wait : ℕ → ℕ → Shared → Call
sem_wait rounds me w =
    and_then (and_then (acquire_lock rounds me w) (λ u. wait_loop rounds me u))
      (λ u. release_call (take_one u))

pub notify_call : Shared → Call
notify_call w = elim (notify_one w.semaphore.condition w.states) [
  | none ↦ Call.stuck
  | some (c, st) ↦
      Call.done (record { semaphore = record w.semaphore { condition = c }; states = st })
]

-- `Sempahore::post`
pub sem_post : ℕ → ℕ → Shared → Call
sem_post rounds me w =
    and_then (and_then (acquire_lock rounds me w) (λ u. notify_call (add_one u))) release_call
