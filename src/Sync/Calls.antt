-- ===== src/Sync/Calls.antt =====
-- The primitives as calls by one thread, between two switches of which nobody else is inside them.
use dim_os.Common.{
  ℕ, suc, ◌+◌, ◌-◌, ◌%◌, ◌^◌, ◌<◌, ◌≡◌, refl, inl, inr, Bool, true, false, ◌||◌, Option, none, some,
  List, [], ◌∷◌, ◌==◌, if◌then◌else◌, arith, update, Bool-cases, ap, ◌∙◌,
}
use native.Mathlib.Nat.{mod-eq_of_lt}
use dim_os.Process.{TaskState}
use dim_os.Sync.{
  States, release_lock, ConditionVariable, wait, notify_one, notify_all, wake_all, Shared, Call,
  and_then, acquire_lock, release_call, wait_loop, take_one, not_positive, notify_call, sem_wait,
  sem_post,
}

-- Thread `i` is in the queue.
abbrev pub queued : ℕ → List ℕ → Bool
queued i [] = false
queued i (j ∷ js) = j == i || queued i js

-- The threads behind the first of the queue, and the states once the first is woken.
abbrev pub tail_of : List ℕ → List ℕ
tail_of [] = []
tail_of (j ∷ js) = js

abbrev pub wake_first : List ℕ → States → States
wake_first [] st = st
wake_first (j ∷ js) st = update st j TaskState.running

wake_all_lem :
    (q : List ℕ) (st : States) (i : ℕ)
    → wake_all q st i ≡ (if queued i q then TaskState.running else st i)
unfolding wake_all
wake_all_lem [] st i = refl
wake_all_lem (j ∷ js) st i = ground (arith, wake_all_lem js (update st j TaskState.running) i)

-- With its guard free, `notifyAll` empties the queue, makes exactly the threads that were in it
-- running, and gives its guard back.
pub notify_all_lem :
    (c : ConditionVariable) (st : States)
    → c.lock ≡ 0
    → (st' : States) × (notify_all c st ≡ some (record { lock = 0; queue = [] }, st'))
      × ((i : ℕ) → st' i ≡ (if queued i c.queue then TaskState.running else st i))
unfolding notify_all
notify_all_lem c st e = (wake_all c.queue st, rw e, wake_all_lem c.queue st)

-- How a call goes on in a state, and where it stands: parked or not, with the shared memory.
abbrev pub go_on : Call → Shared → Call
go_on (Call.parked w rest) u = rest u
go_on (Call.done w) u = Call.done w
go_on Call.stuck u = Call.stuck

abbrev pub outcome : Call → Option (Bool × Shared)
outcome (Call.parked w rest) = some (true, w)
outcome (Call.done w) = some (false, w)
outcome Call.stuck = none

-- A semaphore with its guards free and nobody queued for its mutex: the value, the flag of the mutex, and the
-- threads that wait on its condition.
abbrev pub semaphore : ℕ → ℕ → List ℕ → States → Shared
semaphore v f q st = record {
  semaphore = record {
    value = v;
    mutex = record { flag = f; lock = 0; queue = [] };
    condition = record { lock = 0; queue = q };
  };
  states = st;
}

less_one : (v : ℕ) → v < 2 ^ 32 → not_positive v ≡ false → (v + 2 ^ 32 - 1) % 2 ^ 32 ≡ v - 1
less_one v small h = ground (arith, small, h)

-- `wait` on a semaphore whose mutex and guards are free: a value that is not positive makes the thread sleep, in
-- front of those that wait, and stays; a positive value is taken 1 off. In both cases the
-- mutex is free afterwards. Two rounds are enough.
pub sem_wait_lem :
    (rounds me v : ℕ) (q : List ℕ) (st : States)
    → v < 2 ^ 32
    → outcome (sem_wait (suc (suc rounds)) me (semaphore v 0 q st)) ≡ (
        if not_positive v
        then some (true, semaphore v 0 (me ∷ q) (update st me TaskState.sleeping))
        else some (false, semaphore (v - 1) 0 q st))
unfolding sem_wait wait wait_loop and_then acquire_lock release_lock release_call
sem_wait_lem rounds me v q st small = elim (Bool-cases (not_positive v)) [
  | inl low ↦ rw low refl
  | inr high ↦ rw (high, less_one v small high) refl
]

-- What is left of `wait` of a semaphore for a thread that slept in it.
abbrev rest_of_wait : ℕ → ℕ → Shared → Call
rest_of_wait rounds me u = and_then (wait_loop (suc rounds) me u) (λ u'. release_call (take_one u'))

sem_wait_parks :
    (rounds me v : ℕ) (q : List ℕ) (st : States)
    → not_positive v ≡ true
    → sem_wait (suc (suc rounds)) me (semaphore v 0 q st)
      ≡ Call.parked
          (semaphore v 0 (me ∷ q) (update st me TaskState.sleeping))
          (rest_of_wait rounds me)
unfolding sem_wait wait wait_loop and_then acquire_lock release_lock release_call
sem_wait_parks rounds me v q st low = rw low refl

rest_of_wait_lem :
    (rounds me v f : ℕ) (q : List ℕ) (st : States)
    → v < 2 ^ 32
    → outcome (rest_of_wait rounds me (semaphore v f q st)) ≡ (
        if not_positive v
        then some (true, semaphore v 0 (me ∷ q) (update st me TaskState.sleeping))
        else some (false, semaphore (v - 1) 0 q st))
unfolding wait wait_loop and_then release_lock release_call
rest_of_wait_lem rounds me v f q st small = elim (Bool-cases (not_positive v)) [
  | inl low ↦ rw low refl
  | inr high ↦ rw (high, less_one v small high) refl
]

-- A thread that slept in `wait` of a semaphore and runs again, in any state with the guards free and nobody
-- queued for the mutex, whether or not some thread holds the mutex: it does not take the mutex. If
-- the value is not positive it sleeps again; otherwise it takes 1 off and returns. In both cases it frees the
-- mutex, also if another thread held it.
pub sem_wait_resumed :
    (rounds me v v' f : ℕ) (q q' : List ℕ) (st st' : States)
    → not_positive v ≡ true
    → v' < 2 ^ 32
    → outcome (go_on (sem_wait (suc (suc rounds)) me (semaphore v 0 q st)) (semaphore v' f q' st'))
      ≡ (if not_positive v'
          then some (true, semaphore v' 0 (me ∷ q') (update st' me TaskState.sleeping))
          else some (false, semaphore (v' - 1) 0 q' st'))
sem_wait_resumed rounds me v v' f q q' st st' low small =
    ap (λ c. outcome (go_on c (semaphore v' f q' st'))) (sem_wait_parks rounds me v q st low)
    ∙ rest_of_wait_lem rounds me v' f q' st' small

-- `post` on a semaphore whose mutex and guards are free, with a value whose increment fits an
-- `int32_t`, adds 1, wakes the thread that waited last, if any, leaves the others waiting, and
-- leaves the mutex free.
pub sem_post_lem :
    (rounds me v : ℕ) (q : List ℕ) (st : States)
    → v + 1 < 2 ^ 31
    → sem_post (suc rounds) me (semaphore v 0 q st)
      ≡ Call.done (semaphore (v + 1) 0 (tail_of q) (wake_first q st))
unfolding sem_post and_then acquire_lock notify_call notify_one release_lock release_call
sem_post_lem rounds me v [] st h = rw (mod-eq_of_lt {n = v + 1} {m = 2 ^ 32} (omega arith)) refl
sem_post_lem rounds me v (j ∷ js) st h =
    rw (mod-eq_of_lt {n = v + 1} {m = 2 ^ 32} (omega arith)) refl

-- On a semaphore with the value 0, whose mutex and guards are free, and nobody queued for the mutex: a thread that
-- waits goes to sleep in front of those that wait already; whatever becomes of the states of the threads
-- then, a `post` by another thread wakes this thread, and no other; and when it goes on, it returns with the
-- value 0 and the mutex free, and those that waited before it still wait.
pub sem_post-sem_wait :
    (rounds me other : ℕ) (q : List ℕ) (st st' : States)
    → let call = sem_wait (suc (suc rounds)) me (semaphore 0 0 q st) in
      let posted = semaphore 1 0 q (update st' me TaskState.running) in
      (outcome call ≡ some (true, semaphore 0 0 (me ∷ q) (update st me TaskState.sleeping)))
      × (sem_post (suc rounds) other (semaphore 0 0 (me ∷ q) st') ≡ Call.done posted)
      × (outcome (go_on call posted)
          ≡ some (false, semaphore 0 0 q (update st' me TaskState.running)))
sem_post-sem_wait rounds me other q st st' = (
  sem_wait_lem rounds me 0 q st (omega arith),
  sem_post_lem rounds other 0 (me ∷ q) st' (omega arith),
  sem_wait_resumed rounds me 0 1 0 q q st (update st' me TaskState.running) refl (omega arith),
)
