-- ===== src/Sync/Tests.antt =====
-- Runs of the primitives, and their theorems at concrete states.
use dim_os.Common.{ℕ, ◌≡◌, ◌≢◌, refl, true, false, [], ◌∷◌, some, arith, update}
use dim_os.Process.{TaskState}
use dim_os.Sync.{
  States, Pc, System, Step, Reach, start, later, move, enter, acq_take, see_free, set_flag, got,
  see_taken, push, mark, unguard, leave, rel_take, init, Call, sem_wait, sem_post,
}
use dim_os.Sync.Mutex.{mutual_exclusion}
use dim_os.Sync.Release.{noticed, woken, contended_release_deadlocks}
use dim_os.Sync.Calls.{go_on, outcome, semaphore, sem_wait_resumed, sem_post-sem_wait}

abbrev awake : States
awake i = TaskState.running

-- Thread 0 is inside.
abbrev inside : System
inside = record {
  mutex = record { flag = 1; lock = 0; queue = [] };
  pc =
      update
        (update (update (update (update (λ i. Pc.idle) 0 Pc.acq_spin) 0 Pc.acq_guard) 0 Pc.acq_free)
          0 Pc.acq_got)
        0 Pc.critical;
  states = awake;
}

inside-Reach : Reach (init awake) inside
inside-Reach =
    later
      (later
        (later (later (later start (move 0 enter)) (move 0 (acq_take refl)))
          (move 0 (see_free refl)))
        (move 0 set_flag))
      (move 0 got)

mutual_exclusion_example : ◌≡◌ {A = ℕ} 0 0
mutual_exclusion_example = mutual_exclusion awake 0 0 inside-Reach refl refl

-- Thread 1 has queued itself, and thread 0 is about to release.
abbrev contended : System
contended = record {
  mutex = record { flag = 1; lock = 1; queue = 1 ∷ [] };
  pc =
      update
        (update
          (update
            (update
              (update
                (update (update (update inside.pc 1 Pc.acq_spin) 1 Pc.acq_guard) 1 Pc.acq_busy) 1
                Pc.acq_queued)
              1 Pc.acq_marked)
            1 Pc.acq_park)
          0 Pc.rel_spin)
        0 Pc.rel_guard;
  states = update awake 1 TaskState.do_not_disturb;
}

contended-Reach : Reach (init awake) contended
contended-Reach =
    later
      (later
        (later
          (later
            (later
              (later (later (later inside-Reach (move 1 enter)) (move 1 (acq_take refl)))
                (move 1 (see_taken (λ e. absurd (omega arith)))))
              (move 1 push))
            (move 1 mark))
          (move 1 unguard))
        (move 0 leave))
      (move 0 (rel_take refl))

contended_release_deadlocks_example :
    Step contended (noticed contended 0)
    × Reach (noticed contended 0) (woken contended 0 1 [])
    × ((i : ℕ) → (noticed contended 0).pc i ≢ Pc.critical)
    × (◌≡◌ {A = ℕ} 1 1)
contended_release_deadlocks_example =
    contended_release_deadlocks awake 0 1 [] contended-Reach refl refl start

-- Thread 3 waits on an empty semaphore, and runs again while another thread holds the mutex.
sem_wait_resumed_example :
    outcome (go_on (sem_wait 2 3 (semaphore 0 0 [] awake)) (semaphore 1 1 [] awake))
    ≡ some (false, semaphore 0 0 [] awake)
sem_wait_resumed_example = sem_wait_resumed 0 3 0 1 1 [] [] awake awake refl (omega arith)

-- Threads 5 and 3 wait, the states in between are those in which all run, and thread 4 posts.
sem_post-sem_wait_example :
    (outcome (sem_wait 2 3 (semaphore 0 0 (5 ∷ []) awake))
      ≡ some (true, semaphore 0 0 (3 ∷ 5 ∷ []) (update awake 3 TaskState.sleeping)))
    × (sem_post 1 4 (semaphore 0 0 (3 ∷ 5 ∷ []) awake)
        ≡ Call.done (semaphore 1 0 (5 ∷ []) (update awake 3 TaskState.running)))
    × (outcome (
          go_on
            (sem_wait 2 3 (semaphore 0 0 (5 ∷ []) awake))
            (semaphore 1 0 (5 ∷ []) (update awake 3 TaskState.running)))
        ≡ some (false, semaphore 0 0 (5 ∷ []) (update awake 3 TaskState.running)))
sem_post-sem_wait_example = sem_post-sem_wait 0 3 4 (5 ∷ []) awake awake
