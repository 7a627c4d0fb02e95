-- ===== src/Process/Tests.antt =====
-- Runs of the scheduler, and its theorems at concrete threads.
use dim_os.Common.{ℕ, zero, suc, ◌≡◌, ◌≢◌, refl, List, [], ◌∷◌, some, arith}
use dim_os.Process.{
  Thread, TaskState, Method, IsrFrame, no_thread, thread_at, find_task, next_runnable, pick_next,
  remove_task, get_next, schedule_kernel_thread, premptive_scheduler, park,
}
use dim_os.Process.Search.{UniqueIds, IsPicked}
use dim_os.Process.Next.{IsRemoved, IsRotated, get_next-IsRemoved, get_next-IsRotated}
use dim_os.Process.Switch.{
  IsSwitched, schedule_kernel_thread-IsSwitched, parked_runs, premptive_scheduler_saves,
}

abbrev thread : ℕ → TaskState → Thread
thread id state = record no_thread { id = id; state = state }

-- A running thread, one that sleeps, and a finished one.
abbrev three : List Thread
three = thread 1 TaskState.running ∷ thread 2 TaskState.sleeping ∷ thread 3 TaskState.completed ∷ []

three-UniqueIds : UniqueIds three
three-UniqueIds zero zero hi hj e = refl
three-UniqueIds zero (suc zero) hi hj e = absurd (omega arith)
three-UniqueIds zero (suc (suc zero)) hi hj e = absurd (omega arith)
three-UniqueIds zero (suc (suc (suc j))) hi hj e = absurd (omega arith)
three-UniqueIds (suc zero) zero hi hj e = absurd (omega arith)
three-UniqueIds (suc zero) (suc zero) hi hj e = refl
three-UniqueIds (suc zero) (suc (suc zero)) hi hj e = absurd (omega arith)
three-UniqueIds (suc zero) (suc (suc (suc j))) hi hj e = absurd (omega arith)
three-UniqueIds (suc (suc zero)) zero hi hj e = absurd (omega arith)
three-UniqueIds (suc (suc zero)) (suc zero) hi hj e = absurd (omega arith)
three-UniqueIds (suc (suc zero)) (suc (suc zero)) hi hj e = refl
three-UniqueIds (suc (suc zero)) (suc (suc (suc j))) hi hj e = absurd (omega arith)
three-UniqueIds (suc (suc (suc i))) j hi hj e = absurd (omega arith)

-- The only task that can run is picked again.
picks_itself : (get_next three 0).1 ≡ 0
unfolding get_next find_task pick_next next_runnable
picks_itself = refl

-- The finished task goes, and index 0 is next.
drops_finished : (get_next three 2).1 ≡ 0
unfolding get_next find_task pick_next next_runnable remove_task
drops_finished = refl

get_next-IsRotated_example : IsRotated three 0 (get_next three 0)
get_next-IsRotated_example =
    get_next-IsRotated three 0 three-UniqueIds (omega arith) (λ e. cc) (λ e. cc)

get_next-IsRemoved_example : IsRemoved three 2 (get_next three 2)
get_next-IsRemoved_example = get_next-IsRemoved three 2 three-UniqueIds (omega arith) refl

abbrev undisturbed : List Thread
undisturbed = thread 7 TaskState.do_not_disturb ∷ []

undisturbed-UniqueIds : UniqueIds undisturbed
undisturbed-UniqueIds zero zero hi hj e = refl
undisturbed-UniqueIds zero (suc j) hi hj e = absurd (omega arith)
undisturbed-UniqueIds (suc i) j hi hj e = absurd (omega arith)

schedule_kernel_thread-IsSwitched_example :
    (out : List Thread × ℕ × Method) × (schedule_kernel_thread three 1 ≡ some out)
    × IsSwitched three 1 out
schedule_kernel_thread-IsSwitched_example =
    schedule_kernel_thread-IsSwitched three 1 three-UniqueIds (omega arith) (λ e. cc) (λ e. cc)

parked_runs_example :
    (out : List Thread × ℕ × Method) × (schedule_kernel_thread
        (thread 1 TaskState.running ∷ park (thread_at three 1) ∷ thread 3 TaskState.completed ∷ [])
        1
      ≡ some out)
    × ((thread_at out.0 1).state ≡ TaskState.running)
    × (out.2 ≡ Method.yielded)
parked_runs_example = parked_runs three 1 three-UniqueIds (omega arith)

abbrev tick : IsrFrame
tick = record {
  gen_registers = record no_thread.exec_context.gen_registers { rax = 5 };
  isr_number = 32;
  error_code = 0;
  interrupt_frame = record { rip = 100; cs = 8; rflags = 514; rsp = 200; ss = 16 };
}

premptive_scheduler_saves_example :
    (out : List Thread × ℕ × Method) × (premptive_scheduler tick three 0 ≡ some out)
    × ((thread_at out.0 0).exec_context ≡ record {
      rsp = tick.interrupt_frame.rsp;
      rip = tick.interrupt_frame.rip;
      gen_registers = tick.gen_registers;
      rflags = tick.interrupt_frame.rflags;
    })
    × ((thread_at out.0 0).state ≡ TaskState.running)
    × IsPicked out.0 0 out.1
    × ((i : ℕ) → ◌≢◌ {A = ℕ} 0 i → thread_at out.0 i ≡ thread_at three i)
premptive_scheduler_saves_example =
    premptive_scheduler_saves tick three 0 three-UniqueIds (omega arith) (λ e. cc) (λ e. cc)
