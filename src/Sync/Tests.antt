-- ===== src/Sync/Tests.antt =====
-- Two threads and a lock: the second waits for the first, and is woken.
use loong_os.Prelude.{
  ℕ, ◌≡◌, refl, true, not, ◌||◌, ◌⊎◌, [], ◌∷◌, Outcome, ok, arith, ◌==◌, if◌then◌else◌,
}
use loong_os.Scheduler.{
  Kernel, running, ready, blocked, thread_block, thread_yield, thread_unblock, schedule, choose,
  switch_first,
}
use loong_os.Scheduler.Steps
use loong_os.Sync.{
  outside, System, sema_init, lock_init, lock_acquire, lock_release, advance, down_lock, up_lock,
  sema_down, sema_up, wake_first,
}
use loong_os.Sync.Invariant.{SomeAwake}
use loong_os.Sync.Safety.{
  Reach, here, next, acquire, release, go_on, scheduled, IsStart, is_ok, is_owner, mutual_exclusion,
  no_assertion_fails, no_lost_waking,
}

-- Thread 1 runs, thread 2 is ready, and the idle thread, 9, is blocked.
abbrev two_threads : Kernel
two_threads = record {
  cur = 1;
  status = λ t. if t == 1 then running else if t == 2 then ready else blocked;
  ready_list = 2 ∷ [];
  idle_thread = 9;
  priority = λ t. 31;
  thread_ticks = λ t. 31;
  elapsed_ticks = λ t. 0;
  ticks = 0;
  stack_magic = λ t. 0x12345678;
  intr_on = true;
}

abbrev start : System
start = record { kernel = two_threads; lock = lock_init; phase = λ t. outside }

start-IsStart : IsStart start
start-IsStart = record {
  kernel = record {
    queue = λ t. ground arith;
    runs = λ t. ground arith;
    distinct = (refl, tt);
    idle = refl;
  };
  lock = refl;
  phase = λ t. refl;
}

abbrev result : Outcome System → System
result (ok s) = s
result _ = start

abbrev kernel_of : Outcome Kernel → Kernel
kernel_of (ok k) = k
kernel_of _ = two_threads

-- Thread 1 takes the lock.
got_it : System
unfolding lock_acquire lock_init sema_init advance down_lock sema_down
got_it = result (advance (lock_acquire start))

owning : System
unfolding got_it
owning = result (advance (result (advance got_it)))

-- It yields, and thread 2 comes for the lock and waits.
second : System
unfolding owning thread_yield schedule choose switch_first
second = record owning { kernel = kernel_of (thread_yield owning.kernel) }

waiting : System
unfolding second thread_block
waiting = result (advance (lock_acquire second))

-- Thread 1 gives the lock back.
leaving : System
unfolding waiting lock_release
leaving = result (advance (result (lock_release waiting)))

free_again : System
unfolding leaving up_lock sema_up wake_first thread_unblock
free_again = result (advance leaving)

start-waiting : Reach start waiting
unfolding waiting
start-waiting =
    let s₁ = next {b = lock_acquire start} here (acquire refl refl (omega arith) refl) in
    let s₂ = next {b = got_it} s₁ (go_on refl) in
    let s₃ = next {b = result (advance got_it)} s₂ (go_on refl) in
    let s₄ = next {b = owning} s₃ (go_on refl) in
    let s₅ =
      next {b = second} s₄
        (scheduled (kernel_of (thread_yield owning.kernel)) (Steps.yield_cpu refl) tt refl) in
    let s₆ = next {b = lock_acquire second} s₅ (acquire refl refl (omega arith) refl) in
    next {b = waiting} s₆ (go_on refl)

start-free_again : Reach start free_again
unfolding free_again
start-free_again =
    let s₁ = next {b = result (lock_release waiting)} start-waiting (release refl refl) in
    let s₂ = next {b = leaving} s₁ (go_on refl) in next {b = free_again} s₂ (go_on refl)

mutual_exclusion_example : ◌≡◌ {A = ℕ} 1 1
unfolding waiting
mutual_exclusion_example = mutual_exclusion start-IsStart start-waiting 1 1 refl refl

no_assertion_fails_example :
    (is_ok (advance waiting) ≡ true)
    × ((not (is_owner (waiting.phase waiting.kernel.cur)) || is_ok (lock_release waiting)) ≡ true)
no_assertion_fails_example = no_assertion_fails start-IsStart start-waiting

no_lost_waking_example :
    (free_again.lock.semaphore.waiters ≡ [])
    ⊎ SomeAwake free_again.lock.semaphore.waiters free_again.phase free_again.kernel
unfolding free_again
no_lost_waking_example = no_lost_waking start-IsStart start-free_again refl
