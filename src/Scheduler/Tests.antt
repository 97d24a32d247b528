-- ===== src/Scheduler/Tests.antt =====
-- The scheduler's theorems with main running, two threads in the queue and the idle thread blocked.
use loong_os.Prelude.{
  ◌⊎◌, ℕ, ◌+◌, ◌<◌, ◌≡◌, refl, false, [], ◌∷◌, arith, ok, panic, ◌==◌, if◌then◌else◌,
}
use loong_os.Scheduler.{
  Kernel, running, ready, blocked, set_status, thread_unblock, intr_timer_handler,
}
use loong_os.Scheduler.Invariant.{IsValid, Runs}
use loong_os.Scheduler.Turns.{intr_timer_handler_lem, yields, yields-turn}
use loong_os.Scheduler.Steps.{unblock, here, next, Reach-IsValid}

abbrev kernel : Kernel
kernel = record {
  cur = 1;
  status =
      λ t. if t == 1 then running else if t == 2 then ready else if t == 3 then ready else blocked;
  ready_list = 2 ∷ 3 ∷ [];
  idle_thread = 9;
  priority = λ t. 31;
  thread_ticks = λ t. 0;
  elapsed_ticks = λ t. 0;
  ticks = 0;
  stack_magic = λ t. 0x12345678;
  intr_on = false;
}

kernel-IsValid : IsValid kernel
kernel-IsValid = record {
  queue = λ t. ground arith;
  runs = λ t. ground arith;
  distinct = (refl, (refl, tt));
  idle = refl;
}

intr_timer_handler_example :
    ((◌≡◌ {A = ℕ} 0 0) × Runs (intr_timer_handler kernel) 2 (3 ∷ 1 ∷ []))
    ⊎ ((0 < 0)
        × (k' : Kernel) × (intr_timer_handler kernel ≡ ok k')
        × IsValid k'
        × (k'.cur ≡ 1)
        × (k'.thread_ticks 1 + 1 ≡ 0))
intr_timer_handler_example = intr_timer_handler_lem kernel kernel-IsValid refl refl

yields-turn_example : (k' : Kernel) × (yields 2 kernel ≡ ok k') × IsValid k' × (k'.cur ≡ 3)
yields-turn_example = yields-turn 2 kernel 3 kernel-IsValid refl

-- A thread that is READY may not be woken.
unblock_ready : thread_unblock 2 kernel ≡ panic
unfolding thread_unblock
unblock_ready = refl

abbrev woken : Kernel
woken = set_status 7 ready (record kernel { ready_list = 7 ∷ 2 ∷ 3 ∷ [] })

wakes : thread_unblock 7 kernel ≡ ok woken
unfolding thread_unblock
wakes = refl

Reach-IsValid_example : IsValid woken
Reach-IsValid_example = Reach-IsValid kernel-IsValid (next here (unblock 7 wakes))
