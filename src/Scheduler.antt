-- ===== src/Scheduler.antt =====
-- thread/thread.c and thread.h, and the handler of device/timer.c: the states of the threads and
-- the ready queue.
-- A thread is the address of its PCB. The ready queue is the sequence that `thread_ready_list`
-- holds, front first. `switch_to` makes another thread the current one; what a routine does
-- behind it, restoring the flag, is done by the thread that was switched away when it runs again,
-- so a routine ends here with the switch. The page table and the TSS are not part of the state.
pub mod Invariant
pub mod Turns
pub mod Steps
pub mod Frame
mod Tests
use loong_os.Prelude.{
  ℕ, ◌+◌, ◌-◌, Bool, true, false, not, ◌||◌, List, [], ◌∷◌, ◌++◌, Outcome, ok, panic, ◌>>=◌, ◌>>◌,
  assert, ◌==◌, if◌then◌else◌, u32, u8,
}
use loong_os.KernelList.Chain.{has}

-- `enum task_status`
pub data TaskStatus : Type 0 where
  running ready blocked waiting hanging died : TaskStatus

abbrev pub is_running : TaskStatus → Bool
is_running running = true
is_running _ = false

abbrev pub is_ready : TaskStatus → Bool
is_ready ready = true
is_ready _ = false

-- `stat == TASK_BLOCKED || stat == TASK_WAITING || stat == TASK_HANGING`
abbrev pub is_blocked : TaskStatus → Bool
is_blocked blocked = true
is_blocked waiting = true
is_blocked hanging = true
is_blocked _ = false

-- The fields of the PCBs that scheduling uses, the queue, the flag and the timer's counter.
pub record Kernel : Type 0 where
  pub cur : ℕ
  pub status : ℕ → TaskStatus
  pub ready_list : List ℕ
  pub idle_thread : ℕ
  pub priority : ℕ → ℕ
  pub thread_ticks : ℕ → ℕ
  pub elapsed_ticks : ℕ → ℕ
  pub ticks : ℕ
  pub stack_magic : ℕ → ℕ
  pub intr_on : Bool

-- `t->status = s`
abbrev pub set_status : ℕ → TaskStatus → Kernel → Kernel
set_status t s k = record k { status = λ u. if u == t then s else k.status u }

unfoldable pub thread_unblock : ℕ → Kernel → Outcome Kernel
thread_unblock t k = do
  assert (is_blocked (k.status t))
  let push = (do
    assert (not (has t k.ready_list))
    let k' = record k { ready_list = t ∷ k.ready_list }
    ok (set_status t ready k'))
  if not (is_ready (k.status t)) then push else ok k

-- The current thread used up its time: it goes to the end of the queue.
unfoldable pub requeue : Kernel → Outcome Kernel
requeue k = do
  assert (not (has k.cur k.ready_list))
  let k' = record k {
    ready_list = k.ready_list ++ (k.cur ∷ []);
    thread_ticks = λ u. if u == k.cur then k.priority u else k.thread_ticks u;
  }
  ok (set_status k.cur ready k')

abbrev is_empty : List ℕ → Bool
is_empty [] = true
is_empty (x ∷ xs) = false

-- The first thread of the queue becomes the current one.
unfoldable pub switch_first : Kernel → Outcome Kernel
switch_first k = elim k.ready_list [
  | [] ↦ panic
  | next ∷ rest ↦ ok (set_status next running (record k { ready_list = rest; cur = next }))
]

-- The rest of `schedule`: an empty queue gets the idle thread.
unfoldable pub choose : Kernel → Outcome Kernel
unfolding thread_unblock switch_first
choose k = do
  k' ← (if is_empty k.ready_list then thread_unblock k.idle_thread k else ok k)
  switch_first k'

unfoldable pub schedule : Kernel → Outcome Kernel
schedule k = do
  assert (not k.intr_on)
  k₁ ← (if is_running (k.status k.cur) then requeue k else ok k)
  choose k₁

unfoldable pub thread_yield : Kernel → Outcome Kernel
thread_yield k = do
  let k₀ = record k { intr_on = false }
  assert (not (has k.cur k.ready_list))
  let k₁ = record k₀ { ready_list = k.ready_list ++ (k.cur ∷ []) }
  schedule (set_status k.cur ready k₁)

unfoldable pub thread_block : TaskStatus → Kernel → Outcome Kernel
thread_block stat k = do
  assert (is_blocked stat)
  let k₀ = record k { intr_on = false }
  schedule (set_status k.cur stat k₀)

-- The timer's handler; the processor has turned interrupts off when it runs.
pub intr_timer_handler : Kernel → Outcome Kernel
intr_timer_handler k = do
  assert (k.stack_magic k.cur == 0x12345678)
  let k' = record k {
    elapsed_ticks = λ u. if u == k.cur then u32 (k.elapsed_ticks u + 1) else k.elapsed_ticks u;
    ticks = u32 (k.ticks + 1);
  }
  let spend = record k' {
    thread_ticks = λ u. if u == k.cur then k.thread_ticks u - 1 else k.thread_ticks u;
  }
  if k.thread_ticks k.cur == 0 then schedule k' else ok spend
