-- ===== src/Sync.antt =====
-- thread/sync.c and sync.h: semaphores and locks.
-- A thread that waits is switched away in the middle of `sema_down`, and between two instructions of
-- the lock's routines an interrupt may switch to another thread. So the routines are split where a
-- switch can happen, and `Phase` says where each thread is in them. What runs with interrupts off,
-- a round of the loop of `sema_down` and the whole of `sema_up`, is one function.
pub mod Ownership
pub mod Invariant
pub mod Owner
pub mod Waiting
pub mod Safety
mod Tests
use loong_os.Prelude.{
  ℕ, zero, suc, ◌+◌, ◌-◌, ◌^◌, Bool, true, false, not, Option, none, some, List, [], ◌∷◌, ◌++◌,
  Outcome, ok, panic, ◌>>=◌, ◌>>◌, assert, ltb, ◌==◌, if◌then◌else◌, u8, u32,
}
use loong_os.KernelList.Chain.{has}
use loong_os.Scheduler.{Kernel, blocked, thread_block, thread_unblock}

-- `struct semaphore`; `waiters` is the sequence of threads that the list holds.
pub record Semaphore : Type 0 where
  pub value : ℕ
  pub waiters : List ℕ

-- `struct lock`
pub record Lock : Type 0 where
  pub holder : Option ℕ
  pub semaphore : Semaphore
  pub holder_repeat_nr : ℕ

unfoldable pub sema_init : ℕ → Semaphore
sema_init value = record { value = u8 value; waiters = [] }

unfoldable pub lock_init : Lock
unfolding sema_init
lock_init = record { holder = none; semaphore = sema_init 1; holder_repeat_nr = 0 }

-- A round of the loop of `sema_down`, and what follows the loop: `true` if the thread is through,
-- `false` if it waits and another thread runs. `old_status` is what the interrupt flag was.
unfoldable pub sema_down : Bool → Semaphore → Kernel → Outcome (Bool × Semaphore × Kernel)
sema_down old_status psema k =
    let wait = (do
      assert (not (has k.cur psema.waiters))
      k' ← thread_block blocked (record k { intr_on = false })
      ok (false, record psema { waiters = psema.waiters ++ (k.cur ∷ []) }, k')) in
    let pass = (do
      let value = u8 (psema.value + 2 ^ 8 - 1)
      assert (value == 0)
      ok (true, record psema { value = value }, record k { intr_on = old_status })) in
    if psema.value == 0 then wait else pass

-- The first thread that waits is made ready.
unfoldable pub wake_first : List ℕ → Kernel → Outcome (List ℕ × Kernel)
wake_first [] k = ok ([], k)
wake_first (t ∷ ts) k = do k' ← thread_unblock t k; ok (ts, k')

unfoldable pub sema_up : Semaphore → Kernel → Outcome (Semaphore × Kernel)
unfolding wake_first
sema_up psema k = do
  let old_status = k.intr_on
  assert (psema.value == 0)
  (waiters, k') ← wake_first psema.waiters (record k { intr_on = false })
  let value = u8 (psema.value + 1)
  assert (value == 1)
  ok (record { value = value; waiters = waiters }, record k' { intr_on = old_status })

abbrev pub holder_is : Option ℕ → ℕ → Bool
holder_is none t = false
holder_is (some u) t = t == u

-- Where a thread is: outside of the lock; before `sema_down`; in its loop; behind it; behind
-- `holder = running_thread()`; with the lock; behind `holder = NULL`; before `sema_up`.
pub data Phase : Type 0 where
  outside entering : Phase
  downing : Bool → Phase
  got named owned unnamed upping : Phase

pub record System : Type 0 where
  pub kernel : Kernel
  pub lock : Lock
  pub phase : ℕ → Phase

abbrev pub enter_phase : ℕ → Phase → (ℕ → Phase) → ℕ → Phase
enter_phase c p phase t = if t == c then p else phase t

-- `lock_acquire` up to the call of `sema_down`; the holder only counts.
unfoldable pub lock_acquire : System → System
lock_acquire s =
    let c = s.kernel.cur in
    if holder_is s.lock.holder c
    then record s { lock = record s.lock { holder_repeat_nr = u32 (s.lock.holder_repeat_nr + 1) } }
    else record s { phase = enter_phase c entering s.phase }

-- `sema_down` in `lock_acquire`.
unfoldable pub down_lock : Bool → System → Outcome System
unfolding sema_down
down_lock old_status s = do
  let c = s.kernel.cur
  (through, psema, k) ← sema_down old_status s.lock.semaphore s.kernel
  ok (record {
    kernel = k;
    lock = record s.lock { semaphore = psema };
    phase = enter_phase c (if through then got else downing old_status) s.phase;
  })

-- `lock_release` up to `holder = NULL`.
unfoldable pub lock_release : System → Outcome System
lock_release s = do
  let c = s.kernel.cur
  let n = s.lock.holder_repeat_nr
  let last = (do
    assert (n == 1)
    ok (record s { lock = record s.lock { holder = none }; phase = enter_phase c unnamed s.phase }))
  assert (holder_is s.lock.holder c)
  if ltb 1 n then ok (record s { lock = record s.lock { holder_repeat_nr = n - 1 } }) else last

-- `sema_up` in `lock_release`.
unfoldable pub up_lock : System → Outcome System
unfolding sema_up
up_lock s = do
  let c = s.kernel.cur
  (psema, k) ← sema_up s.lock.semaphore s.kernel
  ok (record {
    kernel = k;
    lock = record s.lock { semaphore = psema };
    phase = enter_phase c outside s.phase;
  })

-- What the current thread does next in the two routines.
unfoldable pub advance : System → Outcome System
unfolding down_lock up_lock
advance s = elim (s.phase s.kernel.cur) [
  | outside ↦ ok s
  | entering ↦ down_lock s.kernel.intr_on s
  | downing old_status ↦ down_lock old_status s
  | got ↦ ok (record s {
    lock = record s.lock { holder = some s.kernel.cur };
    phase = enter_phase s.kernel.cur named s.phase;
  })
  | named ↦ (do
    assert (s.lock.holder_repeat_nr == 0)
    ok (record s {
      lock = record s.lock { holder_repeat_nr = 1 };
      phase = enter_phase s.kernel.cur owned s.phase;
    }))
  | owned ↦ ok s
  | unnamed ↦ ok (record s {
    lock = record s.lock { holder_repeat_nr = 0 };
    phase = enter_phase s.kernel.cur upping s.phase;
  })
  | upping ↦ up_lock s
]
