-- ===== src/IoQueue.antt =====
-- device/ioqueue.c and ioqueue.h: the ring of characters between a producer and a consumer.
-- A waiting thread is the address of its PCB, `none` for NULL. `store_char` and `take_char` are what
-- `ioq_putchar` and `ioq_getchar` do once their loops have found room or a character; the kernel's
-- scheduling state goes along, since they wake the thread that waits.
pub mod Refine
mod Tests
use loong_os.Prelude.{
  ℕ, ◌+◌, ◌%◌, Bool, true, false, not, Option, none, some, List, Outcome, ok, panic, ◌>>=◌, ◌>>◌,
  assert, ◌==◌, set, get_or, replicate,
}
use loong_os.Scheduler.{Kernel, thread_unblock}

abbrev pub bufsize : ℕ
bufsize = 64

pub record IoQueue : Type 0 where
  pub producer : Option ℕ
  pub consumer : Option ℕ
  pub buf : List ℕ
  pub head : ℕ
  pub tail : ℕ

-- `buf` is not written: it keeps the bytes that it held.
pub ioqueue_init : List ℕ → IoQueue
ioqueue_init bytes = record { producer = none; consumer = none; buf = bytes; head = 0; tail = 0 }

abbrev pub next_pos : ℕ → ℕ
next_pos pos = (pos + 1) % bufsize

pub ioq_full : IoQueue → Kernel → Outcome Bool
ioq_full q k = do assert (not k.intr_on); ok (next_pos q.head == q.tail)

pub ioq_empty : IoQueue → Kernel → Outcome Bool
ioq_empty q k = do assert (not k.intr_on); ok (q.head == q.tail)

-- The kernel once the waiter is woken; the caller sets the waiter to NULL.
pub wakeup : Option ℕ → Kernel → Outcome Kernel
wakeup none k = panic
wakeup (some t) k = thread_unblock t k

-- `if (waiter != NULL) wakeup(&waiter);`
pub wake_if_waiting : Option ℕ → Kernel → Outcome Kernel
wake_if_waiting none k = ok k
wake_if_waiting (some t) k = wakeup (some t) k

pub store_char : ℕ → IoQueue → Kernel → Outcome (IoQueue × Kernel)
store_char target q k = do
  k' ← wake_if_waiting q.consumer k
  ok (record q { buf = set q.buf q.head target; head = next_pos q.head; consumer = none }, k')

pub take_char : IoQueue → Kernel → Outcome (ℕ × IoQueue × Kernel)
take_char q k = do
  k' ← wake_if_waiting q.producer k
  ok (get_or q.buf q.tail 0, record q { tail = next_pos q.tail; producer = none }, k')
