-- ===== src/Scheduler/Steps.antt =====
-- The scheduler as a transition system: whatever happens in whatever order, its state stays valid.
use loong_os.Prelude.{ℕ, ◌≡◌, sym, subst, true, false, ok, Outcome, arith, inl, inr}
use loong_os.Scheduler.{
  Kernel, TaskStatus, is_blocked, thread_unblock, thread_yield, thread_block, intr_timer_handler,
}
use loong_os.Scheduler.Invariant.{IsValid}
use loong_os.Scheduler.Turns.{
  thread_block_lem, thread_yield_lem, thread_unblock_lem, intr_timer_handler_lem,
}

-- One call of a routine of the scheduler, by the thread that runs or by an interrupt.
pub data Step (k k' : Kernel) : Type 0 where
  block : (s : TaskStatus) → thread_block s k ≡ ok k' → Step k k'
  yield_cpu : thread_yield k ≡ ok k' → Step k k'
  unblock : (t : ℕ) → thread_unblock t k ≡ ok k' → Step k k'
  tick :
      k.stack_magic k.cur ≡ 0x12345678
      → k.intr_on ≡ false
      → intr_timer_handler k ≡ ok k'
      → Step k k'
  set_intr : k' ≡ record k { intr_on = k'.intr_on } → Step k k'

pub data Reach (k : Kernel) : Kernel → Type 0 where
  here : Reach k k
  next : {a b : Kernel} → Reach k a → Step a b → Reach k b

same_result :
    {r : Outcome Kernel} {k' : Kernel} (a : Kernel) → r ≡ ok a → IsValid a → r ≡ ok k' → IsValid k'
same_result a p v q = subst IsValid (ok_eq p q) v
  where
    ok_eq : {r : Outcome Kernel} {a b : Kernel} → r ≡ ok a → r ≡ ok b → a ≡ b
    ok_eq p q = cc

-- The routines' own assertions are the conditions of the lemmas.
pub block_guard : (k k' : Kernel) (s : TaskStatus) → thread_block s k ≡ ok k' → is_blocked s ≡ true
unfolding thread_block
block_guard k k' s e = ground arith

pub unblock_guard :
    (k k' : Kernel) (t : ℕ) → thread_unblock t k ≡ ok k' → is_blocked (k.status t) ≡ true
unfolding thread_unblock
unblock_guard k k' t e = ground arith

pub Step-IsValid : {k k' : Kernel} → Step k k' → IsValid k → IsValid k'
Step-IsValid {k} {k'} (block s e) v =
    let r = thread_block_lem k s v (block_guard k k' s e) in same_result r.after r.returns r.valid e
Step-IsValid {k} {k'} (yield_cpu e) v =
    let r = thread_yield_lem k v in same_result r.after r.returns r.valid e
Step-IsValid {k} {k'} (unblock t e) v =
    let r = thread_unblock_lem k t v (unblock_guard k k' t e) in
    same_result r.after r.returns r.valid e
Step-IsValid {k} {k'} (tick magic off e) v = elim (intr_timer_handler_lem k v magic off) [
  | inl (spent, r) ↦ same_result r.after r.returns r.valid e
  | inr (more, a, p, va, c, q) ↦ same_result a p va e
]
Step-IsValid {k} {k'} (set_intr e) v =
    subst IsValid (sym e)
      (record { queue = v.queue; runs = v.runs; distinct = v.distinct; idle = v.idle })

-- From a valid state every sequence of blocking, yielding, waking, timer interrupts and changes of
-- the interrupt flag leads to a valid one: just the current thread is marked as running, just the
-- threads marked as ready stand in the queue, and each stands there once.
pub Reach-IsValid : {k k' : Kernel} → IsValid k → Reach k k' → IsValid k'
Reach-IsValid v here = v
Reach-IsValid v (next r s) = Step-IsValid s (Reach-IsValid v r)
