-- ===== src/Scheduler/Turns.antt =====
-- The scheduler's routines: none panics in a valid state, and each lets the right thread run.
use loong_os.Prelude.{
  ◌⊎◌, inl, inr, ◌<◌, ℕ, zero, suc, ◌+◌, ◌-◌, ◌≡◌, refl, ap₂, sym, ◌∙◌, subst, true, false, some,
  List, [], ◌∷◌, ◌++◌, arith, ok, ◌==◌, if◌then◌else◌, Outcome, ◌>>=◌, get_elem?, u32,
}
use loong_os.Scheduler.{
  Kernel, TaskStatus, ready, is_blocked, set_status, thread_unblock, requeue, choose, schedule,
  thread_yield, thread_block, intr_timer_handler,
}
use loong_os.Scheduler.Invariant.{
  IsValid, Runs, front, rest, choose-Runs, blocked-Choosing, queued-Choosing, not_queued,
}

pub block_eq :
    (k : Kernel) (s : TaskStatus)
    → is_blocked s ≡ true
    → thread_block s k ≡ choose (set_status k.cur s (record k { intr_on = false }))
unfolding thread_block schedule
block_eq k s b = rw b (stopped s b)
  where
    stopped :
        (s : TaskStatus)
        → is_blocked s ≡ true
        → schedule (set_status k.cur s (record k { intr_on = false }))
          ≡ choose (set_status k.cur s (record k { intr_on = false }))
    stopped s b = ground arith

-- A thread that blocks hands the processor to the first thread of the queue, or to the idle thread
-- if none queues; no assertion fails, and the state stays valid.
pub thread_block_lem :
    (k : Kernel) (s : TaskStatus)
    → IsValid k
    → is_blocked s ≡ true
    → Runs (thread_block s k) (front k.idle_thread k.ready_list) (rest k.ready_list)
thread_block_lem k s v b =
    let k' = set_status k.cur s (record k { intr_on = false }) in
    rw (block_eq k s b) (choose-Runs k' k.ready_list (blocked-Choosing k s v b) refl)

-- The state in which a thread that yields leaves the choice to `choose`.
abbrev pub yielding : Kernel → Kernel
yielding k =
    set_status k.cur ready (record k { intr_on = false; ready_list = k.ready_list ++ (k.cur ∷ []) })

pub yield_eq : (k : Kernel) → IsValid k → thread_yield k ≡ choose (yielding k)
unfolding thread_yield schedule
yield_eq k v = ground (arith, not_queued k v)

-- A thread that yields queues behind all others, and the first thread of that queue runs; no
-- assertion fails, and the state stays valid.
pub thread_yield_lem :
    (k : Kernel)
    → IsValid k
    → let q = k.ready_list ++ (k.cur ∷ []) in Runs (thread_yield k) (front k.idle_thread q) (rest q)
thread_yield_lem k v =
    let q = k.ready_list ++ (k.cur ∷ []) in
    rw (yield_eq k v)
      (choose-Runs (yielding k) q (queued-Choosing k (yielding k) v refl (λ t. refl) refl) refl)

-- The state in which the timer takes the processor from a thread.
abbrev pub expired : Kernel → Kernel
expired k = set_status k.cur ready (record k {
  ready_list = k.ready_list ++ (k.cur ∷ []);
  thread_ticks = λ u. if u == k.cur then k.priority u else k.thread_ticks u;
  elapsed_ticks = λ u. if u == k.cur then u32 (k.elapsed_ticks u + 1) else k.elapsed_ticks u;
  ticks = u32 (k.ticks + 1);
})

pub timer_eq :
    (k : Kernel)
    → IsValid k
    → k.stack_magic k.cur ≡ 0x12345678
    → k.intr_on ≡ false
    → k.thread_ticks k.cur ≡ 0
    → intr_timer_handler k ≡ choose (expired k)
unfolding intr_timer_handler schedule requeue
timer_eq k v magic off spent = ground (arith, not_queued k v, v.runs k.cur)

goes_on :
    (k : Kernel)
    → IsValid k
    → k.stack_magic k.cur ≡ 0x12345678
    → 0 < k.thread_ticks k.cur
    → (k' : Kernel) × (intr_timer_handler k ≡ ok k')
      × IsValid k'
      × (k'.cur ≡ k.cur)
      × (k'.thread_ticks k.cur + 1 ≡ k.thread_ticks k.cur)
unfolding intr_timer_handler
goes_on k v magic more = (
  record k {
    elapsed_ticks = λ u. if u == k.cur then u32 (k.elapsed_ticks u + 1) else k.elapsed_ticks u;
    ticks = u32 (k.ticks + 1);
    thread_ticks = λ u. if u == k.cur then k.thread_ticks u - 1 else k.thread_ticks u;
  },
  ground arith,
  record { queue = v.queue; runs = v.runs; distinct = v.distinct; idle = v.idle },
  refl,
  ground arith,
)

expires :
    (k : Kernel)
    → IsValid k
    → k.stack_magic k.cur ≡ 0x12345678
    → k.intr_on ≡ false
    → k.thread_ticks k.cur ≡ 0
    → let q = k.ready_list ++ (k.cur ∷ []) in
      Runs (intr_timer_handler k) (front k.idle_thread q) (rest q)
expires k v magic off spent = rw (timer_eq k v magic off spent) (
    choose-Runs (expired k) (k.ready_list ++ (k.cur ∷ []))
      (queued-Choosing k (expired k) v refl (λ t. refl) refl) refl)

pub zero_or_more : (n : ℕ) → (n ≡ 0) ⊎ (0 < n)
zero_or_more zero = inl refl
zero_or_more (suc n) = inr (omega arith)

-- A timer interrupt at which the current thread has no time left puts the thread at the end
-- of the queue and runs the first thread of that queue; at any other, the thread goes on with one
-- tick less. If the magic number of the thread's stack is intact and interrupts are off, no
-- assertion fails, and the state stays valid.
pub intr_timer_handler_lem :
    (k : Kernel)
    → IsValid k
    → k.stack_magic k.cur ≡ 0x12345678
    → k.intr_on ≡ false
    → let q = k.ready_list ++ (k.cur ∷ []) in
      ((k.thread_ticks k.cur ≡ 0) × Runs (intr_timer_handler k) (front k.idle_thread q) (rest q))
      ⊎ ((0 < k.thread_ticks k.cur)
          × (k' : Kernel) × (intr_timer_handler k ≡ ok k')
          × IsValid k'
          × (k'.cur ≡ k.cur)
          × (k'.thread_ticks k.cur + 1 ≡ k.thread_ticks k.cur))
intr_timer_handler_lem k v magic off = elim (zero_or_more (k.thread_ticks k.cur)) [
  | inl spent ↦ inl (spent, expires k v magic off spent)
  | inr more ↦ let (k', e, kv, c, t) = goes_on k v magic more in inr (more, k', e, kv, c, t)
]

-- A thread that is woken goes to the front of the queue, and the current thread goes on; no
-- assertion fails, and the state stays valid.
pub thread_unblock_lem :
    (k : Kernel) (t : ℕ)
    → IsValid k
    → is_blocked (k.status t) ≡ true
    → Runs (thread_unblock t k) k.cur (t ∷ k.ready_list)
unfolding thread_unblock
thread_unblock_lem k t v b = record {
  after = set_status t ready (record k { ready_list = t ∷ k.ready_list });
  returns = ground (arith, v.queue t);
  valid = record {
    queue = λ u. ground (arith, v.queue u);
    runs = λ u. ground (arith, v.runs u, v.runs t);
    distinct = (ground (arith, v.queue t), v.distinct);
    idle = ground (arith, v.idle);
  };
  cur = refl;
  ready_list = refl;
}

-- `n` times, the current thread yields.
pub yields : ℕ → Kernel → Outcome Kernel
yields zero k = ok k
yields (suc n) k = thread_yield k >>= yields n

front-rest :
    (i : ℕ) (q : List ℕ) (x : ℕ) → front i (q ++ (x ∷ [])) ∷ rest (q ++ (x ∷ [])) ≡ q ++ (x ∷ [])
front-rest i [] x = refl
front-rest i (y ∷ q) x = refl

get_elem?-append : (q r : List ℕ) (i t : ℕ) → get_elem? q i ≡ some t → get_elem? (q ++ r) i ≡ some t
get_elem?-append [] r i t e = ground arith
get_elem?-append (x ∷ q) r zero t e = e
get_elem?-append (x ∷ q) r (suc i) t e = get_elem?-append q r i t e

-- When the threads take turns by yielding, the thread with `i` others before it, the current one
-- counted, runs after `i` turns.
pub yields-turn :
    (i : ℕ) (k : Kernel) (t : ℕ)
    → IsValid k
    → get_elem? (k.cur ∷ k.ready_list) i ≡ some t
    → (k' : Kernel) × (yields i k ≡ ok k') × IsValid k' × (k'.cur ≡ t)
unfolding yields
yields-turn zero k t v e = (k, refl, v, ground arith)
yields-turn (suc i) k t v e =
    let q = k.ready_list ++ (k.cur ∷ []) in
    let r = thread_yield_lem k v in
    let order : r.after.cur ∷ r.after.ready_list ≡ q =
      ap₂ ◌∷◌ r.cur r.ready_list ∙ front-rest k.idle_thread k.ready_list k.cur in
    let place : get_elem? (r.after.cur ∷ r.after.ready_list) i ≡ some t =
      subst (λ l. get_elem? l i ≡ some t) (sym order)
        (get_elem?-append k.ready_list (k.cur ∷ []) i t e) in
    let (k', run, v', c) = yields-turn i r.after t r.valid place in (k', rw (r.returns) run, v', c)
