-- ===== src/Sync/Invariant.antt =====
-- The invariant of the lock among the threads, and what other activity does to it.
use loong_os.Prelude.{
  ℕ, ◌≡◌, refl, sym, ◌∙◌, ap, subst, Bool, true, false, ◌⊎◌, List, [], arith, ◌==◌, Bool-cases, inl,
  inr, ==_iff,
}
use loong_os.KernelList.Chain.{has, Distinct}
use loong_os.Scheduler.{Kernel, is_blocked}
use loong_os.Scheduler.Invariant
use loong_os.Scheduler.Frame.{
  is_awake, Keeps, Kept-Keeps, thread_block-Blocks, thread_yield-Kept, intr_timer_handler-Kept,
  woken, thread_unblock-woken,
}
use loong_os.Scheduler.Steps
use loong_os.Scheduler.Steps.{Step-IsValid, block_guard, unblock_guard}
use loong_os.Sync.{Phase, outside, downing, owned, System}
use loong_os.Sync.Ownership.{Owned}

abbrev pub is_down : Phase → Bool
is_down (downing _) = true
is_down _ = false

-- Some thread is in the loop of `sema_down`, is ready or runs, and does not stand among those that
-- wait.
abbrev pub SomeAwake : List ℕ → (ℕ → Phase) → Kernel → Type 0
SomeAwake waiters phase k =
    (t : ℕ) × (is_down (phase t) ≡ true) × (has t waiters ≡ false) × (is_awake (k.status t) ≡ true)

-- The scheduler's state is valid, the lock has at most one owner, and who waits is blocked in the
-- loop of `sema_down`; when the lock is open and threads wait, one of those in the loop is awake.
-- The idle thread stays outside.
pub record IsValid (s : System) : Type 0 where
  pub kernel : Invariant.IsValid s.kernel
  pub owner : Owned s.lock.semaphore.value s.lock.holder s.lock.holder_repeat_nr s.phase
  pub asleep :
      (t : ℕ) → has t s.lock.semaphore.waiters ≡ true → is_blocked (s.kernel.status t) ≡ true
  pub down : (t : ℕ) → has t s.lock.semaphore.waiters ≡ true → is_down (s.phase t) ≡ true
  pub distinct : Distinct s.lock.semaphore.waiters
  pub idle : s.phase s.kernel.idle_thread ≡ outside
  pub awake :
      s.lock.semaphore.value ≡ 1
      → (s.lock.semaphore.waiters ≡ []) ⊎ SomeAwake s.lock.semaphore.waiters s.phase s.kernel

pub waiter-not_idle :
    (s : System) (t : ℕ)
    → IsValid s
    → is_down (s.phase t) ≡ true
    → (t == s.kernel.idle_thread) ≡ false
waiter-not_idle s t v d = elim (Bool-cases (t == s.kernel.idle_thread)) [
  | inl e ↦
      let same : t ≡ s.kernel.idle_thread = (==_iff t s.kernel.idle_thread).0 e in
      let out = ap s.phase same ∙ v.idle in absurd (ground (arith, d, out))
  | inr e ↦ e
]

-- Other threads' changes of the scheduler's state, as long as who waits stays blocked.
pub kernel-IsValid :
    (s : System) (k' : Kernel)
    → IsValid s
    → Invariant.IsValid k'
    → k'.idle_thread ≡ s.kernel.idle_thread
    → ((t : ℕ) → has t s.lock.semaphore.waiters ≡ true → is_blocked (k'.status t) ≡ true)
    → ((t : ℕ)
        → is_down (s.phase t) ≡ true
        → is_awake (s.kernel.status t) ≡ true
        → is_awake (k'.status t) ≡ true)
    → IsValid (record s { kernel = k' })
kernel-IsValid s k' v kv i asleep wakes = record {
  kernel = kv;
  owner = v.owner;
  asleep = asleep;
  down = v.down;
  distinct = v.distinct;
  idle = ap s.phase i ∙ v.idle;
  awake = λ e. elim (v.awake e) [
    | inl none_waits ↦ inl none_waits
    | inr (t, d, h, a) ↦ inr (t, d, h, wakes t d a)
  ];
}

pub Keeps-IsValid :
    (s : System) (k' : Kernel)
    → IsValid s
    → Invariant.IsValid k'
    → Keeps s.kernel k'
    → IsValid (record s { kernel = k' })
Keeps-IsValid s k' v kv f =
    kernel-IsValid s k' v kv f.idle
      (λ t h. f.stays t (waiter-not_idle s t v (v.down t h)) (v.asleep t h)) (λ t d a. f.wakes t a)

-- A thread that waits is woken only by `sema_up`, and no thread in the lock's routines blocks
-- elsewhere.
abbrev pub may_call : Phase → Bool
may_call outside = true
may_call owned = true
may_call _ = false

abbrev pub Allowed : (s : System) {k' : Kernel} → Steps.Step s.kernel k' → Type 0
Allowed s (Steps.block stat e) = may_call (s.phase s.kernel.cur) ≡ true
Allowed s (Steps.unblock t e) = has t s.lock.semaphore.waiters ≡ false
Allowed s _ = Unit

caller-not_down :
    (s : System) (t : ℕ)
    → may_call (s.phase s.kernel.cur) ≡ true
    → is_down (s.phase t) ≡ true
    → (t == s.kernel.cur) ≡ false
caller-not_down s t a d = elim (Bool-cases (t == s.kernel.cur)) [
  | inl e ↦
      let same = ap s.phase ((==_iff t s.kernel.cur).0 e) in
      let down : is_down (s.phase s.kernel.cur) ≡ true = subst (λ p. is_down p ≡ true) same d in
      absurd (ground (arith, a, down))
  | inr e ↦ e
]

pub scheduled-IsValid :
    (s : System) (k' : Kernel) (step : Steps.Step s.kernel k')
    → IsValid s
    → Allowed s step
    → IsValid (record s { kernel = k' })
scheduled-IsValid s k' (Steps.block stat e) v a =
    let f = thread_block-Blocks s.kernel k' stat v.kernel (block_guard s.kernel k' stat e) e in
    kernel-IsValid s k' v (Step-IsValid (Steps.block stat e) v.kernel) f.idle
      (λ t h. f.stays t (waiter-not_idle s t v (v.down t h)) (v.asleep t h))
      (λ t d w. f.wakes t (caller-not_down s t a d) w)
scheduled-IsValid s k' (Steps.yield_cpu e) v a =
    Keeps-IsValid s k' v (Step-IsValid (Steps.yield_cpu e) v.kernel)
      (Kept-Keeps (thread_yield-Kept s.kernel v.kernel) e)
scheduled-IsValid s k' (Steps.tick magic off e) v a =
    Keeps-IsValid s k' v (Step-IsValid (Steps.tick magic off e) v.kernel)
      (Kept-Keeps (intr_timer_handler-Kept s.kernel v.kernel magic off) e)
scheduled-IsValid s k' (Steps.set_intr e) v a =
    Keeps-IsValid s k' v (Step-IsValid (Steps.set_intr e) v.kernel) (
      subst (Keeps s.kernel) (sym e) (record { idle = refl; stays = λ t n h. h; wakes = λ t a. a }))
scheduled-IsValid s k' (Steps.unblock t e) v a =
    let b = unblock_guard s.kernel k' t e in
    let e' = thread_unblock-woken t s.kernel v.kernel b in
    let same : woken t s.kernel ≡ k' = cc in
    kernel-IsValid s k' v (Step-IsValid (Steps.unblock t e) v.kernel)
      (subst (λ x. x.idle_thread ≡ s.kernel.idle_thread) same refl)
      (λ u h. subst (λ x. is_blocked (x.status u) ≡ true) same (ground (arith, v.asleep u h, a, h)))
      (λ u d w. subst (λ x. is_awake (x.status u) ≡ true) same (ground (arith, w)))
