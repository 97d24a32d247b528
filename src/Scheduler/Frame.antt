-- ===== src/Scheduler/Frame.antt =====
-- What the scheduler's routines leave as it is: a thread that is blocked stays blocked.
use loong_os.Prelude.{
  ℕ, ◌≡◌, refl, subst, ◌∙◌, Bool, true, false, ◌||◌, List, [], ◌∷◌, arith, ok, Outcome, ◌==◌,
  if◌then◌else◌, inl, inr, u32, ◌+◌, ◌-◌,
}
use loong_os.Scheduler.{
  Kernel, TaskStatus, running, ready, is_blocked, is_ready, is_running, set_status, thread_unblock,
  switch_first, choose, thread_yield, thread_block, intr_timer_handler,
}
use loong_os.Scheduler.Invariant.{
  IsValid, Choosing, blocked-Choosing, queued-Choosing, is_blocked_lem,
}
use loong_os.Scheduler.Turns.{
  block_eq, yielding, yield_eq, expired, timer_eq, zero_or_more, thread_unblock_lem,
}

-- `TASK_RUNNING` or `TASK_READY`
abbrev pub is_awake : TaskStatus → Bool
is_awake s = is_running s || is_ready s

-- The idle thread is the same, no thread that is awake is not, and who is blocked and is not the idle thread still is.
pub record Keeps (k k' : Kernel) : Type 0 where
  pub idle : k'.idle_thread ≡ k.idle_thread
  pub stays :
      (t : ℕ)
      → (t == k.idle_thread) ≡ false
      → is_blocked (k.status t) ≡ true
      → is_blocked (k'.status t) ≡ true
  pub wakes : (t : ℕ) → is_awake (k.status t) ≡ true → is_awake (k'.status t) ≡ true

-- A routine returns a state that keeps this.
pub record Kept (k : Kernel) (r : Outcome Kernel) : Type 0 where
  pub after : Kernel
  pub returns : r ≡ ok after
  pub keeps : Keeps k after

choose-Kept : (k : Kernel) (q : List ℕ) → Choosing k → k.ready_list ≡ q → Kept k (choose k)
unfolding choose thread_unblock switch_first
choose-Kept k [] c e =
    let not_ready : is_ready (k.status k.idle_thread) ≡ false =
      ground (arith, c.queue k.idle_thread) in
    record {
      after =
          set_status k.idle_thread running
            (record (set_status k.idle_thread ready k) { ready_list = []; cur = k.idle_thread });
      returns = ground (arith, c.idle, is_blocked_lem (k.status k.idle_thread));
      keeps = record {
        idle = refl;
        stays = λ t n b. ground (arith, n, b);
        wakes = λ t a. ground (arith, a);
      };
    }
choose-Kept k (x ∷ q) c e = record {
  after = set_status x running (record k { ready_list = q; cur = x });
  returns = ground arith;
  keeps = record {
    idle = refl;
    stays = λ t n b. ground (arith, b, c.queue t, e);
    wakes = λ t a. ground (arith, a);
  };
}

-- The state in which a thread that blocks leaves the choice to `choose`.
abbrev pub blocking : TaskStatus → Kernel → Kernel
blocking s k = set_status k.cur s (record k { intr_on = false })

pub thread_block-Kept :
    (k : Kernel) (s : TaskStatus)
    → IsValid k
    → is_blocked s ≡ true
    → Kept (blocking s k) (thread_block s k)
thread_block-Kept k s v b =
    let r = choose-Kept (blocking s k) k.ready_list (blocked-Choosing k s v b) refl in
    record { after = r.after; returns = block_eq k s b ∙ r.returns; keeps = r.keeps }

pub thread_yield-Kept : (k : Kernel) → IsValid k → Kept k (thread_yield k)
thread_yield-Kept k v =
    let r =
      choose-Kept (yielding k) _ (queued-Choosing k (yielding k) v refl (λ t. refl) refl) refl in
    record {
      after = r.after;
      returns = yield_eq k v ∙ r.returns;
      keeps = record {
        idle = r.keeps.idle;
        stays = λ t n h. r.keeps.stays t n (ground (arith, v.runs k.cur, h));
        wakes = λ t a. r.keeps.wakes t (ground (arith, a));
      };
    }

pub intr_timer_handler-Kept :
    (k : Kernel)
    → IsValid k
    → k.stack_magic k.cur ≡ 0x12345678
    → k.intr_on ≡ false
    → Kept k (intr_timer_handler k)
unfolding intr_timer_handler
intr_timer_handler-Kept k v magic off = elim (zero_or_more (k.thread_ticks k.cur)) [
  | inl spent ↦
      let r =
        choose-Kept (expired k) _ (queued-Choosing k (expired k) v refl (λ t. refl) refl) refl in
      record {
        after = r.after;
        returns = timer_eq k v magic off spent ∙ r.returns;
        keeps = record {
          idle = r.keeps.idle;
          stays = λ t n h. r.keeps.stays t n (ground (arith, v.runs k.cur, h));
          wakes = λ t a. r.keeps.wakes t (ground (arith, a));
        };
      }
  | inr more ↦ record {
    after = record k {
      elapsed_ticks = λ u. if u == k.cur then u32 (k.elapsed_ticks u + 1) else k.elapsed_ticks u;
      ticks = u32 (k.ticks + 1);
      thread_ticks = λ u. if u == k.cur then k.thread_ticks u - 1 else k.thread_ticks u;
    };
    returns = ground arith;
    keeps = record { idle = refl; stays = λ t n h. h; wakes = λ t a. a };
  }
]

-- The state once `t` is woken.
abbrev pub woken : ℕ → Kernel → Kernel
woken t k = set_status t ready (record k { ready_list = t ∷ k.ready_list })

pub thread_unblock-woken :
    (t : ℕ) (k : Kernel)
    → IsValid k
    → is_blocked (k.status t) ≡ true
    → thread_unblock t k ≡ ok (woken t k)
unfolding thread_unblock
thread_unblock-woken t k v b = ground (arith, v.queue t)

pub woken-IsValid :
    (t : ℕ) (k : Kernel) → IsValid k → is_blocked (k.status t) ≡ true → IsValid (woken t k)
woken-IsValid t k v b =
    let r = thread_unblock_lem k t v b in
    let same : r.after ≡ woken t k =
      (let e = thread_unblock-woken t k v b in let e' = r.returns in cc) in
    subst IsValid same r.valid

same_ok : {r : Outcome Kernel} {a b : Kernel} → r ≡ ok a → r ≡ ok b → a ≡ b
same_ok p q = cc

pub Kept-Keeps : {k k' : Kernel} {r : Outcome Kernel} → Kept k r → r ≡ ok k' → Keeps k k'
Kept-Keeps {k} f e = subst (Keeps k) (same_ok f.returns e) f.keeps

-- What `thread_block` leaves as it is, for the other threads; the thread that blocks is blocked.
pub record Blocks (k k' : Kernel) : Type 0 where
  pub idle : k'.idle_thread ≡ k.idle_thread
  pub stays :
      (t : ℕ)
      → (t == k.idle_thread) ≡ false
      → is_blocked (k.status t) ≡ true
      → is_blocked (k'.status t) ≡ true
  pub wakes :
      (t : ℕ) → (t == k.cur) ≡ false → is_awake (k.status t) ≡ true → is_awake (k'.status t) ≡ true
  pub sleeps : (k.cur == k.idle_thread) ≡ false → is_blocked (k'.status k.cur) ≡ true

pub thread_block-Blocks :
    (k k' : Kernel) (s : TaskStatus)
    → IsValid k
    → is_blocked s ≡ true
    → thread_block s k ≡ ok k'
    → Blocks k k'
thread_block-Blocks k k' s v b e =
    let r = Kept-Keeps (thread_block-Kept k s v b) e in
    record {
      idle = r.idle;
      stays = λ t n h. r.stays t n (ground (arith, b, h));
      wakes = λ t n a. r.wakes t (ground (arith, n, a));
      sleeps = λ n. r.stays k.cur n (ground (arith, b));
    }
