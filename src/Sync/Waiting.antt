-- ===== src/Sync/Waiting.antt =====
-- The steps of a thread in `sema_down` and in `sema_up`.
use loong_os.Prelude.{
  ℕ, ◌+◌, ◌-◌, ◌^◌, ◌≡◌, refl, sym, ◌∙◌, ap, subst, Bool, true, false, List, [], ◌∷◌, ◌++◌, arith,
  ◌==◌, Bool-cases, inl, inr, ==_iff, u8,
}
use loong_os.KernelList.Chain.{has, Distinct, has-append}
use loong_os.Scheduler.{Kernel, blocked, is_blocked}
use loong_os.Scheduler.Invariant
use loong_os.Scheduler.Invariant.{Distinct-snoc}
use loong_os.Scheduler.Frame.{
  thread_block-Kept, thread_block-Blocks, woken, thread_unblock-woken, woken-IsValid,
}
use loong_os.Scheduler.Steps
use loong_os.Scheduler.Steps.{Step-IsValid}
use loong_os.Sync.{
  Phase, outside, entering, downing, got, upping, enter_phase, System, sema_down, sema_up,
  wake_first, down_lock, up_lock,
}
use loong_os.Sync.Ownership.{Owned, is_inside, entered, waits-Owned, gets-Owned, leaves-Owned}
use loong_os.Sync.Invariant.{IsValid, is_down, waiter-not_idle}
use loong_os.Sync.Owner.{Goes, still_down}

abbrev pub is_coming : Phase → Bool
is_coming entering = true
is_coming (downing _) = true
is_coming _ = false

coming-not_idle :
    (s : System) (t : ℕ)
    → IsValid s
    → is_coming (s.phase t) ≡ true
    → (t == s.kernel.idle_thread) ≡ false
coming-not_idle s t v d = elim (Bool-cases (t == s.kernel.idle_thread)) [
  | inl e ↦
      let same : t ≡ s.kernel.idle_thread = (==_iff t s.kernel.idle_thread).0 e in
      let out = ap s.phase same ∙ v.idle in absurd (ground (arith, d, out))
  | inr e ↦ e
]

coming-not_inside : (p : Phase) → is_coming p ≡ true → is_inside p ≡ false
coming-not_inside p h = ground (arith, h)

intr-IsValid :
    (k : Kernel) (on : Bool) → Invariant.IsValid k → Invariant.IsValid (record k { intr_on = on })
intr-IsValid k on v = Step-IsValid (Steps.set_intr refl) v

-- The thread that runs does not wait.
runner-not_waiting : (s : System) → IsValid s → has s.kernel.cur s.lock.semaphore.waiters ≡ false
runner-not_waiting s v = elim (Bool-cases (has s.kernel.cur s.lock.semaphore.waiters)) [
  | inl h ↦ absurd (ground (arith, v.asleep s.kernel.cur h, v.kernel.runs s.kernel.cur))
  | inr h ↦ h
]

down_lock-waits :
    (s : System) (old : Bool)
    → IsValid s
    → is_coming (s.phase s.kernel.cur) ≡ true
    → s.lock.semaphore.value ≡ 0
    → Goes (down_lock old s)
unfolding down_lock sema_down
down_lock-waits s old v coming zero_value =
    let c = s.kernel.cur in
    let ws = s.lock.semaphore.waiters in
    let k₀ : Kernel = record s.kernel { intr_on = false } in
    let kv₀ = intr-IsValid s.kernel false v.kernel in
    let r = thread_block-Kept k₀ blocked kv₀ refl in
    let keeps = thread_block-Blocks k₀ r.after blocked kv₀ refl r.returns in
    let is_zero : (s.lock.semaphore.value == 0) ≡ true = ground (arith, zero_value) in
    let alone = runner-not_waiting s v in
    let n = coming-not_idle s c v coming in
    record {
      after = record {
        kernel = r.after;
        lock = record s.lock { semaphore = record s.lock.semaphore { waiters = ws ++ (c ∷ []) } };
        phase = enter_phase c (downing old) s.phase;
      };
      returns = rw (is_zero, alone, r.returns) refl;
      valid = record {
        kernel = Step-IsValid (Steps.block blocked r.returns) kv₀;
        owner =
            waits-Owned s.lock.semaphore.value s.lock.holder s.lock.holder_repeat_nr s.phase c
              (downing old) v.owner (coming-not_inside _ coming) refl;
        asleep = λ t h. elim (Bool-cases (t == c)) [
          | inl e ↦
              subst (λ u. is_blocked (r.after.status u) ≡ true) (sym ((==_iff t c).0 e))
                (keeps.sleeps n)
          | inr e ↦
              let waits : has t ws ≡ true = ground (arith, has-append t ws (c ∷ []), h, e) in
              keeps.stays t (waiter-not_idle s t v (v.down t waits)) (v.asleep t waits)
        ];
        down = λ t h.
            entered (λ p. is_down p ≡ true) c t (downing old) s.phase (λ e. refl)
              (λ e. v.down t (ground (arith, has-append t ws (c ∷ []), h, e)));
        distinct = Distinct-snoc ws c v.distinct alone;
        idle = ap (enter_phase c (downing old) s.phase) keeps.idle ∙ ground (arith, n, v.idle);
        awake = λ e. absurd (omega (arith, e, zero_value));
      };
    }

down_lock-passes :
    (s : System) (old : Bool)
    → IsValid s
    → is_coming (s.phase s.kernel.cur) ≡ true
    → s.lock.semaphore.value ≡ 1
    → Goes (down_lock old s)
unfolding down_lock sema_down
down_lock-passes s old v coming one_value =
    let c = s.kernel.cur in
    let ws = s.lock.semaphore.waiters in
    let not_zero : (s.lock.semaphore.value == 0) ≡ false = ground (arith, one_value) in
    let less : u8 (s.lock.semaphore.value + 2 ^ 8 - 1) ≡ 0 = omega (arith, one_value) in
    let n = coming-not_idle s c v coming in
    record {
      after = record {
        kernel = record s.kernel { intr_on = old };
        lock = record s.lock { semaphore = record s.lock.semaphore { value = 0 } };
        phase = enter_phase c got s.phase;
      };
      returns = rw (not_zero, less) refl;
      valid = record {
        kernel = intr-IsValid s.kernel old v.kernel;
        owner =
            gets-Owned s.lock.holder s.lock.holder_repeat_nr s.phase c (
              subst (λ x. Owned x s.lock.holder s.lock.holder_repeat_nr s.phase) one_value v.owner);
        asleep = v.asleep;
        down = λ t h.
            entered (λ p. is_down p ≡ true) c t got s.phase
              (λ e. absurd (ground (arith, e, h, runner-not_waiting s v))) (λ e. v.down t h);
        distinct = v.distinct;
        idle = ground (arith, n, v.idle);
        awake = λ e. absurd (omega (arith, e));
      };
    }

pub down_lock-Goes :
    (s : System) (old : Bool)
    → IsValid s
    → is_coming (s.phase s.kernel.cur) ≡ true
    → Goes (down_lock old s)
down_lock-Goes s old v coming = elim (Bool-cases (s.lock.semaphore.value == 0)) [
  | inl e ↦ down_lock-waits s old v coming (ground (arith, e))
  | inr e ↦ down_lock-passes s old v coming (ground (arith, e, v.owner.small))
]

module _ (s : System) (v : IsValid s) (leaving : s.phase s.kernel.cur ≡ upping) where
  abbrev c : ℕ
  c = s.kernel.cur

  inside : is_inside (s.phase c) ≡ true
  inside = rw leaving refl

  zero_value : s.lock.semaphore.value ≡ 0
  zero_value = v.owner.closed c inside

  is_zero : (s.lock.semaphore.value == 0) ≡ true
  is_zero = ground (arith, zero_value)

  up : u8 (s.lock.semaphore.value + 1) ≡ 1
  up = omega (arith, zero_value)

  owner_left : Owned 1 s.lock.holder s.lock.holder_repeat_nr (enter_phase c outside s.phase)
  owner_left =
      leaves-Owned s.lock.holder s.lock.holder_repeat_nr s.phase c leaving
        (subst (λ x. Owned x s.lock.holder s.lock.holder_repeat_nr s.phase) zero_value v.owner)

  stays_down :
      (t : ℕ) → is_down (s.phase t) ≡ true → is_down (enter_phase c outside s.phase t) ≡ true
  stays_down t d = still_down outside c t s.phase (rw leaving refl) d

  idle_out : enter_phase c outside s.phase s.kernel.idle_thread ≡ outside
  idle_out = ground (arith, v.idle)

  up_lock-alone : s.lock.semaphore.waiters ≡ [] → Goes (up_lock s)
  unfolding up_lock sema_up wake_first
  up_lock-alone e = record {
    after = record s {
      lock = record s.lock { semaphore = record { value = 1; waiters = [] } };
      phase = enter_phase c outside s.phase;
    };
    returns = rw (is_zero, e, up) refl;
    valid = record {
      kernel = v.kernel;
      owner = owner_left;
      asleep = λ t h. absurd (ground (arith, h));
      down = λ t h. absurd (ground (arith, h));
      distinct = tt;
      idle = idle_out;
      awake = λ x. inl refl;
    };
  }

  up_lock-wakes : (w : ℕ) (ts : List ℕ) → s.lock.semaphore.waiters ≡ w ∷ ts → Goes (up_lock s)
  unfolding up_lock sema_up wake_first
  up_lock-wakes w ts e =
      let waits : has w s.lock.semaphore.waiters ≡ true = rw e (ground arith) in
      let distinct : Distinct (w ∷ ts) = subst Distinct e v.distinct in
      let later : (t : ℕ) → has t ts ≡ true → has t s.lock.semaphore.waiters ≡ true =
        λ t h. rw e (ground (arith, h)) in
      let k₀ : Kernel = record s.kernel { intr_on = false } in
      let kv₀ = intr-IsValid s.kernel false v.kernel in
      let sleeps = v.asleep w waits in
      record {
        after = record {
          kernel = record (woken w k₀) { intr_on = s.kernel.intr_on };
          lock = record s.lock { semaphore = record { value = 1; waiters = ts } };
          phase = enter_phase c outside s.phase;
        };
        returns = rw (is_zero, e, thread_unblock-woken w k₀ kv₀ sleeps, up) refl;
        valid = record {
          kernel = intr-IsValid (woken w k₀) s.kernel.intr_on (woken-IsValid w k₀ kv₀ sleeps);
          owner = owner_left;
          asleep = λ t h. ground (arith, v.asleep t (later t h), distinct.0, h);
          down = λ t h. stays_down t (v.down t (later t h));
          distinct = distinct.1;
          idle = idle_out;
          awake = λ x. inr (w, stays_down w (v.down w waits), distinct.0, ground arith);
        };
      }

  up_lock-of : (ws : List ℕ) → s.lock.semaphore.waiters ≡ ws → Goes (up_lock s)
  up_lock-of [] e = up_lock-alone e
  up_lock-of (w ∷ ts) e = up_lock-wakes w ts e

  pub up_lock-Goes : Goes (up_lock s)
  up_lock-Goes = up_lock-of s.lock.semaphore.waiters refl
