-- ===== src/Sync/Safety.antt =====
-- The lock among all threads: what holds in every state that can be reached.
use loong_os.Prelude.{
  ℕ, ◌+◌, ◌^◌, ◌<◌, ◌≡◌, refl, sym, ap, subst, Bool, true, false, not, ◌||◌, ◌⊎◌, [], Outcome, ok,
  arith, ◌==◌, inl,
}
use loong_os.Scheduler.{Kernel}
use loong_os.Scheduler.Invariant
use loong_os.Scheduler.Steps
use loong_os.Sync.{
  Phase, outside, entering, downing, got, named, owned, unnamed, upping, System, sema_init,
  lock_init, lock_acquire, lock_release, advance,
}
use loong_os.Sync.Ownership.{is_inside, is_holder, Counts}
use loong_os.Sync.Invariant.{IsValid, may_call, Allowed, scheduled-IsValid, SomeAwake}
use loong_os.Sync.Owner.{
  Goes, lock_acquire-owned, lock_acquire-outside, lock_release-Goes, advance-got, advance-named,
  advance-unnamed,
}
use loong_os.Sync.Waiting.{down_lock-Goes, up_lock-Goes}

-- A step of the current thread in the lock's routines, or of the scheduler. The idle thread does not
-- take the lock, and the count of the owner stays below 2 ^ 32.
pub data Step (s s' : System) : Type 0 where
  acquire :
      may_call (s.phase s.kernel.cur) ≡ true
      → (s.kernel.cur == s.kernel.idle_thread) ≡ false
      → s.lock.holder_repeat_nr + 1 < 2 ^ 32
      → s' ≡ lock_acquire s
      → Step s s'
  release : s.phase s.kernel.cur ≡ owned → lock_release s ≡ ok s' → Step s s'
  go_on : advance s ≡ ok s' → Step s s'
  scheduled :
      (k' : Kernel) (step : Steps.Step s.kernel k')
      → Allowed s step
      → s' ≡ record s { kernel = k' }
      → Step s s'

pub data Reach (s : System) : System → Type 0 where
  here : Reach s s
  next : {a b : System} → Reach s a → Step a b → Reach s b

-- At the start the lock is as `lock_init` makes it, and no thread has called its routines.
pub record IsStart (s : System) : Type 0 where
  pub kernel : Invariant.IsValid s.kernel
  pub lock : s.lock ≡ lock_init
  pub phase : (t : ℕ) → s.phase t ≡ outside

IsStart-IsValid : (s : System) → IsStart s → IsValid s
unfolding lock_init sema_init
IsStart-IsValid s v =
    let none_inside : (t : ℕ) → is_inside (s.phase t) ≡ false = λ t. ap is_inside (v.phase t) in
    subst (λ l. IsValid (record s { lock = l })) (sym v.lock)
      (record {
        kernel = v.kernel;
        owner = record {
          small = omega arith;
          unique = λ t u a b. absurd (ground (arith, a, none_inside t));
          closed = λ t a. absurd (ground (arith, a, none_inside t));
          holders = λ t. sym (ap is_holder (v.phase t));
          counts = λ t. subst (λ p. Counts p 0) (sym (v.phase t)) tt;
          open_count = λ e. refl;
        };
        asleep = λ t h. absurd (ground (arith, h));
        down = λ t h. absurd (ground (arith, h));
        distinct = tt;
        idle = v.phase s.kernel.idle_thread;
        awake = λ e. inl refl;
      })

advance-Goes : (s : System) → IsValid s → Goes (advance s)
unfolding advance
advance-Goes s v = in_phase (s.phase s.kernel.cur) refl
  where
    in_phase : (p : Phase) → s.phase s.kernel.cur ≡ p → Goes (advance s)
    in_phase outside e = record { after = s; returns = rw (e, advance) refl; valid = v }
    in_phase entering e =
        let r = down_lock-Goes s s.kernel.intr_on v (rw e refl) in
        record { after = r.after; returns = rw (e, advance) r.returns; valid = r.valid }
    in_phase (downing old) e =
        let r = down_lock-Goes s old v (rw e refl) in
        record { after = r.after; returns = rw (e, advance) r.returns; valid = r.valid }
    in_phase got e = advance-got s v e
    in_phase named e = advance-named s v e
    in_phase owned e = record { after = s; returns = rw (e, advance) refl; valid = v }
    in_phase unnamed e = advance-unnamed s v e
    in_phase upping e =
        let r = up_lock-Goes s v e in
        record { after = r.after; returns = rw (e, advance) r.returns; valid = r.valid }

lock_acquire-IsValid :
    (s : System)
    → IsValid s
    → may_call (s.phase s.kernel.cur) ≡ true
    → (s.kernel.cur == s.kernel.idle_thread) ≡ false
    → s.lock.holder_repeat_nr + 1 < 2 ^ 32
    → IsValid (lock_acquire s)
lock_acquire-IsValid s v may n few = in_phase (s.phase s.kernel.cur) refl
  where
    in_phase : (p : Phase) → s.phase s.kernel.cur ≡ p → IsValid (lock_acquire s)
    in_phase outside e = lock_acquire-outside s v e n
    in_phase owned e = lock_acquire-owned s v e few
    in_phase entering e = absurd (let h = ap may_call e in cc)
    in_phase (downing old) e = absurd (let h = ap may_call e in cc)
    in_phase got e = absurd (let h = ap may_call e in cc)
    in_phase named e = absurd (let h = ap may_call e in cc)
    in_phase unnamed e = absurd (let h = ap may_call e in cc)
    in_phase upping e = absurd (let h = ap may_call e in cc)

Goes-IsValid : {r : Outcome System} {s' : System} → Goes r → r ≡ ok s' → IsValid s'
Goes-IsValid g e = subst IsValid (same g.returns e) g.valid
  where
    same : {r : Outcome System} {a b : System} → r ≡ ok a → r ≡ ok b → a ≡ b
    same p q = cc

Step-IsValid : {s s' : System} → Step s s' → IsValid s → IsValid s'
Step-IsValid {s} (acquire may n few e) v =
    subst IsValid (sym e) (lock_acquire-IsValid s v may n few)
Step-IsValid {s} (release mine e) v = Goes-IsValid (lock_release-Goes s v mine) e
Step-IsValid {s} (go_on e) v = Goes-IsValid (advance-Goes s v) e
Step-IsValid {s} (scheduled k' step a e) v = subst IsValid (sym e) (scheduled-IsValid s k' step v a)

Reach-IsValid : {s s' : System} → IsStart s → Reach s s' → IsValid s'
Reach-IsValid {s} v here = IsStart-IsValid s v
Reach-IsValid v (next r step) = Step-IsValid step (Reach-IsValid v r)

abbrev pub is_ok {ℓ} : {A : Type ℓ} → Outcome A → Bool
is_ok (ok a) = true
is_ok _ = false

abbrev pub is_owner : Phase → Bool
is_owner owned = true
is_owner _ = false

releases :
    (s : System) (v : IsValid s) (p : Phase)
    → s.phase s.kernel.cur ≡ p
    → (not (is_owner p) || is_ok (lock_release s)) ≡ true
releases s v owned e = ap is_ok (lock_release-Goes s v e).returns
releases s v outside e = refl
releases s v entering e = refl
releases s v (downing old) e = refl
releases s v got e = refl
releases s v named e = refl
releases s v unnamed e = refl
releases s v upping e = refl

-- However the threads are scheduled, and wherever they call `lock_acquire` and, as owners,
-- `lock_release`, with counts below 2 ^ 32: no two threads are at the same time between the end of
-- `sema_down` in `lock_acquire` and the end of `sema_up` in `lock_release`.
pub mutual_exclusion :
    {s₀ s : System}
    → IsStart s₀
    → Reach s₀ s
    → (t u : ℕ) → is_inside (s.phase t) ≡ true
    → is_inside (s.phase u) ≡ true
    → t ≡ u
mutual_exclusion v r t u a b = (Reach-IsValid v r).owner.unique t u a b

-- In each of these states the current thread goes on without a failed assertion: in the lock's
-- routines its next step succeeds, and so does `lock_release` when it owns the lock.
pub no_assertion_fails :
    {s₀ s : System}
    → IsStart s₀
    → Reach s₀ s
    → (is_ok (advance s) ≡ true)
      × ((not (is_owner (s.phase s.kernel.cur)) || is_ok (lock_release s)) ≡ true)
no_assertion_fails {s} v r =
    let i = Reach-IsValid v r in
    (ap is_ok (advance-Goes s i).returns, releases s i (s.phase s.kernel.cur) refl)

-- In each of these states, when the lock is open, no thread waits for it, or some thread in the loop
-- of `sema_down` that is not among those that wait is ready or runs: no waking is lost.
pub no_lost_waking :
    {s₀ s : System}
    → IsStart s₀
    → Reach s₀ s
    → s.lock.semaphore.value ≡ 1
    → (s.lock.semaphore.waiters ≡ []) ⊎ SomeAwake s.lock.semaphore.waiters s.phase s.kernel
no_lost_waking v r e = (Reach-IsValid v r).awake e
