-- ===== src/Scheduler/Invariant.antt =====
-- The scheduler's invariant, and that no routine breaks it or panics.
use loong_os.Prelude.{
  ℕ, ◌≡◌, refl, true, false, ◌||◌, List, [], ◌∷◌, ◌++◌, arith, ok, ◌==◌, if◌then◌else◌, Outcome,
}
use loong_os.KernelList.Chain.{has, Distinct, has-append}
use loong_os.Scheduler.{
  Kernel, TaskStatus, running, ready, is_running, is_ready, is_blocked, set_status, thread_unblock,
  switch_first, choose,
}

-- Just the current thread runs, just the ready threads queue, each once, and the idle thread is
-- running, ready or blocked.
pub record IsValid (k : Kernel) : Type 0 where
  pub queue : (t : ℕ) → has t k.ready_list ≡ is_ready (k.status t)
  pub runs : (t : ℕ) → is_running (k.status t) ≡ (t == k.cur)
  pub distinct : Distinct k.ready_list
  pub idle :
      (is_running (k.status k.idle_thread)
        || is_ready (k.status k.idle_thread)
        || is_blocked (k.status k.idle_thread))
      ≡ true

-- What holds when a thread is to be chosen: no thread runs.
pub record Choosing (k : Kernel) : Type 0 where
  pub queue : (t : ℕ) → has t k.ready_list ≡ is_ready (k.status t)
  pub none_runs : (t : ℕ) → is_running (k.status t) ≡ false
  pub distinct : Distinct k.ready_list
  pub idle : (is_ready (k.status k.idle_thread) || is_blocked (k.status k.idle_thread)) ≡ true

pub Distinct-snoc :
    (xs : List ℕ) (e : ℕ) → Distinct xs → has e xs ≡ false → Distinct (xs ++ (e ∷ []))
Distinct-snoc [] e d out = (refl, tt)
Distinct-snoc (x ∷ xs) e d out =
    (ground (arith, has-append x xs (e ∷ [])), Distinct-snoc xs e d.1 (ground arith))

-- The thread that runs next.
abbrev pub front : ℕ → List ℕ → ℕ
front idle [] = idle
front idle (t ∷ ts) = t

abbrev pub rest : List ℕ → List ℕ
rest [] = []
rest (t ∷ ts) = ts

-- A routine returns a valid state in which the given thread runs and the given ones queue.
pub record Runs (r : Outcome Kernel) (next : ℕ) (queue : List ℕ) : Type 0 where
  pub after : Kernel
  pub returns : r ≡ ok after
  pub valid : IsValid after
  pub cur : after.cur ≡ next
  pub ready_list : after.ready_list ≡ queue

pub is_blocked_lem :
    (s : TaskStatus)
    → is_ready s ≡ false
    → (is_ready s || is_blocked s) ≡ true
    → is_blocked s ≡ true
is_blocked_lem s p q = ground arith

choose-idle : (k : Kernel) → Choosing k → k.ready_list ≡ [] → Runs (choose k) k.idle_thread []
unfolding choose thread_unblock switch_first
choose-idle k c e =
    let not_ready : is_ready (k.status k.idle_thread) ≡ false =
      ground (arith, c.queue k.idle_thread) in
    record {
      after =
          set_status k.idle_thread running
            (record (set_status k.idle_thread ready k) { ready_list = []; cur = k.idle_thread });
      returns = ground (arith, c.idle, is_blocked_lem (k.status k.idle_thread));
      valid = record {
        queue = λ t. ground (arith, c.queue t);
        runs = λ t. ground (arith, c.none_runs t);
        distinct = tt;
        idle = ground arith;
      };
      cur = refl;
      ready_list = refl;
    }

choose-front :
    (k : Kernel) (t : ℕ) (ts : List ℕ) → Choosing k → k.ready_list ≡ t ∷ ts → Runs (choose k) t ts
unfolding choose thread_unblock switch_first
choose-front k t ts c e = record {
  after = set_status t running (record k { ready_list = ts; cur = t });
  returns = ground arith;
  valid = record {
    queue = λ u. ground (arith, c.queue u, c.queue t, c.distinct);
    runs = λ u. ground (arith, c.none_runs u);
    distinct = ground (arith, c.distinct);
    idle = ground (arith, c.idle);
  };
  cur = refl;
  ready_list = refl;
}

-- In every case `choose` takes the first thread of the queue, or the idle thread.
pub choose-Runs :
    (k : Kernel) (q : List ℕ)
    → Choosing k
    → k.ready_list ≡ q
    → Runs (choose k) (front k.idle_thread q) (rest q)
choose-Runs k [] c e = choose-idle k c e
choose-Runs k (t ∷ ts) c e = choose-front k t ts c e

-- The current thread stops running: it blocks, or it queues behind the others.
pub blocked-Choosing :
    (k : Kernel) (s : TaskStatus)
    → IsValid k
    → is_blocked s ≡ true
    → Choosing (set_status k.cur s (record k { intr_on = false }))
blocked-Choosing k s v b = record {
  queue = λ t. ground (arith, v.queue t, v.runs t);
  none_runs = λ t. ground (arith, v.runs t);
  distinct = v.distinct;
  idle = ground (arith, v.idle, v.runs k.idle_thread);
}

pub not_queued : (k : Kernel) → IsValid k → has k.cur k.ready_list ≡ false
not_queued k v = ground (arith, v.queue k.cur, v.runs k.cur)

pub queued-Choosing :
    (k k' : Kernel)
    → IsValid k
    → k'.ready_list ≡ k.ready_list ++ (k.cur ∷ [])
    → ((t : ℕ) → k'.status t ≡ (if t == k.cur then ready else k.status t))
    → k'.idle_thread ≡ k.idle_thread
    → Choosing k'
queued-Choosing k k' v q s i = record {
  queue = λ t.
      rw (q, s t, has-append t k.ready_list (k.cur ∷ [])) (ground (arith, v.queue t, v.runs t));
  none_runs = λ t. rw (s t) (ground (arith, v.runs t));
  distinct = rw q (Distinct-snoc k.ready_list k.cur v.distinct (not_queued k v));
  idle = rw (i, s k.idle_thread) (ground (arith, v.idle, v.runs k.idle_thread));
}
