-- ===== src/Sync/Owner.antt =====
-- The steps of a thread that comes to the lock, and of its owner.
use loong_os.Prelude.{
  ℕ, ◌+◌, ◌-◌, ◌^◌, ◌<◌, ◌≡◌, refl, sym, ◌∙◌, ap, subst, true, false, ◌&&◌, Option, none, some,
  Outcome, ok, arith, ltb, ◌==◌, Bool-cases, inl, inr, ==_iff, u32,
}
use loong_os.Sync.{
  Phase, outside, entering, got, named, owned, unnamed, upping, holder_is, enter_phase, System,
  lock_acquire, lock_release, advance,
}
use loong_os.Sync.Ownership.{Owned, is_inside, is_holder, Counts, entered, waits-Owned, moves-Owned}
use loong_os.Sync.Invariant.{IsValid, is_down}

-- The state after a step of the current thread that changes neither the queue nor the value.
abbrev pub moved : System → Phase → Option ℕ → ℕ → System
moved s p holder count = record s {
  lock = record s.lock { holder = holder; holder_repeat_nr = count };
  phase = enter_phase s.kernel.cur p s.phase;
}

pub still_down :
    (p : Phase) (c t : ℕ) (phase : ℕ → Phase)
    → is_down (phase c) ≡ false
    → is_down (phase t) ≡ true
    → is_down (enter_phase c p phase t) ≡ true
still_down p c t phase out d =
    entered (λ x. is_down x ≡ true) c t p phase
      (λ e. absurd (let h = ap (λ x. is_down (phase x)) e in cc)) (λ e. d)

pub moved-IsValid :
    (s : System) (p : Phase) (holder : Option ℕ) (count : ℕ)
    → IsValid s
    → is_down (s.phase s.kernel.cur) ≡ false
    → (s.kernel.cur == s.kernel.idle_thread) ≡ false
    → Owned s.lock.semaphore.value holder count (enter_phase s.kernel.cur p s.phase)
    → IsValid (moved s p holder count)
moved-IsValid s p holder count v out n o = record {
  kernel = v.kernel;
  owner = o;
  asleep = v.asleep;
  down = λ t h. still_down p s.kernel.cur t s.phase out (v.down t h);
  distinct = v.distinct;
  idle = ground (arith, n, v.idle);
  awake = λ e. elim (v.awake e) [
    | inl none_waits ↦ inl none_waits
    | inr (t, d, h, a) ↦ inr (t, still_down p s.kernel.cur t s.phase out d, h, a)
  ];
}

pub inside-not_idle :
    (s : System) (t : ℕ)
    → IsValid s
    → is_inside (s.phase t) ≡ true
    → (t == s.kernel.idle_thread) ≡ false
inside-not_idle s t v d = elim (Bool-cases (t == s.kernel.idle_thread)) [
  | inl e ↦
      let same : t ≡ s.kernel.idle_thread = (==_iff t s.kernel.idle_thread).0 e in
      let out = ap s.phase same ∙ v.idle in absurd (ground (arith, d, out))
  | inr e ↦ e
]

inside-not_down : (p : Phase) → is_inside p ≡ true → is_down p ≡ false
inside-not_down p h = ground (arith, h)

-- The step of the thread inside.
owner_moved :
    (s : System) (p : Phase) (holder : Option ℕ) (count : ℕ)
    → IsValid s
    → is_inside (s.phase s.kernel.cur) ≡ true
    → is_inside p ≡ true
    → ((t : ℕ) → holder_is holder t ≡ ((t == s.kernel.cur) && is_holder p))
    → Counts p count
    → IsValid (moved s p holder count)
owner_moved s p holder count v inside inside' h n =
    moved-IsValid s p holder count v (inside-not_down _ inside)
      (inside-not_idle s s.kernel.cur v inside)
      (moves-Owned s.lock.semaphore.value s.lock.holder s.lock.holder_repeat_nr s.phase s.kernel.cur
        p v.owner holder count inside inside' h n)

entered-same :
    (c : ℕ) (p : Phase) (phase : ℕ → Phase) (t : ℕ)
    → phase c ≡ p
    → enter_phase c p phase t ≡ phase t
entered-same c p phase t e = elim (Bool-cases (t == c)) [
  | inl x ↦ rw x (sym e ∙ ap phase (sym ((==_iff t c).0 x)))
  | inr x ↦ rw x refl
]

-- While a thread is inside, no other holds the lock.
sole_holder :
    (s : System) (t : ℕ)
    → IsValid s
    → is_inside (s.phase s.kernel.cur) ≡ true
    → holder_is s.lock.holder t ≡ ((t == s.kernel.cur) && is_holder (s.phase s.kernel.cur))
sole_holder s t v inside = v.owner.holders t ∙ elim (Bool-cases (t == s.kernel.cur)) [
  | inl x ↦ rw x (ap (λ u. is_holder (s.phase u)) ((==_iff t s.kernel.cur).0 x))
  | inr x ↦ rw x (elim (Bool-cases (is_inside (s.phase t))) [
    | inl h ↦ absurd (ground (arith, x, v.owner.unique t s.kernel.cur h inside))
    | inr h ↦ ground (arith, h)
  ])
]

sole_holder_in :
    (s : System) (t : ℕ) (p : Phase)
    → IsValid s
    → s.phase s.kernel.cur ≡ p
    → is_inside p ≡ true
    → holder_is s.lock.holder t ≡ ((t == s.kernel.cur) && is_holder p)
sole_holder_in s t p v e inside =
    subst (λ q. holder_is s.lock.holder t ≡ ((t == s.kernel.cur) && is_holder q)) e
      (sole_holder s t v (ap is_inside e ∙ inside))

-- The owner counts up or down and keeps its phase.
counted :
    (s : System) (count : ℕ)
    → IsValid s
    → s.phase s.kernel.cur ≡ owned
    → (0 < count) × (count < 2 ^ 32)
    → IsValid (record s { lock = record s.lock { holder_repeat_nr = count } })
counted s count v e n =
    subst (λ f. IsValid (record s { lock = record s.lock { holder_repeat_nr = count }; phase = f }))
      (λ i t. entered-same s.kernel.cur owned s.phase t e i)
      (owner_moved s owned s.lock.holder count v (rw e refl) refl
        (λ t. sole_holder_in s t owned v e refl) n)

-- A step of the current thread succeeds and keeps the invariant.
pub record Goes (r : Outcome System) : Type 0 where
  pub after : System
  pub returns : r ≡ ok after
  pub valid : IsValid after

pub lock_acquire-owned :
    (s : System)
    → IsValid s
    → s.phase s.kernel.cur ≡ owned
    → s.lock.holder_repeat_nr + 1 < 2 ^ 32
    → IsValid (lock_acquire s)
unfolding lock_acquire
lock_acquire-owned s v e few =
    let mine : holder_is s.lock.holder s.kernel.cur ≡ true =
      v.owner.holders s.kernel.cur ∙ rw e refl in
    let up : u32 (s.lock.holder_repeat_nr + 1) ≡ s.lock.holder_repeat_nr + 1 = omega arith in
    rw (mine, up) (counted s (s.lock.holder_repeat_nr + 1) v e (omega arith, few))

pub lock_acquire-outside :
    (s : System)
    → IsValid s
    → s.phase s.kernel.cur ≡ outside
    → (s.kernel.cur == s.kernel.idle_thread) ≡ false
    → IsValid (lock_acquire s)
unfolding lock_acquire
lock_acquire-outside s v e n =
    let other : holder_is s.lock.holder s.kernel.cur ≡ false =
      v.owner.holders s.kernel.cur ∙ rw e refl in
    rw other (
      moved-IsValid s entering s.lock.holder s.lock.holder_repeat_nr v (rw e refl) n (
        waits-Owned s.lock.semaphore.value s.lock.holder s.lock.holder_repeat_nr s.phase
          s.kernel.cur entering v.owner (rw e refl) refl))

pub lock_release-Goes :
    (s : System) → IsValid s → s.phase s.kernel.cur ≡ owned → Goes (lock_release s)
unfolding lock_release
lock_release-Goes s v e =
    let c = s.kernel.cur in
    let n = s.lock.holder_repeat_nr in
    let mine : holder_is s.lock.holder c ≡ true = v.owner.holders c ∙ rw e refl in
    let (some_left, small) = subst (λ q. Counts q n) e (v.owner.counts c) in
    elim (Bool-cases (ltb 1 n)) [
      | inl more ↦ record {
        after = record s { lock = record s.lock { holder_repeat_nr = n - 1 } };
        returns = rw (mine, more) refl;
        valid = counted s (n - 1) v e (ground (arith, more), omega (arith, small));
      }
      | inr last ↦
          let one : n ≡ 1 = ground (arith, last, some_left) in
          let is_one : (n == 1) ≡ true = ground (arith, one) in
          record {
            after = moved s unnamed none n;
            returns = rw (mine, last, is_one) refl;
            valid = owner_moved s unnamed none n v (rw e refl) refl (λ t. ground arith) one;
          }
    ]

-- `advance` in the phases of the owner that touch only the holder and the count.
pub advance-got : (s : System) → IsValid s → s.phase s.kernel.cur ≡ got → Goes (advance s)
unfolding advance
advance-got s v e = record {
  after = moved s named (some s.kernel.cur) s.lock.holder_repeat_nr;
  returns = rw (e, advance) refl;
  valid =
      owner_moved s named (some s.kernel.cur) s.lock.holder_repeat_nr v (rw e refl) refl
        (λ t. ground arith)
        (subst (λ q. Counts q s.lock.holder_repeat_nr) e (v.owner.counts s.kernel.cur));
}

pub advance-named : (s : System) → IsValid s → s.phase s.kernel.cur ≡ named → Goes (advance s)
unfolding advance
advance-named s v e =
    let zero_count : s.lock.holder_repeat_nr ≡ 0 =
      subst (λ q. Counts q s.lock.holder_repeat_nr) e (v.owner.counts s.kernel.cur) in
    let is_zero : (s.lock.holder_repeat_nr == 0) ≡ true = ground (arith, zero_count) in
    record {
      after = moved s owned s.lock.holder 1;
      returns = rw (e, advance, is_zero) refl;
      valid =
          owner_moved s owned s.lock.holder 1 v (rw e refl) refl
            (λ t. sole_holder_in s t named v e refl) (omega arith, omega arith);
    }

pub advance-unnamed : (s : System) → IsValid s → s.phase s.kernel.cur ≡ unnamed → Goes (advance s)
unfolding advance
advance-unnamed s v e = record {
  after = moved s upping s.lock.holder 0;
  returns = rw (e, advance) refl;
  valid =
      owner_moved s upping s.lock.holder 0 v (rw e refl) refl
        (λ t. sole_holder_in s t unnamed v e refl) refl;
}
