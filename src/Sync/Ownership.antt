-- ===== src/Sync/Ownership.antt =====
-- Who owns the lock: the invariant on its value, holder and count, and the four ways in which a
-- thread moves.
use loong_os.Prelude.{
  ℕ, ◌^◌, ◌≤◌, ◌<◌, ◌≡◌, refl, sym, ◌∙◌, subst, Bool, true, false, ◌&&◌, Option, arith, ◌==◌,
  Bool-cases, inl, inr, ==_iff,
}
use loong_os.Sync.{
  Phase, outside, entering, downing, got, named, owned, unnamed, upping, holder_is, enter_phase,
}

-- From behind `sema_down` to the end of `sema_up`, a thread is inside.
abbrev pub is_inside : Phase → Bool
is_inside outside = false
is_inside entering = false
is_inside (downing _) = false
is_inside _ = true

abbrev pub is_holder : Phase → Bool
is_holder named = true
is_holder owned = true
is_holder _ = false

-- The count of the holder in each phase.
abbrev pub Counts : Phase → ℕ → Type 0
Counts got n = n ≡ 0
Counts named n = n ≡ 0
Counts owned n = (0 < n) × (n < 2 ^ 32)
Counts unnamed n = n ≡ 1
Counts upping n = n ≡ 0
Counts _ n = Unit

pub record Owned (value : ℕ) (holder : Option ℕ) (count : ℕ) (phase : ℕ → Phase) : Type 0 where
  pub small : value ≤ 1
  pub unique : (t u : ℕ) → is_inside (phase t) ≡ true → is_inside (phase u) ≡ true → t ≡ u
  pub closed : (t : ℕ) → is_inside (phase t) ≡ true → value ≡ 0
  pub holders : (t : ℕ) → holder_is holder t ≡ is_holder (phase t)
  pub counts : (t : ℕ) → Counts (phase t) count
  pub open_count : value ≡ 1 → count ≡ 0

is_holder-inside : (p : Phase) → is_holder p ≡ true → is_inside p ≡ true
is_holder-inside p h = ground (arith, h)

Counts-outside : (p : Phase) (n : ℕ) → is_inside p ≡ false → Counts p n
Counts-outside outside n h = tt
Counts-outside entering n h = tt
Counts-outside (downing _) n h = tt
Counts-outside got n h = cc
Counts-outside named n h = cc
Counts-outside owned n h = cc
Counts-outside unnamed n h = cc
Counts-outside upping n h = cc

-- What holds of the phases is shown for the thread that moves and for the others.
pub entered {ℓ} :
    (P : Phase → Type ℓ) (c t : ℕ) (p : Phase) (phase : ℕ → Phase)
    → (t ≡ c → P p)
    → ((t == c) ≡ false → P (phase t))
    → P (enter_phase c p phase t)
entered P c t p phase self other = elim (Bool-cases (t == c)) [
  | inl e ↦ rw e (self ((==_iff t c).0 e))
  | inr e ↦ rw e (other e)
]

module _ (value : ℕ) (holder : Option ℕ) (count : ℕ) (phase : ℕ → Phase) (c : ℕ) (p : Phase)
    (v : Owned value holder count phase) where
  -- A thread that is not inside moves between phases in which it is not.
  pub waits-Owned :
      is_inside (phase c) ≡ false
      → is_inside p ≡ false
      → Owned value holder count (enter_phase c p phase)
  waits-Owned out out' = record {
    small = v.small;
    unique = λ t u a b. v.unique t u (ground (arith, a, out')) (ground (arith, b, out'));
    closed = λ t a. v.closed t (ground (arith, a, out'));
    holders = λ t.
        v.holders t
        ∙ entered (λ q. is_holder (phase t) ≡ is_holder q) c t p phase
            (λ e.
              subst (λ x. is_holder (phase x) ≡ is_holder p) (sym e) (ground (arith, out, out')))
            (λ e. refl);
    counts = λ t.
        entered (λ q. Counts q count) c t p phase (λ e. Counts-outside p count out')
          (λ e. v.counts t);
    open_count = v.open_count;
  }

  alone_lem : (t : ℕ) → (t == c) ≡ false → is_inside (phase c) ≡ true → is_inside (phase t) ≡ false
  alone_lem t e inside = elim (Bool-cases (is_inside (phase t))) [
    | inl h ↦ absurd (ground (arith, v.unique t c h inside))
    | inr h ↦ h
  ]

  -- The thread inside moves on inside.
  pub moves-Owned :
      (holder' : Option ℕ) (count' : ℕ)
      → is_inside (phase c) ≡ true
      → is_inside p ≡ true
      → ((t : ℕ) → holder_is holder' t ≡ ((t == c) && is_holder p))
      → Counts p count'
      → Owned value holder' count' (enter_phase c p phase)
  moves-Owned holder' count' inside inside' h n =
      let alone : (t : ℕ) → (t == c) ≡ false → is_inside (phase t) ≡ false =
        λ t e. alone_lem t e inside in
      record {
        small = v.small;
        unique = λ t u a b. ground (arith, a, b, alone t, alone u);
        closed = λ t a. v.closed c inside;
        holders = λ t. h t ∙ ground (arith, alone t);
        counts = λ t.
            entered (λ q. Counts q count') c t p phase (λ e. n)
              (λ e. Counts-outside (phase t) count' (alone t e));
        open_count = λ e. absurd (omega (arith, v.closed c inside));
      }

module _ (holder : Option ℕ) (count : ℕ) (phase : ℕ → Phase) (c : ℕ) where
  -- A thread gets the open lock, and is the only one inside.
  pub gets-Owned : Owned 1 holder count phase → Owned 0 holder count (enter_phase c got phase)
  gets-Owned v =
      let empty : (t : ℕ) → is_inside (phase t) ≡ false = λ t. ground (arith, v.closed t) in
      let free : (t : ℕ) → is_holder (phase t) ≡ false = λ t. ground (arith, empty t) in
      record {
        small = omega arith;
        unique = λ t u a b. ground (arith, a, b, empty t, empty u);
        closed = λ t a. refl;
        holders = λ t. v.holders t ∙ ground (arith, free t);
        counts = λ t.
            entered (λ q. Counts q count) c t got phase (λ e. v.open_count refl) (λ e. v.counts t);
        open_count = λ e. absurd (omega arith);
      }

  -- The thread inside leaves, and the lock is open.
  pub leaves-Owned :
      phase c ≡ upping
      → Owned 0 holder count phase
      → Owned 1 holder count (enter_phase c outside phase)
  leaves-Owned e v =
      let inside : is_inside (phase c) ≡ true = rw e refl in
      let left : (t : ℕ) → is_inside (enter_phase c outside phase t) ≡ false = λ t.
        entered (λ q. is_inside q ≡ false) c t outside phase (λ x. refl)
          (λ x. alone_lem 0 holder count phase c outside v t x inside) in
      record {
        small = omega arith;
        unique = λ t u a b. absurd (ground (arith, a, left t));
        closed = λ t a. absurd (ground (arith, a, left t));
        holders = λ t.
            v.holders t
            ∙ entered (λ q. is_holder (phase t) ≡ is_holder q) c t outside phase
                (λ x. subst (λ y. is_holder (phase y) ≡ false) (sym x) (rw e refl)) (λ x. refl);
        counts = λ t. Counts-outside _ count (left t);
        open_count = λ x. subst (λ q. Counts q count) e (v.counts c);
      }
