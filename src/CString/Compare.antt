-- ===== src/CString/Compare.antt =====
-- `strcmp` and `memcmp` decide equality and order.
use loong_os.Prelude.{
  ℕ, zero, suc, ◌≤◌, ◌<◌, ◌≡◌, ◌↔◌, refl, ap, ap₂, ==_iff, true, false, Bool, ◌∙◌, inl, inr,
  Bool-cases, some, List, [], ◌∷◌, arith, ok, length, take, ltb, ◌==◌, if◌then◌else◌,
}
use loong_os.CString.{
  Sign, negative, nought, positive, signed, strcmp_loop, strcmp, memcmp_loop, memcmp,
}
use loong_os.CString.Strings.{NoZero, cstr}

abbrev pub AllBytes : List ℕ → Type 0
AllBytes [] = Unit
AllBytes (c ∷ s) = (c < 256) × AllBytes s

-- The order of two strings, character by character as signed `char`s, a proper prefix being
-- compared by its terminator.
pub order : List ℕ → List ℕ → Sign
order [] [] = nought
order [] (y ∷ b) = if ltb (signed 0) (signed y) then negative else positive
order (x ∷ a) [] = if ltb (signed x) (signed 0) then negative else positive
order (x ∷ a) (y ∷ b) =
    if x == y then order a b else if ltb (signed x) (signed y) then negative else positive

strcmp_loop-order :
    (a b u v : List ℕ)
    → NoZero a
    → NoZero b
    → AllBytes a
    → AllBytes b
    → strcmp_loop (cstr a u) (cstr b v) ≡ ok (order a b)
unfolding strcmp_loop order
strcmp_loop-order [] [] u v ha hb ba bb = refl
strcmp_loop-order [] (y ∷ b) u v ha hb ba bb = ground arith
strcmp_loop-order (x ∷ a) [] u v ha hb ba bb = ground arith
strcmp_loop-order (x ∷ a) (y ∷ b) u v ha hb ba bb =
    ground (arith, strcmp_loop-order a b u v ha.1 hb.1 ba.1 bb.1)

-- The order is 0 exactly on equal strings.
order-nought : (a b : List ℕ) → NoZero a → NoZero b → (order a b ≡ nought) ↔ (a ≡ b)
unfolding order
order-nought [] [] ha hb = (λ e. refl, λ e. refl)
order-nought [] (y ∷ b) ha hb = (λ e. ground arith, λ e. cc)
order-nought (x ∷ a) [] ha hb = (λ e. ground arith, λ e. cc)
order-nought (x ∷ a) (y ∷ b) ha hb = (
  λ e. ground (arith, order-nought a b ha.1 hb.1),
  λ e. ground (arith, order-nought a b ha.1 hb.1),
)

abbrev pub flip : Sign → Sign
flip negative = positive
flip nought = nought
flip positive = negative

order-swap :
    (a b : List ℕ) → NoZero a → NoZero b → AllBytes a → AllBytes b → order b a ≡ flip (order a b)
unfolding order
order-swap [] [] ha hb ba bb = refl
order-swap [] (y ∷ b) ha hb ba bb = ground arith
order-swap (x ∷ a) [] ha hb ba bb = ground arith
order-swap (x ∷ a) (y ∷ b) ha hb ba bb = ground (arith, order-swap a b ha.1 hb.1 ba.1 bb.1)

-- `strcmp` of two strings returns 0 exactly if they are equal, and the opposite sign when they
-- change places.
pub strcmp-cstr :
    (a b u v : List ℕ)
    → NoZero a
    → NoZero b
    → AllBytes a
    → AllBytes b
    → (r : Sign) × (strcmp (some (cstr a u)) (some (cstr b v)) ≡ ok r)
      × (strcmp (some (cstr b v)) (some (cstr a u)) ≡ ok (flip r))
      × ((r ≡ nought) ↔ (a ≡ b))
unfolding strcmp
strcmp-cstr a b u v ha hb ba bb = (
  order a b,
  strcmp_loop-order a b u v ha hb ba bb,
  strcmp_loop-order b a v u hb ha bb ba ∙ ap ok (order-swap a b ha hb ba bb),
  order-nought a b ha hb,
)

abbrev differ : Bool → Sign
differ above = if above then positive else negative

differ_ne {ℓ} : {A : Type ℓ} (above : Bool) → differ above ≡ nought → A
differ_ne true e = cc
differ_ne false e = cc

cons_eq :
    {x y : ℕ} {s t : List ℕ} → ((x == y) ≡ true) ↔ (x ≡ y) → (x == y) ≡ true → s ≡ t → x ∷ s ≡ y ∷ t
cons_eq i e p = ap₂ ◌∷◌ (i.0 e) p

tail_eq : {x y : ℕ} {s t : List ℕ} → x ∷ s ≡ y ∷ t → s ≡ t
tail_eq p = cc

head_eq : {x y : ℕ} {s t : List ℕ} → x ∷ s ≡ y ∷ t → x ≡ y
head_eq p = cc

-- The bytes compared by `memcmp` are equal exactly if it returns 0; it stays inside two objects of
-- at least `size` bytes.
pub memcmp-take :
    (a b : List ℕ) (size : ℕ)
    → size ≤ length a
    → size ≤ length b
    → (r : Sign) × (memcmp (some a) (some b) size ≡ ok r)
      × ((r ≡ nought) ↔ (take size a ≡ take size b))
unfolding memcmp memcmp_loop
memcmp-take a b zero p q = (nought, refl, (λ e. refl, λ e. refl))
memcmp-take [] b (suc size) p q = absurd (omega arith)
memcmp-take (x ∷ a) [] (suc size) p q = absurd (omega arith)
memcmp-take (x ∷ a) (y ∷ b) (suc size) p q =
    let (r, run, eq) = memcmp-take a b size (omega arith) (omega arith) in
    elim (Bool-cases (x == y)) [
      | inl e ↦ rw e (r, run, (λ z. cons_eq (==_iff x y) e (eq.0 z), λ z. eq.1 (tail_eq z)))
      | inr e ↦ rw e (
        differ (ltb (signed y) (signed x)),
        refl,
        (λ z. differ_ne _ z, λ z. ground (arith, e, head_eq z)),
      )
    ]
