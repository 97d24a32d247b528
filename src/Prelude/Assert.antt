-- ===== src/Prelude/Assert.antt =====
-- What a kernel routine does under ASSERT: it returns, it stops the machine in `panic_spin`
-- (kernel/debug.h, kernel/debug.c), or it leaves the object that a pointer points into, where C
-- says nothing about what follows.
use mathlib.Core.Bool.{Bool, true, false}

pub data Outcome {ℓ} (A : Type ℓ) : Type ℓ where
  ok : A → Outcome A
  panic : Outcome A
  fault : Outcome A

infixl 5 ◌>>=◌ ◌>>◌
abbrev pub ◌>>=◌ {ℓ κ} : {A : Type ℓ} {B : Type κ} → Outcome A → (A → Outcome B) → Outcome B
ok a >>= f = f a
panic >>= f = panic
fault >>= f = fault

abbrev pub ◌>>◌ {ℓ} : {B : Type ℓ} → Outcome (Unit {0}) → Outcome B → Outcome B
m >> k = m >>= λ _. k

-- `ASSERT(test)`
abbrev pub assert : Bool → Outcome (Unit {0})
assert true = ok tt
assert false = panic
