-- ===== src/Prelude/Bits.antt =====
-- Facts on bytes that hold because all 256 values were tried.
use Prim.Native.Nat.{ℕ, zero, suc, ◌-◌, ◌^◌, ◌<◌, bit_and, bit_or}
use mathlib.Core.Path.{◌≡◌, refl}
use mathlib.Core.Bool.{Bool, true, false, not, ◌&&◌}
use native.Mathlib.Omega.{arith}
use loong_os.Prelude.Tests.{◌==◌, ltb, if◌then◌else◌, ltb→lt}

-- A test tried on `n - 1`, …, 1 and 0 in turn.
unfoldable pub tried : ℕ → (ℕ → Bool) → Bool
tried zero test = true
tried (suc k) test = let others = tried k test in if test k then others else false

pub tried_at : (n : ℕ) (test : ℕ → Bool) (x : ℕ) → tried n test ≡ true → x < n → test x ≡ true
unfolding tried
tried_at zero test x all small = elim small [ ]
tried_at (suc k) test x all small = ground (arith, tried_at k test x)

-- The test `byte & (1 << k)` as a Boolean.
abbrev pub bit_of : ℕ → ℕ → Bool
bit_of x k = not (bit_and x (2 ^ k) == 0)

abbrev bit_eq : Bool → Bool → Bool
bit_eq true b = b
bit_eq false b = not b

bit_eq_sound : (a b : Bool) → bit_eq a b ≡ true → a ≡ b
bit_eq_sound a b h = ground arith

pub Bool-and : (a b : Bool) → (a && b) ≡ true → (a ≡ true) × (b ≡ true)
Bool-and a b h = ground arith

-- `x | (1 << k)` and `x & ~(1 << k)` on a byte.
abbrev pub byte_set : ℕ → ℕ → ℕ
byte_set x k = bit_or x (2 ^ k)

abbrev pub byte_clear : ℕ → ℕ → ℕ
byte_clear x k = bit_and x (255 - 2 ^ k)

-- One row of the tables: setting and clearing bit `k` of `x`, seen at bit `j`.
row : ℕ → ℕ → ℕ → Bool
row x k j =
    bit_eq (bit_of (byte_set x k) j) (if k == j then true else bit_of x j)
    && bit_eq (bit_of (byte_clear x k) j) (if k == j then false else bit_of x j)

table : tried 256 (λ x. tried 8 (λ k. tried 8 (row x k))) ≡ true
unfolding tried row
table = refl

row_lem : (x k j : ℕ) → x < 256 → k < 8 → j < 8 → row x k j ≡ true
row_lem x k j hx hk hj =
    tried_at 8 (row x k) j
      (tried_at 8 (λ k. tried 8 (row x k)) k
        (tried_at 256 (λ x. tried 8 (λ k. tried 8 (row x k))) x table hx) hk)
      hj

module _ (x k j : ℕ) (hx : x < 256) (hk : k < 8) (hj : j < 8) where
  pub bit_of-byte_set : bit_of (byte_set x k) j ≡ (if k == j then true else bit_of x j)
  unfolding row
  bit_of-byte_set = bit_eq_sound _ _ (Bool-and _ _ (row_lem x k j hx hk hj)).0

  pub bit_of-byte_clear : bit_of (byte_clear x k) j ≡ (if k == j then false else bit_of x j)
  unfolding row
  bit_of-byte_clear = bit_eq_sound _ _ (Bool-and _ _ (row_lem x k j hx hk hj)).1

range_table :
    tried 256 (λ x. tried 8 (λ k. ltb (byte_set x k) 256 && ltb (byte_clear x k) 256)) ≡ true
unfolding tried
range_table = refl

pub byte_range : (x k : ℕ) → x < 256 → k < 8 → (byte_set x k < 256) × (byte_clear x k < 256)
byte_range x k hx hk =
    let p = λ (x k : ℕ). ltb (byte_set x k) 256 && ltb (byte_clear x k) 256 in
    let h = tried_at 8 (p x) k (tried_at 256 (λ x. tried 8 (p x)) x range_table hx) hk in
    let (a, b) = Bool-and (ltb (byte_set x k) 256) (ltb (byte_clear x k) 256) h in
    (ltb→lt _ _ a, ltb→lt _ _ b)

bits_255 : tried 8 (bit_of 255) ≡ true
unfolding tried
bits_255 = refl

bits_zero : tried 8 (λ k. not (bit_of 0 k)) ≡ true
unfolding tried
bits_zero = refl

pub bit_of_255 : (k : ℕ) → k < 8 → bit_of 255 k ≡ true
bit_of_255 k h = tried_at 8 (bit_of 255) k bits_255 h

pub bit_of_zero : (k : ℕ) → k < 8 → bit_of 0 k ≡ false
bit_of_zero k h = ground (arith, tried_at 8 (λ k. not (bit_of 0 k)) k bits_zero h)
