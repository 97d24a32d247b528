-- ===== src/Bitmap/Scan.antt =====
-- The third loop of `bitmap_scan` finds the least run of zero bits.
use loong_os.Prelude.{
  ℕ, zero, suc, ◌+◌, ◌-◌, ◌^◌, ◌≤◌, ◌<◌, ◌≡◌, inl, inr, true, false, Option, none, some, arith,
  ◌==◌, Bool-cases, u32, ltb, ltb→lt, ==_iff,
}
use loong_os.Bitmap.{Bitmap, bitmap_scan_test, count_run}

-- The `n` bits from `s` on are zero.
abbrev pub Zeros : Bitmap → ℕ → ℕ → Type 0
Zeros b s n = (j : ℕ) → s ≤ j → j < s + n → bitmap_scan_test b j ≡ false

-- The answer is the first run of `n` zero bits among the first `size` bits, or there is none.
abbrev pub IsLeastRun : Bitmap → ℕ → ℕ → Option ℕ → Type 0
IsLeastRun b n size none = (t : ℕ) → t + n ≤ size → ¬ Zeros b t n
IsLeastRun b n size (some s) = (s + n ≤ size) × Zeros b s n × ((t : ℕ) → t < s → ¬ Zeros b t n)

-- The loop's state: `count` zero bits end before `next`, and no run starts before them.
pub record Running (b : Bitmap) (n next count : ℕ) : Type 0 where
  pub short : count < n
  pub back : count ≤ next
  pub zeros : (j : ℕ) → next ≤ j + count → j < next → bitmap_scan_test b j ≡ false
  pub earlier : (t : ℕ) → t + count < next → ¬ Zeros b t n

module _ {b : Bitmap} {n next count : ℕ} (r : Running b n next count) where
  -- A set bit ends every run that could reach it.
  reset : bitmap_scan_test b next ≡ true → Running b n (next + 1) 0
  reset used = record {
    short = omega (arith, r.short);
    back = omega arith;
    zeros = λ j p q. absurd (omega arith);
    earlier = λ t p z. elim (Bool-cases (ltb (t + count) next)) [
      | inl before ↦ r.earlier t (ltb→lt _ _ before) z
      | inr after ↦
          ground (arith, used, z next (ground (arith, after)) (ground (arith, after, r.short)))
    ];
  }

  grow : bitmap_scan_test b next ≡ false → count + 1 < n → Running b n (next + 1) (count + 1)
  grow free lt = record {
    short = lt;
    back = omega (arith, r.back);
    zeros = λ j p q. elim (Bool-cases (j == next)) [
      | inl e ↦ rw ((==_iff _ _).0 e) free
      | inr ne ↦ r.zeros j (omega arith) (ground (arith, ne))
    ];
    earlier = λ t p. r.earlier t (omega arith);
  }

  finish : bitmap_scan_test b next ≡ false → count + 1 ≡ n → Zeros b (next + 1 - n) n
  finish free e j p q = elim (Bool-cases (j == next)) [
    | inl here ↦ rw ((==_iff _ _).0 here) free
    | inr ne ↦ r.zeros j (omega (arith, r.back)) (ground (arith, ne, r.back))
  ]

miss : (k n : ℕ) → k < n → (k == n) ≡ false
miss k n h = ground arith

u32_suc : (k : ℕ) → k + 1 < 2 ^ 32 → u32 (k + 1) ≡ k + 1
u32_suc k h = omega arith

run_start :
    (next n : ℕ)
    → 0 < n
    → n ≤ next + 1
    → next + 1 < 2 ^ 32
    → u32 (next + 2 ^ 32 - n + 1) ≡ next + 1 - n
run_start next n p q small = omega arith

pub count_run-IsLeastRun :
    (b : Bitmap) (n size left next count : ℕ)
    → Running b n next count
    → next + left ≡ size
    → size < 2 ^ 32
    → IsLeastRun b n size (count_run b n left next count)
unfolding count_run
count_run-IsLeastRun b n size zero next count r e small =
    λ t p. r.earlier t (omega (arith, r.short))
count_run-IsLeastRun b n size (suc left) next count r e small =
    elim (Bool-cases (bitmap_scan_test b next)) [
      | inl used ↦
          rw (used, miss 0 n (omega (arith, r.short)), u32_suc next (omega arith))
            (count_run-IsLeastRun b n size left (next + 1) 0 (reset r used) (omega arith) small)
      | inr free ↦
          let short : count + 1 < 2 ^ 32 = omega (arith, r.back) in
          elim (Bool-cases (count + 1 == n)) [
            | inl hit ↦
                let eq : count + 1 ≡ n = (==_iff _ _).0 hit in
                rw
                  (
                    free,
                    u32_suc count short,
                    hit,
                    run_start next n (omega arith) (omega (arith, r.back)) (omega arith),
                  )
                  (omega (arith, r.back), finish r free eq, λ t p. r.earlier t (omega arith))
            | inr ne ↦
                rw (free, u32_suc count short, ne, u32_suc next (omega arith))
                  (count_run-IsLeastRun b n size left (next + 1) (count + 1)
                    (grow r free (ground (arith, ne, r.short))) (omega arith) small)
          ]
    ]
