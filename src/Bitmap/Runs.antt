-- ===== src/Bitmap/Runs.antt =====
-- What `bitmap_scan` returns, on every path.
use loong_os.Prelude.{
  ℕ, ◌+◌, ◌-◌, ◌*◌, ◌^◌, ◌≤◌, ◌<◌, ◌≡◌, refl, ◌∙◌, inl, inr, true, false, Option, none, some, arith,
  ◌==◌, Bool-cases, if◌then◌else◌, ltb, ==_iff, ok, panic,
}
use loong_os.Bitmap.{Bitmap, bitmap_scan_test, bitmap_scan, count_run}
use loong_os.Bitmap.Bits.{IsBytes}
use loong_os.Bitmap.Scan.{Zeros, IsLeastRun, Running, count_run-IsLeastRun}
use loong_os.Bitmap.FirstBit.{
  start_byte, start_bit, full-test, start_bit-lt, test-start_bit, test-below_start,
}

-- The bitmap's cells are bytes, and its bits can be counted in an `int`.
pub record IsValid (b : Bitmap) : Type 0 where
  pub bytes : IsBytes b
  pub small : b.btmp_bytes_len * 8 + 1 < 2 ^ 31

-- The number of bits.
abbrev pub size : Bitmap → ℕ
size b = b.btmp_bytes_len * 8

module _ {b : Bitmap} (v : IsValid b) where
  -- A zero bit in range stops the first loop in range.
  start_byte-lt :
      (k : ℕ) → k < size b → bitmap_scan_test b k ≡ false → start_byte b < b.btmp_bytes_len
  start_byte-lt k lt free = elim (Bool-cases (ltb (start_byte b) b.btmp_bytes_len)) [
    | inl h ↦ ground (arith, h)
    | inr h ↦ ground (arith, free, full-test b v.bytes (ground (arith, h)) k lt)
  ]

  module _ (lt : start_byte b < b.btmp_bytes_len) where
    scan-started :
        (cnt : ℕ)
        → bitmap_scan b cnt ≡ (
            if cnt == 1
            then ok (some (start_bit b))
            else ok (count_run b cnt (size b - start_bit b) (start_bit b + 1) 1))
    unfolding bitmap_scan start_bit start_byte
    scan-started cnt = ground (arith, start_bit-lt b v.bytes lt, v.small)

    started-Running : (cnt : ℕ) → 1 < cnt → Running b cnt (start_bit b + 1) 1
    started-Running cnt h = record {
      short = h;
      back = omega arith;
      zeros = λ j p q. let e : j ≡ start_bit b = omega arith in rw e (test-start_bit b v.bytes lt);
      earlier = λ t p z.
          ground
            (arith, z t (omega arith) (omega arith), test-below_start b v.bytes lt t (omega arith));
    }

-- When some bit is zero, `bitmap_scan` for one bit returns the index of the first zero bit: it is
-- zero, no zero bit stands before it, and it lies in the bitmap.
pub bitmap_scan_one :
    (b : Bitmap) (k : ℕ)
    → IsValid b
    → k < size b
    → bitmap_scan_test b k ≡ false
    → (s : ℕ) × (bitmap_scan b 1 ≡ ok (some s))
      × (s ≤ k)
      × (bitmap_scan_test b s ≡ false)
      × ((j : ℕ) → j < s → bitmap_scan_test b j ≡ true)
bitmap_scan_one b k v lt free =
    let p = start_byte-lt v k lt free in
    let below = test-below_start b v.bytes p in
    let first : start_bit b ≤ k = elim (Bool-cases (ltb k (start_bit b))) [
      | inl h ↦ ground (arith, h, free, below k)
      | inr h ↦ ground (arith, h)
    ] in
    (start_bit b, scan-started v p 1, first, test-start_bit b v.bytes p, below)

-- When some bit is zero, `bitmap_scan` for more than one bit returns the first run of so many zero
-- bits, or -1 if there is none, among the bits of the bitmap and the one bit behind its last.
pub bitmap_scan_run :
    (b : Bitmap) (cnt k : ℕ)
    → IsValid b
    → 1 < cnt
    → k < size b
    → bitmap_scan_test b k ≡ false
    → (r : Option ℕ) × (bitmap_scan b cnt ≡ ok r) × IsLeastRun b cnt (size b + 1) r
bitmap_scan_run b cnt k v h lt free =
    let p = start_byte-lt v k lt free in
    let s = start_bit-lt b v.bytes p in
    let ne : (cnt == 1) ≡ false = ground (arith, h) in
    (
      count_run b cnt (size b - start_bit b) (start_bit b + 1) 1,
      scan-started v p cnt ∙ rw ne refl,
      count_run-IsLeastRun b cnt (size b + 1) (size b - start_bit b) (start_bit b + 1) 1
          (started-Running v p cnt h) (omega arith) (omega (arith, v.small)),
    )

-- On a bitmap that has no zero bit, `bitmap_scan` stops in its ASSERT, whatever the count: it does
-- not return -1.
pub bitmap_scan_full :
    (b : Bitmap) (cnt : ℕ)
    → IsValid b
    → ((j : ℕ) → j < size b → bitmap_scan_test b j ≡ true)
    → bitmap_scan b cnt ≡ panic
unfolding bitmap_scan start_bit start_byte
bitmap_scan_full b cnt v all = elim (Bool-cases (ltb (start_byte b) b.btmp_bytes_len)) [
  | inl h ↦
      let p : start_byte b < b.btmp_bytes_len = ground (arith, h) in
      ground (arith, test-start_bit b v.bytes p, all (start_bit b) (start_bit-lt b v.bytes p))
  | inr h ↦ rw h
]

-- If only the last bit is zero and the bit behind the bitmap is zero too, a scan for two bits
-- returns the last bit: the second bit of the run lies outside the bitmap.
pub bitmap_scan_overrun :
    (b : Bitmap) (last : ℕ)
    → IsValid b
    → size b ≡ last + 1
    → ((j : ℕ) → j < last → bitmap_scan_test b j ≡ true)
    → bitmap_scan_test b last ≡ false
    → bitmap_scan_test b (last + 1) ≡ false
    → bitmap_scan b 2 ≡ ok (some last)
bitmap_scan_overrun b last v e used free behind =
    let (r, run, least) = bitmap_scan_run b 2 last v (omega arith) (omega arith) free in
    run ∙ only r least
  where
    zeros : Zeros b last 2
    zeros j p q = elim (Bool-cases (j == last)) [
      | inl h ↦ rw ((==_iff _ _).0 h) free
      | inr h ↦ let f : j ≡ last + 1 = ground (arith, h) in rw f behind
    ]

    only : (r : Option ℕ) → IsLeastRun b 2 (size b + 1) r → ok r ≡ ok (some last)
    only none h = absurd (h last (omega arith) zeros)
    only (some s) (within, z, first) = elim (Bool-cases (ltb s last)) [
      | inl h ↦ ground (arith, used s (ground (arith, h)), z s (omega arith) (omega arith))
      | inr h ↦ ground (arith, h)
    ]
