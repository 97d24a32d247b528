-- ===== src/Bitmap/FirstBit.antt =====
-- The first two loops of `bitmap_scan` find the least zero bit.
use loong_os.Prelude.{
  ℕ, zero, suc, ◌+◌, ◌*◌, ◌/◌, ◌%◌, ◌≤◌, ◌<◌, ◌≡◌, ◌≢◌, refl, ◌⊎◌, inl, inr, true, false, not, ◌&&◌,
  ◌||◌, arith, ltb, ◌==◌, Bool-cases,
}
use loong_os.Prelude.Bits.{bit_of, bit_of_255, tried, tried_at}
use loong_os.Bitmap.{Bitmap, bitmap_scan_test, skip_full, skip_ones}

-- `r` is where the search for a byte with a zero bit, started at `i`, stops.
record Skipped (b : Bitmap) (i r : ℕ) : Type 0 where
  from : i ≤ r
  full : (k : ℕ) → i ≤ k → k < r → b.bits k ≡ 255
  stop : (b.bits r ≢ 255) ⊎ (b.btmp_bytes_len ≤ r)
  last : (r ≤ i) ⊎ (r ≤ b.btmp_bytes_len)

skip_full-Skipped :
    (b : Bitmap) (rounds i : ℕ) → b.btmp_bytes_len < i + rounds → Skipped b i (skip_full b rounds i)
unfolding skip_full
skip_full-Skipped b zero i h = record {
  from = omega arith;
  full = λ k p q. absurd (omega arith);
  stop = inr (omega arith);
  last = inl (omega arith);
}
skip_full-Skipped b (suc rounds) i h =
    let ih = skip_full-Skipped b rounds (i + 1) (omega arith) in
    elim (Bool-cases ((255 == b.bits i) && ltb i b.btmp_bytes_len)) [
      | inl more ↦ rw more (record {
        from = omega (arith, ih.from);
        full = λ k p q. ground (arith, ih.full k);
        stop = ih.stop;
        last = ground (arith, ih.last);
      })
      | inr done ↦ rw done (record {
        from = omega arith;
        full = λ k p q. absurd (omega arith);
        stop = ground arith;
        last = inl (omega arith);
      })
    ]

ones_table :
    tried 256 (λ x.
      (x == 255)
      || (ltb (skip_ones x 9 0) 8
          && not (bit_of x (skip_ones x 9 0))
          && tried (skip_ones x 9 0) (bit_of x)))
    ≡ true
unfolding tried skip_ones
ones_table = refl

-- The zero bit that the second loop finds in a byte other than 0xff is its lowest.
skip_ones_lem :
    (x : ℕ)
    → x < 256
    → x ≢ 255
    → (skip_ones x 9 0 < 8)
      × (bit_of x (skip_ones x 9 0) ≡ false)
      × ((k : ℕ) → k < skip_ones x 9 0 → bit_of x k ≡ true)
skip_ones_lem x h ne =
    let t =
      tried_at 256
        (λ x.
          (x == 255)
          || (ltb (skip_ones x 9 0) 8
              && not (bit_of x (skip_ones x 9 0))
              && tried (skip_ones x 9 0) (bit_of x)))
        x ones_table h in
    (
      ground (arith, t),
      ground (arith, t),
      λ k hk. tried_at (skip_ones x 9 0) (bit_of x) k (ground (arith, t)) hk,
    )

-- Where the two loops of `bitmap_scan` end.
unfoldable pub start_byte : Bitmap → ℕ
start_byte b = skip_full b (b.btmp_bytes_len + 1) 0

unfoldable pub start_bit : Bitmap → ℕ
unfolding start_byte
start_bit b = start_byte b * 8 + skip_ones (b.bits (start_byte b)) 9 0

module _ (b : Bitmap) (h : (i : ℕ) → b.bits i < 256) where
  -- All bits of a byte that the first loop skips are set.
  skipped-test : (j : ℕ) → j / 8 < start_byte b → bitmap_scan_test b j ≡ true
  unfolding bitmap_scan_test start_byte
  skipped-test j lt =
      let s = skip_full-Skipped b (b.btmp_bytes_len + 1) 0 (omega arith) in
      rw (s.full (j / 8) (omega arith) lt) (bit_of_255 (j % 8) (omega arith))

  -- If the first loop runs off the end, every bit is set.
  pub full-test :
      b.btmp_bytes_len ≤ start_byte b
      → (j : ℕ) → j < b.btmp_bytes_len * 8
      → bitmap_scan_test b j ≡ true
  full-test le j lt = skipped-test j (omega arith)

  -- Otherwise the two loops end at the lowest zero bit.
  module _ (lt : start_byte b < b.btmp_bytes_len) where
    ones :
        (skip_ones (b.bits (start_byte b)) 9 0 < 8)
        × (bit_of (b.bits (start_byte b)) (skip_ones (b.bits (start_byte b)) 9 0) ≡ false)
        × ((k : ℕ)
            → k < skip_ones (b.bits (start_byte b)) 9 0
            → bit_of (b.bits (start_byte b)) k ≡ true)
    unfolding start_byte
    ones =
        let s = skip_full-Skipped b (b.btmp_bytes_len + 1) 0 (omega arith) in
        skip_ones_lem (b.bits (start_byte b)) (h (start_byte b)) (ground (arith, s.stop))

    pub start_bit-lt : start_bit b < b.btmp_bytes_len * 8
    unfolding start_bit
    start_bit-lt = omega (arith, ones.0)

    pub test-start_bit : bitmap_scan_test b (start_bit b) ≡ false
    unfolding start_bit bitmap_scan_test
    test-start_bit =
        let o = skip_ones (b.bits (start_byte b)) 9 0 in
        let e : (start_byte b * 8 + o) / 8 ≡ start_byte b = omega (arith, ones.0) in
        let f : (start_byte b * 8 + o) % 8 ≡ o = omega (arith, ones.0) in rw (e, f) (ones.1)

    pub test-below_start : (j : ℕ) → j < start_bit b → bitmap_scan_test b j ≡ true
    unfolding start_bit
    test-below_start j p = elim (Bool-cases (ltb (j / 8) (start_byte b))) [
      | inl before ↦ skipped-test j (ground (arith, before))
      | inr same ↦ in_byte (ground (arith, same, ones.0))
    ]
      where
        in_byte : j / 8 ≡ start_byte b → bitmap_scan_test b j ≡ true
        in_byte e = unfold bitmap_scan_test in rw e (ones.2 (j % 8) (omega arith))
