-- ===== src/Format/FreeBlocks.antt =====
-- Which blocks are free in the bitmap that `partition_format` writes.
use loong_os.Prelude.{
  ℕ, ◌+◌, ◌-◌, ◌*◌, ◌/◌, ◌%◌, ◌^◌, ◌≤◌, ◌<◌, ◌≡◌, refl, sym, ◌∙◌, subst, arith, ltb, leb, ◌==◌,
  ==_iff, ◌&&◌, ◌||◌, not, true, Bool, if◌then◌else◌, Bool-cases, inl, inr,
}
use loong_os.Prelude.Bits.{bit_of, byte_set, tried, tried_at, bit_of_255, bit_of_zero}
use loong_os.Bitmap.{Bitmap, bitmap_scan_test}
use loong_os.Format.{block_bitmap_bit_len, format_super_block, clear_bits, block_bitmap_buf}
use loong_os.Format.Layout.{block_cnt, bit_len_lem, format_super_block-Laid}

abbrev agrees : ℕ → ℕ → Bool
agrees r k = if bit_of (clear_bits (r + 1) 255 0) k then ltb r k else not (ltb r k)

cleared_table : tried 8 (λ r. tried 8 (agrees r)) ≡ true
unfolding tried clear_bits
cleared_table = refl

bit_of-clear_bits : (r k : ℕ) → r < 8 → k < 8 → bit_of (clear_bits (r + 1) 255 0) k ≡ ltb r k
bit_of-clear_bits r k hr hk =
    let e = tried_at 8 (agrees r) k (tried_at 8 (λ r. tried 8 (agrees r)) r cleared_table hr) hk in
    ground (arith, e)

abbrev one_agrees : ℕ → Bool
one_agrees k = if bit_of (byte_set 0 0) k then k == 0 else not (k == 0)

one_table : tried 8 one_agrees ≡ true
unfolding tried
one_table = refl

bit_of_one : (k : ℕ) → k < 8 → bit_of (byte_set 0 0) k ≡ (k == 0)
bit_of_one k h = let e = tried_at 8 one_agrees k one_table h in ground (arith, e)

-- The block bitmap as it is read back.
abbrev pub written_bitmap : ℕ → Bitmap
written_bitmap bit_len = record {
  btmp_bytes_len = (bit_len + 4095) / 4096 * 512;
  bits = block_bitmap_buf bit_len;
}

test-block_bitmap_buf :
    (bit_len j : ℕ)
    → 8 ≤ bit_len
    → j < (bit_len + 4095) / 4096 * 4096
    → bitmap_scan_test (written_bitmap bit_len) j ≡ ((j == 0) || ltb bit_len j)
unfolding bitmap_scan_test block_bitmap_buf
test-block_bitmap_buf bit_len j some inside =
    let k = j % 8 in
    elim (Bool-cases (j / 8 == bit_len / 8)) [
      | inl e ↦
          let same : j / 8 ≡ bit_len / 8 = (==_iff (j / 8) (bit_len / 8)).0 e in
          let full : (leb (bit_len / 8) (bit_len / 8)
                && ltb (bit_len / 8) (bit_len / 8 + (512 - bit_len / 8 % 512)))
              ≡ true =
            ground arith in
          rw (e, full)
            (bit_of-clear_bits (bit_len % 8) k (omega arith) (omega arith) ∙ ground (arith, same))
      | inr ne ↦ rw ne (
          ground (
            arith,
            ne,
            bit_of_one k (omega arith),
            bit_of_255 k (omega arith),
            bit_of_zero k (omega arith),
          ))
    ]

-- The sectors by which the bitmap became shorter when its size was computed again.
abbrev pub spared : ℕ → ℕ
spared sec_cnt = (sec_cnt - 611 + 4095) / 4096 - (block_cnt sec_cnt + 4095) / 4096

-- For a partition of at least 700 sectors that ends before the sector 2 ^ 31: in the block bitmap
-- that `partition_format` writes, of the blocks that it has bits for, those with
-- the numbers from 1 to the number of blocks are free, the last one included. The sector of that
-- last one is the first behind the partition, less the sectors that computing the size of the bitmap
-- again has spared.
pub free_blocks_lem :
    (start_lba sec_cnt j : ℕ)
    → 700 ≤ sec_cnt
    → start_lba + sec_cnt < 2 ^ 31
    → j < (format_super_block start_lba sec_cnt).block_bitmap_sects * 4096
    → let sb = format_super_block start_lba sec_cnt in
      (bitmap_scan_test (written_bitmap (block_bitmap_bit_len sec_cnt)) j
        ≡ ((j == 0) || ltb (block_cnt sec_cnt) j))
      × (sb.data_start_lba + block_cnt sec_cnt + spared sec_cnt ≡ start_lba + sec_cnt)
free_blocks_lem start_lba sec_cnt j enough small inside =
    let l = format_super_block-Laid start_lba sec_cnt enough small in
    let len = bit_len_lem sec_cnt enough (omega arith) in
    (
      subst (λ n. bitmap_scan_test (written_bitmap n) j ≡ ((j == 0) || ltb (block_cnt sec_cnt) j))
          (sym len)
          (test-block_bitmap_buf (block_cnt sec_cnt) j l.some_block
            (omega (arith, l.bits, inside))),
      omega (arith, l),
    )
