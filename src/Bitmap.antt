-- ===== src/Bitmap.antt =====
-- lib/kernel/bitmap.c and bitmap.h: one bit for each page, inode or block.
-- `bits` is the memory that starts at the bitmap's pointer. The routines may read past
-- `btmp_bytes_len`, so it is a function of the byte's offset and does not end there.
-- A result -1 is `none`, and a failed ASSERT is `panic`.
pub mod Bits
pub mod FirstBit
pub mod Scan
pub mod Runs
mod Tests
use loong_os.Prelude.{
  ℕ, zero, suc, ◌+◌, ◌-◌, ◌*◌, ◌/◌, ◌%◌, ◌^◌, Bool, true, false, not, ◌&&◌, ◌||◌, Option, none,
  some, Outcome, ok, panic, ◌>>=◌, ◌>>◌, assert, ltb, leb, ◌==◌, if◌then◌else◌, u32, u8, bit_and,
}
use loong_os.Prelude.Bits.{bit_of, byte_set, byte_clear}

-- `struct bitmap`
pub record Bitmap : Type 0 where
  pub btmp_bytes_len : ℕ
  pub bits : ℕ → ℕ

-- `memset(bits, 0, btmp_bytes_len)`
unfoldable pub bitmap_init : Bitmap → Bitmap
bitmap_init btmp = record btmp { bits = λ i. if ltb i btmp.btmp_bytes_len then 0 else btmp.bits i }

unfoldable pub bitmap_scan_test : Bitmap → ℕ → Bool
bitmap_scan_test btmp bit_idx =
    let byte_idx = bit_idx / 8 in let bit_odd = bit_idx % 8 in bit_of (btmp.bits byte_idx) bit_odd

pub write_byte : Bitmap → ℕ → ℕ → Bitmap
write_byte btmp i v = record btmp { bits = λ j. if j == i then v else btmp.bits j }

pub bitmap_set : Bitmap → ℕ → ℕ → Outcome Bitmap
unfolding write_byte
bitmap_set btmp bit_idx value = do
  assert ((value == 0) || (value == 1))
  let byte_idx = bit_idx / 8
  let bit_odd = bit_idx % 8
  let byte = btmp.bits byte_idx
  ok (
      write_byte btmp byte_idx
        (if value == 0 then byte_clear byte bit_odd else byte_set byte bit_odd))

-- The first loop of `bitmap_scan`: the index of the first byte from `idx_byte` on that is not
-- 0xff, or that lies past the end.
pub skip_full : Bitmap → ℕ → ℕ → ℕ
skip_full btmp zero idx_byte = idx_byte
skip_full btmp (suc rounds) idx_byte =
    let rest = skip_full btmp rounds (idx_byte + 1) in
    if (255 == btmp.bits idx_byte) && ltb idx_byte btmp.btmp_bytes_len then rest else idx_byte

-- The second loop: the first zero bit of a byte.
pub skip_ones : ℕ → ℕ → ℕ → ℕ
skip_ones byte zero idx_bit = idx_bit
skip_ones byte (suc rounds) idx_bit =
    let rest = skip_ones byte rounds (idx_bit + 1) in
    if bit_and (u8 (2 ^ idx_bit)) byte == 0 then idx_bit else rest

-- The third loop, with `bit_left` rounds to go.
pub count_run : Bitmap → ℕ → (bit_left bit_next count : ℕ) → Option ℕ
count_run btmp cnt zero bit_next count = none
count_run btmp cnt (suc bit_left) bit_next count =
    let count' = if bitmap_scan_test btmp bit_next then 0 else u32 (count + 1) in
    let rest = count_run btmp cnt bit_left (u32 (bit_next + 1)) count' in
    if count' == cnt then some (u32 (bit_next + 2 ^ 32 - cnt + 1)) else rest

pub bitmap_scan : Bitmap → ℕ → Outcome (Option ℕ)
unfolding skip_full skip_ones count_run bitmap_scan_test
bitmap_scan btmp cnt = do
  let idx_byte = skip_full btmp (btmp.btmp_bytes_len + 1) 0
  assert (ltb idx_byte btmp.btmp_bytes_len)
  let bit_idx_start = u32 (idx_byte * 8 + skip_ones (btmp.bits idx_byte) 9 0)
  let bit_left = u32 (btmp.btmp_bytes_len * 8 + 2 ^ 32 - bit_idx_start)
  if idx_byte == btmp.btmp_bytes_len
      then ok none
      else if cnt == 1
      then ok (some bit_idx_start)
      else ok (count_run btmp cnt bit_left (u32 (bit_idx_start + 1)) 1)
