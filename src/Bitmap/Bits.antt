-- ===== src/Bitmap/Bits.antt =====
-- `bitmap_set`, `bitmap_scan_test` and `bitmap_init` as operations on a sequence of bits.
use loong_os.Prelude.{
  ℕ, ◌*◌, ◌/◌, ◌%◌, ◌<◌, ◌≡◌, Bool, true, false, ok, arith, ltb, ◌==◌, if◌then◌else◌,
}
use loong_os.Prelude.Bits.{
  byte_set, byte_clear, bit_of-byte_set, bit_of-byte_clear, byte_range, bit_of_zero,
}
use loong_os.Bitmap.{Bitmap, bitmap_init, bitmap_scan_test, write_byte, bitmap_set}

-- Every cell of the memory is a byte.
abbrev pub IsBytes : Bitmap → Type 0
IsBytes b = (i : ℕ) → b.bits i < 256

-- What `bitmap_set` leaves when `value` is 0 or 1.
pub written : Bitmap → ℕ → Bool → Bitmap
unfolding write_byte
written b i v =
    write_byte b (i / 8)
      (if v then byte_set (b.bits (i / 8)) (i % 8) else byte_clear (b.bits (i / 8)) (i % 8))

pub bitmap_set-written :
    (b : Bitmap) (i : ℕ) (v : ℕ) → v < 2 → bitmap_set b i v ≡ ok (written b i (v == 1))
unfolding bitmap_set written
bitmap_set-written b i v h = ground arith

pub test-written :
    (b : Bitmap) (i : ℕ) (v : Bool) (j : ℕ)
    → IsBytes b
    → bitmap_scan_test (written b i v) j ≡ (if i == j then v else bitmap_scan_test b j)
unfolding written bitmap_scan_test
test-written b i true j h = ground (
  arith,
  bit_of-byte_set (b.bits (i / 8)) (i % 8) (j % 8) (h (i / 8)) (omega arith) (omega arith),
)
test-written b i false j h = ground (
  arith,
  bit_of-byte_clear (b.bits (i / 8)) (i % 8) (j % 8) (h (i / 8)) (omega arith) (omega arith),
)

pub IsBytes-written : (b : Bitmap) (i : ℕ) (v : Bool) → IsBytes b → IsBytes (written b i v)
unfolding written
IsBytes-written b i true h j = ground (arith, h j, byte_range (b.bits (i / 8)) (i % 8) (h (i / 8)))
IsBytes-written b i false h j = ground (arith, h j, byte_range (b.bits (i / 8)) (i % 8) (h (i / 8)))

pub len-written :
    (b : Bitmap) (i : ℕ) (v : Bool) → (written b i v).btmp_bytes_len ≡ b.btmp_bytes_len
unfolding written
len-written b i v = ground arith

-- For a value of 0 or 1, `bitmap_set` does not panic: the bit at `i` reads as the value afterwards,
-- every other bit reads as before, the cells stay bytes and the length is kept.
pub bitmap_set_lem :
    (b : Bitmap) (i v : ℕ)
    → IsBytes b
    → v < 2
    → (b' : Bitmap) × (bitmap_set b i v ≡ ok b')
      × ((j : ℕ) → bitmap_scan_test b' j ≡ (if i == j then v == 1 else bitmap_scan_test b j))
      × IsBytes b'
      × (b'.btmp_bytes_len ≡ b.btmp_bytes_len)
bitmap_set_lem b i v h hv = (
  written b i (v == 1),
  bitmap_set-written b i v hv,
  λ j. test-written b i (v == 1) j h,
  IsBytes-written b i (v == 1) h,
  len-written b i (v == 1),
)

pub test-bitmap_init :
    (b : Bitmap) (j : ℕ)
    → bitmap_scan_test (bitmap_init b) j
      ≡ (if ltb j (b.btmp_bytes_len * 8) then false else bitmap_scan_test b j)
unfolding bitmap_init bitmap_scan_test
test-bitmap_init b j = ground (arith, bit_of_zero (j % 8) (omega arith))
