-- ===== src/Bitmap/Tests.antt =====
-- Runs of the bitmap's routines, and its theorems at concrete bitmaps.
use loong_os.Prelude.{
  ℕ, ◌≡◌, refl, true, Option, none, some, arith, ◌==◌, ok, panic, if◌then◌else◌, ◌<◌, ◌+◌, ◌%◌,
}
use loong_os.Prelude.Bits.{tried, tried_at, bit_of_255}
use loong_os.Bitmap.{Bitmap, bitmap_scan_test, bitmap_scan}
use loong_os.Bitmap.Scan.{IsLeastRun}
use loong_os.Bitmap.Runs.{IsValid, size, bitmap_scan_run, bitmap_scan_full, bitmap_scan_overrun}

-- Bits 0 to 6 are set, bit 7 is not, and the memory behind is zero.
abbrev last_free : Bitmap
last_free = record { btmp_bytes_len = 1; bits = λ i. if i == 0 then 0x7f else 0 }

-- The free runs of these two bytes are 1 to 2 and 9 to 15.
abbrev gaps : Bitmap
gaps = record {
  btmp_bytes_len = 2;
  bits = λ i. if i == 0 then 0xf9 else if i == 1 then 0x01 else 0;
}

abbrev full : Bitmap
full = record { btmp_bytes_len = 2; bits = λ i. 255 }

last_free-IsValid : IsValid last_free
last_free-IsValid = record { bytes = λ i. ground arith; small = omega arith }

gaps-IsValid : IsValid gaps
gaps-IsValid = record { bytes = λ i. ground arith; small = omega arith }

full-IsValid : IsValid full
full-IsValid = record { bytes = λ i. omega arith; small = omega arith }

scan_three : bitmap_scan gaps 3 ≡ ok (some 9)
unfolding bitmap_scan
scan_three = refl

scan_two : bitmap_scan gaps 2 ≡ ok (some 1)
unfolding bitmap_scan
scan_two = refl

scan_nine : bitmap_scan gaps 9 ≡ ok none
unfolding bitmap_scan
scan_nine = refl

bitmap_scan_run_example :
    (r : Option ℕ) × (bitmap_scan gaps 3 ≡ ok r) × IsLeastRun gaps 3 (size gaps + 1) r
unfolding bitmap_scan_test
bitmap_scan_run_example = bitmap_scan_run gaps 3 9 gaps-IsValid (omega arith) (omega arith) refl

all_full : (j : ℕ) → j < size full → bitmap_scan_test full j ≡ true
unfolding bitmap_scan_test
all_full j h = bit_of_255 (j % 8) (omega arith)

bitmap_scan_full_example : bitmap_scan full 3 ≡ panic
bitmap_scan_full_example = bitmap_scan_full full 3 full-IsValid all_full

below_last : (j : ℕ) → j < 7 → bitmap_scan_test last_free j ≡ true
unfolding bitmap_scan_test tried
below_last j h = tried_at 7 (bitmap_scan_test last_free) j refl h

bitmap_scan_overrun_example : bitmap_scan last_free 2 ≡ ok (some 7)
unfolding bitmap_scan_test
bitmap_scan_overrun_example =
    bitmap_scan_overrun last_free 7 last_free-IsValid (omega arith) below_last refl refl
