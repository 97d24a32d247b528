-- ===== src/FileData/Write/Tests.antt =====
-- A file of 100 bytes in the block 5 gets 1000 more.
use loong_os.Prelude.{
  ℕ, zero, suc, ◌+◌, ◌-◌, ◌*◌, ◌%◌, ◌^◌, ◌<◌, ◌≡◌, refl, ok, panic, arith, if◌then◌else◌, ◌==◌, ltb,
  u32, true, false,
}
use loong_os.Bitmap.{Bitmap, bitmap_scan_test}
use loong_os.Inode.{Bytes}
use loong_os.FileData.Write.{Volume, Writing, file_write}
use loong_os.FileData.Write.Owns.{Sound, Owned, HasFree}
use loong_os.FileData.Write.Whole.{Extended, file_write_lem, file_write_limit}

abbrev part : Volume
part = record {
  inodes = record { start_lba = 63; sec_cnt = 5000; inode_table_lba = 67 };
  data_start_lba = 700;
  block_bitmap_lba = 65;
}

abbrev bitmap : Bitmap
bitmap = record { btmp_bytes_len = 512; bits = λ i. if i == 0 then 33 else 0 }

abbrev before : Writing
before = record {
  disk = λ a. a % 256;
  block_bitmap = bitmap;
  inode = record { i_size = 100; i_sectors = λ k. if k == 0 then 705 else 0 };
  all_blocks = λ i. 0;
  fd_pos = 0;
}

abbrev src : Bytes
src i = 7

bitmap-Sound : Sound part bitmap
bitmap-Sound = record {
  inodes = record { table = omega arith; small = omega arith };
  bitmap = omega arith;
  table = omega arith;
  small = omega arith;
  bits = record { bytes = λ i. ground arith; small = omega arith };
}

before-Owned : Owned part bitmap before.inode.i_sectors 1
unfolding bitmap_scan_test
before-Owned = record {
  placed = λ k lt. ground arith;
  taken = λ k lt. let e : k ≡ 0 = omega arith in rw e refl;
  distinct = λ k l lt lt'. absurd (omega arith);
  unused = λ k lo hi. ground arith;
  root = refl;
}

two_free : (i : ℕ) → i < 2 → bitmap_scan_test bitmap (i + 1) ≡ false
unfolding bitmap_scan_test
two_free zero lt = refl
two_free (suc zero) lt = refl
two_free (suc (suc i)) lt = absurd (omega arith)

two-HasFree : HasFree bitmap 2
two-HasFree = record {
  block = λ i. i + 1;
  inside = λ i lt. omega arith;
  free = two_free;
  order = λ i j lt lt'. omega arith;
}

file_write_example :
    Extended part src 1000 before (file_write part true true true 3 src src 1000 before)
file_write_example =
    file_write_lem part 3 src src 1000 before (λ e. absurd (ground (arith, e))) (omega arith)
      bitmap-Sound before-Owned two-HasFree

abbrev long : Writing
long = record before { inode = record { i_size = 71000; i_sectors = λ k. 701 + k } }

file_write_limit_example :
    file_write part true true true 3 src src 500 long
    ≡ (if ltb (140 * 512) (u32 (71000 + 500)) then ok (2 ^ 32 - 1, long) else panic)
file_write_limit_example = file_write_limit part 3 src src 500 long refl (omega arith)
