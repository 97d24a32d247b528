-- ===== src/Format/Tests.antt =====
-- A partition of 5000 sectors from sector 63 on.
use loong_os.Prelude.{◌+◌, ◌*◌, ◌<◌, ◌≡◌, arith, ltb, ◌==◌, ◌||◌}
use loong_os.Bitmap.{bitmap_scan_test}
use loong_os.Inode.{Bytes}
use loong_os.Inode.Place
use loong_os.Format.{block_bitmap_bit_len, format_super_block}
use loong_os.Format.Layout.{block_cnt}
use loong_os.Format.FreeBlocks.{written_bitmap, spared, free_blocks_lem}

abbrev blank : Bytes
blank i = 0

inside : 4387 < (format_super_block 63 5000).block_bitmap_sects * 4096
unfolding format_super_block
inside = omega arith

-- 4387 blocks are counted, and that with the number 4387 is free, though it lies behind the partition.
free_blocks_example :
    (bitmap_scan_test (written_bitmap (block_bitmap_bit_len 5000)) 4387
      ≡ ((4387 == 0) || ltb (block_cnt 5000) 4387))
    × ((format_super_block 63 5000).data_start_lba + block_cnt 5000 + spared 5000 ≡ 63 + 5000)
free_blocks_example = free_blocks_lem 63 5000 4387 (omega arith) (omega arith) inside
