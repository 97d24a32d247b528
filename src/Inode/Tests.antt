-- ===== src/Inode/Tests.antt =====
-- Writing inodes of a partition whose table stands from sector 100 on.
use loong_os.Prelude.{ℕ, ◌%◌, ◌^◌, ◌<◌, ◌≡◌, ok, arith}
use loong_os.Inode.{
  Bytes, Partition, i_no, pure_inode, inode_init, inode_sync, inode_delete, inode_load,
}
use loong_os.Inode.Place.{IsValid, Written, inode_sync_lem, inode_delete_lem, inode_sync-inode_init}

abbrev part : Partition
part = record { start_lba = 63; sec_cnt = 10000; inode_table_lba = 100 }

part-IsValid : IsValid part
part-IsValid = record { table = omega arith; small = omega arith }

abbrev blank : Bytes
blank i = 0

abbrev counting : Bytes
counting a = a % 256

inode_sync_example :
    Written part
      (i_no counting % 2 ^ 8)
      (pure_inode counting)
      counting
      7
      blank
      (inode_sync part counting blank counting)
inode_sync_example = inode_sync_lem part counting blank blank counting 7 part-IsValid (omega arith)

inode_delete_example : Written part 6 (λ i. 0) counting 7 blank (inode_delete part 6 blank counting)
inode_delete_example =
    inode_delete_lem part 6 blank blank counting 7 part-IsValid (omega arith) (omega arith)

inode_sync-inode_init_example :
    (disk' b b' other : Bytes) × (inode_sync part (inode_init 258 blank) blank counting ≡ ok disk')
    × (inode_load part 258 blank counting ≡ ok b)
    × (inode_load part 258 blank disk' ≡ ok b')
    × ((i : ℕ) → i < 76 → b' i ≡ b i)
    × (inode_load part 2 blank disk' ≡ ok other)
    × (i_no other ≡ 258)
inode_sync-inode_init_example =
    inode_sync-inode_init part 258 blank blank blank counting part-IsValid (omega arith)
      (omega arith)
