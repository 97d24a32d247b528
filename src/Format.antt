-- ===== src/Format.antt =====
-- `partition_format` of fs/fs.c: the layout of a file system, and what is written for an empty one.
-- A disk and a buffer are their bytes, as in Inode; `sys_malloc` gives a cleared buffer.
pub mod Layout
pub mod FreeBlocks
mod Tests
use loong_os.Prelude.{
  ℕ, zero, suc, ◌+◌, ◌-◌, ◌*◌, ◌/◌, ◌%◌, ◌^◌, Bool, true, false, ◌&&◌, List, [], ◌∷◌, get_or, ltb,
  leb, ◌==◌, if◌then◌else◌, u32,
}
use loong_os.Prelude.Bits.{byte_set, byte_clear}
use loong_os.Inode.{Bytes, inode_size, byte_of, write_sectors, copy_to}

-- `struct super_block`
pub record SuperBlock : Type 0 where
  pub magic : ℕ
  pub sec_cnt : ℕ
  pub inode_cnt : ℕ
  pub part_lba_base : ℕ
  pub block_bitmap_lba : ℕ
  pub block_bitmap_sects : ℕ
  pub inode_bitmap_lba : ℕ
  pub inode_bitmap_sects : ℕ
  pub inode_table_lba : ℕ
  pub inode_table_sects : ℕ
  pub data_start_lba : ℕ
  pub root_inode_no : ℕ
  pub dir_entry_size : ℕ

-- `DIV_ROUND_UP`
abbrev pub div_round_up : ℕ → ℕ → ℕ
div_round_up x step = u32 (x + step - 1) / step

abbrev pub free_sectors : ℕ → ℕ
free_sectors sec_cnt =
    let used_sectors = 1 + 1 + div_round_up 4096 4096 + div_round_up (inode_size * 4096) 512 in
    u32 (sec_cnt + 2 ^ 32 - used_sectors)

-- The number of blocks: the free sectors less those of a bitmap that would cover them all.
unfoldable pub block_bitmap_bit_len : ℕ → ℕ
block_bitmap_bit_len sec_cnt =
    let free = free_sectors sec_cnt in u32 (free + 2 ^ 32 - div_round_up free 4096)

unfoldable pub format_super_block : ℕ → ℕ → SuperBlock
unfolding block_bitmap_bit_len
format_super_block start_lba sec_cnt =
    let block_bitmap_sects = div_round_up (block_bitmap_bit_len sec_cnt) 4096 in
    let inode_bitmap_sects = div_round_up 4096 4096 in
    let inode_table_sects = div_round_up (inode_size * 4096) 512 in
    let block_bitmap_lba = u32 (start_lba + 2) in
    let inode_bitmap_lba = u32 (block_bitmap_lba + block_bitmap_sects) in
    let inode_table_lba = u32 (inode_bitmap_lba + inode_bitmap_sects) in
    record {
      magic = 0x12345678;
      sec_cnt = sec_cnt;
      inode_cnt = 4096;
      part_lba_base = start_lba;
      block_bitmap_lba = block_bitmap_lba;
      block_bitmap_sects = block_bitmap_sects;
      inode_bitmap_lba = inode_bitmap_lba;
      inode_bitmap_sects = inode_bitmap_sects;
      inode_table_lba = inode_table_lba;
      inode_table_sects = inode_table_sects;
      data_start_lba = u32 (inode_table_lba + inode_table_sects);
      root_inode_no = 0;
      dir_entry_size = 24;
    }

abbrev pub put_byte : ℕ → ℕ → Bytes → Bytes
put_byte at v buf i = if i == at then v else buf i

abbrev pub put_word : ℕ → ℕ → Bytes → Bytes
put_word at w buf i = if leb at i && ltb i (at + 4) then byte_of w (i - at) else buf i

-- `memset(&buf[at], v, n)`
abbrev pub fill : ℕ → ℕ → ℕ → Bytes → Bytes
fill at v n buf i = if leb at i && ltb i (at + n) then v else buf i

abbrev pub cleared : Bytes
cleared i = 0

-- The structure as it lies in memory, with what the stack held in its `pad`.
unfoldable pub super_block_bytes : SuperBlock → Bytes → Bytes
super_block_bytes sb pad i =
    let words =
      sb.magic ∷ sb.sec_cnt ∷ sb.inode_cnt ∷ sb.part_lba_base ∷ sb.block_bitmap_lba
      ∷ sb.block_bitmap_sects ∷ sb.inode_bitmap_lba ∷ sb.inode_bitmap_sects ∷ sb.inode_table_lba
      ∷ sb.inode_table_sects ∷ sb.data_start_lba ∷ sb.root_inode_no ∷ sb.dir_entry_size ∷ [] in
    if ltb i 52 then byte_of (get_or words (i / 4) 0) (i % 4) else pad i

-- The loop that clears bits of the last byte: `left` of them from `index` on.
unfoldable pub clear_bits : ℕ → ℕ → ℕ → ℕ
clear_bits zero byte index = byte
clear_bits (suc left) byte index = clear_bits left (byte_clear byte index) (index + 1)

-- The block bitmap that is written.
unfoldable pub block_bitmap_buf : ℕ → Bytes
unfolding clear_bits
block_bitmap_buf bit_len =
    let last_byte = bit_len / 8 in
    let last_bit = bit_len % 8 in
    let last_size = 512 - last_byte % 512 in
    let buf = fill last_byte 0xff last_size (put_byte 0 (byte_set 0 0) cleared) in
    put_byte last_byte (clear_bits (last_bit + 1) (buf last_byte) 0) buf

unfoldable pub inode_bitmap_buf : Bytes
inode_bitmap_buf = put_byte 0 (byte_set 0 0) cleared

-- The inode of the root directory, of two entries in the first block.
unfoldable pub inode_table_buf : SuperBlock → Bytes
inode_table_buf sb =
    put_word 16 sb.data_start_lba
      (put_word 0 0 (put_word 4 (u32 (sb.dir_entry_size * 2)) (put_byte 0 (byte_set 0 0) cleared)))

-- The entries `.` and `..`, each a name of 16 bytes, the inode 0 and the type of a directory.
unfoldable pub root_buf : Bytes
root_buf =
    let dot : ℕ = b'.' in
    let first = put_word 20 2 (put_word 16 0 (put_byte 0 dot cleared)) in
    put_word 44 2 (put_word 40 0 (put_byte 25 dot (put_byte 24 dot first)))

-- The writes, for `bit_len` blocks.
unfoldable pub format_disk : ℕ → SuperBlock → ℕ → Bytes → Bytes → Bytes
unfolding super_block_bytes block_bitmap_buf inode_bitmap_buf inode_table_buf root_buf
format_disk start_lba sb bit_len pad disk =
    let disk₁ = write_sectors disk (u32 (start_lba + 1)) (super_block_bytes sb pad) 1 in
    let disk₂ =
      write_sectors disk₁ sb.block_bitmap_lba (block_bitmap_buf bit_len) sb.block_bitmap_sects in
    let disk₃ = write_sectors disk₂ sb.inode_bitmap_lba inode_bitmap_buf sb.inode_bitmap_sects in
    let disk₄ = write_sectors disk₃ sb.inode_table_lba (inode_table_buf sb) sb.inode_table_sects in
    write_sectors disk₄ sb.data_start_lba root_buf 1

unfoldable pub partition_format : ℕ → ℕ → Bytes → Bytes → Bytes
unfolding format_super_block format_disk
partition_format start_lba sec_cnt pad disk =
    format_disk start_lba (format_super_block start_lba sec_cnt) (block_bitmap_bit_len sec_cnt) pad
      disk
