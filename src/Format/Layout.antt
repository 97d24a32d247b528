-- ===== src/Format/Layout.antt =====
-- The regions of a file system follow one another inside the partition, so what is written to one
-- stays there.
use loong_os.Prelude.{
  ℕ, ◌+◌, ◌-◌, ◌*◌, ◌/◌, ◌^◌, ◌≤◌, ◌<◌, ◌≡◌, arith, ltb, leb, ◌&&◌, if◌then◌else◌,
}
use loong_os.Inode.{Bytes, Partition}
use loong_os.Inode.Place
use loong_os.Format.{
  SuperBlock, block_bitmap_bit_len, format_super_block, super_block_bytes, block_bitmap_buf,
  inode_bitmap_buf, inode_table_buf, root_buf,
}

-- The blocks that a partition of `sec_cnt` sectors has besides the table of inodes.
abbrev pub block_cnt : ℕ → ℕ
block_cnt sec_cnt = sec_cnt - 611 - (sec_cnt - 611 + 4095) / 4096

pub bit_len_lem :
    (sec_cnt : ℕ)
    → 700 ≤ sec_cnt
    → sec_cnt < 2 ^ 31
    → block_bitmap_bit_len sec_cnt ≡ block_cnt sec_cnt
unfolding block_bitmap_bit_len
bit_len_lem sec_cnt enough small = omega arith

pub record Laid (start_lba sec_cnt : ℕ) (sb : SuperBlock) : Type 0 where
  pub block_bitmap : sb.block_bitmap_lba ≡ start_lba + 2
  pub inode_bitmap : sb.inode_bitmap_lba ≡ sb.block_bitmap_lba + sb.block_bitmap_sects
  pub inode_bitmap_sects : sb.inode_bitmap_sects ≡ 1
  pub inode_table : sb.inode_table_lba ≡ sb.inode_bitmap_lba + 1
  pub inode_table_sects : sb.inode_table_sects ≡ 608
  pub first_block : sb.data_start_lba ≡ sb.inode_table_lba + 608
  pub blocks : sb.data_start_lba + block_cnt sec_cnt ≤ start_lba + sec_cnt
  pub some_block : 8 ≤ block_cnt sec_cnt
  pub bits : sb.block_bitmap_sects ≡ (block_cnt sec_cnt + 4095) / 4096

pub format_super_block-Laid :
    (start_lba sec_cnt : ℕ)
    → 700 ≤ sec_cnt
    → start_lba + sec_cnt < 2 ^ 31
    → Laid start_lba sec_cnt (format_super_block start_lba sec_cnt)
unfolding format_super_block block_bitmap_bit_len
format_super_block-Laid start_lba sec_cnt enough small = record {
  block_bitmap = omega arith;
  inode_bitmap = omega arith;
  inode_bitmap_sects = omega arith;
  inode_table = omega arith;
  inode_table_sects = omega arith;
  first_block = omega arith;
  blocks = omega arith;
  some_block = omega arith;
  bits = omega arith;
}

abbrev pub part_of : ℕ → ℕ → Partition
part_of start_lba sec_cnt = record {
  start_lba = start_lba;
  sec_cnt = sec_cnt;
  inode_table_lba = (format_super_block start_lba sec_cnt).inode_table_lba;
}

-- The `n` sectors from `lba` on, a buffer of `n` sectors, and what is not of a partition; zero
-- elsewhere.
abbrev pub region : Bytes → ℕ → ℕ → Bytes
region disk lba n i = if ltb i (n * 512) then disk (lba * 512 + i) else 0

abbrev pub cut : ℕ → Bytes → Bytes
cut n buf i = if ltb i (n * 512) then buf i else 0

abbrev pub outside : ℕ → ℕ → Bytes → Bytes
outside start_lba sec_cnt disk a =
    if leb (start_lba * 512) a && ltb a ((start_lba + sec_cnt) * 512) then 0 else disk a

-- What the disk holds once it is formatted.
abbrev pub Formatted : ℕ → ℕ → SuperBlock → Bytes → Bytes → Bytes → ℕ → Type 0
Formatted start_lba sec_cnt sb pad disk disk' i =
    (region disk' (start_lba + 1) 1 i ≡ cut 1 (super_block_bytes sb pad) i)
    × (region disk' sb.block_bitmap_lba sb.block_bitmap_sects i
        ≡ cut sb.block_bitmap_sects (block_bitmap_buf (block_cnt sec_cnt)) i)
    × (region disk' sb.inode_bitmap_lba sb.inode_bitmap_sects i
        ≡ cut sb.inode_bitmap_sects inode_bitmap_buf i)
    × (region disk' sb.inode_table_lba sb.inode_table_sects i
        ≡ cut sb.inode_table_sects (inode_table_buf sb) i)
    × (region disk' sb.data_start_lba 1 i ≡ cut 1 root_buf i)
    × (outside start_lba sec_cnt disk' i ≡ outside start_lba sec_cnt disk i)
