-- ===== src/Inode.antt =====
-- fs/inode.c: where an inode stands on the disk, and how it is written, cleared and read.
-- A disk is its bytes, and a buffer those from its start. What the drive does on `ide_read` and
-- `ide_write` is to copy whole sectors between the two.
pub mod Place
mod Tests
use loong_os.Prelude.{
  ℕ, zero, suc, ◌+◌, ◌-◌, ◌*◌, ◌/◌, ◌%◌, ◌^◌, Bool, true, false, not, ◌&&◌, ◌||◌, Outcome, ok,
  panic, ◌>>=◌, ◌>>◌, assert, ltb, leb, ◌==◌, if◌then◌else◌, u32,
}

abbrev pub Bytes : Type 0
Bytes = ℕ → ℕ

-- The fields of `struct partition` and of its superblock that are read here.
pub record Partition : Type 0 where
  pub start_lba : ℕ
  pub sec_cnt : ℕ
  pub inode_table_lba : ℕ

pub record InodePosition : Type 0 where
  pub two_sec : Bool
  pub sec_lba : ℕ
  pub off_size : ℕ

-- `sizeof(struct inode)`
abbrev pub inode_size : ℕ
inode_size = 76

unfoldable pub inode_locate : Partition → ℕ → Outcome InodePosition
inode_locate part inode_no = do
  assert (ltb inode_no 4096)
  let off_size = u32 (inode_no * inode_size)
  let off_sec = off_size / 512
  let off_size_in_sec = off_size % 512
  let left_in_sector = 512 - off_size_in_sec
  ok (record {
    two_sec = if ltb inode_size left_in_sector then false else true;
    sec_lba = u32 (part.inode_table_lba + off_sec);
    off_size = off_size_in_sec;
  })

abbrev pub read_sectors : Bytes → ℕ → Bytes → ℕ → Bytes
read_sectors disk lba buf n i = if ltb i (n * 512) then disk (lba * 512 + i) else buf i

abbrev pub write_sectors : Bytes → ℕ → Bytes → ℕ → Bytes
write_sectors disk lba buf n a =
    if leb (lba * 512) a && ltb a ((lba + n) * 512) then buf (a - lba * 512) else disk a

-- `memcpy(buf + off, src, n)`
abbrev pub copy_to : Bytes → ℕ → Bytes → ℕ → Bytes
copy_to buf off src n i = if leb off i && ltb i (off + n) then src (i - off) else buf i

-- `inode->i_no`, the first word.
abbrev pub i_no : Bytes → ℕ
i_no inode = inode 0 + 2 ^ 8 * inode 1 + 2 ^ 16 * inode 2 + 2 ^ 24 * inode 3

-- The inode without `i_open_cnts`, `write_deny` and `inode_tag`.
unfoldable pub pure_inode : Bytes → Bytes
pure_inode inode i = if (leb 8 i && ltb i 16) || (leb 68 i && ltb i 76) then 0 else inode i

abbrev pub sectors : InodePosition → ℕ
sectors inode_pos = if inode_pos.two_sec then 2 else 1

-- The sectors of an inode are read, the inode's bytes put in, and the sectors written.
unfoldable pub put_inode : InodePosition → Bytes → Bytes → Bytes → Bytes
put_inode inode_pos src io_buf disk =
    let n = sectors inode_pos in
    let inode_buf =
      copy_to (read_sectors disk inode_pos.sec_lba io_buf n) inode_pos.off_size src inode_size in
    write_sectors disk inode_pos.sec_lba inode_buf n

abbrev pub in_partition : Partition → InodePosition → Bool
in_partition part inode_pos = leb inode_pos.sec_lba (u32 (part.start_lba + part.sec_cnt))

-- `uint8_t inode_no = inode->i_no`
unfoldable pub inode_sync : Partition → Bytes → Bytes → Bytes → Outcome Bytes
unfolding inode_locate put_inode pure_inode
inode_sync part inode io_buf disk = do
  let inode_no = i_no inode % 2 ^ 8
  inode_pos ← inode_locate part inode_no
  assert (in_partition part inode_pos)
  ok (put_inode inode_pos (pure_inode inode) io_buf disk)

unfoldable pub inode_delete : Partition → ℕ → Bytes → Bytes → Outcome Bytes
unfolding inode_locate put_inode
inode_delete part inode_no io_buf disk = do
  assert (ltb inode_no 4096)
  inode_pos ← inode_locate part inode_no
  assert (in_partition part inode_pos)
  ok (put_inode inode_pos (λ i. 0) io_buf disk)

-- What `inode_open` reads into a new buffer when the inode is not open yet.
unfoldable pub inode_load : Partition → ℕ → Bytes → Bytes → Outcome Bytes
unfolding inode_locate
inode_load part inode_no new_buf disk = do
  inode_pos ← inode_locate part inode_no
  let inode_buf = read_sectors disk inode_pos.sec_lba new_buf (sectors inode_pos)
  ok (λ i. inode_buf (inode_pos.off_size + i))

-- The byte `i` of the word `n`.
abbrev pub byte_of : ℕ → ℕ → ℕ
byte_of n i = n / (2 ^ 8) ^ i % 2 ^ 8

-- `i_no` is set and the fields behind it are cleared; `inode_tag` stays.
unfoldable pub inode_init : ℕ → Bytes → Bytes
inode_init inode_no new_inode i =
    if ltb i 4 then byte_of inode_no i else if ltb i 68 then 0 else new_inode i
