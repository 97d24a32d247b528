-- ===== src/FileData.antt =====
-- `file_read` and `file_write` of fs/file.c: which blocks a file has and what is copied.
-- A disk and a buffer are their bytes, as in Inode. `all_blocks` is the function from an index to the
-- word there; `sys_malloc` gives cleared memory, and `true` in the place of a buffer says that it did
-- not fail.
pub mod Reading
pub mod Write
mod Tests
use loong_os.Prelude.{
  ℕ, zero, suc, ◌+◌, ◌-◌, ◌*◌, ◌/◌, ◌%◌, ◌^◌, Bool, true, false, not, ◌&&◌, ◌||◌, Option, none,
  some, Outcome, ok, panic, fault, ◌>>=◌, ◌>>◌, assert, ltb, leb, ◌==◌, if◌then◌else◌, u32,
}
use loong_os.Inode.{Bytes, byte_of, read_sectors, write_sectors, copy_to}

-- The fields of `struct inode` that say where the data of a file are.
pub record FileInode : Type 0 where
  pub i_size : ℕ
  pub i_sectors : ℕ → ℕ

abbrev pub Blocks : Type 0
Blocks = ℕ → ℕ

abbrev pub set_block : ℕ → ℕ → Blocks → Blocks
set_block idx lba all_blocks i = if i == idx then lba else all_blocks i

abbrev pub word_at : Bytes → ℕ → ℕ
word_at disk a = disk a + 2 ^ 8 * disk (a + 1) + 2 ^ 16 * disk (a + 2) + 2 ^ 24 * disk (a + 3)

-- `ide_read(disk, lba, all_blocks + 12, 1)`
abbrev pub read_table : Bytes → ℕ → Blocks → Blocks
read_table disk lba all_blocks i =
    if leb 12 i && ltb i 140 then word_at disk (lba * 512 + (i - 12) * 4) else all_blocks i

-- The loops that copy direct blocks: `left` of them from `block_idx` on.
pub copy_direct : ℕ → (ℕ → ℕ) → ℕ → Blocks → Blocks
copy_direct zero i_sectors block_idx all_blocks = all_blocks
copy_direct (suc left) i_sectors block_idx all_blocks =
    copy_direct left i_sectors (block_idx + 1)
      (set_block block_idx (i_sectors block_idx) all_blocks)

-- The blocks that `file_read` collects for the sectors from `start` to `end` of the file.
pub collect_read : Bytes → FileInode → ℕ → ℕ → Outcome Blocks
unfolding copy_direct
collect_read disk inode start end =
    let none_yet : Blocks = λ i. 0 in
    let table = read_table disk (inode.i_sectors 12) in
    let has_table = not (inode.i_sectors 12 == 0) in
    if end == start
    then if ltb end 12
      then ok (set_block start (inode.i_sectors start) none_yet)
      else ok (table none_yet)
    else if ltb end 12
    then ok (copy_direct (end + 1 - start) inode.i_sectors start none_yet)
    else if ltb start 12 && ltb 12 end
    then assert has_table >> ok (table (copy_direct (13 - start) inode.i_sectors start none_yet))
    else assert has_table >> ok (table none_yet)

-- What a call of `file_read` gives: the bytes read, the buffer and the new `fd_pos`.
pub record Read : Type 0 where
  pub bytes_read : ℕ
  pub buf : Bytes
  pub fd_pos : ℕ

-- The loop that reads one sector after the other.
pub read_loop : ℕ → Bytes → Blocks → ℕ → Read → ℕ → Outcome Read
read_loop zero disk all_blocks size r size_left = fault
read_loop (suc rounds) disk all_blocks size r size_left =
    let sec_lba = all_blocks (r.fd_pos / 512) in
    let sec_off_bytes = r.fd_pos % 512 in
    let sec_left_bytes = 512 - sec_off_bytes in
    let chunk_size = if ltb sec_left_bytes size_left then sec_left_bytes else size_left in
    let io_buf = read_sectors disk sec_lba (λ i. 0) 1 in
    let r' : Read = record {
      bytes_read = u32 (r.bytes_read + chunk_size);
      buf = copy_to r.buf r.bytes_read (λ i. io_buf (sec_off_bytes + i)) chunk_size;
      fd_pos = u32 (r.fd_pos + chunk_size);
    } in
    let rest = read_loop rounds disk all_blocks size r' (size_left - chunk_size) in
    if ltb r.bytes_read size then rest else ok r

-- Up to 139 sectors, the loop ends in one more round; further ones would be behind `all_blocks`.
unfoldable pub file_read : Bool → Bool → Bytes → FileInode → ℕ → Bytes → ℕ → Outcome (Option Read)
file_read has_io_buf has_all_blocks disk inode fd_pos buf count =
    let past_end = ltb inode.i_size (u32 (fd_pos + count)) in
    let size = if past_end then u32 (inode.i_size + 2 ^ 32 - fd_pos) else count in
    let start = fd_pos / 512 in
    let end = u32 (fd_pos + size) / 512 in
    let read = (do
      assert (ltb start 139 && ltb end 139)
      all_blocks ← collect_read disk inode start end
      r ←
          read_loop 140 disk all_blocks size (record { bytes_read = 0; buf = buf; fd_pos = fd_pos })
            size
      ok (some r)) in
    if past_end && (size == 0)
    then ok none
    else if not has_io_buf
    then ok none
    else if not has_all_blocks
    then ok none
    else read
