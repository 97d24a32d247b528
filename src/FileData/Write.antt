-- ===== src/FileData/Write.antt =====
-- `file_write` of fs/file.c: the blocks that a file needs are taken from the block bitmap, the data
-- are written behind its end, and the inode is brought to the disk.
-- A result -1 is the number `minus_one`, what the word holds.
pub mod Appends
pub mod Owns
pub mod Grows
pub mod Collects
pub mod Whole
mod Tests
use loong_os.Prelude.{
  ℕ, zero, suc, ◌+◌, ◌-◌, ◌*◌, ◌/◌, ◌%◌, ◌^◌, Bool, true, false, not, ◌&&◌, ◌||◌, Option, none,
  some, Outcome, ok, panic, fault, ◌>>=◌, ◌>>◌, assert, ltb, leb, ◌==◌, if◌then◌else◌, u32,
}
use loong_os.Bitmap.{Bitmap, bitmap_scan, bitmap_set}
use loong_os.Inode.{Bytes, Partition, byte_of, read_sectors, write_sectors, copy_to, inode_sync}
use loong_os.FileData.{FileInode, Blocks, set_block, read_table}

abbrev pub minus_one : ℕ
minus_one = 2 ^ 32 - 1

-- The fields of `cur_part` that are read here, those for the inodes in `inodes`.
pub record Volume : Type 0 where
  pub inodes : Partition
  pub data_start_lba : ℕ
  pub block_bitmap_lba : ℕ

-- What a call of `file_write` changes: the disk, the block bitmap in memory, the inode, the table
-- of blocks and the position in the file.
pub record Writing : Type 0 where
  pub disk : Bytes
  pub block_bitmap : Bitmap
  pub inode : FileInode
  pub all_blocks : Blocks
  pub fd_pos : ℕ

abbrev mark_index : Volume → Bitmap → Option ℕ → Outcome (ℕ × Bitmap)
mark_index part block_bitmap none = ok (minus_one, block_bitmap)
mark_index part block_bitmap (some index) = do
  marked ← bitmap_set block_bitmap index 1
  ok (u32 (part.data_start_lba + index), marked)

unfoldable pub block_bitmap_alloc : Volume → Bitmap → Outcome (ℕ × Bitmap)
block_bitmap_alloc part block_bitmap = do
  found ← bitmap_scan block_bitmap 1
  mark_index part block_bitmap found

-- The sector with the bit `bit_idx` of a bitmap whose first sector is `bitmap_lba`.
abbrev pub bitmap_sync : ℕ → Bitmap → ℕ → Bytes → Bytes
bitmap_sync bitmap_lba btmp bit_idx disk =
    let off_sec = bit_idx / 4096 in
    let off_size = off_sec * 512 in
    write_sectors disk (u32 (bitmap_lba + off_sec)) (λ i. btmp.bits (off_size + i)) 1

abbrev block_bitmap_idx : Volume → ℕ → ℕ
block_bitmap_idx part block_lba = u32 (block_lba + 2 ^ 32 - part.data_start_lba)

abbrev pub sync_block : Volume → ℕ → Writing → Writing
sync_block part block_lba w = record w {
  disk = bitmap_sync part.block_bitmap_lba w.block_bitmap (block_bitmap_idx part block_lba) w.disk;
}

abbrev pub set_sector : ℕ → ℕ → FileInode → FileInode
set_sector idx lba inode = record inode {
  i_sectors = λ i. if i == idx then lba else inode.i_sectors i;
}

abbrev pub put_block : ℕ → ℕ → Writing → Writing
put_block idx lba w = record w { all_blocks = set_block idx lba w.all_blocks }

-- `fd_inode->i_sectors[idx] = all_blocks[idx] = lba`
abbrev pub put_direct : ℕ → ℕ → Writing → Writing
put_direct idx lba w = record (put_block idx lba w) { inode = set_sector idx lba w.inode }

-- What the loops of the three situations do with a new block, up to writing the bitmap.
abbrev pub put₁ : Volume → ℕ → ℕ → Writing → Outcome Writing
put₁ part idx lba w =
    assert (w.inode.i_sectors idx == 0)
    >> assert (not (block_bitmap_idx part lba == 0))
    >> ok (put_direct idx lba w)

abbrev pub put₂ : ℕ → ℕ → Writing → Outcome Writing
put₂ idx lba w =
    if ltb idx 12
    then assert (w.inode.i_sectors idx == 0) >> ok (put_direct idx lba w)
    else ok (put_block idx lba w)

abbrev pub put₃ : ℕ → ℕ → Writing → Outcome Writing
put₃ idx lba w = ok (put_block idx lba w)

-- These loops, with `left` blocks to go; `false` says that the bitmap gave no block.
unfoldable pub grow :
    (ℕ → ℕ → Writing → Outcome Writing) → Volume → ℕ → ℕ → Writing → Outcome (Bool × Writing)
unfolding block_bitmap_alloc
grow put part zero block_idx w = ok (true, w)
grow put part (suc left) block_idx w = do
  (block_lba, block_bitmap) ← block_bitmap_alloc part w.block_bitmap
  let w₁ = record w { block_bitmap = block_bitmap }
  let more = (do
    w₂ ← put block_idx block_lba w₁
    grow put part left (block_idx + 1) (sync_block part block_lba w₂))
  if block_lba == minus_one then ok (false, w₁) else more

-- The first block of a file that has none.
unfoldable pub first_block : Volume → Writing → Outcome (Bool × Writing)
unfolding block_bitmap_alloc
first_block part w =
    let more = (do
      (block_lba, block_bitmap) ← block_bitmap_alloc part w.block_bitmap
      let w₁ = record w { block_bitmap = block_bitmap; inode = set_sector 0 block_lba w.inode }
      let marked = (do
        assert (not (block_bitmap_idx part block_lba == 0))
        ok (true, sync_block part block_lba w₁))
      if block_lba == minus_one
          then ok (false, record w { block_bitmap = block_bitmap })
          else marked) in
    if w.inode.i_sectors 0 == 0 then more else ok (true, w)

abbrev pub last_block : ℕ → Writing → Writing
last_block has w = put_block (has - 1) (w.inode.i_sectors (has - 1)) w

abbrev load_table : Writing → Writing
load_table w = record w { all_blocks = read_table w.disk (w.inode.i_sectors 12) w.all_blocks }

-- `ide_write(disk, lba, all_blocks + 12, 1)`, when the loop before found its blocks.
abbrev store_table : ℕ → Bool × Writing → Bool × Writing
store_table lba (false, w) = (false, w)
store_table lba (true, w) = (
  true,
  record w { disk = write_sectors w.disk lba (λ i. byte_of (w.all_blocks (12 + i / 4)) (i % 4)) 1 },
)

-- The second situation, in which the file gets its table.
unfoldable pub grow_table : Volume → ℕ → ℕ → Writing → Outcome (Bool × Writing)
unfolding block_bitmap_alloc grow
grow_table part has will w = do
  (table, block_bitmap) ← block_bitmap_alloc part w.block_bitmap
  let w₁ = record w { block_bitmap = block_bitmap }
  let more = (do
    assert (w₁.inode.i_sectors 12 == 0)
    let w₂ = record w₁ { inode = set_sector 12 table w₁.inode }
    grown ← grow put₂ part (will - has) has w₂
    ok (store_table table grown))
  if table == minus_one then ok (false, w₁) else more

-- The part that collects the blocks into `all_blocks`.
unfoldable pub collect_write : Volume → ℕ → ℕ → Writing → Outcome (Bool × Writing)
unfolding grow grow_table
collect_write part has will w =
    let has_table = not (w.inode.i_sectors 12 == 0) in
    if will == has
    then if leb will 12
      then ok (true, last_block has w)
      else assert has_table >> ok (true, load_table w)
    else if leb will 12
    then assert (not (w.inode.i_sectors (has - 1) == 0))
      >> grow (put₁ part) part (will - has) has (last_block has w)
    else if leb has 12
    then grow_table part has will (last_block has w)
    else assert has_table >> (do
      grown ← grow put₃ part (will - has) has (load_table w)
      ok (store_table (w.inode.i_sectors 12) grown))

-- The loop that writes one sector after the other.
unfoldable pub write_loop : ℕ → Bytes → ℕ → Bool → Writing → ℕ → ℕ → Outcome (ℕ × Writing)
write_loop zero src count first_write_block w bytes_written size_left = fault
write_loop (suc rounds) src count first_write_block w bytes_written size_left =
    let i_size = w.inode.i_size in
    let sec_lba = w.all_blocks (i_size / 512) in
    let sec_off_bytes = i_size % 512 in
    let sec_left_bytes = 512 - sec_off_bytes in
    let chunk_size = if ltb sec_left_bytes size_left then sec_left_bytes else size_left in
    let zeros : Bytes = λ i. 0 in
    let io_buf = if first_write_block then read_sectors w.disk sec_lba zeros 1 else zeros in
    let joined = copy_to io_buf sec_off_bytes (λ i. src (bytes_written + i)) chunk_size in
    let w' : Writing = record w {
      disk = write_sectors w.disk sec_lba joined 1;
      inode = record w.inode { i_size = u32 (i_size + chunk_size) };
      fd_pos = u32 (w.fd_pos + chunk_size);
    } in
    let rest =
      write_loop rounds src count false w' (u32 (bytes_written + chunk_size))
        (size_left - chunk_size) in
    if ltb bytes_written count then rest else ok (bytes_written, w)

-- An inode as bytes, with those of the fields that are not in `FileInode`.
abbrev pub inode_bytes : ℕ → Bytes → FileInode → Bytes
inode_bytes i_no others inode i =
    if ltb i 4
    then byte_of i_no i
    else if ltb i 8
    then byte_of inode.i_size (i - 4)
    else if leb 16 i && ltb i 68
    then byte_of (inode.i_sectors ((i - 16) / 4)) ((i - 16) % 4)
    else others i

-- What follows when the blocks are there: the data, and the inode.
unfoldable pub write_data : Volume → Bool → ℕ → Bytes → Bytes → ℕ → Writing → Outcome (ℕ × Writing)
unfolding write_loop
write_data part has_sync_buf i_no others src count w = do
  (bytes_written, w₁) ←
      write_loop 141 src count true (record w { fd_pos = u32 (w.inode.i_size + 2 ^ 32 - 1) }) 0
        count
  let synced = (do
    disk ← inode_sync part.inodes (inode_bytes i_no others w₁.inode) (λ i. 0) w₁.disk
    ok (bytes_written, record w₁ { disk = disk }))
  if has_sync_buf then synced else ok (minus_one, w₁)

abbrev when_found : Bool × Writing → (Writing → Outcome (ℕ × Writing)) → Outcome (ℕ × Writing)
when_found (true, w) go = go w
when_found (false, w) go = ok (minus_one, w)

-- `all_blocks` is cleared at the start.
unfoldable pub file_write :
    Volume → Bool → Bool → Bool → ℕ → Bytes → Bytes → ℕ → Writing → Outcome (ℕ × Writing)
unfolding first_block collect_write write_data
file_write part has_io_buf has_all_blocks has_sync_buf i_no others src count w =
    let total = u32 (w.inode.i_size + count) in
    let has = w.inode.i_size / 512 + 1 in
    let will = total / 512 + 1 in
    let write = (do
      begun ← first_block part (record w { all_blocks = λ i. 0 })
      when_found begun (λ w₁. do
        assert (ltb will 140)
        collected ← collect_write part has will w₁
        when_found collected (write_data part has_sync_buf i_no others src count))) in
    if ltb (512 * 140) total
    then ok (minus_one, w)
    else if not has_io_buf
    then ok (minus_one, w)
    else if not has_all_blocks
    then ok (minus_one, w)
    else write
