-- ===== src/Directory.antt =====
-- fs/dir.c: the entries of directories, as bytes in the sectors of the directory.
-- `dir_entry_size` is what `partition_format` puts into the super block. `char filename[16]` is an
-- object of its own, so a comparison that leaves it is a `fault`. A directory's inode, the disk and the
-- block bitmap are in a `Writing`, whose `all_blocks` is the table of the routine that runs.
pub mod Entries
pub mod Entering
pub mod RoundTrip
pub mod Names
mod Tests
use loong_os.Prelude.{
  ℕ, zero, suc, ◌+◌, ◌-◌, ◌*◌, ◌/◌, ◌%◌, ◌^◌, Bool, true, false, not, ◌&&◌, ◌||◌, Option, none,
  some, List, [], ◌∷◌, Outcome, ok, panic, fault, ◌>>=◌, ◌>>◌, assert, ltb, leb, ◌==◌,
  if◌then◌else◌, u32, get_or,
}
use loong_os.CString.{Sign, nought, negative, positive, strcmp, strlen}
use loong_os.Bitmap.{Bitmap, bitmap_set}
use loong_os.Inode.{Bytes, byte_of, read_sectors, write_sectors, copy_to}
use loong_os.Format.{put_word}
use loong_os.FileData.{FileInode, Blocks, word_at, read_table}
use loong_os.FileData.Write.{
  Volume, Writing, minus_one, block_bitmap_alloc, sync_block, put_block, put_direct, set_sector,
}

abbrev pub dir_entry_size : ℕ
dir_entry_size = 24

abbrev pub dir_entrys_per_sec : ℕ
dir_entrys_per_sec = 512 / dir_entry_size

abbrev pub zeros : Bytes
zeros i = 0

-- The `n` bytes from `at` on.
pub window : Bytes → ℕ → ℕ → List ℕ
window buf at zero = []
window buf at (suc n) = buf at ∷ window buf (at + 1) n

-- `filename` and `f_type` of the entry `idx` in a sector.
abbrev pub filename : Bytes → ℕ → List ℕ
filename buf idx = window buf (idx * dir_entry_size) 16

abbrev pub f_type : Bytes → ℕ → ℕ
f_type buf idx = word_at buf (idx * dir_entry_size + 20)

abbrev pub is_equal : Sign → Bool
is_equal negative = false
is_equal nought = true
is_equal positive = false

-- The loop over the entries of a sector, with `left` to go.
unfoldable pub search_entries : ℕ → Bytes → List ℕ → ℕ → Outcome (Option ℕ)
search_entries zero buf name dir_entry_idx = ok none
search_entries (suc left) buf name dir_entry_idx = do
  sign ← strcmp (some (filename buf dir_entry_idx)) (some name)
  let rest = search_entries left buf name (dir_entry_idx + 1)
  if is_equal sign then ok (some dir_entry_idx) else rest

abbrev entry_or : Bytes → Outcome (Option Bytes) → Option ℕ → Outcome (Option Bytes)
entry_or buf next none = next
entry_or buf next (some idx) = ok (some (λ i. buf (idx * dir_entry_size + i)))

-- The loop over the blocks.
unfoldable pub search_blocks : ℕ → Bytes → Blocks → List ℕ → ℕ → Outcome (Option Bytes)
search_blocks zero disk all_blocks name block_idx = ok none
search_blocks (suc left) disk all_blocks name block_idx =
    let next = search_blocks left disk all_blocks name (block_idx + 1) in
    let buf = read_sectors disk (all_blocks block_idx) zeros 1 in
    let searched = (do
      found ← search_entries dir_entrys_per_sec buf name 0
      entry_or buf next found) in
    if all_blocks block_idx == 0 then next else searched

abbrev pub direct_blocks : FileInode → Blocks
direct_blocks inode i = if ltb i 12 then inode.i_sectors i else 0

abbrev pub all_blocks_of : Bytes → FileInode → Blocks
all_blocks_of disk inode =
    if inode.i_sectors 12 == 0
    then direct_blocks inode
    else read_table disk (inode.i_sectors 12) (direct_blocks inode)

-- A result is what `dir_e` gets; `true` says that `all_blocks` could be allocated.
unfoldable pub search_dir_entry : Bool → Bytes → FileInode → List ℕ → Outcome (Option Bytes)
search_dir_entry has_all_blocks disk inode name =
    let searched = search_blocks 140 disk (all_blocks_of disk inode) name 0 in
    if not has_all_blocks then ok none else searched

-- `filename` is a pointer to a string.
unfoldable pub create_dir_entry : List ℕ → ℕ → ℕ → Bytes → Outcome Bytes
create_dir_entry filename inode_no file_type p_de = do
  len ← strlen (some filename)
  assert (leb len 16)
  ok (put_word 20 file_type (put_word 16 inode_no (copy_to p_de 0 (λ i. get_or filename i 0) len)))

-- The first entry of a sector whose type is `FT_UNKNOWN`, of `left` ones from `dir_entry_idx` on.
unfoldable pub free_entry : ℕ → Bytes → ℕ → Option ℕ
free_entry zero buf dir_entry_idx = none
free_entry (suc left) buf dir_entry_idx =
    let rest = free_entry left buf (dir_entry_idx + 1) in
    if f_type buf dir_entry_idx == 0 then some dir_entry_idx else rest

-- `dir_inode->i_size += dir_entry_size`
abbrev pub longer : Writing → Writing
longer w = record w { inode = record w.inode { i_size = u32 (w.inode.i_size + dir_entry_size) } }

abbrev pub put_sector : ℕ → Bytes → Writing → Writing
put_sector lba buf w = record w { disk = write_sectors w.disk lba buf 1 }

-- `ide_write(cur_part->my_disk, dir_inode->i_sectors[12], all_blocks + 12, 1)`
abbrev put_table : Writing → Writing
put_table w = put_sector (w.inode.i_sectors 12) (λ i. byte_of (w.all_blocks (12 + i / 4)) (i % 4)) w

-- The new entry at the start of the new block number `block_idx`.
abbrev pub first_entry : Bytes → ℕ → Writing → Outcome (Bool × Writing)
first_entry p_de block_idx w =
    ok (true, longer (put_sector (w.all_blocks block_idx) (copy_to zeros 0 p_de dir_entry_size) w))

-- The table of blocks gets the first one, which has still to be taken.
abbrev table_block : Volume → Bytes → ℕ → Writing → Outcome (Bool × Writing)
table_block part p_de table w = do
  (block_lba, block_bitmap) ← block_bitmap_alloc part w.block_bitmap
  let w₁ = record w { block_bitmap = block_bitmap; inode = set_sector 12 table w.inode }
  let give_back = (do
    restored ← bitmap_set block_bitmap (u32 (table + 2 ^ 32 - part.data_start_lba)) 0
    ok (false, record w { block_bitmap = restored; inode = set_sector 12 0 w.inode }))
  let more = (do
    assert (not (u32 (block_lba + 2 ^ 32 - part.data_start_lba) == minus_one))
    first_entry p_de 12 (put_table (put_block 12 block_lba (sync_block part block_lba w₁))))
  if block_lba == minus_one then give_back else more

-- A block is taken for the entry.
unfoldable pub new_block : Volume → Bytes → ℕ → Writing → Outcome (Bool × Writing)
new_block part p_de block_idx w = do
  (block_lba, block_bitmap) ← block_bitmap_alloc part w.block_bitmap
  let w₁ = record w { block_bitmap = block_bitmap }
  let more = (do
    assert (not (u32 (block_lba + 2 ^ 32 - part.data_start_lba) == minus_one))
    let w₂ = sync_block part block_lba w₁
    let in_table = table_block part p_de block_lba w₂
    if ltb block_idx 12
        then first_entry p_de block_idx (put_direct block_idx block_lba w₂)
        else if block_idx == 12
        then in_table
        else first_entry p_de block_idx (put_table (put_block block_idx block_lba w₂)))
  if block_lba == minus_one then ok (false, w₁) else more

abbrev pub fill_entry : Bytes → ℕ → Bytes → ℕ → Writing → Writing
fill_entry p_de lba buf idx w =
    longer (put_sector lba (copy_to buf (idx * dir_entry_size) p_de dir_entry_size) w)

abbrev entry_or_next :
    Bytes → ℕ → Bytes → Writing → Outcome (Bool × Writing) → Option ℕ → Outcome (Bool × Writing)
entry_or_next p_de lba buf w next none = next
entry_or_next p_de lba buf w next (some idx) = ok (true, fill_entry p_de lba buf idx w)

-- The loop over the blocks, with `left` to go.
unfoldable pub sync_blocks : ℕ → Volume → Bytes → ℕ → Writing → Outcome (Bool × Writing)
sync_blocks zero part p_de block_idx w = ok (false, w)
sync_blocks (suc left) part p_de block_idx w =
    let lba = w.all_blocks block_idx in
    let buf = read_sectors w.disk lba zeros 1 in
    let next = sync_blocks left part p_de (block_idx + 1) w in
    let new = new_block part p_de block_idx w in
    if lba == 0
    then new
    else entry_or_next p_de lba buf w next (free_entry dir_entrys_per_sec buf 0)

-- The blocks in the table are not read.
unfoldable pub sync_dir_entry : Volume → Bytes → Writing → Outcome (Bool × Writing)
sync_dir_entry part p_de w =
    assert (w.inode.i_size % dir_entry_size == 0)
    >> sync_blocks 140 part p_de 0 (record w { all_blocks = direct_blocks w.inode })
