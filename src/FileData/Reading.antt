-- ===== src/FileData/Reading.antt =====
-- What `file_read` puts into the buffer.
use loong_os.Prelude.{
  ℕ, zero, suc, ◌+◌, ◌-◌, ◌*◌, ◌/◌, ◌%◌, ◌^◌, ◌≤◌, ◌<◌, ◌≡◌, refl, ◌∙◌, ap, Bool, true, false, not,
  ◌&&◌, some, Outcome, ok, arith, ltb, leb, ltb→lt, ◌==◌, if◌then◌else◌, u32, Bool-cases, inl, inr,
  ==_iff,
}
use loong_os.Inode.{Bytes, read_sectors, copy_to}
use loong_os.FileData.{
  FileInode, Blocks, set_block, word_at, read_table, copy_direct, collect_read, Read, read_loop,
  file_read,
}

-- The byte `p` of a file whose sectors are `all_blocks`.
abbrev pub byte_at : Bytes → Blocks → ℕ → ℕ
byte_at disk all_blocks p = disk (all_blocks (p / 512) * 512 + p % 512)

-- Enough rounds for `left` bytes from the position `pos` on.
abbrev pub Enough : ℕ → ℕ → ℕ → Type 0
Enough rounds pos left = ((if left == 0 then 0 else pos % 512) + left + 511) / 512 < rounds

abbrev pub chunk : ℕ → ℕ → ℕ
chunk pos left = if ltb (512 - pos % 512) left then 512 - pos % 512 else left

pub chunk_facts :
    (pos left : ℕ)
    → 0 < left
    → (0 < chunk pos left) × (chunk pos left ≤ left) × (pos % 512 + chunk pos left ≤ 512)
chunk_facts pos left h = ground arith

pub chunk-Enough :
    (rounds pos left : ℕ)
    → 0 < left
    → Enough (suc rounds) pos left
    → Enough rounds (pos + chunk pos left) (left - chunk pos left)
chunk-Enough rounds pos left h e = ground arith

-- One byte of a round.
chunk_byte :
    (disk : Bytes) (all_blocks : Blocks) (pos c k : ℕ)
    → k < c
    → pos % 512 + c ≤ 512
    → read_sectors disk (all_blocks (pos / 512)) (λ i. 0) 1 (pos % 512 + k)
      ≡ byte_at disk all_blocks (pos + k)
chunk_byte disk all_blocks pos c k small fits =
    let same : (pos + k) / 512 ≡ pos / 512 = omega arith in
    let off : (pos + k) % 512 ≡ pos % 512 + k = omega arith in
    rw (same, off) (ground (arith, small, fits))

-- A byte of the buffer after one round and the rest.
joined :
    (disk : Bytes) (all_blocks : Blocks) (pos done left c i : ℕ) (buf : Bytes)
    → c ≤ left
    → pos % 512 + c ≤ 512
    → let buf' =
        copy_to buf done
          (λ k. read_sectors disk (all_blocks (pos / 512)) (λ i. 0) 1 (pos % 512 + k))
          c in
      (if leb (done + c) i && ltb i (done + c + (left - c))
        then byte_at disk all_blocks (pos + c + (i - (done + c)))
        else buf' i)
      ≡ (if leb done i && ltb i (done + left)
          then byte_at disk all_blocks (pos + (i - done))
          else buf i)
joined disk all_blocks pos done left c i buf c_le fits = elim (Bool-cases (leb (done + c) i)) [
  | inl late ↦
      let same : pos + c + (i - (done + c)) ≡ pos + (i - done) = ground (arith, late) in
      rw same (ground (arith, late))
  | inr early ↦ elim (Bool-cases (leb done i)) [
    | inl here ↦
        let small : i - done < c = ground (arith, early, here) in
        let byte = chunk_byte disk all_blocks pos c (i - done) small fits in
        ground (arith, early, here, byte)
    | inr before ↦ ground (arith, early, before)
  ]
]

record Copied (disk : Bytes) (all_blocks : Blocks) (pos done left : ℕ) (buf : Bytes)
    (r : Outcome Read) : Type 0 where
  after : Read
  returns : r ≡ ok after
  bytes_read : after.bytes_read ≡ done + left
  fd_pos : after.fd_pos ≡ pos + left
  copied :
      (i : ℕ)
      → after.buf i ≡ (
          if leb done i && ltb i (done + left)
          then byte_at disk all_blocks (pos + (i - done))
          else buf i)

read_loop-Copied :
    (rounds : ℕ) (disk : Bytes) (all_blocks : Blocks) (size pos done left : ℕ) (buf : Bytes)
    → done + left ≡ size
    → pos + left < 2 ^ 32
    → size < 2 ^ 32
    → Enough rounds pos left
    → Copied disk all_blocks pos done left buf (
        read_loop rounds disk all_blocks size
          (record { bytes_read = done; buf = buf; fd_pos = pos })
          left)
unfolding read_loop
read_loop-Copied zero disk all_blocks size pos done left buf e small small' h = absurd (omega arith)
read_loop-Copied (suc rounds) disk all_blocks size pos done left buf e small small' h =
    elim (Bool-cases (ltb done size)) [
      | inr finished ↦ rw finished (record {
        after = record { bytes_read = done; buf = buf; fd_pos = pos };
        returns = refl;
        bytes_read = ground (arith, finished);
        fd_pos = ground (arith, finished);
        copied = λ i. ground (arith, finished, e);
      })
      | inl more ↦
          let some_left : 0 < left = ground (arith, more, e) in
          let c = chunk pos left in
          let (pos_c, c_le, fits) = chunk_facts pos left some_left in
          let buf' =
            copy_to buf done
              (λ i. read_sectors disk (all_blocks (pos / 512)) (λ i. 0) 1 (pos % 512 + i)) c in
          let r =
            read_loop-Copied rounds disk all_blocks size (pos + c) (done + c) (left - c) buf'
              (omega arith) (omega arith) small' (chunk-Enough rounds pos left some_left h) in
          let pos_small : u32 (pos + c) ≡ pos + c = omega arith in
          let done_small : u32 (done + c) ≡ done + c = omega arith in
          rw (more, pos_small, done_small)
            (record {
              after = r.after;
              returns = r.returns;
              bytes_read = r.bytes_read ∙ omega arith;
              fd_pos = r.fd_pos ∙ omega arith;
              copied = λ i. r.copied i ∙ joined disk all_blocks pos done left c i buf c_le fits;
            })
    ]

copy_direct_lem :
    (left : ℕ) (i_sectors : ℕ → ℕ) (idx : ℕ) (all_blocks : Blocks) (k : ℕ)
    → copy_direct left i_sectors idx all_blocks k
      ≡ (if leb idx k && ltb k (idx + left) then i_sectors k else all_blocks k)
unfolding copy_direct
copy_direct_lem zero i_sectors idx all_blocks k = ground arith
copy_direct_lem (suc left) i_sectors idx all_blocks k =
    copy_direct_lem left i_sectors (idx + 1) (set_block idx (i_sectors idx) all_blocks) k
    ∙ elim (Bool-cases (k == idx)) [
      | inl e ↦ let same : k ≡ idx = (==_iff k idx).0 e in rw same (ground arith)
      | inr ne ↦ ground (arith, ne)
    ]

-- The block number `k` of a file: the first twelve stand in the inode, the others in a table.
abbrev pub file_block : Bytes → FileInode → Blocks
file_block disk inode k =
    if ltb k 12 then inode.i_sectors k else word_at disk (inode.i_sectors 12 * 512 + (k - 12) * 4)

-- The read begins before the block 12, and the position behind it lies in the block 12.
abbrev pub straddles : ℕ → ℕ → Bool
straddles start end = ltb start 12 && (end == 12)

collected :
    (disk : Bytes) (inode : FileInode) (start end : ℕ)
    → start ≤ end
    → end < 139
    → (leb 12 end && (inode.i_sectors 12 == 0)) ≡ false
    → (all_blocks : Blocks) × (collect_read disk inode start end ≡ ok all_blocks)
      × ((k : ℕ)
          → start ≤ k
          → k ≤ end
          → all_blocks k ≡ (if straddles start end && ltb k 12 then 0 else file_block disk inode k))
unfolding collect_read
collected disk inode start end order small table =
    let none_yet : Blocks = λ i. 0 in
    let with_table = read_table disk (inode.i_sectors 12) in
    elim (Bool-cases (ltb end 12)) [
      | inl direct ↦ elim (Bool-cases (end == start)) [
        | inl one ↦ (
          set_block start (inode.i_sectors start) none_yet,
          rw (one, direct) refl,
          λ k p q. let e : k ≡ start = ground (arith, one) in rw e (ground (arith, direct, one)),
        )
        | inr more ↦ (
          copy_direct (end + 1 - start) inode.i_sectors start none_yet,
          rw (more, direct) refl,
          λ k p q.
              copy_direct_lem (end + 1 - start) inode.i_sectors start none_yet k
              ∙ ground (arith, direct),
        )
      ]
      | inr indirect ↦
          let has_table : (inode.i_sectors 12 == 0) ≡ false = ground (arith, indirect, table) in
          elim (Bool-cases (end == start)) [
            | inl one ↦ (
              with_table none_yet,
              rw (one, indirect) refl,
              λ k p q. ground (arith, one, indirect),
            )
            | inr more ↦ elim (Bool-cases (ltb start 12 && ltb 12 end)) [
              | inl both ↦ (
                with_table (copy_direct (13 - start) inode.i_sectors start none_yet),
                rw (more, indirect, both, has_table) refl,
                λ k p q.
                    ground
                      (arith, both, copy_direct_lem (13 - start) inode.i_sectors start none_yet k),
              )
              | inr rest ↦ (
                with_table none_yet,
                rw (more, indirect, rest, has_table) refl,
                λ k p q. ground (arith, rest, indirect, more),
              )
            ]
          ]
    ]

sector_or_zero :
    (disk : Bytes) (c : Bool) (lba o : ℕ)
    → disk ((if c then 0 else lba) * 512 + o) ≡ (if c then disk o else disk (lba * 512 + o))
sector_or_zero disk true lba o = ap disk (omega arith)
sector_or_zero disk false lba o = refl

read_byte :
    (disk : Bytes) (all_blocks : Blocks) (pos i size : ℕ) (missed : Bool) (lba : ℕ) (buf : Bytes)
    → (ltb i size ≡ true → all_blocks ((pos + i) / 512) ≡ (if missed then 0 else lba))
    → (if leb 0 i && ltb i (0 + size) then byte_at disk all_blocks (pos + (i - 0)) else buf i) ≡ (
        if not (ltb i size)
        then buf i
        else if missed
        then disk ((pos + i) % 512)
        else disk (lba * 512 + (pos + i) % 512))
read_byte disk all_blocks pos i size missed lba buf h =
    let from_zero : pos + (i - 0) ≡ pos + i = omega arith in
    let low : leb 0 i ≡ true = ground arith in
    let sum : 0 + size ≡ size = omega arith in
    rw (from_zero, low, sum)
      (elim (Bool-cases (ltb i size)) [
        | inr out ↦ rw out refl
        | inl within ↦ rw (within, h within) (sector_or_zero disk missed lba ((pos + i) % 512))
      ])

-- The number of bytes that a read of `count` bytes gets.
abbrev pub available : FileInode → ℕ → ℕ → ℕ
available inode fd_pos count =
    if ltb inode.i_size (fd_pos + count) then inode.i_size - fd_pos else count

file_read-runs :
    (disk : Bytes) (inode : FileInode) (fd_pos : ℕ) (buf : Bytes) (count size : ℕ)
    (all_blocks : Blocks) (after : Read)
    → (if ltb inode.i_size (u32 (fd_pos + count))
        then u32 (inode.i_size + 2 ^ 32 - fd_pos)
        else count)
      ≡ size
    → (ltb inode.i_size (u32 (fd_pos + count)) && (size == 0)) ≡ false
    → u32 (fd_pos + size) ≡ fd_pos + size
    → (ltb (fd_pos / 512) 139 && ltb ((fd_pos + size) / 512) 139) ≡ true
    → collect_read disk inode (fd_pos / 512) ((fd_pos + size) / 512) ≡ ok all_blocks
    → read_loop 140 disk all_blocks size
        (record { bytes_read = 0; buf = buf; fd_pos = fd_pos })
        size
      ≡ ok after
    → file_read true true disk inode fd_pos buf count ≡ ok (some after)
unfolding file_read
file_read-runs disk inode fd_pos buf count size all_blocks after size_eq not_full end_eq in_range
      found ran =
    rw (size_eq, not_full, end_eq, in_range, found, ran) refl

-- For a position inside a file smaller than 139 blocks, of which the first twelve stand in the inode
-- and the others in its table, for which the position plus `count` is below 2 ^ 32, and when the
-- buffers can be allocated: `file_read` returns the smaller one of `count` and the bytes that are left,
-- moves the position behind them, and copies just these bytes to the start of the buffer. But when
-- the read begins before the block 12 and the position behind it lies in that block, it copies from
-- the first sector of the disk in the place of the blocks before.
pub file_read_lem :
    (disk : Bytes) (inode : FileInode) (fd_pos : ℕ) (buf : Bytes) (count i : ℕ)
    → fd_pos < inode.i_size
    → inode.i_size < 139 * 512
    → fd_pos + count < 2 ^ 32
    → (leb 12 ((fd_pos + available inode fd_pos count) / 512) && (inode.i_sectors 12 == 0)) ≡ false
    → let size = available inode fd_pos count in
      (r : Read) × (file_read true true disk inode fd_pos buf count ≡ ok (some r))
      × (r.bytes_read ≡ size)
      × (r.fd_pos ≡ fd_pos + size)
      × (r.buf i ≡ (
          if not (ltb i size)
          then buf i
          else if straddles (fd_pos / 512) ((fd_pos + size) / 512) && ltb ((fd_pos + i) / 512) 12
          then disk ((fd_pos + i) % 512)
          else byte_at disk (file_block disk inode) (fd_pos + i)))
file_read_lem disk inode fd_pos buf count i inside small word table =
    let size = available inode fd_pos count in
    let start = fd_pos / 512 in
    let end = (fd_pos + size) / 512 in
    let end_le : fd_pos + size ≤ inode.i_size = ground arith in
    let size_eq : (if ltb inode.i_size (u32 (fd_pos + count))
          then u32 (inode.i_size + 2 ^ 32 - fd_pos)
          else count)
        ≡ size =
      ground arith in
    let not_full : (ltb inode.i_size (u32 (fd_pos + count)) && (size == 0)) ≡ false =
      ground arith in
    let end_eq : u32 (fd_pos + size) ≡ fd_pos + size = omega arith in
    let in_range : (ltb start 139 && ltb end 139) ≡ true = ground arith in
    let rounds : Enough 140 fd_pos size = ground arith in
    let (all_blocks, found, blocks) =
      collected disk inode start end (omega arith) (omega arith) table in
    let r =
      read_loop-Copied 140 disk all_blocks size fd_pos 0 size buf (omega arith) (omega arith)
        (omega arith) rounds in
    let missed = straddles start end && ltb ((fd_pos + i) / 512) 12 in
    let byte =
      read_byte disk all_blocks fd_pos i size missed (file_block disk inode ((fd_pos + i) / 512))
        buf
        (λ within.
          blocks ((fd_pos + i) / 512) (omega arith) (omega (arith, ltb→lt i size within))) in
    (
      r.after,
      file_read-runs disk inode fd_pos buf count size all_blocks r.after size_eq not_full end_eq
          in_range found r.returns,
      r.bytes_read ∙ omega arith,
      r.fd_pos,
      r.copied i ∙ byte,
    )
