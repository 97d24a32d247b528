-- ===== src/FileData/Write/Whole.antt =====
-- A whole call of `file_write`, for files whose blocks all stand in the inode.
use loong_os.Prelude.{
  ℕ, ◌+◌, ◌-◌, ◌*◌, ◌/◌, ◌%◌, ◌^◌, ◌≤◌, ◌<◌, ◌≡◌, refl, sym, ◌∙◌, ap, subst, true, false, Outcome,
  ok, panic, arith, ltb, ltb→lt, ◌==◌, if◌then◌else◌, u32, Bool-cases, inl, inr, ==_iff,
}
use loong_os.Bitmap.{Bitmap}
use loong_os.Inode.{Bytes, inode_sync}
use loong_os.Inode.Place.{inode_sync_lem}
use loong_os.FileData.{FileInode, Blocks}
use loong_os.FileData.Reading.{byte_at}
use loong_os.FileData.Write.{
  Volume, Writing, inode_bytes, first_block, collect_write, write_loop, write_data, file_write,
}
use loong_os.FileData.Write.Appends.{Distinct, Appended, write_loop-Appended}
use loong_os.FileData.Write.Owns.{Sound, Owned, HasFree}
use loong_os.FileData.Write.Collects.{held, collect_write-Collected, first_block-Begun}

-- The bytes of a file before and after a write of `count` bytes from `src`.
pub record Extended (part : Volume) (src : Bytes) (count : ℕ) (w : Writing)
    (r : Outcome (ℕ × Writing)) : Type 0 where
  pub after : Writing
  pub returns : r ≡ ok (count, after)
  pub i_size : after.inode.i_size ≡ w.inode.i_size + count
  pub fd_pos : after.fd_pos ≡ u32 (w.inode.i_size + count + 2 ^ 32 - 1)
  pub sound : Sound part after.block_bitmap
  pub owned : Owned part after.block_bitmap after.inode.i_sectors (held after.inode)
  pub content :
      (p : ℕ)
      → p < w.inode.i_size + count
      → byte_at after.disk after.inode.i_sectors p ≡ (
          if ltb p w.inode.i_size
          then byte_at w.disk w.inode.i_sectors p
          else src (p - w.inode.i_size))

-- Writing an inode touches no sector of the data.
synced :
    (part : Volume) (b : Bitmap) (inode disk : Bytes)
    → Sound part b
    → (disk' : Bytes) × (inode_sync part.inodes inode (λ i. 0) disk ≡ ok disk')
      × ((a : ℕ) → part.data_start_lba * 512 ≤ a → disk' a ≡ disk a)
synced part b inode disk v =
    let (disk', _, _, e, _, _, _, outside) =
      inode_sync_lem part.inodes inode (λ i. 0) (λ i. 0) disk 0 v.inodes (omega arith) in
    (disk', e, λ a lo. outside a (ground (arith, v.table)))

-- The collected blocks, `c`, for a file of `size` bytes that gets `count` more.
module _ (part : Volume) (b : Bitmap) (src : Bytes) (size count : ℕ) (c : Writing) where
  abbrev blocks_then : ℕ
  blocks_then = (size + count) / 512 + 1

  module _ (o : Owned part b c.inode.i_sectors blocks_then)
      (same : (k : ℕ)
        → size / 512 + 1 ≤ k + 1
        → k < blocks_then
        → c.all_blocks k ≡ c.inode.i_sectors k) where
    apart : Distinct c.all_blocks (size / 512) ((size + count) / 512)
    apart k l lo lt hi =
        rw (same k (omega arith) (omega arith), same l (omega arith) (omega arith))
          (o.distinct k l lt (omega arith))

    -- The byte `p` after the loop.
    bytes :
        (q : Outcome (ℕ × Writing)) (r : Appended src size 0 count true c q) (p : ℕ)
        → p < size + count
        → byte_at r.after.disk c.inode.i_sectors p
          ≡ (if ltb p size then byte_at c.disk c.inode.i_sectors p else src (p - size))
    bytes q r p hi = elim (Bool-cases (ltb p size)) [
      | inr new ↦
          let lo : size ≤ p = ground (arith, new) in
          let at : c.all_blocks (p / 512) ≡ c.inode.i_sectors (p / 512) =
            same (p / 512) (omega arith) (omega arith) in
          let byte = r.appended p lo hi in
          rw new (ap (λ s. r.after.disk (s * 512 + p % 512)) (sym at) ∙ byte ∙ ap src (omega arith))
      | inl old ↦
          let lt : p < size = ltb→lt p size old in
          rw old (elim (Bool-cases (p / 512 == size / 512)) [
            | inl last ↦
                let e : p / 512 ≡ size / 512 = (==_iff _ _).0 last in
                let at : c.all_blocks (size / 512) ≡ c.inode.i_sectors (size / 512) =
                  same (size / 512) (omega arith) (omega arith) in
                let byte = r.before (p % 512) refl (omega arith) in
                rw e (
                  subst (λ s. r.after.disk (s * 512 + p % 512) ≡ c.disk (s * 512 + p % 512)) at
                    byte)
            | inr earlier ↦
                let sector : (c.inode.i_sectors (p / 512) * 512 + p % 512) / 512
                    ≡ c.inode.i_sectors (p / 512) =
                  omega arith in
                let less : p / 512 < size / 512 = ground (arith, earlier) in
                r.kept (c.inode.i_sectors (p / 512) * 512 + p % 512) (
                  rw sector (λ p' lo' hi'.
                    rw (same (p' / 512) (omega arith) (omega arith)) (
                      ground (arith, o.distinct (p / 512) (p' / 512) (omega arith) (omega arith)))))
          ])
    ]

-- The bytes of a file lie in the data.
in_data :
    (part : Volume) (b : Bitmap) (i_sectors : Blocks) (has p : ℕ)
    → Owned part b i_sectors has
    → p / 512 < has
    → part.data_start_lba * 512 ≤ i_sectors (p / 512) * 512 + p % 512
in_data part b i_sectors has p o lt = omega (arith, o.placed (p / 512) lt)

within_held :
    (inode : FileInode) (p : ℕ)
    → ((inode.i_sectors 0 == 0) ≡ true → inode.i_size ≡ 0)
    → p < inode.i_size
    → p / 512 < held inode
within_held inode p empty lt = elim (Bool-cases (inode.i_sectors 0 == 0)) [
  | inl fresh ↦ absurd (omega (arith, empty fresh))
  | inr has ↦ rw has (omega arith)
]

held-then :
    (part : Volume) (b : Bitmap) (i_sectors : Blocks) (b' : Bitmap) (inode : FileInode) (size : ℕ)
    → b' ≡ b
    → inode.i_sectors ≡ i_sectors
    → inode.i_size ≡ size
    → Owned part b i_sectors (size / 512 + 1)
    → Owned part b' inode.i_sectors (held inode)
held-then part b i_sectors b' inode size e e' e'' o =
    let o' = subst (λ s. Owned part b s (size / 512 + 1)) (sym e') o in
    let has_first : (inode.i_sectors 0 == 0) ≡ false = ground (arith, o'.placed 0 (omega arith)) in
    let n : held inode ≡ size / 512 + 1 = rw (has_first, e'') refl in
    subst (λ b. Owned part b inode.i_sectors (held inode)) (sym e)
      (subst (Owned part b inode.i_sectors) (sym n) o')

-- The end of `file_write`, for the blocks `c`.
write_data-Extended :
    (part : Volume) (i_no : ℕ) (others src : Bytes) (count : ℕ) (c : Writing)
    → c.inode.i_size + count < 12 * 512
    → Sound part c.block_bitmap
    → Owned part c.block_bitmap c.inode.i_sectors ((c.inode.i_size + count) / 512 + 1)
    → ((k : ℕ)
        → c.inode.i_size / 512 + 1 ≤ k + 1
        → k < (c.inode.i_size + count) / 512 + 1
        → c.all_blocks k ≡ c.inode.i_sectors k)
    → Extended part src count c (write_data part true i_no others src count c)
unfolding write_data
write_data-Extended part i_no others src count c small v o same =
    let size = c.inode.i_size in
    let start : Writing = record c { fd_pos = u32 (size + 2 ^ 32 - 1) } in
    let r =
      write_loop-Appended 141 src count size 0 count true start refl (omega arith) (omega arith)
        (omega arith) (omega arith) (ground arith)
        (apart part c.block_bitmap src size count start o same) in
    let a = r.after in
    let (disk, e, outside) =
      synced part c.block_bitmap (inode_bytes i_no others a.inode) a.disk v in
    record {
      after = record a { disk = disk };
      returns =
          let returns : write_loop 141 src count true start 0 count ≡ ok (count, a) =
            r.returns ∙ ap (λ n. ok (n, a)) (omega arith) in
          rw (returns, e) refl;
      i_size = r.i_size;
      fd_pos = r.fd_pos ∙ omega arith;
      sound = subst (Sound part) (sym r.bitmap) v;
      owned =
          held-then part c.block_bitmap c.inode.i_sectors a.block_bitmap a.inode (size + count)
            r.bitmap r.i_sectors r.i_size o;
      content = λ p lt.
          subst
            (λ s.
              byte_at disk s p
              ≡ (if ltb p size then byte_at c.disk c.inode.i_sectors p else src (p - size)))
            (sym r.i_sectors)
            (outside (c.inode.i_sectors (p / 512) * 512 + p % 512)
                (in_data part c.block_bitmap c.inode.i_sectors _ p o (omega arith))
              ∙ bytes part c.block_bitmap src size count start o same _ r p lt);
    }

limits : (n : ℕ) → n < 12 * 512 → (ltb (512 * 140) n ≡ false) × (ltb (n / 512 + 1) 140 ≡ true)
limits n h = (ground arith, ground arith)

over : (n : ℕ) → 139 * 512 ≤ n → ltb (n / 512 + 1) 140 ≡ false
over n lo = ground arith

-- `file_write` with the blocks `c` that it has collected.
file_write-runs :
    (part : Volume) (i_no : ℕ) (others src : Bytes) (count : ℕ) (w : Writing)
    → w.inode.i_size + count < 12 * 512
    → (w₁ : Writing) → first_block part (record w { all_blocks = λ i. 0 }) ≡ ok (true, w₁)
    → (c : Writing)
    → collect_write part (w.inode.i_size / 512 + 1) ((w.inode.i_size + count) / 512 + 1) w₁
      ≡ ok (true, c)
    → c.inode.i_size ≡ w.inode.i_size
    → Sound part c.block_bitmap
    → Owned part c.block_bitmap c.inode.i_sectors ((w.inode.i_size + count) / 512 + 1)
    → ((k : ℕ)
        → w.inode.i_size / 512 + 1 ≤ k + 1
        → k < (w.inode.i_size + count) / 512 + 1
        → c.all_blocks k ≡ c.inode.i_sectors k)
    → ((p : ℕ) → p < w.inode.i_size → c.inode.i_sectors (p / 512) ≡ w.inode.i_sectors (p / 512))
    → ((a : ℕ) → part.data_start_lba * 512 ≤ a → c.disk a ≡ w.disk a)
    → Extended part src count w (file_write part true true true i_no others src count w)
unfolding file_write
file_write-runs part i_no others src count w small w₁ begun c collected e v o same old kept =
    let size = w.inode.i_size in
    let o' =
      subst (λ n. Owned part c.block_bitmap c.inode.i_sectors ((n + count) / 512 + 1)) (sym e) o in
    let x =
      write_data-Extended part i_no others src count c (omega (arith, e)) v o'
        (λ k lo hi. same k (omega (arith, e)) (omega (arith, e))) in
    let total : u32 (size + count) ≡ size + count = omega arith in
    let (allowed, few) = limits (size + count) small in
    record {
      after = x.after;
      returns = rw (total, allowed, begun, few, collected) x.returns;
      i_size = x.i_size ∙ ap (λ n. n + count) e;
      fd_pos = x.fd_pos ∙ ap (λ n. u32 (n + count + 2 ^ 32 - 1)) e;
      sound = x.sound;
      owned = x.owned;
      content = λ p lt.
          x.content p (omega (arith, e))
          ∙ ap (λ n. if ltb p n then byte_at c.disk c.inode.i_sectors p else src (p - n)) e
          ∙ elim (Bool-cases (ltb p size)) [
            | inr new ↦ rw new refl
            | inl before ↦ rw before (
                kept (c.inode.i_sectors (p / 512) * 512 + p % 512)
                  (in_data part c.block_bitmap c.inode.i_sectors _ p o (omega arith))
                ∙ ap (λ s. w.disk (s * 512 + p % 512)) (old p (ltb→lt p size before)))
          ];
    }

-- For a partition whose block bitmap and table of inodes lie before the data, a file whose blocks all
-- stand in the inode, also after the write, which are different blocks of the data, taken in the
-- bitmap, and which is empty if it has none, with enough free blocks and buffers: `file_write` returns `count`,
-- the file is longer by as many bytes, its bytes are those it had with the new ones behind them, and
-- its blocks are again different ones of the data, taken in the bitmap. The position is set to the
-- last byte of the file.
pub file_write_lem :
    (part : Volume) (i_no : ℕ) (others src : Bytes) (count : ℕ) (w : Writing)
    → ((w.inode.i_sectors 0 == 0) ≡ true → w.inode.i_size ≡ 0)
    → w.inode.i_size + count < 12 * 512
    → Sound part w.block_bitmap
    → Owned part w.block_bitmap w.inode.i_sectors (held w.inode)
    → HasFree w.block_bitmap ((w.inode.i_size + count) / 512 + 1 - held w.inode)
    → Extended part src count w (file_write part true true true i_no others src count w)
unfolding file_write
file_write_lem part i_no others src count w empty small v o f =
    let size = w.inode.i_size in
    let has = size / 512 + 1 in
    let will = (size + count) / 512 + 1 in
    let w₀ : Writing = record w { all_blocks = λ i. 0 } in
    let begun = first_block-Begun part will w₀ empty (omega arith) v o f in
    let collected =
      collect_write-Collected part has will begun.after (omega arith) (omega arith) (omega arith)
        begun.sound begun.owned begun.free in
    file_write-runs part i_no others src count w small begun.after begun.returns collected.after
      collected.returns (collected.i_size ∙ begun.i_size) collected.sound collected.owned
      collected.blocks
      (λ p lt.
        collected.old (p / 512) (omega arith)
        ∙ begun.old (p / 512) (within_held w.inode p empty lt))
      (λ a lo. collected.kept a lo ∙ begun.kept a lo)

-- Let `total` be the size of the file plus `count` modulo 2 ^ 32, as the code adds them. When `total`
-- is at least 139 blocks, the file has a block and the buffers can be allocated: `file_write` returns
-- -1 and changes nothing if `total` is more than 140 blocks; else, so also for the totals up to 140
-- blocks that are let in, the assertion on the number of blocks fails.
pub file_write_limit :
    (part : Volume) (i_no : ℕ) (others src : Bytes) (count : ℕ) (w : Writing)
    → (w.inode.i_sectors 0 == 0) ≡ false
    → 139 * 512 ≤ u32 (w.inode.i_size + count)
    → let total = u32 (w.inode.i_size + count) in
      file_write part true true true i_no others src count w
      ≡ (if ltb (140 * 512) total then ok (2 ^ 32 - 1, w) else panic)
unfolding file_write first_block
file_write_limit part i_no others src count w has lo =
    let total = u32 (w.inode.i_size + count) in
    elim (Bool-cases (ltb (140 * 512) total)) [
      | inl refused ↦ rw refused refl
      | inr allowed ↦ rw (allowed, has, over total lo) refl
    ]
