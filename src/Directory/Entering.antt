-- ===== src/Directory/Entering.antt =====
-- Where `sync_dir_entry` puts an entry.
use loong_os.Prelude.{
  ◌&&◌, ℕ, zero, suc, ◌+◌, ◌-◌, ◌*◌, ◌/◌, ◌^◌, ◌≤◌, ◌<◌, ◌≡◌, refl, sym, ◌∙◌, ap, subst, Bool, true,
  false, ◌||◌, Option, none, some, Outcome, ok, arith, ltb, leb, ◌==◌, if◌then◌else◌, u32,
  Bool-cases, inl, inr, ◌⊎◌, ==_iff,
}
use loong_os.Bitmap.{Bitmap, bitmap_scan_test}
use loong_os.Bitmap.Bits.{written}
use loong_os.Inode.{Bytes, read_sectors, write_sectors, copy_to}
use loong_os.FileData.{Blocks}
use loong_os.FileData.Write.{Volume, Writing, sync_block, put_direct}
use loong_os.FileData.Write.Owns.{Sound, HasFree, alloc-Allocated, bitmap_sync-kept}
use loong_os.Directory.{
  f_type, dir_entrys_per_sec, zeros, free_entry, new_block, fill_entry, entry_or_next, sync_blocks,
  put_sector, longer,
}
use loong_os.Directory.Entries.{free_entry-lt, free_entry-free}

-- The blocks of a directory that has no table: different blocks of the data, taken in the bitmap.
pub record Owned (part : Volume) (b : Bitmap) (i_sectors : Blocks) : Type 0 where
  pub placed : (k : ℕ) → k < 12 → (i_sectors k == 0) ≡ false → part.data_start_lba ≤ i_sectors k
  pub taken :
      (k : ℕ)
      → k < 12
      → (i_sectors k == 0) ≡ false
      → bitmap_scan_test b (i_sectors k - part.data_start_lba) ≡ true
  pub distinct :
      (k l : ℕ) → k < l → l < 12 → (i_sectors k == 0) ≡ false → (i_sectors k == i_sectors l) ≡ false
  pub no_table : i_sectors 12 ≡ 0

abbrev pub is_free : Option ℕ → Bool
is_free none = false
is_free (some idx) = true

-- A sector with a free entry, or none yet.
abbrev pub has_room : Bytes → ℕ → Bool
has_room disk lba =
    (lba == 0) || is_free (free_entry dir_entrys_per_sec (read_sectors disk lba zeros 1) 0)

-- Every entry in use is still there.
abbrev pub Keeps : Writing → Writing → Type 0
Keeps w after =
    (m t i : ℕ)
    → m < 12
    → (w.inode.i_sectors m == 0) ≡ false
    → t < 21
    → (f_type (read_sectors w.disk (w.inode.i_sectors m) zeros 1) t == 0) ≡ false
    → i < 24
    → (after.inode.i_sectors m ≡ w.inode.i_sectors m)
      × (let a = w.inode.i_sectors m * 512 + (t * 24 + i) in after.disk a ≡ w.disk a)

-- The entry stands in the block `k`, the first one with room, as its entry number `slot`.
pub record Entered (part : Volume) (p_de : Bytes) (w : Writing) (r : Outcome (Bool × Writing))
    : Type 0 where
  pub after : Writing
  pub returns : r ≡ ok (true, after)
  pub k : ℕ
  pub slot : ℕ
  pub direct : k < 12
  pub slot_lt : slot < 21
  pub used : (after.inode.i_sectors k == 0) ≡ false
  pub others : (m : ℕ) → (m == k) ≡ false → after.inode.i_sectors m ≡ w.inode.i_sectors m
  pub earlier : (m : ℕ) → m < k → (w.inode.i_sectors m == 0) ≡ false
  pub apart : (m : ℕ) → m < k → (w.inode.i_sectors m == after.inode.i_sectors k) ≡ false
  pub i_size : after.inode.i_size ≡ u32 (w.inode.i_size + 24)
  pub entry :
      (i : ℕ) → i < 24 → after.disk (after.inode.i_sectors k * 512 + (slot * 24 + i)) ≡ p_de i
  pub same :
      (a : ℕ)
      → part.data_start_lba * 512 ≤ a
      → (a / 512 == after.inode.i_sectors k) ≡ false
      → after.disk a ≡ w.disk a
  pub kept : Keeps w after
  pub before :
      (slot ≡ 0)
      ⊎ ((w.inode.i_sectors k ≡ after.inode.i_sectors k)
          × ((o : ℕ)
              → o < slot * 24
              → let a = after.inode.i_sectors k * 512 + o in after.disk a ≡ w.disk a))

-- Two numbers at which a table is 0 and is not are different.
differs :
    (table : ℕ → ℕ) (m n : ℕ) → (table n == 0) ≡ true → (table m == 0) ≡ false → (m == n) ≡ false
differs table m n at_n at_m = elim (Bool-cases (m == n)) [
  | inr ne ↦ ne
  | inl e ↦
      let at : m ≡ n = (==_iff m n).0 e in
      let wrong : true ≡ false = sym at_n ∙ ap (λ x. table x == 0) (sym at) ∙ at_m in
      ground (arith, wrong)
]

-- Writing a sector in which an entry was put.
module _ (disk : Bytes) (lba slot : ℕ) (buf p_de : Bytes) (fits : slot < 21) where
  abbrev pub filled : Bytes
  filled = write_sectors disk lba (copy_to buf (slot * 24) p_de 24) 1

  filled-entry : (i : ℕ) → i < 24 → filled (lba * 512 + (slot * 24 + i)) ≡ p_de i
  filled-entry i lt =
      let low : leb (lba * 512) (lba * 512 + (slot * 24 + i)) ≡ true = ground arith in
      let high : ltb (lba * 512 + (slot * 24 + i)) ((lba + 1) * 512) ≡ true = ground arith in
      let at : lba * 512 + (slot * 24 + i) - lba * 512 ≡ slot * 24 + i = omega arith in
      let low' : leb (slot * 24) (slot * 24 + i) ≡ true = ground arith in
      let high' : ltb (slot * 24 + i) (slot * 24 + 24) ≡ true = ground arith in
      let at' : slot * 24 + i - slot * 24 ≡ i = omega arith in
      rw (low, high, at, low', high', at') refl

  filled-same : (a : ℕ) → (a / 512 == lba) ≡ false → filled a ≡ disk a
  filled-same a ne = ground (arith, ne)

  filled-other :
      (t i : ℕ)
      → t < 21
      → (t == slot) ≡ false
      → i < 24
      → filled (lba * 512 + (t * 24 + i)) ≡ buf (t * 24 + i)
  filled-other t i lt ne lt' =
      let low : leb (lba * 512) (lba * 512 + (t * 24 + i)) ≡ true = ground arith in
      let high : ltb (lba * 512 + (t * 24 + i)) ((lba + 1) * 512) ≡ true = ground arith in
      let at : lba * 512 + (t * 24 + i) - lba * 512 ≡ t * 24 + i = omega arith in
      let outside : (leb (slot * 24) (t * 24 + i) && ltb (t * 24 + i) (slot * 24 + 24)) ≡ false =
        ground (arith, ne) in
      rw (low, high, at, outside) refl

  filled-before : (o : ℕ) → o < slot * 24 → filled (lba * 512 + o) ≡ buf o
  filled-before o lt =
      let low : leb (lba * 512) (lba * 512 + o) ≡ true = ground arith in
      let high : ltb (lba * 512 + o) ((lba + 1) * 512) ≡ true = ground arith in
      let at : lba * 512 + o - lba * 512 ≡ o = omega arith in
      let low' : leb (slot * 24) o ≡ false = ground arith in rw (low, high, at, low') refl

module _ (part : Volume) (p_de : Bytes) (idx : ℕ) (w : Writing) (direct : idx < 12)
    (v : Sound part w.block_bitmap) (o : Owned part w.block_bitmap w.inode.i_sectors)
    (earlier : (m : ℕ) → m < idx → (w.inode.i_sectors m == 0) ≡ false) where
  apart_from :
      (m : ℕ)
      → m < 12
      → (w.inode.i_sectors m == 0) ≡ false
      → (m == idx) ≡ false
      → (w.inode.i_sectors idx == 0) ≡ false
      → (w.inode.i_sectors m == w.inode.i_sectors idx) ≡ false
  apart_from m lt used ne used' = elim (Bool-cases (ltb m idx)) [
    | inl less ↦ o.distinct m idx (ground (arith, less)) direct used
    | inr more ↦ ground (arith, o.distinct idx m (ground (arith, more, ne)) lt used')
  ]

  -- A free block is none of the directory.
  not_new :
      (index m : ℕ)
      → m < 12
      → (w.inode.i_sectors m == 0) ≡ false
      → bitmap_scan_test w.block_bitmap index ≡ false
      → (w.inode.i_sectors m == part.data_start_lba + index) ≡ false
  not_new index m lt used free =
      elim (Bool-cases (w.inode.i_sectors m == part.data_start_lba + index)) [
        | inr ne ↦ ne
        | inl e ↦
            let e' : w.inode.i_sectors m ≡ part.data_start_lba + index = (==_iff _ _).0 e in
            let at : w.inode.i_sectors m - part.data_start_lba ≡ index = omega arith in
            let wrong : true ≡ false =
              sym (o.taken m lt used) ∙ ap (bitmap_scan_test w.block_bitmap) at ∙ free in
            ground (arith, wrong)
      ]

  -- A new block for the entry.
  new_block-Entered :
      (w.inode.i_sectors idx == 0) ≡ true
      → HasFree w.block_bitmap 1
      → Entered part p_de w (new_block part p_de idx w)
  unfolding new_block
  new_block-Entered empty f =
      let b = w.block_bitmap in
      let a = alloc-Allocated part b 0 v f in
      let lba = part.data_start_lba + a.index in
      let w₂ = sync_block part lba (record w { block_bitmap = written b a.index true }) in
      let no_error : (lba == 2 ^ 32 - 1) ≡ false = ground (arith, v.small, a.inside) in
      let index : u32 (lba + 2 ^ 32 - part.data_start_lba) ≡ a.index =
        omega (arith, v.small, a.inside) in
      let not_error : (a.index == 2 ^ 32 - 1) ≡ false = ground (arith, v.small, a.inside) in
      let direct' : ltb idx 12 ≡ true = ground arith in
      let self : (idx == idx) ≡ true = (==_iff idx idx).1 refl in
      record {
        after = longer (put_sector lba (copy_to zeros 0 p_de 24) (put_direct idx lba w₂));
        returns = rw (a.returns, no_error, index, not_error, direct', self) refl;
        k = idx;
        slot = 0;
        direct = direct;
        slot_lt = omega arith;
        used = rw self (ground (arith, v.table));
        others = λ m ne. rw ne refl;
        earlier = earlier;
        apart = λ m lt. rw self (not_new a.index m (omega arith) (earlier m lt) a.free);
        i_size = refl;
        entry = λ i lt. rw self (filled-entry w₂.disk lba 0 zeros p_de (omega arith) i lt);
        same = λ x lo ne.
            filled-same w₂.disk lba 0 zeros p_de (omega arith) x
              (subst (λ c. (x / 512 == (if c then lba else w.inode.i_sectors idx)) ≡ false) self ne)
            ∙ rw index
                (bitmap_sync-kept part b a.index (written b a.index true) w.disk x v a.inside lo);
        kept = λ m t i lt used lt' busy lt''.
            let other : (m == idx) ≡ false = differs w.inode.i_sectors m idx empty used in
            let sector : (w.inode.i_sectors m * 512 + (t * 24 + i)) / 512 ≡ w.inode.i_sectors m =
              omega arith in
            let ne = not_new a.index m lt used a.free in
            let lo : part.data_start_lba * 512 ≤ w.inode.i_sectors m * 512 + (t * 24 + i) =
              omega (arith, o.placed m lt used) in
            (
              rw other refl,
              filled-same w₂.disk lba 0 zeros p_de (omega arith)
                    (w.inode.i_sectors m * 512 + (t * 24 + i)) (rw sector ne)
                  ∙ rw index (
                      bitmap_sync-kept part b a.index (written b a.index true) w.disk
                        (w.inode.i_sectors m * 512 + (t * 24 + i)) v a.inside lo),
            );
        before = inl refl;
      }

  -- A free entry in a block.
  fill_entry-Entered :
      (s : ℕ)
      → (w.inode.i_sectors idx == 0) ≡ false
      → s < 21
      → (f_type (read_sectors w.disk (w.inode.i_sectors idx) zeros 1) s == 0) ≡ true
      → let lba = w.inode.i_sectors idx in
        let r : Outcome (Bool × Writing) =
          ok (true, fill_entry p_de lba (read_sectors w.disk lba zeros 1) s w) in
        Entered part p_de w r
  fill_entry-Entered s used lt free =
      let lba = w.inode.i_sectors idx in
      let buf = read_sectors w.disk lba zeros 1 in
      record {
        after = fill_entry p_de lba buf s w;
        returns = refl;
        k = idx;
        slot = s;
        direct = direct;
        slot_lt = lt;
        used = used;
        others = λ m ne. refl;
        earlier = earlier;
        apart = λ m lt. o.distinct m idx lt direct (earlier m lt);
        i_size = refl;
        entry = filled-entry w.disk lba s buf p_de lt;
        same = λ x lo ne. filled-same w.disk lba s buf p_de lt x ne;
        kept = λ m t i lt' used' lt'' busy small. (
          refl,
          elim (Bool-cases (m == idx)) [
            | inl e ↦
                let at : m ≡ idx = (==_iff m idx).0 e in
                let ne : (t == s) ≡ false =
                  differs (λ n. f_type buf n) t s free
                    (subst
                      (λ n.
                        (f_type (read_sectors w.disk (w.inode.i_sectors n) zeros 1) t == 0) ≡ false)
                      at busy) in
                rw at (filled-other w.disk lba s buf p_de lt t i lt'' ne small ∙ ground arith)
            | inr ne ↦
                let sector : (w.inode.i_sectors m * 512 + (t * 24 + i)) / 512
                    ≡ w.inode.i_sectors m =
                  omega arith in
                filled-same w.disk lba s buf p_de lt (w.inode.i_sectors m * 512 + (t * 24 + i))
                  (rw sector (apart_from m lt' used' ne used))
          ],
        );
        before = inr (refl, λ x lt'. filled-before w.disk lba s buf p_de lt x lt' ∙ ground arith);
      }

  entry_or_next-Entered :
      (w.inode.i_sectors idx == 0) ≡ false
      → (next : Outcome (Bool × Writing)) (r : Option ℕ)
      → let lba = w.inode.i_sectors idx in
        let buf = read_sectors w.disk lba zeros 1 in
        free_entry dir_entrys_per_sec buf 0 ≡ r
        → (r ≡ none → Entered part p_de w next)
        → Entered part p_de w (entry_or_next p_de lba buf w next r)
  entry_or_next-Entered used next (some s) e rest =
      fill_entry-Entered s used (free_entry-lt 21 _ 0 s e) (free_entry-free 21 _ 0 s e)
  entry_or_next-Entered used next none e rest = rest refl

ahead :
    (disk : Bytes) (i_sectors : Blocks) (idx j : ℕ)
    → idx ≤ j
    → (i_sectors idx == 0) ≡ false
    → free_entry dir_entrys_per_sec (read_sectors disk (i_sectors idx) zeros 1) 0 ≡ none
    → has_room disk (i_sectors j) ≡ true
    → idx < j
ahead disk i_sectors idx j lo used full room = elim (Bool-cases (idx == j)) [
  | inr ne ↦ ground (arith, ne)
  | inl e ↦
      let at : idx ≡ j = (==_iff idx j).0 e in
      let none_here : has_room disk (i_sectors idx) ≡ false = rw (used, full) refl in
      let wrong : false ≡ true = sym none_here ∙ ap (λ n. has_room disk (i_sectors n)) at ∙ room in
      ground (arith, wrong)
]

one_more :
    (i_sectors : Blocks) (idx : ℕ)
    → ((m : ℕ) → m < idx → (i_sectors m == 0) ≡ false)
    → (i_sectors idx == 0) ≡ false
    → (m : ℕ) → m < idx + 1
    → (i_sectors m == 0) ≡ false
one_more i_sectors idx earlier used m lt = elim (Bool-cases (m == idx)) [
  | inl e ↦ let at : m ≡ idx = (==_iff m idx).0 e in rw at used
  | inr ne ↦ earlier m (ground (arith, ne))
]

-- When a block from `idx` on has room, the entry is put into the first one that has.
pub sync_blocks-Entered :
    (left : ℕ) (part : Volume) (p_de : Bytes) (idx j : ℕ) (w : Writing)
    → Sound part w.block_bitmap
    → Owned part w.block_bitmap w.inode.i_sectors
    → HasFree w.block_bitmap 1
    → ((m : ℕ) → m < 12 → w.all_blocks m ≡ w.inode.i_sectors m)
    → ((m : ℕ) → m < idx → (w.inode.i_sectors m == 0) ≡ false)
    → idx ≤ j
    → j < idx + left
    → j < 12
    → has_room w.disk (w.inode.i_sectors j) ≡ true
    → Entered part p_de w (sync_blocks left part p_de idx w)
unfolding sync_blocks
sync_blocks-Entered zero part p_de idx j w v o f blocks earlier lo hi small room =
    absurd (omega arith)
sync_blocks-Entered (suc left) part p_de idx j w v o f blocks earlier lo hi small room =
    let lba = w.inode.i_sectors idx in
    let buf = read_sectors w.disk lba zeros 1 in
    let same = blocks idx (omega arith) in
    rw same (elim (Bool-cases (lba == 0)) [
      | inl empty ↦ rw empty (new_block-Entered part p_de idx w (omega arith) v o earlier empty f)
      | inr used ↦ rw used (
          entry_or_next-Entered part p_de idx w (omega arith) v o earlier used _
            (free_entry dir_entrys_per_sec buf 0) refl
            (λ full.
              let later : idx < j = ahead w.disk w.inode.i_sectors idx j lo used full room in
              sync_blocks-Entered left part p_de (idx + 1) j w v o f blocks
                (one_more w.inode.i_sectors idx earlier used) (omega arith) (omega arith) small
                room))
    ])
