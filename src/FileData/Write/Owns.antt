-- ===== src/FileData/Write/Owns.antt =====
-- What it means that a file has its blocks, and what `block_bitmap_alloc` adds to them.
use loong_os.Prelude.{
  ℕ, suc, ◌+◌, ◌-◌, ◌*◌, ◌/◌, ◌^◌, ◌≤◌, ◌<◌, ◌≡◌, refl, sym, ◌∙◌, ap, Bool, true, false, ok, arith,
  ltb, ltb→lt, ◌==◌, u32, Bool-cases, inl, inr, ==_iff,
}
use loong_os.Bitmap.{Bitmap, bitmap_scan_test}
use loong_os.Bitmap.Bits.{written, bitmap_set-written, test-written, IsBytes-written, len-written}
use loong_os.Bitmap.Runs
use loong_os.Bitmap.Runs.{size, bitmap_scan_one}
use loong_os.Inode.{Bytes}
use loong_os.Inode.Place
use loong_os.FileData.{Blocks, set_block}
use loong_os.FileData.Write.{Volume, block_bitmap_alloc, bitmap_sync}

-- The block bitmap and the table of inodes lie before the data, and sectors are counted in a word.
pub record Sound (part : Volume) (b : Bitmap) : Type 0 where
  pub inodes : Place.IsValid part.inodes
  pub bitmap : part.block_bitmap_lba + size b / 4096 + 1 ≤ part.data_start_lba
  pub table : part.inodes.inode_table_lba + 608 ≤ part.data_start_lba
  pub small : part.data_start_lba + size b < 2 ^ 32 - 1
  pub bits : Runs.IsValid b

-- The first `has` blocks of a file are different blocks of the data, none of them that of the root,
-- and taken in the bitmap; the other entries of the inode are 0.
pub record Owned (part : Volume) (b : Bitmap) (i_sectors : Blocks) (has : ℕ) : Type 0 where
  pub placed : (k : ℕ) → k < has → part.data_start_lba < i_sectors k
  pub taken : (k : ℕ) → k < has → bitmap_scan_test b (i_sectors k - part.data_start_lba) ≡ true
  pub distinct : (k l : ℕ) → k < l → l < has → (i_sectors k == i_sectors l) ≡ false
  pub unused : (k : ℕ) → has ≤ k → k < 12 → i_sectors k ≡ 0
  pub root : bitmap_scan_test b 0 ≡ true

-- At least `n` blocks are free.
pub record HasFree (b : Bitmap) (n : ℕ) : Type 0 where
  pub block : ℕ → ℕ
  pub inside : (i : ℕ) → i < n → block i < size b
  pub free : (i : ℕ) → i < n → bitmap_scan_test b (block i) ≡ false
  pub order : (i j : ℕ) → i < j → j < n → block i < block j

-- What `block_bitmap_alloc` does when a block is free.
pub record Allocated (part : Volume) (b : Bitmap) (left : ℕ) : Type 0 where
  pub index : ℕ
  pub returns : block_bitmap_alloc part b ≡ ok (part.data_start_lba + index, written b index true)
  pub inside : index < size b
  pub free : bitmap_scan_test b index ≡ false
  pub sound : Sound part (written b index true)
  pub more : HasFree (written b index true) left

size-written : (b : Bitmap) (i : ℕ) (v : Bool) → size (written b i v) ≡ size b
size-written b i v = ap (λ n. n * 8) (len-written b i v)

Sound-written : (part : Volume) (b : Bitmap) (i : ℕ) → Sound part b → Sound part (written b i true)
Sound-written part b i v =
    let e = size-written b i true in
    record {
      inodes = v.inodes;
      bitmap = omega (arith, v.bitmap, e);
      table = v.table;
      small = omega (arith, v.small, e);
      bits = record {
        bytes = IsBytes-written b i true v.bits.bytes;
        small = omega (arith, v.bits.small, e);
      };
    }

pub alloc-Allocated :
    (part : Volume) (b : Bitmap) (left : ℕ)
    → Sound part b
    → HasFree b (suc left)
    → Allocated part b left
unfolding block_bitmap_alloc
alloc-Allocated part b left v f =
    let (s, found, s_le, free, below) =
      bitmap_scan_one b (f.block 0) v.bits (f.inside 0 (omega arith)) (f.free 0 (omega arith)) in
    let s_lt : s < size b = omega (arith, f.inside 0 (omega arith)) in
    let lba : u32 (part.data_start_lba + s) ≡ part.data_start_lba + s = omega (arith, v.small) in
    let b' = written b s true in
    record {
      index = s;
      returns = rw (found, bitmap_set-written b s 1 (omega arith), lba) refl;
      inside = s_lt;
      free = free;
      sound = Sound-written part b s v;
      more = record {
        block = λ i. f.block (suc i);
        inside = λ i lt. omega (arith, f.inside (suc i) (omega arith), size-written b s true);
        free = λ i lt.
            let behind : f.block 0 < f.block (suc i) =
              f.order 0 (suc i) (omega arith) (omega arith) in
            let other : (s == f.block (suc i)) ≡ false = ground arith in
            test-written b s true (f.block (suc i)) v.bits.bytes
            ∙ rw other (f.free (suc i) (omega arith));
        order = λ i j lt lt'. f.order (suc i) (suc j) (omega arith) (omega arith);
      };
    }

module _ (part : Volume) (b : Bitmap) (i_sectors : Blocks) (has index : ℕ) where
  -- The entries of the inode with the block `index` in addition.
  abbrev pub grown : Blocks
  grown = set_block has (part.data_start_lba + index) i_sectors

  pub grown-old : (k : ℕ) → k < has → grown k ≡ i_sectors k
  grown-old k h = let ne : (k == has) ≡ false = ground arith in rw ne refl

  pub grown-new : (k : ℕ) → k ≡ has → grown k ≡ part.data_start_lba + index
  grown-new k e = rw ((==_iff k has).1 e) refl

  module _ (v : Sound part b) (o : Owned part b i_sectors has)
      (free : bitmap_scan_test b index ≡ false) where
    pub not_root : 0 < index
    not_root = elim (Bool-cases (index == 0)) [
      | inl e ↦
          let e' : index ≡ 0 = (==_iff index 0).0 e in
          let wrong : true ≡ false = sym o.root ∙ ap (bitmap_scan_test b) (sym e') ∙ free in
          ground (arith, wrong)
      | inr ne ↦ ground (arith, ne)
    ]

    still : (j : ℕ) → bitmap_scan_test b j ≡ true → bitmap_scan_test (written b index true) j ≡ true
    still j t = test-written b index true j v.bits.bytes ∙ ground (arith, t)

    -- A block of the file is not the free one.
    not_new : (k : ℕ) → k < has → (i_sectors k == part.data_start_lba + index) ≡ false
    not_new k h = elim (Bool-cases (i_sectors k == part.data_start_lba + index)) [
      | inr ne ↦ ne
      | inl e ↦
          let e' : i_sectors k ≡ part.data_start_lba + index = (==_iff _ _).0 e in
          let at : i_sectors k - part.data_start_lba ≡ index = omega arith in
          let wrong : true ≡ false = sym (o.taken k h) ∙ ap (bitmap_scan_test b) at ∙ free in
          ground (arith, wrong)
    ]

    -- A free block becomes the next one of the file.
    pub Owned-add : Owned part (written b index true) grown (has + 1)
    Owned-add = record {
      placed = λ k lt. elim (Bool-cases (ltb k has)) [
        | inl old ↦ let h = ltb→lt k has old in rw (grown-old k h) (o.placed k h)
        | inr new ↦
            let e : k ≡ has = ground (arith, new) in rw (grown-new k e) (omega (arith, not_root))
      ];
      taken = λ k lt. elim (Bool-cases (ltb k has)) [
        | inl old ↦
            let h = ltb→lt k has old in
            rw (grown-old k h) (still (i_sectors k - part.data_start_lba) (o.taken k h))
        | inr new ↦
            let e : k ≡ has = ground (arith, new) in
            let at : part.data_start_lba + index - part.data_start_lba ≡ index = omega arith in
            rw (grown-new k e, at) (test-written b index true index v.bits.bytes ∙ ground arith)
      ];
      distinct = λ k l lt lt'. elim (Bool-cases (ltb l has)) [
        | inl old ↦
            let h = ltb→lt l has old in
            let h' : k < has = omega arith in
            rw (grown-old k h', grown-old l h) (o.distinct k l lt h)
        | inr new ↦
            let e : l ≡ has = ground (arith, new) in
            let h' : k < has = omega arith in rw (grown-old k h', grown-new l e) (not_new k h')
      ];
      unused = λ k lo hi. ground (arith, o.unused k (omega arith) hi);
      root = still 0 o.root;
    }

-- Writing a sector of the block bitmap touches no sector of the data.
pub bitmap_sync-kept :
    (part : Volume) (b : Bitmap) (index : ℕ) (btmp : Bitmap) (disk : Bytes) (a : ℕ)
    → Sound part b
    → index < size b
    → part.data_start_lba * 512 ≤ a
    → bitmap_sync part.block_bitmap_lba btmp index disk a ≡ disk a
bitmap_sync-kept part b index btmp disk a v lt lo =
    let lba : u32 (part.block_bitmap_lba + index / 4096) ≡ part.block_bitmap_lba + index / 4096 =
      omega (arith, v.bitmap, v.small) in
    let behind : ltb a ((part.block_bitmap_lba + index / 4096 + 1) * 512) ≡ false =
      ground (arith, v.bitmap) in
    rw (lba, behind) (ground arith)
