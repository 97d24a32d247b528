-- ===== src/FileData/Write/Grows.antt =====
-- The blocks that `file_write` takes for a file whose blocks all stand in the inode.
use loong_os.Prelude.{
  ℕ, zero, suc, ◌+◌, ◌-◌, ◌*◌, ◌^◌, ◌≤◌, ◌<◌, ◌≡◌, refl, ◌∙◌, subst, Bool, true, false, ◌&&◌,
  Outcome, ok, arith, ltb, leb, ◌==◌, if◌then◌else◌, u32, Bool-cases, inl, inr, ==_iff,
}
use loong_os.Bitmap.Bits.{written}
use loong_os.FileData.Write.{Volume, Writing, sync_block, put₁, put_direct, grow}
use loong_os.FileData.Write.Owns.{
  Sound, Owned, HasFree, Allocated, alloc-Allocated, Owned-add, not_root, bitmap_sync-kept,
  grown-old, grown-new,
}

-- What the loop of the first situation does with `left` blocks from `idx` on.
pub record Grown (part : Volume) (idx left : ℕ) (w : Writing) (r : Outcome (Bool × Writing))
    : Type 0 where
  pub after : Writing
  pub returns : r ≡ ok (true, after)
  pub sound : Sound part after.block_bitmap
  pub owned : Owned part after.block_bitmap after.inode.i_sectors (idx + left)
  pub i_size : after.inode.i_size ≡ w.inode.i_size
  pub old : (k : ℕ) → k < idx → after.inode.i_sectors k ≡ w.inode.i_sectors k
  pub blocks :
      (k : ℕ)
      → after.all_blocks k
        ≡ (if leb idx k && ltb k (idx + left) then after.inode.i_sectors k else w.all_blocks k)
  pub kept : (a : ℕ) → part.data_start_lba * 512 ≤ a → after.disk a ≡ w.disk a

-- The first block of the loop.
module _ (part : Volume) (left idx : ℕ) (w : Writing) (a : Allocated part w.block_bitmap left) where
  abbrev pub lba : ℕ
  lba = part.data_start_lba + a.index

  -- The state behind it.
  abbrev next : Writing
  next =
      sync_block part lba
        (put_direct idx lba (record w { block_bitmap = written w.block_bitmap a.index true }))

  module _ (v : Sound part w.block_bitmap) where
    pub index-lba : u32 (lba + 2 ^ 32 - part.data_start_lba) ≡ a.index
    index-lba = omega (arith, v.small, a.inside)

    grow_step :
        w.inode.i_sectors idx ≡ 0
        → 0 < a.index
        → grow (put₁ part) part (suc left) idx w ≡ grow (put₁ part) part left (idx + 1) next
    unfolding grow
    grow_step unused positive =
        let no_error : (lba == 2 ^ 32 - 1) ≡ false = ground (arith, v.small, a.inside) in
        let new : (w.inode.i_sectors idx == 0) ≡ true = (==_iff _ _).1 unused in
        let not_zero : (a.index == 0) ≡ false = ground (arith, positive) in
        rw (a.returns, no_error, new, index-lba, not_zero) refl

    next-kept : (x : ℕ) → part.data_start_lba * 512 ≤ x → next.disk x ≡ w.disk x
    next-kept x lo = rw index-lba (
        bitmap_sync-kept part w.block_bitmap a.index (written w.block_bitmap a.index true) w.disk x
          v a.inside lo)

-- When enough blocks are free, the loop gives the file different ones of the data that were free.
pub grow-Grown :
    (part : Volume) (left idx : ℕ) (w : Writing)
    → idx + left ≤ 12
    → Sound part w.block_bitmap
    → Owned part w.block_bitmap w.inode.i_sectors idx
    → HasFree w.block_bitmap left
    → Grown part idx left w (grow (put₁ part) part left idx w)
unfolding grow
grow-Grown part zero idx w fits v o f = record {
  after = w;
  returns = refl;
  sound = v;
  owned = let e : idx + 0 ≡ idx = omega arith in rw e o;
  i_size = refl;
  old = λ k lt. refl;
  blocks = λ k. ground arith;
  kept = λ a lo. refl;
}
grow-Grown part (suc left) idx w fits v o f =
    let b = w.block_bitmap in
    let a = alloc-Allocated part b left v f in
    let unused = o.unused idx (omega arith) (omega arith) in
    let owned = Owned-add part b w.inode.i_sectors idx a.index v o a.free in
    let r =
      grow-Grown part left (idx + 1) (next part left idx w a) (omega arith) a.sound owned a.more in
    let sum : idx + 1 + left ≡ idx + suc left = omega arith in
    record {
      after = r.after;
      returns =
          grow_step part left idx w a v unused
            (not_root part b w.inode.i_sectors idx a.index v o a.free)
          ∙ r.returns;
      sound = r.sound;
      owned = subst (Owned part r.after.block_bitmap r.after.inode.i_sectors) sum r.owned;
      i_size = r.i_size;
      old = λ k lt. r.old k (omega arith) ∙ grown-old part b w.inode.i_sectors idx a.index k lt;
      blocks = λ k. r.blocks k ∙ elim (Bool-cases (k == idx)) [
        | inl e ↦
            let e' : k ≡ idx = (==_iff k idx).0 e in
            let last =
              r.old idx (omega arith) ∙ grown-new part b w.inode.i_sectors idx a.index idx refl in
            rw e' (ground (arith, last))
        | inr ne ↦ ground (arith, ne)
      ];
      kept = λ x lo. r.kept x lo ∙ next-kept part left idx w a v x lo;
    }
