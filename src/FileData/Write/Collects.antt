-- ===== src/FileData/Write/Collects.antt =====
-- The blocks that `file_write` collects before it writes.
use loong_os.Prelude.{
  ℕ, suc, ◌+◌, ◌-◌, ◌*◌, ◌/◌, ◌^◌, ◌≤◌, ◌<◌, ◌≡◌, refl, sym, ◌∙◌, subst, Bool, true, false, Outcome,
  ok, arith, leb, ◌==◌, if◌then◌else◌, u32, Bool-cases, inl, inr,
}
use loong_os.Bitmap.Bits.{written}
use loong_os.FileData.{FileInode}
use loong_os.FileData.Write.{
  Volume, Writing, set_sector, sync_block, last_block, first_block, collect_write,
}
use loong_os.FileData.Write.Owns.{
  Sound, Owned, HasFree, alloc-Allocated, Owned-add, not_root, bitmap_sync-kept,
}
use loong_os.FileData.Write.Grows.{grow-Grown}

-- The blocks of a file: none as long as its first entry is 0, and else one more than full ones.
abbrev pub held : FileInode → ℕ
held inode = if inode.i_sectors 0 == 0 then 0 else inode.i_size / 512 + 1

-- What collecting the blocks for a file of then `will` blocks does.
pub record Collected (part : Volume) (has will : ℕ) (w : Writing) (r : Outcome (Bool × Writing))
    : Type 0 where
  pub after : Writing
  pub returns : r ≡ ok (true, after)
  pub sound : Sound part after.block_bitmap
  pub owned : Owned part after.block_bitmap after.inode.i_sectors will
  pub i_size : after.inode.i_size ≡ w.inode.i_size
  pub old : (k : ℕ) → k < has → after.inode.i_sectors k ≡ w.inode.i_sectors k
  pub blocks : (k : ℕ) → has ≤ k + 1 → k < will → after.all_blocks k ≡ after.inode.i_sectors k
  pub kept : (a : ℕ) → part.data_start_lba * 512 ≤ a → after.disk a ≡ w.disk a

pub collect_write-Collected :
    (part : Volume) (has will : ℕ) (w : Writing)
    → 0 < has
    → has ≤ will
    → will ≤ 12
    → Sound part w.block_bitmap
    → Owned part w.block_bitmap w.inode.i_sectors has
    → HasFree w.block_bitmap (will - has)
    → Collected part has will w (collect_write part has will w)
unfolding collect_write
collect_write-Collected part has will w some_block more direct v o f =
    let direct' : leb will 12 ≡ true = ground arith in
    elim (Bool-cases (will == has)) [
      | inl same ↦
          let e : has ≡ will = ground (arith, same) in
          rw (same, direct')
            (record {
              after = last_block has w;
              returns = refl;
              sound = v;
              owned = subst (Owned part w.block_bitmap w.inode.i_sectors) e o;
              i_size = refl;
              old = λ k lt. refl;
              blocks = λ k lo hi. let at : k ≡ has - 1 = omega arith in rw at (ground arith);
              kept = λ a lo. refl;
            })
      | inr differ ↦
          let placed : (w.inode.i_sectors (has - 1) == 0) ≡ false =
            ground (arith, o.placed (has - 1) (omega arith)) in
          let r = grow-Grown part (will - has) has (last_block has w) (omega arith) v o f in
          let sum : has + (will - has) ≡ will = omega arith in
          rw (differ, direct', placed)
            (record {
              after = r.after;
              returns = r.returns;
              sound = r.sound;
              owned = subst (Owned part r.after.block_bitmap r.after.inode.i_sectors) sum r.owned;
              i_size = r.i_size;
              old = r.old;
              blocks = λ k lo hi. r.blocks k ∙ elim (Bool-cases (leb has k)) [
                | inl new ↦ ground (arith, new)
                | inr last ↦
                    let at : k ≡ has - 1 = ground (arith, last) in
                    rw at (ground (arith, r.old (has - 1) (omega arith)))
              ];
              kept = r.kept;
            })
    ]

-- The first block of a file that has none.
pub record Begun (part : Volume) (has will : ℕ) (w : Writing) : Type 0 where
  pub after : Writing
  pub returns : first_block part w ≡ ok (true, after)
  pub sound : Sound part after.block_bitmap
  pub owned : Owned part after.block_bitmap after.inode.i_sectors has
  pub free : HasFree after.block_bitmap (will - has)
  pub i_size : after.inode.i_size ≡ w.inode.i_size
  pub old : (k : ℕ) → k < held w.inode → after.inode.i_sectors k ≡ w.inode.i_sectors k
  pub kept : (a : ℕ) → part.data_start_lba * 512 ≤ a → after.disk a ≡ w.disk a

pub first_block-Begun :
    (part : Volume) (will : ℕ) (w : Writing)
    → ((w.inode.i_sectors 0 == 0) ≡ true → w.inode.i_size ≡ 0)
    → 0 < will
    → Sound part w.block_bitmap
    → Owned part w.block_bitmap w.inode.i_sectors (held w.inode)
    → HasFree w.block_bitmap (will - held w.inode)
    → Begun part (w.inode.i_size / 512 + 1) will w
unfolding first_block
first_block-Begun part will w empty some_block v o f =
    elim (Bool-cases (w.inode.i_sectors 0 == 0)) [
      | inr has ↦
          let e : held w.inode ≡ w.inode.i_size / 512 + 1 = rw has refl in
          record {
            after = w;
            returns = rw has refl;
            sound = v;
            owned = subst (Owned part w.block_bitmap w.inode.i_sectors) e o;
            free = subst (λ n. HasFree w.block_bitmap (will - n)) e f;
            i_size = refl;
            old = λ k lt. refl;
            kept = λ a lo. refl;
          }
      | inl fresh ↦
          let b = w.block_bitmap in
          let none_held : held w.inode ≡ 0 = rw fresh refl in
          let one : w.inode.i_size / 512 + 1 ≡ 1 = rw (empty fresh) refl in
          let o₀ = subst (Owned part b w.inode.i_sectors) none_held o in
          let left : will - held w.inode ≡ suc (will - 1) = rw none_held (omega arith) in
          let a = alloc-Allocated part b (will - 1) v (subst (HasFree b) left f) in
          let new = part.data_start_lba + a.index in
          let w' = sync_block part new (record w {
            block_bitmap = written b a.index true;
            inode = set_sector 0 new w.inode;
          }) in
          let no_error : (new == 2 ^ 32 - 1) ≡ false = ground (arith, v.small, a.inside) in
          let index : u32 (new + 2 ^ 32 - part.data_start_lba) ≡ a.index =
            omega (arith, v.small, a.inside) in
          let not_zero : (a.index == 0) ≡ false =
            ground (arith, not_root part b w.inode.i_sectors 0 a.index v o₀ a.free) in
          let owned = Owned-add part b w.inode.i_sectors 0 a.index v o₀ a.free in
          record {
            after = w';
            returns = rw (fresh, a.returns, no_error, index, not_zero) refl;
            sound = a.sound;
            owned = subst (Owned part w'.block_bitmap w'.inode.i_sectors) (sym one) owned;
            free = subst (λ n. HasFree w'.block_bitmap (will - n)) (sym one) a.more;
            i_size = refl;
            old = λ k lt. absurd (omega (arith, none_held));
            kept = λ x lo.
                rw index
                  (bitmap_sync-kept part b a.index (written b a.index true) w.disk x v a.inside lo);
          }
    ]
