-- ===== src/Directory/RoundTrip.antt =====
-- An entry that was written is found again.
use loong_os.Prelude.{
  ℕ, ◌+◌, ◌*◌, ◌/◌, ◌%◌, ◌<◌, ◌≡◌, refl, sym, ◌∙◌, ap, subst, fun_ext, Bool, true, false, Option,
  none, some, List, Outcome, ok, arith, ltb, ◌==◌, u32, Bool-cases, inl, inr, ==_iff,
}
use loong_os.CString.{nought, strcmp}
use loong_os.Inode.{Bytes, read_sectors}
use loong_os.FileData.{FileInode}
use loong_os.FileData.Write.{Volume, Writing}
use loong_os.FileData.Write.Owns.{Sound, HasFree}
use loong_os.Directory.{
  dir_entrys_per_sec, zeros, window, filename, search_entries, search_blocks, search_dir_entry,
  direct_blocks, sync_dir_entry,
}
use loong_os.Directory.Entries.{
  window-shift, search_entries-found, search_entries-first, search_blocks-absent,
  search_blocks-found,
}
use loong_os.Directory.Entering.{Owned, has_room, Entered, Keeps, sync_blocks-Entered}

direct_at : (inode : FileInode) (k : ℕ) → k < 12 → direct_blocks inode k ≡ inode.i_sectors k
direct_at inode k lt = let small : ltb k 12 ≡ true = ground arith in rw small refl

-- The search of a directory without a table.
search-direct :
    (disk : Bytes) (inode : FileInode) (name : List ℕ)
    → inode.i_sectors 12 ≡ 0
    → search_dir_entry true disk inode name ≡ search_blocks 140 disk (direct_blocks inode) name 0
unfolding search_dir_entry
search-direct disk inode name e =
    let no_table : (inode.i_sectors 12 == 0) ≡ true = (==_iff _ _).1 e in rw no_table refl

read-same :
    (disk disk' : Bytes) (lba : ℕ)
    → ((i : ℕ) → i < 512 → disk (lba * 512 + i) ≡ disk' (lba * 512 + i))
    → read_sectors disk lba zeros 1 ≡ read_sectors disk' lba zeros 1
read-same disk disk' lba same = fun_ext (λ i. elim (Bool-cases (ltb i (1 * 512))) [
  | inl within ↦ rw within (same i (ground (arith, within)))
  | inr out ↦ rw out refl
])

read-at :
    (disk : Bytes) (lba i : ℕ) → i < 512 → read_sectors disk lba zeros 1 i ≡ disk (lba * 512 + i)
read-at disk lba i lt = let within : ltb i (1 * 512) ≡ true = ground arith in rw within refl

-- The search of a sector for `name`.
abbrev searched : Bytes → ℕ → List ℕ → Outcome (Option ℕ)
searched disk lba name = search_entries dir_entrys_per_sec (read_sectors disk lba zeros 1) name 0

absent-at :
    (disk : Bytes) (inode : FileInode) (name : List ℕ) (m : ℕ)
    → search_blocks 140 disk (direct_blocks inode) name 0 ≡ ok none
    → m < 12
    → (inode.i_sectors m == 0) ≡ false
    → searched disk (inode.i_sectors m) name ≡ ok none
absent-at disk inode name m absent lt used =
    let at = direct_at inode m lt in
    let used' : (direct_blocks inode m == 0) ≡ false = rw at used in
    subst (λ s. searched disk s name ≡ ok none) at
      (search_blocks-absent 140 disk (direct_blocks inode) name 0 m absent (omega arith)
        (omega arith) used')

module _ (part : Volume) (p_de : Bytes) (w : Writing) (name : List ℕ) (r : Outcome (Bool × Writing))
    (x : Entered part p_de w r) (o : Owned part w.block_bitmap w.inode.i_sectors)
    (absent : search_blocks 140 w.disk (direct_blocks w.inode) name 0 ≡ ok none)
    (named : strcmp (some (window p_de 0 16)) (some name) ≡ ok nought) where
  abbrev lba : ℕ
  lba = x.after.inode.i_sectors x.k

  abbrev buf : Bytes
  buf = read_sectors x.after.disk lba zeros 1

  -- The bytes of the entry, read again.
  entry-at : (i : ℕ) → i < 24 → buf (x.slot * 24 + i) ≡ p_de i
  entry-at i lt =
      read-at x.after.disk lba (x.slot * 24 + i) (omega (arith, x.slot_lt)) ∙ x.entry i lt

  named-at : strcmp (some (filename buf x.slot)) (some name) ≡ ok nought
  named-at =
      ap (λ n. strcmp (some n) (some name))
        (window-shift 16 (x.slot * 24) 0 buf p_de
          (λ i lt. entry-at i (omega arith) ∙ ap p_de (omega arith)))
      ∙ named

  found-at : searched x.after.disk lba name ≡ ok (some x.slot)
  found-at = elim x.before [
    | inl first ↦
        let named₀ =
          subst (λ s. strcmp (some (filename buf s)) (some name) ≡ ok nought) first named-at in
        search_entries-first 20 buf name named₀ ∙ ap (λ s. ok (some s)) (sym first)
    | inr (same, bytes) ↦
        let used = subst (λ s. (s == 0) ≡ false) (sym same) x.used in
        let absent' =
          subst (λ s. searched w.disk s name ≡ ok none) same
            (absent-at w.disk w.inode name x.k absent x.direct used) in
        search_entries-found 21 (read_sectors w.disk lba zeros 1) buf name 0 x.slot absent'
          (omega arith) x.slot_lt
          (λ i lt.
            let small : i < 512 = omega (arith, x.slot_lt) in
            read-at w.disk lba i small ∙ sym (bytes i lt) ∙ sym (read-at x.after.disk lba i small))
          named-at
  ]

  earlier-at :
      (m : ℕ) → m < x.k → searched x.after.disk (direct_blocks x.after.inode m) name ≡ ok none
  earlier-at m lt =
      let lt' : m < 12 = omega (arith, x.direct) in
      let other : (m == x.k) ≡ false = ground (arith, lt) in
      let used = x.earlier m lt in
      let at = direct_at x.after.inode m lt' ∙ x.others m other in
      let same = read-same w.disk x.after.disk (w.inode.i_sectors m) (λ i small.
        let sector : (w.inode.i_sectors m * 512 + i) / 512 ≡ w.inode.i_sectors m = omega arith in
        let ne : ((w.inode.i_sectors m * 512 + i) / 512 == lba) ≡ false =
          rw sector (x.apart m lt) in
        sym (x.same (w.inode.i_sectors m * 512 + i) (omega (arith, o.placed m lt' used)) ne)) in
      ap (λ s. searched x.after.disk s name) at
      ∙ sym (ap (λ b. search_entries dir_entrys_per_sec b name 0) same)
      ∙ absent-at w.disk w.inode name m absent lt' used

  -- The search finds the entry.
  search-Entered :
      (e : Bytes) × (search_dir_entry true x.after.disk x.after.inode name ≡ ok (some e))
      × ((i : ℕ) → i < 24 → e i ≡ p_de i)
  search-Entered =
      let at = direct_at x.after.inode x.k x.direct in
      let no_table : x.after.inode.i_sectors 12 ≡ 0 =
        x.others 12 (ground (arith, x.direct)) ∙ o.no_table in
      let used : (direct_blocks x.after.inode x.k == 0) ≡ false = rw at x.used in
      let found = subst (λ s. searched x.after.disk s name ≡ ok (some x.slot)) (sym at) found-at in
      (
        (λ i.
            read_sectors x.after.disk (direct_blocks x.after.inode x.k) zeros 1 (x.slot * 24 + i)),
        search-direct x.after.disk x.after.inode name no_table
            ∙ search_blocks-found 140 x.after.disk (direct_blocks x.after.inode) name 0 x.k x.slot
                (omega arith) (omega (arith, x.direct)) (λ m lo hi. earlier-at m hi) used found,
        λ i lt. ap (λ s. read_sectors x.after.disk s zeros 1 (x.slot * 24 + i)) at ∙ entry-at i lt,
      )

-- For a partition whose block bitmap and table of inodes lie before the data and that has a free
-- block, a directory of whole entries without a table, whose blocks are different ones of the data,
-- taken in the bitmap, with one that is missing or has a free entry, and a name that
-- `search_dir_entry`, with its buffer allocated, does not find in it: `sync_dir_entry` returns true for an entry of that name, the
-- size of the directory grows by one entry, and then `search_dir_entry` finds the name and gives the
-- 24 bytes of this entry. Every entry of another type than FT_UNKNOWN has kept its place and its bytes.
pub search_dir_entry-sync_dir_entry :
    (part : Volume) (p_de : Bytes) (w : Writing) (name : List ℕ) (j : ℕ)
    → w.inode.i_size % 24 ≡ 0
    → Sound part w.block_bitmap
    → Owned part w.block_bitmap w.inode.i_sectors
    → HasFree w.block_bitmap 1
    → j < 12
    → has_room w.disk (w.inode.i_sectors j) ≡ true
    → search_dir_entry true w.disk w.inode name ≡ ok none
    → strcmp (some (window p_de 0 16)) (some name) ≡ ok nought
    → (after : Writing) × (e : Bytes) × (sync_dir_entry part p_de w ≡ ok (true, after))
      × (after.inode.i_size ≡ u32 (w.inode.i_size + 24))
      × (search_dir_entry true after.disk after.inode name ≡ ok (some e))
      × ((i : ℕ) → i < 24 → e i ≡ p_de i)
      × Keeps w after
unfolding sync_dir_entry
search_dir_entry-sync_dir_entry part p_de w name j whole v o f small room absent named =
    let w₀ : Writing = record w { all_blocks = direct_blocks w.inode } in
    let x =
      sync_blocks-Entered 140 part p_de 0 j w₀ v o f (direct_at w.inode)
        (λ m lt. absurd (omega arith)) (omega arith) (omega arith) small room in
    let absent' = sym (search-direct w.disk w.inode name o.no_table) ∙ absent in
    let (e, found, bytes) = search-Entered part p_de w₀ name _ x o absent' named in
    let even : (w.inode.i_size % 24 == 0) ≡ true = (==_iff _ _).1 whole in
    (x.after, e, rw even x.returns, x.i_size, found, bytes, x.kept)
