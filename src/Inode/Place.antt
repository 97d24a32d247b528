-- ===== src/Inode/Place.antt =====
-- Each inode has 76 bytes of its own in the table, and a write touches just these.
use loong_os.Prelude.{
  ℕ, ◌+◌, ◌-◌, ◌*◌, ◌/◌, ◌%◌, ◌^◌, ◌≤◌, ◌<◌, ◌≡◌, refl, sym, ◌∙◌, ap, subst, Bool, true, false,
  ◌&&◌, Outcome, ok, arith, ltb, leb, ◌==◌, if◌then◌else◌, u32, Bool-cases, inl, inr,
}
use loong_os.Inode.{
  Bytes, Partition, InodePosition, inode_locate, read_sectors, sectors, i_no, pure_inode, put_inode,
  in_partition, inode_sync, inode_delete, inode_load, inode_init, byte_of,
}

-- The inode table lies inside the partition, and the partition inside the disk.
pub record IsValid (part : Partition) : Type 0 where
  pub table : part.inode_table_lba + 609 ≤ part.start_lba + part.sec_cnt
  pub small : part.start_lba + part.sec_cnt < 2 ^ 32

-- The address of the inode `n` on the disk.
abbrev pub inode_at : Partition → ℕ → ℕ
inode_at part n = part.inode_table_lba * 512 + n * 76

-- The disk with other bytes in the place of the inode `n`.
abbrev pub replaced : Partition → ℕ → Bytes → Bytes → Bytes
replaced part n src disk a =
    if leb (inode_at part n) a && ltb a (inode_at part n + 76)
    then src (a - inode_at part n)
    else disk a

-- Where `inode_locate` finds an inode.
record Located (part : Partition) (n : ℕ) : Type 0 where
  pos : InodePosition
  returns : inode_locate part n ≡ ok pos
  place : pos.sec_lba * 512 + pos.off_size ≡ inode_at part n
  fits : pos.off_size + 76 ≤ sectors pos * 512
  inside : in_partition part pos ≡ true

locate-Located : (part : Partition) (n : ℕ) → IsValid part → n < 4096 → Located part n
unfolding inode_locate
locate-Located part n v h =
    let small : ltb n 4096 ≡ true = ground arith in
    let off : u32 (n * 76) ≡ n * 76 = omega arith in
    let lba : u32 (part.inode_table_lba + n * 76 / 512) ≡ part.inode_table_lba + n * 76 / 512 =
      omega (arith, v.table, v.small) in
    record {
      pos = record {
        two_sec = if ltb 76 (512 - n * 76 % 512) then false else true;
        sec_lba = part.inode_table_lba + n * 76 / 512;
        off_size = n * 76 % 512;
      };
      returns = rw (small, off, lba) refl;
      place = omega arith;
      fits = ground arith;
      inside = ground (arith, v.table, v.small);
    }

put_inode-replaced :
    (part : Partition) (n : ℕ) (l : Located part n) (src io_buf disk : Bytes) (a : ℕ)
    → put_inode l.pos src io_buf disk a ≡ replaced part n src disk a
unfolding put_inode
put_inode-replaced part n l src io_buf disk a = ground (arith, l.place, l.fits)

-- The bytes that are read of an inode.
load_lem :
    (part : Partition) (n : ℕ) (new_buf disk : Bytes)
    → IsValid part
    → n < 4096
    → (b : Bytes) × (inode_load part n new_buf disk ≡ ok b)
      × ((i : ℕ) → i < 76 → b i ≡ disk (inode_at part n + i))
unfolding inode_load
load_lem part n new_buf disk v h =
    let l = locate-Located part n v h in
    (
      (λ i. read_sectors disk l.pos.sec_lba new_buf (sectors l.pos) (l.pos.off_size + i)),
      rw l.returns refl,
      λ i small. ground (arith, l.place, l.fits),
    )

-- Two inodes have no byte in common.
replaced-at :
    (part : Partition) (n m i : ℕ) (src disk : Bytes)
    → i < 76
    → replaced part n src disk (inode_at part m + i)
      ≡ (if m == n then src i else disk (inode_at part m + i))
replaced-at part n m i src disk h = elim (Bool-cases (m == n)) [
  | inl e ↦ ground (arith, e, h)
  | inr ne ↦ ground (arith, ne, h)
]

abbrev pub Written : Partition → ℕ → Bytes → Bytes → ℕ → Bytes → Outcome Bytes → Type 0
Written part n src disk m new_buf result =
    (disk' b b' : Bytes) × (result ≡ ok disk')
    × (inode_load part m new_buf disk ≡ ok b)
    × (inode_load part m new_buf disk' ≡ ok b')
    × ((i : ℕ) → i < 76 → b' i ≡ (if m == n then src i else b i))
    × ((a : ℕ)
        → (leb (inode_at part n) a && ltb a (inode_at part n + 76)) ≡ false
        → disk' a ≡ disk a)

put_inode-Written :
    (part : Partition) (n m : ℕ) (src io_buf new_buf disk : Bytes)
    → IsValid part
    → m < 4096
    → (l : Located part n)
    → Written part n src disk m new_buf (ok (put_inode l.pos src io_buf disk))
put_inode-Written part n m src io_buf new_buf disk v h l =
    let disk' = put_inode l.pos src io_buf disk in
    let (b, e, at) = load_lem part m new_buf disk v h in
    let (b', e', at') = load_lem part m new_buf disk' v h in
    (
      disk',
      b,
      b',
      refl,
      e,
      e',
      (λ i small.
          at' i small
          ∙ put_inode-replaced part n l src io_buf disk (inode_at part m + i)
          ∙ replaced-at part n m i src disk small
          ∙ ap (λ x. if m == n then src i else x) (sym (at i small))),
      λ a out. put_inode-replaced part n l src io_buf disk a ∙ rw out refl,
    )

-- For a partition with a table of 4096 inodes, and any two inodes: `inode_sync` writes the 76 bytes
-- of the one, with `i_open_cnts`, `write_deny` and `inode_tag` cleared, to the place of the number
-- that is left of its `i_no` modulo 256. Reading the other gives these bytes if that is its number,
-- and what it gave before if not; no byte of the disk outside that place changes.
pub inode_sync_lem :
    (part : Partition) (inode io_buf new_buf disk : Bytes) (m : ℕ)
    → IsValid part
    → m < 4096
    → Written part
        (i_no inode % 2 ^ 8)
        (pure_inode inode)
        disk
        m
        new_buf
        (inode_sync part inode io_buf disk)
unfolding inode_sync
inode_sync_lem part inode io_buf new_buf disk m v h =
    let l = locate-Located part (i_no inode % 2 ^ 8) v (omega arith) in
    rw (l.returns, l.inside)
      (put_inode-Written part (i_no inode % 2 ^ 8) m (pure_inode inode) io_buf new_buf disk v h l)

-- For a number below 4096, `inode_delete` clears the 76 bytes of just that inode: reading it gives
-- zeros, reading any other gives what it gave before, and no other byte of the disk changes.
pub inode_delete_lem :
    (part : Partition) (n : ℕ) (io_buf new_buf disk : Bytes) (m : ℕ)
    → IsValid part
    → n < 4096
    → m < 4096
    → Written part n (λ i. 0) disk m new_buf (inode_delete part n io_buf disk)
unfolding inode_delete
inode_delete_lem part n io_buf new_buf disk m v small h =
    let l = locate-Located part n v small in
    let below : ltb n 4096 ≡ true = ground arith in
    rw (l.returns, l.inside, below) (put_inode-Written part n m (λ i. 0) io_buf new_buf disk v h l)

i_no-inode_init : (n : ℕ) (new : Bytes) → n < 2 ^ 32 → i_no (inode_init n new) ≡ n
unfolding inode_init
i_no-inode_init n new h = omega arith

pure-inode_init :
    (n : ℕ) (new : Bytes) (i : ℕ) → i < 4 → pure_inode (inode_init n new) i ≡ byte_of n i
unfolding inode_init pure_inode
pure-inode_init n new i h = ground arith

same_ok : {r : Outcome Bytes} {a b : Bytes} → r ≡ ok a → r ≡ ok b → a ≡ b
same_ok p q = cc

if_yes : {c : Bool} (x y : ℕ) → c ≡ true → (if c then x else y) ≡ x
if_yes x y e = rw e refl

if_no : {c : Bool} (x y : ℕ) → c ≡ false → (if c then x else y) ≡ y
if_no x y e = rw e refl

-- A new inode whose number is from 256 to 4095 is not written to its own place: after `inode_init`
-- and `inode_sync`, reading the inode of that number gives what it gave before, and reading the
-- inode of that number modulo 256 gives the new one, whose `i_no` says something else.
pub inode_sync-inode_init :
    (part : Partition) (n : ℕ) (new io_buf new_buf disk : Bytes)
    → IsValid part
    → 256 ≤ n
    → n < 4096
    → (disk' b b' other : Bytes) × (inode_sync part (inode_init n new) io_buf disk ≡ ok disk')
      × (inode_load part n new_buf disk ≡ ok b)
      × (inode_load part n new_buf disk' ≡ ok b')
      × ((i : ℕ) → i < 76 → b' i ≡ b i)
      × (inode_load part (n % 2 ^ 8) new_buf disk' ≡ ok other)
      × (i_no other ≡ n)
inode_sync-inode_init part n new io_buf new_buf disk v large h =
    let no : i_no (inode_init n new) ≡ n = i_no-inode_init n new (omega arith) in
    let (d, b, b', e, r, r', own, out) =
      inode_sync_lem part (inode_init n new) io_buf new_buf disk n v h in
    let k = n % 2 ^ 8 in
    let (d₂, _, o, e₂, _, r₂, there, _) =
      inode_sync_lem part (inode_init n new) io_buf new_buf disk k v (omega arith) in
    let same : d₂ ≡ d = same_ok e₂ e in
    let elsewhere : (n == (i_no (inode_init n new) % 2 ^ 8)) ≡ false = ground (arith, no) in
    let here : (k == (i_no (inode_init n new) % 2 ^ 8)) ≡ true = ground (arith, no) in
    let got : (j : ℕ) → j < 4 → o j ≡ byte_of n j =
      λ j small. there j (omega arith) ∙ if_yes _ _ here ∙ pure-inode_init n new j small in
    (
      d,
      b,
      b',
      o,
      e,
      r,
      r',
      (λ j small. own j small ∙ if_no _ _ elsewhere),
      subst (λ x. inode_load part k new_buf x ≡ ok o) same r₂,
      omega (
        arith,
        got 0 (omega arith),
        got 1 (omega arith),
        got 2 (omega arith),
        got 3 (omega arith),
      ),
    )
