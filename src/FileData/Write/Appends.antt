-- ===== src/FileData/Write/Appends.antt =====
-- What the loop of `file_write` leaves on the disk.
use loong_os.Prelude.{
  ℕ, zero, suc, ◌+◌, ◌-◌, ◌*◌, ◌/◌, ◌%◌, ◌^◌, ◌≤◌, ◌<◌, ◌≡◌, refl, ◌∙◌, ap, Bool, true, false,
  Outcome, ok, arith, ltb, leb, ltb→lt, ◌==◌, if◌then◌else◌, u32, Bool-cases, inl, inr,
}
use loong_os.Inode.{Bytes, read_sectors, write_sectors, copy_to}
use loong_os.FileData.{Blocks}
use loong_os.FileData.Reading.{byte_at, Enough, chunk, chunk_facts, chunk-Enough}
use loong_os.FileData.Write.{Writing, write_loop}

-- The blocks with the numbers from `lo` to `hi` are different sectors.
abbrev pub Distinct : Blocks → ℕ → ℕ → Type 0
Distinct all_blocks lo hi =
    (a b : ℕ) → lo ≤ a → a < b → b ≤ hi → (all_blocks a == all_blocks b) ≡ false

-- No block of the bytes from `pos` to `pos + left` is the sector `s`.
abbrev pub Spares : Blocks → ℕ → ℕ → ℕ → Type 0
Spares all_blocks pos left s =
    (p : ℕ) → pos ≤ p → p < pos + left → (all_blocks (p / 512) == s) ≡ false

-- What the first round writes: `c` bytes, put into the sector `lba` or into zeros.
abbrev joined : Bytes → ℕ → Bool → ℕ → Bytes → ℕ → Bytes
joined disk lba first pos part c =
    copy_to (if first then read_sectors disk lba (λ i. 0) 1 else λ i. 0) (pos % 512) part c

abbrev round : Bytes → ℕ → Bool → ℕ → Bytes → ℕ → Bytes
round disk lba first pos part c = write_sectors disk lba (joined disk lba first pos part c) 1

round_data :
    (disk : Bytes) (lba : ℕ) (first : Bool) (pos c p : ℕ) (part : Bytes)
    → pos ≤ p
    → p < pos + c
    → pos % 512 + c ≤ 512
    → round disk lba first pos part c (lba * 512 + p % 512) ≡ part (p - pos)
round_data disk lba first pos c p part lo hi fits =
    let off : p % 512 ≡ pos % 512 + (p - pos) = omega arith in
    let low : leb (lba * 512) (lba * 512 + p % 512) ≡ true = ground arith in
    let high : ltb (lba * 512 + p % 512) ((lba + 1) * 512) ≡ true = ground arith in
    let at : lba * 512 + p % 512 - lba * 512 ≡ p % 512 = omega arith in
    let low' : leb (pos % 512) (p % 512) ≡ true = ground (arith, off) in
    let high' : ltb (p % 512) (pos % 512 + c) ≡ true = ground (arith, off) in
    let at' : p % 512 - pos % 512 ≡ p - pos = omega arith in
    rw (low, high, at, low', high', at') refl

round_before :
    (disk : Bytes) (lba pos c k : ℕ) (part : Bytes)
    → k < pos % 512
    → round disk lba true pos part c (lba * 512 + k) ≡ disk (lba * 512 + k)
round_before disk lba pos c k part h =
    let low : leb (lba * 512) (lba * 512 + k) ≡ true = ground arith in
    let high : ltb (lba * 512 + k) ((lba + 1) * 512) ≡ true = ground arith in
    let at : lba * 512 + k - lba * 512 ≡ k = omega arith in
    let low' : leb (pos % 512) k ≡ false = ground arith in
    let within : ltb k (1 * 512) ≡ true = ground arith in rw (low, high, at, low', within) refl

round_outside :
    (disk : Bytes) (lba : ℕ) (buf : Bytes) (a : ℕ)
    → (lba == a / 512) ≡ false
    → write_sectors disk lba buf 1 a ≡ disk a
round_outside disk lba buf a h = ground (arith, h)

pub record Appended (src : Bytes) (pos done left : ℕ) (first : Bool) (w : Writing)
    (r : Outcome (ℕ × Writing)) : Type 0 where
  pub after : Writing
  pub returns : r ≡ ok (done + left, after)
  pub i_size : after.inode.i_size ≡ pos + left
  pub i_sectors : after.inode.i_sectors ≡ w.inode.i_sectors
  pub bitmap : after.block_bitmap ≡ w.block_bitmap
  pub fd_pos : after.fd_pos ≡ u32 (w.fd_pos + left)
  pub appended :
      (p : ℕ)
      → pos ≤ p
      → p < pos + left
      → byte_at after.disk w.all_blocks p ≡ src (done + (p - pos))
  pub before :
      (k : ℕ)
      → first ≡ true
      → k < pos % 512
      → let a = w.all_blocks (pos / 512) * 512 + k in after.disk a ≡ w.disk a
  pub kept : (a : ℕ) → Spares w.all_blocks pos left (a / 512) → after.disk a ≡ w.disk a

next_block :
    (all_blocks : Blocks) (pos left : ℕ)
    → Distinct all_blocks (pos / 512) ((pos + left) / 512)
    → Spares all_blocks (pos + chunk pos left) (left - chunk pos left) (all_blocks (pos / 512))
next_block all_blocks pos left apart p lo hi =
    let later : pos / 512 < p / 512 = ground arith in
    let differ = apart (pos / 512) (p / 512) (omega arith) later (ground arith) in
    ground (arith, differ)

-- With enough rounds and with different sectors for the blocks, the loop writes the bytes behind the
-- end of the file, keeps those before it in the same block, and touches no other sector.
pub write_loop-Appended :
    (rounds : ℕ) (src : Bytes) (count pos done left : ℕ) (first : Bool) (w : Writing)
    → w.inode.i_size ≡ pos
    → done + left ≡ count
    → pos + left < 2 ^ 32
    → count < 2 ^ 32
    → w.fd_pos < 2 ^ 32
    → Enough rounds pos left
    → Distinct w.all_blocks (pos / 512) ((pos + left) / 512)
    → Appended src pos done left first w (write_loop rounds src count first w done left)
unfolding write_loop
write_loop-Appended zero src count pos done left first w e e' small small' fd h apart =
    absurd (omega arith)
write_loop-Appended (suc rounds) src count pos done left first w e e' small small' fd h apart =
    elim (Bool-cases (ltb done count)) [
      | inr finished ↦
          let none_left : left ≡ 0 = ground (arith, finished) in
          rw finished (record {
            after = w;
            returns = rw none_left (ap (λ n. ok (n, w)) (omega arith));
            i_size = e ∙ omega arith;
            i_sectors = refl;
            bitmap = refl;
            fd_pos = omega arith;
            appended = λ p lo hi. absurd (omega arith);
            before = λ k f lt. refl;
            kept = λ a s. refl;
          })
      | inl more ↦
          let some_left : 0 < left = ground (arith, more) in
          let c = chunk pos left in
          let (pos_c, c_le, fits) = chunk_facts pos left some_left in
          let lba = w.all_blocks (pos / 512) in
          let part : Bytes = (λ i. src (done + i)) in
          let w' : Writing = record w {
            disk = round w.disk lba first pos part c;
            inode = record w.inode { i_size = u32 (pos + c) };
            fd_pos = u32 (w.fd_pos + c);
          } in
          let pos_small : u32 (pos + c) ≡ pos + c = omega arith in
          let done_small : u32 (done + c) ≡ done + c = omega arith in
          let apart' : Distinct w.all_blocks ((pos + c) / 512) ((pos + c + (left - c)) / 512) =
            (λ a b lo lt hi. apart a b (omega arith) lt (omega arith)) in
          let r =
            write_loop-Appended rounds src count (pos + c) (done + c) (left - c) false w' pos_small
              (omega arith) (omega arith) small' (omega arith)
              (chunk-Enough rounds pos left some_left h) apart' in
          let next : Spares w.all_blocks (pos + c) (left - c) lba =
            next_block w.all_blocks pos left apart in
          rw (e, more, done_small)
            (record {
              after = r.after;
              returns = r.returns ∙ ap (λ n. ok (n, r.after)) (omega arith);
              i_size = r.i_size ∙ omega arith;
              i_sectors = r.i_sectors;
              bitmap = r.bitmap;
              fd_pos = r.fd_pos ∙ omega arith;
              appended = λ p lo hi. elim (Bool-cases (ltb p (pos + c))) [
                | inl now ↦
                    let hi' : p < pos + c = ltb→lt p (pos + c) now in
                    let same : p / 512 ≡ pos / 512 = omega arith in
                    let sector : (lba * 512 + p % 512) / 512 ≡ lba = omega arith in
                    rw same (
                      r.kept (lba * 512 + p % 512) (rw sector next)
                      ∙ round_data w.disk lba first pos c p part lo hi' fits)
                | inr later ↦
                    let lo' : pos + c ≤ p = ground (arith, later) in
                    r.appended p lo' (omega arith) ∙ ap src (omega arith)
              ];
              before = λ k f lt.
                  let sector : (lba * 512 + k) / 512 ≡ lba = omega arith in
                  r.kept (lba * 512 + k) (rw sector next)
                  ∙ rw f (round_before w.disk lba pos c k part lt);
              kept = λ a s.
                  r.kept a (λ p lo hi. s p (omega arith) (omega arith))
                  ∙ round_outside w.disk lba (joined w.disk lba first pos part c) a
                      (s pos (omega arith) (omega arith));
            })
    ]
