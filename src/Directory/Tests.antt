-- ===== src/Directory/Tests.antt =====
-- A root directory with its first two entries gets a third one.
use loong_os.Prelude.{
  ℕ, ◌+◌, ◌-◌, ◌*◌, ◌<◌, ◌≡◌, refl, true, none, some, List, [], ◌∷◌, ok, arith, if◌then◌else◌, ◌==◌,
  get_or, u32, fault, ltb, length,
}
use loong_os.CString.{nought, strcmp}
use loong_os.Bitmap.{Bitmap, bitmap_scan_test}
use loong_os.Inode.{Bytes}
use loong_os.FileData.Write.{Volume, Writing}
use loong_os.FileData.Write.Owns.{Sound, HasFree}
use loong_os.Directory.{
  zeros, window, search_entries, search_blocks, search_dir_entry, create_dir_entry, free_entry,
  sync_dir_entry,
}
use loong_os.Directory.Entering.{Owned, has_room, Keeps}
use loong_os.CString.Strings.{NoZero, cstr}
use loong_os.Directory.Names.{create_dir_entry_lem}
use loong_os.Directory.RoundTrip.{search_dir_entry-sync_dir_entry}

abbrev part : Volume
part = record {
  inodes = record { start_lba = 63; sec_cnt = 5000; inode_table_lba = 67 };
  data_start_lba = 700;
  block_bitmap_lba = 65;
}

abbrev bitmap : Bitmap
bitmap = record { btmp_bytes_len = 512; bits = λ i. if i == 0 then 1 else 0 }

-- The entries `.` and `..`.
abbrev root_sector : List ℕ
root_sector =
    b'.' ∷ 0 ∷ 0 ∷ 0 ∷ 0 ∷ 0 ∷ 0 ∷ 0 ∷ 0 ∷ 0 ∷ 0 ∷ 0 ∷ 0 ∷ 0 ∷ 0 ∷ 0 ∷ 0 ∷ 0 ∷ 0 ∷ 0 ∷ 2 ∷ 0 ∷ 0 ∷ 0
    ∷ b'.' ∷ b'.' ∷ 0 ∷ 0 ∷ 0 ∷ 0 ∷ 0 ∷ 0 ∷ 0 ∷ 0 ∷ 0 ∷ 0 ∷ 0 ∷ 0 ∷ 0 ∷ 0 ∷ 0 ∷ 0 ∷ 0 ∷ 0 ∷ 2 ∷ []

abbrev root : Writing
root = record {
  disk = λ a. get_or root_sector (a - 700 * 512) 0;
  block_bitmap = bitmap;
  inode = record { i_size = 48; i_sectors = λ k. if k == 0 then 700 else 0 };
  all_blocks = zeros;
  fd_pos = 0;
}

abbrev ls : List ℕ
ls = b'l' ∷ b's' ∷ 0 ∷ []

-- The entry for the name `ls`, inode 5 and a regular file.
abbrev ls_entry : Bytes
ls_entry i =
    get_or
      (b'l' ∷ b's' ∷ 0 ∷ 0 ∷ 0 ∷ 0 ∷ 0 ∷ 0 ∷ 0 ∷ 0 ∷ 0 ∷ 0 ∷ 0 ∷ 0 ∷ 0 ∷ 0 ∷ 5 ∷ 0 ∷ 0 ∷ 0 ∷ 1 ∷ [])
      i 0

bitmap-Sound : Sound part bitmap
bitmap-Sound = record {
  inodes = record { table = omega arith; small = omega arith };
  bitmap = omega arith;
  table = omega arith;
  small = omega arith;
  bits = record { bytes = λ i. ground arith; small = omega arith };
}

first_taken : bitmap_scan_test bitmap 0 ≡ true
unfolding bitmap_scan_test
first_taken = refl

root-Owned : Owned part bitmap root.inode.i_sectors
root-Owned = record {
  placed = λ k lt used. ground (arith, used);
  taken = λ k lt used. let e : k ≡ 0 = ground (arith, used) in rw e first_taken;
  distinct = λ k l lt lt' used. ground (arith, used);
  no_table = refl;
}

one-HasFree : HasFree bitmap 1
unfolding bitmap_scan_test
one-HasFree = record {
  block = λ i. 1;
  inside = λ i lt. omega arith;
  free = λ i lt. refl;
  order = λ i j lt lt'. absurd (omega arith);
}

root-has_room : has_room root.disk 700 ≡ true
unfolding free_entry
root-has_room = refl

ls-absent : search_dir_entry true root.disk root.inode ls ≡ ok none
unfolding search_dir_entry search_blocks search_entries window strcmp
ls-absent = refl

ls_name : strcmp (some (window ls_entry 0 16)) (some ls) ≡ ok nought
unfolding window strcmp
ls_name = refl

search_dir_entry-sync_dir_entry_example :
    (after : Writing) × (e : Bytes) × (sync_dir_entry part ls_entry root ≡ ok (true, after))
    × (after.inode.i_size ≡ u32 (48 + 24))
    × (search_dir_entry true after.disk after.inode ls ≡ ok (some e))
    × ((i : ℕ) → i < 24 → e i ≡ ls_entry i)
    × Keeps root after
search_dir_entry-sync_dir_entry_example =
    search_dir_entry-sync_dir_entry part ls_entry root ls 0 refl bitmap-Sound root-Owned one-HasFree
      (omega arith) root-has_room ls-absent ls_name

-- A name of 16 characters.
abbrev sixteen : List ℕ
sixteen =
    b'a' ∷ b'b' ∷ b'c' ∷ b'd' ∷ b'e' ∷ b'f' ∷ b'g' ∷ b'h' ∷ b'i' ∷ b'j' ∷ b'k' ∷ b'l' ∷ b'm' ∷ b'n'
    ∷ b'o' ∷ b'p' ∷ []

sixteen-NoZero : NoZero sixteen
sixteen-NoZero = omega arith

create_dir_entry_example :
    (p_de : Bytes) × (create_dir_entry (cstr sixteen []) 5 1 zeros ≡ ok p_de)
    × (strcmp (some (window p_de 0 16)) (some (cstr sixteen []))
        ≡ (if ltb (length sixteen) 16 then ok nought else fault))
create_dir_entry_example = create_dir_entry_lem sixteen 5 1 sixteen-NoZero (omega arith)
