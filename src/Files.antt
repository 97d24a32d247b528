-- ===== src/Files.antt =====
-- fs/file.c and fs/fs.c: the table of open files and a process's table of descriptors.
-- An inode is named by its number, since `inode_open` gives all who open it the same structure;
-- an inode that nobody has open has the count 0. What -1 is in the code is `none` here.
pub mod RoundTrip
pub mod Seek
mod Tests
use loong_os.Prelude.{
  ℕ, zero, suc, ◌+◌, ◌-◌, ◌/◌, ◌%◌, ◌^◌, Bool, true, false, not, ◌&&◌, ◌||◌, Option, none, some,
  Outcome, ok, panic, fault, ◌>>=◌, ◌>>◌, assert, ltb, leb, ◌==◌, if◌then◌else◌, u32,
}

-- `struct file`
pub record File : Type 0 where
  pub fd_pos : ℕ
  pub fd_flag : ℕ
  pub fd_inode : Option ℕ

-- The table of all open files, the counts and marks of the inodes, and the table of the process.
pub record Files : Type 0 where
  pub file_table : ℕ → File
  pub i_open_cnts : ℕ → ℕ
  pub write_deny : ℕ → Bool
  pub fd_table : ℕ → Option ℕ

abbrev pub is_none : Option ℕ → Bool
is_none none = true
is_none (some x) = false

-- The loops that look for a free entry: `left` of them from `index` on.
pub first_free : ℕ → (ℕ → Option ℕ) → ℕ → Option ℕ
first_free zero table index = none
first_free (suc left) table index =
    let rest = first_free left table (index + 1) in
    if is_none (table index) then some index else rest

abbrev pub inode_of : Files → ℕ → Option ℕ
inode_of f index = (f.file_table index).fd_inode

abbrev pub set_file : ℕ → File → Files → Files
set_file index file f = record f { file_table = λ i. if i == index then file else f.file_table i }

abbrev pub set_fd : ℕ → Option ℕ → Files → Files
set_fd fd entry f = record f { fd_table = λ i. if i == fd then entry else f.fd_table i }

unfoldable pub get_free_slot_in_global : Files → Option ℕ
unfolding first_free
get_free_slot_in_global f = first_free 29 (inode_of f) 3

unfoldable pub pcb_fd_install : ℕ → Files → Option ℕ × Files
unfolding first_free
pcb_fd_install global_fd_index f = elim (first_free 5 f.fd_table 3) [
  | none ↦ (none, f)
  | some fd ↦ (some fd, set_fd fd (some global_fd_index) f)
]

-- An inode that comes from the disk is not marked: `inode_sync` clears the mark there.
abbrev pub inode_open : ℕ → Files → Files
inode_open i f = record f {
  i_open_cnts = λ j. if j == i then u32 (f.i_open_cnts i + 1) else f.i_open_cnts j;
  write_deny = λ j. if (j == i) && (f.i_open_cnts i == 0) then false else f.write_deny j;
}

abbrev pub inode_close : ℕ → Files → Files
inode_close i f = record f {
  i_open_cnts = λ j. if j == i then u32 (f.i_open_cnts i + 2 ^ 32 - 1) else f.i_open_cnts j;
}

abbrev pub set_write_deny : ℕ → Bool → Files → Files
set_write_deny i v f = record f { write_deny = λ j. if j == i then v else f.write_deny j }

-- `flag & O_WRONLY || flag & O_RDWR`
abbrev pub writes : ℕ → Bool
writes flag = not (flag % 2 == 0) || not (flag / 2 % 2 == 0)

unfoldable pub file_open : ℕ → ℕ → Files → Option ℕ × Files
unfolding get_free_slot_in_global pcb_fd_install
file_open inode_no flag f = elim (get_free_slot_in_global f) [
  | none ↦ (none, f)
  | some fd_index ↦
      let file : File = record { fd_pos = 0; fd_flag = flag; fd_inode = some inode_no } in
      let f' = set_file fd_index file (inode_open inode_no f) in
      if writes flag
      then if not (f'.write_deny inode_no)
        then pcb_fd_install fd_index (set_write_deny inode_no true f')
        else (none, f')
      else pcb_fd_install fd_index f'
]

-- A file without an inode would be a NULL pointer.
unfoldable pub file_close : ℕ → Files → Outcome Files
file_close index f = elim (inode_of f index) [
  | none ↦ fault
  | some i ↦
      let f' = inode_close i (set_write_deny i false f) in
      ok (set_file index (record (f'.file_table index) { fd_inode = none }) f')
]

-- A descriptor behind the table is read from behind it.
unfoldable pub fd_local2global : ℕ → Files → Outcome ℕ
fd_local2global fd_local f =
    let global_fd : Outcome ℕ = elim (f.fd_table fd_local) [
      | none ↦ panic
      | some global_fd ↦ assert (ltb global_fd 32) >> ok global_fd
    ] in
    if ltb fd_local 8 then global_fd else fault

-- `fd` is not negative; `none` is the result -1.
unfoldable pub sys_close : ℕ → Files → Outcome (Option ℕ × Files)
unfolding fd_local2global file_close
sys_close fd f =
    let close = (do
      global_fd ← fd_local2global fd f
      f' ← file_close global_fd f
      ok (some 0, set_fd fd none f')) in
    if ltb 2 fd then close else ok (none, f)

-- `a < b` of two words as `int32_t`.
abbrev pub less_signed : ℕ → ℕ → Bool
less_signed a b = ltb (u32 (a + 2 ^ 31)) (u32 (b + 2 ^ 31))

abbrev pub new_pos : ℕ → ℕ → ℕ → ℕ → ℕ
new_pos whence fd_pos file_size offset =
    if whence == 1
    then offset
    else if whence == 2
    then u32 (fd_pos + offset)
    else u32 (file_size + offset)

-- The position is set if it is not negative and not far behind the end.
abbrev pub seek : ℕ → ℕ → ℕ → Files → Option ℕ × Files
seek global_fd file_size pos f =
    if less_signed pos 0 || less_signed (u32 (file_size + 1)) pos
    then (none, f)
    else (some pos, set_file global_fd (record (f.file_table global_fd) { fd_pos = pos }) f)

-- `fd` is not negative, `offset` is a word, and `i_size` gives the sizes of the inodes.
unfoldable pub sys_lseek : (ℕ → ℕ) → ℕ → ℕ → ℕ → Files → Outcome (Option ℕ × Files)
unfolding fd_local2global
sys_lseek i_size fd offset whence f = do
  assert (ltb 0 whence && ltb whence 4)
  global_fd ← fd_local2global fd f
  let file = f.file_table global_fd
  elim file.fd_inode [
    | none ↦ fault
    | some i ↦ ok (seek global_fd (i_size i) (new_pos whence file.fd_pos (i_size i) offset) f)
  ]
