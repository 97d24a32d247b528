-- ===== src/Files/Seek.antt =====
-- Where `sys_lseek` leaves the position of a file.
use loong_os.Prelude.{
  ℕ, ◌+◌, ◌-◌, ◌^◌, Bool, ◌&&◌, Option, none, some, Outcome, ok, fault, leb, ◌==◌, if◌then◌else◌,
  u32,
}
use loong_os.Files.{Files, new_pos, seek}

-- From where an offset counts.
abbrev pub base : ℕ → ℕ → ℕ → ℕ
base whence fd_pos file_size = if whence == 1 then 0 else if whence == 2 then fd_pos else file_size

-- A signed offset as a word: `n` forwards or back.
abbrev pub word_of : Bool → ℕ → ℕ
word_of forwards n = if forwards then n else u32 (2 ^ 32 - n)

-- Whether there is a position `n` forwards or back from `b`, at most one behind the end.
abbrev pub in_reach : Bool → ℕ → ℕ → ℕ → Bool
in_reach forwards b n file_size =
    if forwards then leb (b + n) (file_size + 1) else leb n b && leb (b - n) (file_size + 1)

abbrev pub moved : Bool → ℕ → ℕ → ℕ
moved forwards b n = if forwards then b + n else b - n

-- What `sys_lseek` does with the inode of the file.
abbrev sought : (ℕ → ℕ) → ℕ → ℕ → ℕ → Files → Option ℕ → Outcome (Option ℕ × Files)
sought i_size whence offset g f o = elim o [
  | none ↦ fault
  | some i ↦ ok (seek g (i_size i) (new_pos whence (f.file_table g).fd_pos (i_size i) offset) f)
]
