-- ===== src/Files/Tests.antt =====
-- Opening and closing a file that another one writes.
use loong_os.Prelude.{ℕ, ◌≡◌, refl, false, none, some, ok, arith, ◌==◌, if◌then◌else◌}
use loong_os.Files.{Files, inode_of, file_open, fd_local2global, sys_close}
use loong_os.Files.RoundTrip.{sys_close-file_open}

-- The first file, of the inode 9, is open and written; the descriptors from 4 on are free.
abbrev one_writer : Files
one_writer = record {
  file_table = λ k. record { fd_pos = 0; fd_flag = 1; fd_inode = if k == 3 then some 9 else none };
  i_open_cnts = λ i. if i == 9 then 1 else 0;
  write_deny = λ i. i == 9;
  fd_table = λ k. if k == 4 then none else some 3;
}

sys_close-file_open_example :
    (fd g : ℕ) × (f₁ f₂ : Files) × (file_open 9 0 one_writer ≡ (some fd, f₁))
    × (one_writer.fd_table fd ≡ none)
    × (fd_local2global fd f₁ ≡ ok g)
    × (inode_of f₁ g ≡ some 9)
    × (sys_close fd f₁ ≡ ok (some 0, f₂))
    × ((j : ℕ) → f₂.i_open_cnts j ≡ one_writer.i_open_cnts j)
    × ((k : ℕ) → inode_of f₂ k ≡ inode_of one_writer k)
    × ((k : ℕ) → f₂.fd_table k ≡ one_writer.fd_table k)
    × ((j : ℕ) → f₂.write_deny j ≡ (if j == 9 then false else one_writer.write_deny j))
sys_close-file_open_example =
    sys_close-file_open one_writer 9 0 5 4 (omega arith) (omega arith) (omega arith) refl
      (omega arith) (omega arith) refl refl
