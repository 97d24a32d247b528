-- ===== src/Files/RoundTrip.antt =====
-- `sys_close` of what `file_open` returned.
use loong_os.Prelude.{
  ℕ, zero, suc, ◌+◌, ◌^◌, ◌≤◌, ◌<◌, ◌≡◌, refl, sym, ◌∙◌, ap, true, false, not, ◌&&◌, Option, none,
  some, ok, arith, ltb, ◌==◌, if◌then◌else◌, Bool-cases, inl, inr, ==_iff,
}
use loong_os.Files.{
  Files, is_none, first_free, inode_of, set_file, set_fd, get_free_slot_in_global, pcb_fd_install,
  inode_open, inode_close, set_write_deny, writes, file_open, file_close, fd_local2global,
  sys_close,
}

is_none_lem : (x : Option ℕ) → is_none x ≡ true → x ≡ none
is_none_lem none e = refl
is_none_lem (some x) e = absurd cc

-- A free entry is found if there is one.
first_free_lem :
    (left : ℕ) (table : ℕ → Option ℕ) (index t : ℕ)
    → index ≤ t
    → t < index + left
    → table t ≡ none
    → (i : ℕ) × (first_free left table index ≡ some i)
      × (index ≤ i)
      × (i < index + left)
      × (table i ≡ none)
unfolding first_free
first_free_lem zero table index t low high e = absurd (omega arith)
first_free_lem (suc left) table index t low high e = elim (Bool-cases (is_none (table index))) [
  | inl free ↦ (index, rw free refl, omega arith, omega arith, is_none_lem (table index) free)
  | inr used ↦
      let later : index + 1 ≤ t = elim (Bool-cases (t == index)) [
        | inl same ↦
            absurd
              (let r = sym (ap table ((==_iff t index).0 same)) ∙ e in let q = ap is_none r in cc)
        | inr ne ↦ ground (arith, ne, low)
      ] in
      let (i, found, from, to, free) =
        first_free_lem left table (index + 1) t later (omega arith) e in
      (i, rw used found, omega arith, omega arith, free)
]

-- What `file_open` changes before it takes a descriptor.
abbrev opened : ℕ → ℕ → ℕ → Files → Files
opened i flag g f =
    let f' =
      set_file g (record { fd_pos = 0; fd_flag = flag; fd_inode = some i }) (inode_open i f) in
    if writes flag then set_write_deny i true f' else f'

file_open-opened :
    (i flag g fd : ℕ) (f : Files)
    → first_free 29 (inode_of f) 3 ≡ some g
    → first_free 5 f.fd_table 3 ≡ some fd
    → (writes flag && f.write_deny i && not (f.i_open_cnts i == 0)) ≡ false
    → file_open i flag f ≡ (some fd, set_fd fd (some g) (opened i flag g f))
unfolding file_open get_free_slot_in_global pcb_fd_install
file_open-opened i flag g fd f slot entry allowed = elim (Bool-cases (writes flag)) [
  | inl w ↦
      let unmarked : (if (i == i) && (f.i_open_cnts i == 0) then false else f.write_deny i)
          ≡ false =
        ground (arith, w, allowed) in
      rw (slot, file_open, w, unmarked, entry, pcb_fd_install) refl
  | inr r ↦ rw (slot, file_open, r, entry, pcb_fd_install) refl
]

-- The state once the descriptor `fd` of the file `g` with the inode `i` is closed.
abbrev closed : ℕ → ℕ → ℕ → Files → Files
closed fd g i f =
    let f' = inode_close i (set_write_deny i false f) in
    set_fd fd none (set_file g (record (f'.file_table g) { fd_inode = none }) f')

sys_close-closed :
    (fd g i : ℕ) (f : Files)
    → 2 < fd
    → fd < 8
    → g < 32
    → f.fd_table fd ≡ some g
    → inode_of f g ≡ some i
    → sys_close fd f ≡ ok (some 0, closed fd g i f)
unfolding sys_close fd_local2global file_close
sys_close-closed fd g i f low high small entry inode =
    let above : ltb 2 fd ≡ true = ground arith in
    let below : ltb fd 8 ≡ true = ground arith in
    let in_table : ltb g 32 ≡ true = ground arith in
    rw (above, below, entry, in_table, file_close, inode) refl

module _ (f : Files) (i flag g fd : ℕ) (few : f.i_open_cnts i + 1 < 2 ^ 32)
    (free : inode_of f g ≡ none) (unused : f.fd_table fd ≡ none) where
  abbrev f₁ : Files
  f₁ = set_fd fd (some g) (opened i flag g f)

  abbrev f₂ : Files
  f₂ = closed fd g i f₁

  opened-inode : inode_of f₁ g ≡ some i
  opened-inode = ground arith

  opened-entry : f₁.fd_table fd ≡ some g
  opened-entry = ground arith

  same_count : (j : ℕ) → f₂.i_open_cnts j ≡ f.i_open_cnts j
  same_count j = ground (arith, few)

  same_inode : (k : ℕ) → inode_of f₂ k ≡ inode_of f k
  same_inode k = ground (arith, free)

  same_entry : (k : ℕ) → f₂.fd_table k ≡ f.fd_table k
  same_entry k = ground (arith, unused)

  marks : (j : ℕ) → f₂.write_deny j ≡ (if j == i then false else f.write_deny j)
  marks j = ground arith

-- When the table of files has a free entry `s` and the process a free descriptor `d`, the count of
-- the inode is below 2 ^ 32 - 1, and the file is
-- opened to read, or not marked as written by one who has it open: `file_open` returns a descriptor
-- that was free and that leads to a file of that inode, and `sys_close` of it returns 0. After both,
-- the counts of all inodes, the inodes of all files and all descriptors are those from before; the
-- inode's mark `write_deny` is cleared, also when another one has the file open to write.
pub sys_close-file_open :
    (f : Files) (i flag s d : ℕ)
    → f.i_open_cnts i + 1 < 2 ^ 32
    → 3 ≤ s
    → s < 32
    → inode_of f s ≡ none
    → 3 ≤ d
    → d < 8
    → f.fd_table d ≡ none
    → (writes flag && f.write_deny i && not (f.i_open_cnts i == 0)) ≡ false
    → (fd g : ℕ) × (f₁ f₂ : Files) × (file_open i flag f ≡ (some fd, f₁))
      × (f.fd_table fd ≡ none)
      × (fd_local2global fd f₁ ≡ ok g)
      × (inode_of f₁ g ≡ some i)
      × (sys_close fd f₁ ≡ ok (some 0, f₂))
      × ((j : ℕ) → f₂.i_open_cnts j ≡ f.i_open_cnts j)
      × ((k : ℕ) → inode_of f₂ k ≡ inode_of f k)
      × ((k : ℕ) → f₂.fd_table k ≡ f.fd_table k)
      × ((j : ℕ) → f₂.write_deny j ≡ (if j == i then false else f.write_deny j))
unfolding fd_local2global
sys_close-file_open f i flag s d few from below empty least most unused allowed =
    let (g, slot, g_from, g_to, free) =
      first_free_lem 29 (inode_of f) 3 s from (omega arith) empty in
    let (fd, entry, fd_from, fd_to, open_fd) =
      first_free_lem 5 f.fd_table 3 d least (omega arith) unused in
    let leads = opened-entry f i flag g fd few free open_fd in
    let inode = opened-inode f i flag g fd few free open_fd in
    let in_fds : ltb fd 8 ≡ true = ground arith in
    let in_files : ltb g 32 ≡ true = ground arith in
    (
      fd,
      g,
      set_fd fd (some g) (opened i flag g f),
      closed fd g i (set_fd fd (some g) (opened i flag g f)),
      file_open-opened i flag g fd f slot entry allowed,
      open_fd,
      rw (in_fds, leads, in_files) refl,
      inode,
      sys_close-closed fd g i (set_fd fd (some g) (opened i flag g f)) (omega arith) (omega arith)
          (omega arith) leads inode,
      same_count f i flag g fd few free open_fd,
      same_inode f i flag g fd few free open_fd,
      same_entry f i flag g fd few free open_fd,
      marks f i flag g fd few free open_fd,
    )
