-- ===== src/Path.antt =====
-- Paths: `path_parse` and `path_depth_cnt` of fs/fs.c, and `wash_path` of shell/buildin_cmd.c.
-- A path that is only read is the list of its characters. Buffers that are written are lists of
-- bytes, and a write behind their end is a `fault`. The loops are given their rounds; `none` says
-- that these were too few.
pub mod Parse
pub mod Depth
pub mod Render
pub mod Names
pub mod Wash
mod Tests
use loong_os.Prelude.{
  ℕ, zero, suc, ◌+◌, Bool, true, false, not, Option, none, some, List, [], ◌∷◌, ◌++◌, Outcome, ok,
  panic, fault, ◌>>=◌, ◌>>◌, assert, ◌==◌, if◌then◌else◌, u32, replicate,
}
use loong_os.CString.{Sign, nought, Pointer, memset, strcmp, strrchr, strcat}

abbrev pub slash : ℕ
slash = b'/'

-- `MAX_FILE_NAME_LEN` and `MAX_PATH_LEN`
abbrev pub max_file_name_len : ℕ
max_file_name_len = 16

abbrev pub max_path_len : ℕ
max_path_len = 512

pub skip_slashes : List ℕ → List ℕ
skip_slashes [] = []
skip_slashes (c ∷ s) = let rest = skip_slashes s in if c == slash then rest else c ∷ s

-- The second loop of `path_parse`: what is left of the path, and the buffer.
pub store_name : List ℕ → List ℕ → Outcome (List ℕ × List ℕ)
store_name [] name_store = ok ([], name_store)
store_name (c ∷ s) [] = if c == slash then ok (c ∷ s, []) else fault
store_name (c ∷ s) (b ∷ name_store) =
    let stored = (do (rest, bytes) ← store_name s name_store; ok (rest, c ∷ bytes)) in
    if c == slash then ok (c ∷ s, b ∷ name_store) else stored

abbrev pub rest_or_null : List ℕ → Option (List ℕ)
rest_or_null [] = none
rest_or_null (c ∷ s) = some (c ∷ s)

pub path_parse : List ℕ → List ℕ → Outcome (Option (List ℕ) × List ℕ)
path_parse pathname name_store = do
  (rest, name) ← store_name (skip_slashes pathname) name_store
  ok (rest_or_null rest, name)

-- `if (p) p = path_parse(p, name);`
pub parse_more : Option (List ℕ) → List ℕ → Outcome (Option (List ℕ) × List ℕ)
parse_more none name = ok (none, name)
parse_more (some p) name = path_parse p name

-- Whether `name[0]` is not 0.
abbrev pub is_named : List ℕ → Bool
is_named [] = false
is_named (b ∷ name) = not (b == 0)

-- The loop of `path_depth_cnt`.
pub depth_loop : ℕ → Option (List ℕ) → List ℕ → ℕ → Outcome (Option ℕ)
depth_loop zero p name depth = ok none
depth_loop (suc rounds) p name depth =
    let more = (do
      cleared ← memset (some name) 0 max_file_name_len
      (p', name') ← parse_more p cleared
      depth_loop rounds p' name' (u32 (depth + 1))) in
    if is_named name then more else ok (some depth)

-- The buffer `name` is not initialised: it comes as an argument.
pub path_depth_cnt : ℕ → List ℕ → List ℕ → Outcome (Option ℕ)
path_depth_cnt rounds pathname name = do
  (p, name') ← path_parse pathname name
  depth_loop rounds p name' 0

-- `buf[i] = v`
pub poke : List ℕ → ℕ → ℕ → Outcome (List ℕ)
poke [] i v = fault
poke (b ∷ buf) zero v = ok (v ∷ buf)
poke (b ∷ buf) (suc i) v = do rest ← poke buf i v; ok (b ∷ rest)

abbrev pub is_nought : Sign → Bool
is_nought nought = true
is_nought _ = false

abbrev pub dot : List ℕ
dot = b'.' ∷ 0 ∷ []

abbrev pub dot_dot : List ℕ
dot_dot = b'.' ∷ b'.' ∷ 0 ∷ []

abbrev pub root : List ℕ
root = slash ∷ 0 ∷ []

-- `..` cuts the last name off.
pub cut_last : List ℕ → Outcome (List ℕ)
cut_last new_abs_path = do
  slash_ptr ← strrchr (some new_abs_path) slash
  elim slash_ptr [
    | none ↦ fault
    | some i ↦ if i == 0 then poke new_abs_path (i + 1) 0 else poke new_abs_path i 0
  ]

-- Any other name is appended, after a slash unless the path is the root.
pub append_name : List ℕ → List ℕ → Outcome (List ℕ)
append_name name new_abs_path = do
  at_root ← strcmp (some new_abs_path) (some root)
  longer ← (if is_nought at_root then ok new_abs_path else strcat (some new_abs_path) (some root))
  strcat (some longer) (some name)

-- One name in the loop of `wash_path`.
pub wash_name : List ℕ → List ℕ → Outcome (List ℕ)
wash_name name new_abs_path = do
  let other = (do
    self ← strcmp (some dot) (some name)
    if is_nought self then ok new_abs_path else append_name name new_abs_path)
  parent ← strcmp (some dot_dot) (some name)
  if is_nought parent then cut_last new_abs_path else other

pub wash_loop : ℕ → Option (List ℕ) → List ℕ → List ℕ → Outcome (Option (List ℕ))
wash_loop zero sub_path name new_abs_path = ok none
wash_loop (suc rounds) sub_path name new_abs_path =
    let more = (do
      washed ← wash_name name new_abs_path
      cleared ← memset (some name) 0 max_file_name_len
      (sub', name') ← parse_more sub_path cleared
      wash_loop rounds sub' name' washed) in
    if is_named name then more else ok (some new_abs_path)

abbrev starts_with_slash : List ℕ → Bool
starts_with_slash [] = false
starts_with_slash (c ∷ s) = c == slash

pub wash_path : ℕ → List ℕ → List ℕ → Outcome (Option (List ℕ))
wash_path rounds old_abs_path new_abs_path = do
  assert (starts_with_slash old_abs_path)
  (sub_path, name) ← path_parse old_abs_path (replicate max_file_name_len 0)
  let just_root = (do first ← poke new_abs_path 0 slash; both ← poke first 1 0; ok (some both))
  let names = (do
    empty ← poke new_abs_path 0 0
    start ← strcat (some empty) (some root)
    wash_loop rounds sub_path name start)
  if is_named name then names else just_root
