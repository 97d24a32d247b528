-- ===== src/Path/Tests.antt =====
-- Runs of the path routines, and their theorems at concrete paths.
use loong_os.Prelude.{ℕ, ◌≡◌, refl, some, List, [], ◌∷◌, arith, ok, fault, replicate}
use loong_os.CString.Strings.{cstr}
use loong_os.Path.{
  slash, path_parse, path_depth_cnt, parse_more, skip_slashes, store_name, wash_path, wash_loop,
  wash_name, cut_last, append_name, poke,
}
use loong_os.CString.{memset, strcmp, strrchr, strcat}
use loong_os.Path.Parse.{components}
use loong_os.Path.Depth.{path_depth_cnt_garbage}
use loong_os.Path.Render.{same}
use loong_os.Path.Names.{apply}
use loong_os.Path.Wash.{wash_path_lem, Washed, normal, weight}

-- "//a/b"
abbrev a_b : List ℕ
a_b = slash ∷ slash ∷ b'a' ∷ slash ∷ b'b' ∷ []

-- "/../a/.//b/../c" without its first slash, and its normal form "/a/c".
abbrev winding : List ℕ
winding =
    b'.' ∷ b'.' ∷ slash ∷ b'a' ∷ slash ∷ b'.' ∷ slash ∷ slash ∷ b'b' ∷ slash ∷ b'.' ∷ b'.' ∷ slash
    ∷ b'c' ∷ []

abbrev straight : List ℕ
straight = slash ∷ b'a' ∷ slash ∷ b'c' ∷ []

-- What an uninitialised buffer may hold.
abbrev garbage : List ℕ
garbage = replicate 16 7

parses : path_parse a_b garbage ≡ ok (some (slash ∷ b'b' ∷ []), b'a' ∷ replicate 15 7)
unfolding path_parse skip_slashes store_name
parses = refl

-- A name of 17 characters runs out of the buffer of 16.
long_name : path_parse (replicate 17 b'a') garbage ≡ fault
unfolding path_parse skip_slashes store_name
long_name = refl

path_depth_cnt_garbage_example : path_depth_cnt 5 (slash ∷ []) garbage ≡ ok (some 1)
unfolding components
path_depth_cnt_garbage_example =
    path_depth_cnt_garbage (slash ∷ []) garbage 5 refl refl refl (omega arith)

normal-winding : normal [] (components (slash ∷ winding)) ≡ (b'c' ∷ []) ∷ (b'a' ∷ []) ∷ []
unfolding normal components apply same
normal-winding = refl

wash_path_example :
    Washed 64
      (normal [] (components (slash ∷ winding)))
      (wash_path 9 (slash ∷ winding) (replicate 64 0))
unfolding components weight
wash_path_example =
    wash_path_lem winding (replicate 64 0) 9 (omega arith) (omega arith) (omega arith) (omega arith)
      (omega arith) (omega arith)

washes : wash_path 9 (slash ∷ winding) (replicate 12 9) ≡ ok (some (cstr straight (replicate 7 9)))
unfolding wash_path wash_loop wash_name cut_last append_name parse_more path_parse skip_slashes
    store_name poke memset strcmp strrchr strcat
washes = refl
