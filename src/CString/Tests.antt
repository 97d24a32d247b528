-- ===== src/CString/Tests.antt =====
-- Runs of the string routines, and their theorems at concrete strings.
use loong_os.Prelude.{
  ℕ, ◌≡◌, ◌↔◌, refl, none, some, List, [], ◌∷◌, ◌++◌, arith, ok, panic, fault, take, drop,
  replicate,
}
use loong_os.CString.{Sign, negative, nought, memset, memcpy, strcpy, strlen, strcmp, strcat}
use loong_os.CString.Memory.{memset-memcpy}
use loong_os.CString.Strings.{cstr, strcpy-cstr, strcat-cstr}
use loong_os.CString.Compare.{strcmp-cstr, flip}

-- "/a/b", "ls" and an empty buffer of six bytes.
abbrev path : List ℕ
path = b'/' ∷ b'a' ∷ b'/' ∷ b'b' ∷ []

abbrev ls : List ℕ
ls = b'l' ∷ b's' ∷ []

abbrev room : List ℕ
room = 0 ∷ 0 ∷ 0 ∷ 0 ∷ 0 ∷ 0 ∷ []

strlen-path : strlen (some (cstr path room)) ≡ ok 4
unfolding strlen
strlen-path = refl

strlen_null : strlen none ≡ panic
unfolding strlen
strlen_null = refl

strlen_unterminated : strlen (some path) ≡ fault
unfolding strlen
strlen_unterminated = refl

-- 0x80 is the least `char`.
strcmp_signed : strcmp (some (128 ∷ 0 ∷ [])) (some (cstr ls [])) ≡ ok negative
unfolding strcmp
strcmp_signed = refl

strcat-path :
    strcat (some (cstr path room)) (some (cstr ls [])) ≡ ok (cstr (path ++ ls) (0 ∷ 0 ∷ 0 ∷ 0 ∷ []))
unfolding strcat
strcat-path = refl

memset-memcpy_example :
    (memset (some room) 9 4 ≡ ok (replicate 4 9 ++ drop 4 room))
    × (memcpy (some room) (some path) 4 ≡ ok (take 4 path ++ drop 4 room))
memset-memcpy_example = memset-memcpy room path 9 4 (omega arith)

strcpy-cstr_example : strcpy (some room) (some (cstr path [])) ≡ ok (cstr path (drop 5 room))
strcpy-cstr_example = strcpy-cstr room path [] (omega arith)

strcat-cstr_example :
    strcat (some (cstr path room)) (some (cstr ls [])) ≡ ok (cstr (path ++ ls) (drop 2 room))
strcat-cstr_example = strcat-cstr path room ls [] (omega arith) (omega arith)

strcmp-cstr_example :
    (r : Sign) × (strcmp (some (cstr path [])) (some (cstr ls [])) ≡ ok r)
    × (strcmp (some (cstr ls [])) (some (cstr path [])) ≡ ok (flip r))
    × ((r ≡ nought) ↔ (path ≡ ls))
strcmp-cstr_example =
    strcmp-cstr path ls [] [] (omega arith) (omega arith) (omega arith) (omega arith)
