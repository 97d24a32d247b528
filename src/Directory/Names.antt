-- ===== src/Directory/Names.antt =====
-- The names that `create_dir_entry` puts into an entry.
use loong_os.Prelude.{
  ℕ, zero, suc, ◌+◌, ◌≤◌, ◌<◌, ◌≡◌, refl, ◌∙◌, ap, true, false, some, List, [], ◌∷◌, ok, fault,
  arith, ltb, leb, ◌==◌, if◌then◌else◌, Bool-cases, ==_iff, inl, inr, length, get_or,
}
use loong_os.CString.{nought, strcmp_loop, strcmp}
use loong_os.CString.Strings.{NoZero, cstr, strlen-cstr}
use loong_os.Inode.{Bytes, copy_to}
use loong_os.Format.{put_word}
use loong_os.Directory.{zeros, window, create_dir_entry}

-- A window that starts with the characters of `s` and then has zeros.
compared :
    (s : List ℕ) (n at : ℕ) (b : Bytes)
    → NoZero s
    → length s ≤ n
    → ((i : ℕ) → i < n → b (at + i) ≡ get_or s i 0)
    → strcmp_loop (window b at n) (cstr s []) ≡ (if ltb (length s) n then ok nought else fault)
unfolding strcmp_loop window
compared [] zero at b nz fits same = refl
compared [] (suc n) at b nz fits same =
    let first : b at ≡ 0 = ap b (omega arith) ∙ same 0 (omega arith) in rw first (ground arith)
compared (c ∷ s) zero at b nz fits same = absurd (omega arith)
compared (c ∷ s) (suc n) at b nz fits same =
    let first : b at ≡ c = ap b (omega arith) ∙ same 0 (omega arith) in
    let rest =
      compared s n (at + 1) b nz.1 (omega arith)
        (λ i lt. ap b (omega arith) ∙ same (suc i) (omega arith)) in
    let not_zero : (c == 0) ≡ false = ground (arith, nz.0) in
    let self : (c == c) ≡ true = (==_iff c c).1 refl in
    rw (first, not_zero, self) (rest ∙ ground arith)

get_or-cstr : (s : List ℕ) (i : ℕ) → get_or (cstr s []) i 0 ≡ get_or s i 0
get_or-cstr [] zero = refl
get_or-cstr [] (suc i) = refl
get_or-cstr (c ∷ s) zero = refl
get_or-cstr (c ∷ s) (suc i) = get_or-cstr s i

get_or-behind : (s : List ℕ) (i : ℕ) → length s ≤ i → get_or s i 0 ≡ 0
get_or-behind [] i h = refl
get_or-behind (c ∷ s) zero h = absurd (omega arith)
get_or-behind (c ∷ s) (suc i) h = get_or-behind s i (omega arith)

-- For a name of at most 16 characters, `create_dir_entry` fills a cleared entry whose name compares
-- equal with the given one if it has at most 15 characters; with 16, which the assertion lets pass,
-- no terminator is left, and the comparison runs out of the name.
pub create_dir_entry_lem :
    (s : List ℕ) (inode_no file_type : ℕ)
    → NoZero s
    → length s ≤ 16
    → (p_de : Bytes) × (create_dir_entry (cstr s []) inode_no file_type zeros ≡ ok p_de)
      × (strcmp (some (window p_de 0 16)) (some (cstr s []))
          ≡ (if ltb (length s) 16 then ok nought else fault))
unfolding create_dir_entry strcmp
create_dir_entry_lem s inode_no file_type nz fits =
    let fits' : leb (length s) 16 ≡ true = ground arith in
    let p_de =
      put_word 20 file_type
        (put_word 16 inode_no (copy_to zeros 0 (λ i. get_or (cstr s []) i 0) (length s))) in
    (
      p_de,
      rw (strlen-cstr s [] nz (omega arith), fits') refl,
      compared s 16 0 p_de nz fits (λ i lt. elim (Bool-cases (ltb i (length s))) [
        | inl inside ↦ ground (arith, inside, get_or-cstr s i)
        | inr behind ↦ ground (arith, behind, get_or-behind s i)
      ]),
    )
