-- ===== src/CString/Strings.antt =====
-- `strlen`, `strcpy` and `strcat` on zero-terminated strings.
use loong_os.Prelude.{
  Bool-cases, inl, inr, ltb, leb, ltb→lt, if◌then◌else◌, ℕ, suc, ◌+◌, ◌^◌, ◌≤◌, ◌<◌, ◌≡◌, ◌≢◌, refl,
  ap, some, List, [], ◌∷◌, ◌++◌, arith, ok, fault, length, drop,
}
use loong_os.CString.{strlen_loop, strlen, strcpy_loop, strcpy, strcat_loop, strcat}

-- The characters of a string: none of them is the terminator.
abbrev pub NoZero : List ℕ → Type 0
NoZero [] = Unit
NoZero (c ∷ s) = (c ≢ 0) × NoZero s

pub NoZero-append : (a b : List ℕ) → NoZero a → NoZero b → NoZero (a ++ b)
NoZero-append [] b ha hb = hb
NoZero-append (x ∷ a) b ha hb = (ha.0, NoZero-append a b ha.1 hb)

-- An object that holds the string `s` and then `rest`.
abbrev pub cstr : List ℕ → List ℕ → List ℕ
cstr s rest = s ++ (0 ∷ rest)

strlen_loop-cstr :
    (s rest : List ℕ) (n : ℕ) → NoZero s → strlen_loop (cstr s rest) n ≡ ok (n + length s + 1)
unfolding strlen_loop
strlen_loop-cstr [] rest n h = ground arith
strlen_loop-cstr (c ∷ s) rest n h = ground (arith, strlen_loop-cstr s rest (n + 1) h.1)

-- `strlen` of a string returns the number of its characters, if an `uint32_t` holds it.
pub strlen-cstr :
    (s rest : List ℕ) → NoZero s → length s < 2 ^ 32 → strlen (some (cstr s rest)) ≡ ok (length s)
unfolding strlen
strlen-cstr s rest h small = rw (strlen_loop-cstr s rest 0 h) (ap ok (omega arith))

strlen_loop-endless : (s : List ℕ) (n : ℕ) → NoZero s → strlen_loop s n ≡ fault
unfolding strlen_loop
strlen_loop-endless [] n h = refl
strlen_loop-endless (c ∷ s) n h = ground (arith, strlen_loop-endless s (n + 1) h.1)

-- `strlen` runs out of an object that holds no terminator.
pub strlen-endless : (s : List ℕ) → NoZero s → strlen (some s) ≡ fault
unfolding strlen
strlen-endless s h = rw (strlen_loop-endless s 0 h) refl

strcpy_loop-cstr :
    (dst s rest : List ℕ)
    → NoZero s
    → length s < length dst
    → strcpy_loop dst (cstr s rest) ≡ ok (cstr s (drop (suc (length s)) dst))
unfolding strcpy_loop
strcpy_loop-cstr [] s rest h room = absurd (omega arith)
strcpy_loop-cstr (x ∷ dst) [] rest h room = refl
strcpy_loop-cstr (x ∷ dst) (c ∷ s) rest h room =
    ground (arith, strcpy_loop-cstr dst s rest h.1 (omega arith))

strcpy_loop-short :
    (dst s rest : List ℕ) → NoZero s → length dst ≤ length s → strcpy_loop dst (cstr s rest) ≡ fault
unfolding strcpy_loop
strcpy_loop-short [] [] rest h full = refl
strcpy_loop-short [] (c ∷ s) rest h full = refl
strcpy_loop-short (x ∷ dst) [] rest h full = absurd (omega arith)
strcpy_loop-short (x ∷ dst) (c ∷ s) rest h full =
    ground (arith, strcpy_loop-short dst s rest h.1 (omega arith))

strcat_loop-cstr :
    (d room s rest : List ℕ)
    → NoZero d
    → NoZero s
    → length s ≤ length room
    → strcat_loop (cstr d room) (cstr s rest) ≡ ok (cstr (d ++ s) (drop (length s) room))
unfolding strcat_loop
strcat_loop-cstr [] room s rest hd hs fits = strcpy_loop-cstr (0 ∷ room) s rest hs (omega arith)
strcat_loop-cstr (c ∷ d) room s rest hd hs fits =
    ground (arith, strcat_loop-cstr d room s rest hd.1 hs fits)

strcat_loop-short :
    (d room s rest : List ℕ)
    → NoZero d
    → NoZero s
    → length room < length s
    → strcat_loop (cstr d room) (cstr s rest) ≡ fault
unfolding strcat_loop
strcat_loop-short [] room s rest hd hs full = strcpy_loop-short (0 ∷ room) s rest hs (omega arith)
strcat_loop-short (c ∷ d) room s rest hd hs full =
    ground (arith, strcat_loop-short d room s rest hd.1 hs full)

-- `strcpy` of a string leaves it, with its terminator, at the front of the destination and the
-- destination's later bytes as they were; if the destination is too small for it, the copy runs
-- out of the destination.
pub strcpy-cstr :
    (dst s rest : List ℕ)
    → NoZero s
    → strcpy (some dst) (some (cstr s rest))
      ≡ (if ltb (length s) (length dst) then ok (cstr s (drop (suc (length s)) dst)) else fault)
unfolding strcpy
strcpy-cstr dst s rest h = elim (Bool-cases (ltb (length s) (length dst))) [
  | inl e ↦ rw e (strcpy_loop-cstr dst s rest h (ltb→lt _ _ e))
  | inr e ↦ rw e (strcpy_loop-short dst s rest h (ground (arith, e)))
]

-- `strcat` leaves the concatenation of the two strings in the destination and the bytes behind it
-- as they were; if the bytes behind the destination's string are fewer than the characters to
-- append, it runs out of the destination.
pub strcat-cstr :
    (d room s rest : List ℕ)
    → NoZero d
    → NoZero s
    → strcat (some (cstr d room)) (some (cstr s rest))
      ≡ (if leb (length s) (length room) then ok (cstr (d ++ s) (drop (length s) room)) else fault)
unfolding strcat
strcat-cstr d room s rest hd hs = elim (Bool-cases (leb (length s) (length room))) [
  | inl e ↦ rw e (strcat_loop-cstr d room s rest hd hs (ground (arith, e)))
  | inr e ↦ rw e (strcat_loop-short d room s rest hd hs (ground (arith, e)))
]

-- The same where the source fits.
pub strcpy_fits :
    (dst s rest : List ℕ)
    → NoZero s
    → length s < length dst
    → strcpy (some dst) (some (cstr s rest)) ≡ ok (cstr s (drop (suc (length s)) dst))
unfolding strcpy
strcpy_fits dst s rest h fits = strcpy_loop-cstr dst s rest h fits

pub strcat_fits :
    (d room s rest : List ℕ)
    → NoZero d
    → NoZero s
    → length s ≤ length room
    → strcat (some (cstr d room)) (some (cstr s rest)) ≡ ok (cstr (d ++ s) (drop (length s) room))
unfolding strcat
strcat_fits d room s rest hd hs fits = strcat_loop-cstr d room s rest hd hs fits
