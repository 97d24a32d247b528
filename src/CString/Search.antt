-- ===== src/CString/Search.antt =====
-- `strchr`, `strrchr` and `strchrs` against the positions of a character in the string.
use loong_os.Prelude.{
  ℕ, zero, suc, ◌+◌, ◌^◌, ◌<◌, ◌≡◌, ◌≢◌, refl, ap, ◌∙◌, none, some, Option, List, [], ◌∷◌, arith,
  ok, length, get_elem?, ◌==◌, if◌then◌else◌, u32, Bool-cases, inl, inr, ==_iff,
}
use loong_os.CString.{strchr_loop, strchr, strrchr_loop, strrchr, strchrs_loop, strchrs}
use loong_os.CString.Strings.{NoZero, cstr}

abbrev move : ℕ → Option ℕ → Option ℕ → Option ℕ
move at none otherwise = otherwise
move at (some i) otherwise = some (at + i)

-- The place `i` of a tail is the place `suc i` of the list.
abbrev next : Option ℕ → Option ℕ → Option ℕ
next none otherwise = otherwise
next (some i) otherwise = some (suc i)

-- The first and the last position of `ch` in `s`, by recursion on `s`.
pub first_index : List ℕ → ℕ → Option ℕ
first_index [] ch = none
first_index (x ∷ s) ch = if x == ch then some 0 else next (first_index s ch) none

pub last_index : List ℕ → ℕ → Option ℕ
last_index [] ch = none
last_index (x ∷ s) ch = next (last_index s ch) (if x == ch then some 0 else none)

pub count : List ℕ → ℕ → ℕ
count [] ch = 0
count (x ∷ s) ch = (if x == ch then 1 else 0) + count s ch

strchr_loop-first :
    (s rest : List ℕ) (ch at : ℕ)
    → NoZero s
    → strchr_loop (cstr s rest) ch at ≡ ok (move at (first_index s ch) none)
unfolding strchr_loop first_index
strchr_loop-first [] rest ch at h = refl
strchr_loop-first (x ∷ s) rest ch at h = ground (arith, strchr_loop-first s rest ch (at + 1) h.1)

strrchr_loop-last :
    (s rest : List ℕ) (ch at : ℕ) (l : Option ℕ)
    → NoZero s
    → strrchr_loop (cstr s rest) ch at l ≡ ok (move at (last_index s ch) l)
unfolding strrchr_loop last_index
strrchr_loop-last [] rest ch at l h = refl
strrchr_loop-last (x ∷ s) rest ch at l h =
    ground (arith, strrchr_loop-last s rest ch (at + 1) (if x == ch then some at else l) h.1)

strchrs_loop-count :
    (s rest : List ℕ) (ch n : ℕ)
    → NoZero s
    → n + length s < 2 ^ 32
    → strchrs_loop (cstr s rest) ch n ≡ ok (n + count s ch)
unfolding strchrs_loop count
strchrs_loop-count [] rest ch n h small = ground arith
strchrs_loop-count (x ∷ s) rest ch n h small =
    ground (arith, strchrs_loop-count s rest ch (if x == ch then u32 (n + 1) else n) h.1)

some_eq : {x y : ℕ} → some x ≡ some y → x ≡ y
some_eq e = cc

-- What it is for an answer to be the first, or the last, place of `ch` in `s`.
abbrev pub IsFirst : List ℕ → ℕ → Option ℕ → Type 0
IsFirst s ch none = (j : ℕ) → get_elem? s j ≢ some ch
IsFirst s ch (some i) = (get_elem? s i ≡ some ch) × ((j : ℕ) → j < i → get_elem? s j ≢ some ch)

abbrev pub IsLast : List ℕ → ℕ → Option ℕ → Type 0
IsLast s ch none = (j : ℕ) → get_elem? s j ≢ some ch
IsLast s ch (some i) = (get_elem? s i ≡ some ch) × ((j : ℕ) → i < j → get_elem? s j ≢ some ch)

absent-cons :
    (x : ℕ) (s : List ℕ) (ch : ℕ)
    → x ≢ ch
    → ((j : ℕ) → get_elem? s j ≢ some ch)
    → (j : ℕ) → get_elem? (x ∷ s) j ≢ some ch
absent-cons x s ch ne h zero e = ne (some_eq e)
absent-cons x s ch ne h (suc j) e = h j e

IsFirst-cons :
    (x : ℕ) (s : List ℕ) (ch : ℕ) (r : Option ℕ)
    → x ≢ ch
    → IsFirst s ch r
    → IsFirst (x ∷ s) ch (next r none)
IsFirst-cons x s ch none ne h = absent-cons x s ch ne h
IsFirst-cons x s ch (some i) ne (here, before) = (here, later)
  where
    later : (j : ℕ) → j < suc i → get_elem? (x ∷ s) j ≢ some ch
    later zero p e = ne (some_eq e)
    later (suc j) p e = before j (omega arith) e

pub first_index-IsFirst : (s : List ℕ) (ch : ℕ) → IsFirst s ch (first_index s ch)
unfolding first_index
first_index-IsFirst [] ch = λ j e. ground arith
first_index-IsFirst (x ∷ s) ch =
    let ih = first_index-IsFirst s ch in
    elim (Bool-cases (x == ch)) [
      | inl e ↦ rw e (ap some ((==_iff x ch).0 e), λ j p. absurd (omega arith))
      | inr e ↦ rw e (IsFirst-cons x s ch (first_index s ch) (ground (arith, e)) ih)
    ]

IsLast-cons :
    (x : ℕ) (s : List ℕ) (ch : ℕ) (r : Option ℕ)
    → IsLast s ch r
    → IsLast (x ∷ s) ch (next r (if x == ch then some 0 else none))
IsLast-cons x s ch (some i) (here, after) = (here, later)
  where
    later : (j : ℕ) → suc i < j → get_elem? (x ∷ s) j ≢ some ch
    later zero p e = absurd (omega arith)
    later (suc j) p e = after j (omega arith) e
IsLast-cons x s ch none h = elim (Bool-cases (x == ch)) [
  | inl e ↦ rw e (ap some ((==_iff x ch).0 e), later)
  | inr e ↦ rw e (absent-cons x s ch (ground (arith, e)) h)
]
  where
    later : (j : ℕ) → 0 < j → get_elem? (x ∷ s) j ≢ some ch
    later zero p e = absurd (omega arith)
    later (suc j) p e = h j e

pub last_index-IsLast : (s : List ℕ) (ch : ℕ) → IsLast s ch (last_index s ch)
unfolding last_index
last_index-IsLast [] ch = λ j e. ground arith
last_index-IsLast (x ∷ s) ch = IsLast-cons x s ch (last_index s ch) (last_index-IsLast s ch)

move-zero : (r : Option ℕ) → move 0 r none ≡ r
move-zero none = refl
move-zero (some i) = ap some (omega arith)

-- `strchr` and `strrchr` return the first and the last offset at which the string has the
-- character, or NULL if it has it nowhere, and `strchrs` returns how often it has it.
pub strchr-cstr :
    (s rest : List ℕ) (ch : ℕ)
    → NoZero s
    → length s < 2 ^ 32
    → ((r : Option ℕ) × (strchr (some (cstr s rest)) ch ≡ ok r) × IsFirst s ch r)
      × ((r : Option ℕ) × (strrchr (some (cstr s rest)) ch ≡ ok r) × IsLast s ch r)
      × (strchrs (some (cstr s rest)) ch ≡ ok (count s ch))
unfolding strchr strrchr strchrs
strchr-cstr s rest ch h small = (
  (
    first_index s ch,
    strchr_loop-first s rest ch 0 h ∙ ap ok (move-zero _),
    first_index-IsFirst s ch,
  ),
  (
    last_index s ch,
    strrchr_loop-last s rest ch 0 none h ∙ ap ok (move-zero _),
    last_index-IsLast s ch,
  ),
  strchrs_loop-count s rest ch 0 h (omega arith) ∙ ap ok (omega arith),
)
