-- ===== src/Directory/Entries.antt =====
-- Searching the entries of sectors, before and after one of them is written.
use loong_os.Prelude.{
  subst, ℕ, zero, suc, ◌+◌, ◌*◌, ◌≤◌, ◌<◌, ◌≡◌, refl, sym, ◌∙◌, ap, ap₂, true, false, Option, none,
  some, List, ◌∷◌, Outcome, ok, panic, fault, ◌>>=◌, arith, ◌==◌, if◌then◌else◌, Bool-cases, inl,
  inr, ==_iff,
}
use loong_os.CString.{Sign, nought, negative, positive, strcmp}
use loong_os.Inode.{Bytes, read_sectors}
use loong_os.FileData.{Blocks}
use loong_os.Directory.{
  f_type, dir_entrys_per_sec, zeros, window, filename, is_equal, search_entries, entry_or,
  search_blocks, free_entry,
}

window-same :
    (n at : ℕ) (b b' : Bytes)
    → ((i : ℕ) → at ≤ i → i < at + n → b i ≡ b' i)
    → window b at n ≡ window b' at n
unfolding window
window-same zero at b b' same = refl
window-same (suc n) at b b' same =
    ap₂ (λ x xs. x ∷ xs) (same at (omega arith) (omega arith))
      (window-same n (at + 1) b b' (λ i lo hi. same i (omega arith) (omega arith)))

pub window-shift :
    (n at at' : ℕ) (b b' : Bytes)
    → ((i : ℕ) → i < n → b (at + i) ≡ b' (at' + i))
    → window b at n ≡ window b' at' n
unfolding window
window-shift zero at at' b b' same = refl
window-shift (suc n) at at' b b' same =
    let first : b at ≡ b' at' = ap b (omega arith) ∙ same 0 (omega arith) ∙ ap b' (omega arith) in
    ap₂ (λ x xs. x ∷ xs) first
      (window-shift n (at + 1) (at' + 1) b b'
        (λ i lt. ap b (omega arith) ∙ same (suc i) (omega arith) ∙ ap b' (omega arith)))

-- A search that found nothing has passed its first entry.
passed :
    (r : Outcome Sign) (idx : ℕ) (rest : Outcome (Option ℕ))
    → (do sign ← r; if is_equal sign then ok (some idx) else rest) ≡ ok none
    → (rest ≡ ok none)
      × ((rest' : Outcome (Option ℕ))
          → (do sign ← r; if is_equal sign then ok (some idx) else rest') ≡ rest')
passed (ok negative) idx rest e = (e, λ rest'. refl)
passed (ok nought) idx rest e = ground arith
passed (ok positive) idx rest e = (e, λ rest'. refl)
passed panic idx rest e = ground arith
passed fault idx rest e = ground arith

-- When nothing was found before, the names before the entry `s` are the same, and the one there is
-- the name sought, then this entry is found.
pub search_entries-found :
    (left : ℕ) (buf buf' : Bytes) (name : List ℕ) (idx s : ℕ)
    → search_entries left buf name idx ≡ ok none
    → idx ≤ s
    → s < idx + left
    → ((i : ℕ) → i < s * 24 → buf i ≡ buf' i)
    → strcmp (some (filename buf' s)) (some name) ≡ ok nought
    → search_entries left buf' name idx ≡ ok (some s)
unfolding search_entries
search_entries-found zero buf buf' name idx s e lo hi same found = absurd (omega arith)
search_entries-found (suc left) buf buf' name idx s e lo hi same found =
    elim (Bool-cases (idx == s)) [
      | inl here ↦ let at : idx ≡ s = (==_iff idx s).0 here in rw (at, found) refl
      | inr ne ↦
          let before : idx < s = ground (arith, ne) in
          let (rest, skip) =
            passed (strcmp (some (filename buf idx)) (some name)) idx
              (search_entries left buf name (idx + 1)) e in
          let names : filename buf idx ≡ filename buf' idx =
            window-same 16 (idx * 24) buf buf' (λ i lo' hi'. same i (omega arith)) in
          ap
            (λ n. (do
              sign ← strcmp (some n) (some name)
              if is_equal sign then ok (some idx) else search_entries left buf' name (idx + 1)))
            (sym names)
          ∙ skip (search_entries left buf' name (idx + 1))
          ∙ search_entries-found left buf buf' name (idx + 1) s rest (omega arith) (omega arith)
              same found
    ]

-- The first entry has the name sought.
pub search_entries-first :
    (left : ℕ) (buf : Bytes) (name : List ℕ)
    → strcmp (some (filename buf 0)) (some name) ≡ ok nought
    → search_entries (suc left) buf name 0 ≡ ok (some 0)
unfolding search_entries
search_entries-first left buf name found = rw found refl

-- A search of the first sector and the rest that found nothing.
nothing :
    (r : Outcome (Option ℕ)) (buf : Bytes) (next : Outcome (Option Bytes))
    → (do found ← r; entry_or buf next found) ≡ ok none
    → (r ≡ ok none) × (next ≡ ok none)
nothing (ok none) buf next e = (refl, e)
nothing (ok (some idx)) buf next e = ground arith
nothing panic buf next e = ground arith
nothing fault buf next e = ground arith

before_full :
    (all_blocks : Blocks) (idx k : ℕ)
    → idx ≤ k
    → (all_blocks idx == 0) ≡ true
    → (all_blocks k == 0) ≡ false
    → idx < k
before_full all_blocks idx k lo empty full = elim (Bool-cases (idx == k)) [
  | inl same ↦
      let at : idx ≡ k = (==_iff idx k).0 same in
      let wrong : true ≡ false = sym empty ∙ ap (λ n. all_blocks n == 0) at ∙ full in
      ground (arith, wrong)
  | inr ne ↦ ground (arith, ne)
]

-- What a search of all blocks found nothing in.
pub search_blocks-absent :
    (left : ℕ) (disk : Bytes) (all_blocks : Blocks) (name : List ℕ) (idx k : ℕ)
    → search_blocks left disk all_blocks name idx ≡ ok none
    → idx ≤ k
    → k < idx + left
    → (all_blocks k == 0) ≡ false
    → search_entries dir_entrys_per_sec (read_sectors disk (all_blocks k) zeros 1) name 0 ≡ ok none
unfolding search_blocks
search_blocks-absent zero disk all_blocks name idx k e lo hi used = absurd (omega arith)
search_blocks-absent (suc left) disk all_blocks name idx k e lo hi used =
    let next = search_blocks left disk all_blocks name (idx + 1) in
    let buf = read_sectors disk (all_blocks idx) zeros 1 in
    let searched : Outcome (Option Bytes) = (do
      found ← search_entries dir_entrys_per_sec buf name 0
      entry_or buf next found) in
    let of_next : next ≡ ok none
        → idx < k
        → search_entries dir_entrys_per_sec (read_sectors disk (all_blocks k) zeros 1) name 0
          ≡ ok none =
      (λ e' later.
        search_blocks-absent left disk all_blocks name (idx + 1) k e' (omega arith) (omega arith)
          used) in
    elim (Bool-cases (all_blocks idx == 0)) [
      | inl empty ↦
          let later : idx < k = before_full all_blocks idx k lo empty used in
          of_next (sym (ap (λ c. if c then next else searched) empty) ∙ e) later
      | inr full ↦
          let (here, e') =
            nothing (search_entries dir_entrys_per_sec buf name 0) buf next
              (sym (ap (λ c. if c then next else searched) full) ∙ e) in
          elim (Bool-cases (idx == k)) [
            | inl same ↦ let at : k ≡ idx = sym ((==_iff idx k).0 same) in rw at here
            | inr ne ↦ of_next e' (ground (arith, ne))
          ]
    ]

-- The search passes full blocks without the name, and finds the entry `s` of the block `k`.
pub search_blocks-found :
    (left : ℕ) (disk : Bytes) (all_blocks : Blocks) (name : List ℕ) (idx k s : ℕ)
    → idx ≤ k
    → k < idx + left
    → ((m : ℕ)
        → idx ≤ m
        → m < k
        → search_entries dir_entrys_per_sec (read_sectors disk (all_blocks m) zeros 1) name 0
          ≡ ok none)
    → (all_blocks k == 0) ≡ false
    → search_entries dir_entrys_per_sec (read_sectors disk (all_blocks k) zeros 1) name 0
      ≡ ok (some s)
    → search_blocks left disk all_blocks name idx
      ≡ ok (some (λ i. read_sectors disk (all_blocks k) zeros 1 (s * 24 + i)))
unfolding search_blocks
search_blocks-found zero disk all_blocks name idx k s lo hi earlier used found =
    absurd (omega arith)
search_blocks-found (suc left) disk all_blocks name idx k s lo hi earlier used found =
    elim (Bool-cases (idx == k)) [
      | inl here ↦ let at : idx ≡ k = (==_iff idx k).0 here in rw (at, used, found) refl
      | inr ne ↦
          let before : idx < k = ground (arith, ne) in
          let next =
            search_blocks-found left disk all_blocks name (idx + 1) k s (omega arith) (omega arith)
              (λ m lo' hi'. earlier m (omega arith) hi') used found in
          elim (Bool-cases (all_blocks idx == 0)) [
            | inl empty ↦ rw empty next
            | inr full ↦ rw (full, earlier idx (omega arith) before) next
          ]
    ]

pub free_entry-lt :
    (left : ℕ) (buf : Bytes) (idx s : ℕ) → free_entry left buf idx ≡ some s → s < idx + left
unfolding free_entry
free_entry-lt zero buf idx s e = ground arith
free_entry-lt (suc left) buf idx s e = ground (arith, free_entry-lt left buf (idx + 1) s)

pub free_entry-free :
    (left : ℕ) (buf : Bytes) (idx s : ℕ)
    → free_entry left buf idx ≡ some s
    → (f_type buf s == 0) ≡ true
unfolding free_entry
free_entry-free zero buf idx s e = ground arith
free_entry-free (suc left) buf idx s e = elim (Bool-cases (f_type buf idx == 0)) [
  | inl free ↦
      let at : idx ≡ s = ground (arith, free, e) in subst (λ n. (f_type buf n == 0) ≡ true) at free
  | inr used ↦
      free_entry-free left buf (idx + 1) s
        (sym (ap (λ c. if c then some idx else free_entry left buf (idx + 1)) used) ∙ e)
]
