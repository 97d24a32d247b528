-- ===== src/Memory/Pools/Map.antt =====
-- `malloc_page`: the pages that the kernel is given, and how they are mapped.
use loong_os.Prelude.{
  ℕ, zero, suc, ◌+◌, ◌*◌, ◌/◌, ◌%◌, ◌≤◌, ◌<◌, ◌≡◌, ◌≢◌, refl, sym, ap, ◌∙◌, subst, Bool, true,
  false, ◌&&◌, ◌||◌, some, List, [], ◌∷◌, ok, arith, ltb, leb, ◌==◌, u32, length, Bool-cases, inl,
  inr, ==_iff, get_elem?,
}
use loong_os.KernelList.Chain.{has, Distinct}
use loong_os.Bitmap.{Bitmap, bitmap_scan_test}
use loong_os.Bitmap.Bits.{written, test-written, len-written}
use loong_os.Bitmap.Runs.{IsValid, size}
use loong_os.Memory.Tables.{Words, set_word, pte_ptr, pde_ptr, is_present, entry}
use loong_os.Memory.Tables.Translate.{pte_ptr_lem, pde_ptr_lem}
use loong_os.Memory.Pools.{Pool, Mem, pf_kernel, page_table_add, map_pages}
use loong_os.Memory.Pools.Bitmaps.{
  IsPool, page_at, taken, frees, palloc_lem, taken-IsPool, frees-written, written-IsValid,
}

-- An address whose page table exists and whose entry is free is entered there.
pub page_table_add-entered :
    (v p : ℕ) (m : Mem)
    → is_present (m.words (pde_ptr v)) ≡ true
    → is_present (m.words (pte_ptr v)) ≡ false
    → page_table_add v p m ≡ ok (record m { words = set_word (pte_ptr v) (entry p) m.words })
unfolding page_table_add
page_table_add-entered v p m table free = rw (table, free) refl

-- The pool once the pages `ks` are taken, and the tables once they are mapped from `v` on.
unfoldable pub took : List ℕ → Pool → Pool
took [] p = p
took (k ∷ ks) p = took ks (taken p k)

unfoldable pub linked : ℕ → ℕ → List ℕ → Words → Words
linked start v [] words = words
linked start v (k ∷ ks) words =
    linked start (v + 4096) ks (set_word (pte_ptr v) (entry (start + k * 4096)) words)

-- Each of the pages was free when it was taken.
abbrev pub Fresh : List ℕ → Bitmap → Type 0
Fresh [] b = Unit
Fresh (k ∷ ks) b = (k < size b) × (bitmap_scan_test b k ≡ false) × Fresh ks (written b k true)

-- The `cnt` addresses from `v` on have page tables, and no entry in them.
pub record Unmapped (words : Words) (v cnt : ℕ) : Type 0 where
  pub aligned : v % 4096 ≡ 0
  pub below : v + cnt * 4096 ≤ 0xffc00000
  pub tables : (i : ℕ) → i < cnt → is_present (words (pde_ptr (v + i * 4096))) ≡ true
  pub free : (i : ℕ) → i < cnt → is_present (words (pte_ptr (v + i * 4096))) ≡ false

pub set_word-other : (a b e : ℕ) (words : Words) → a ≢ b → set_word b e words a ≡ words a
set_word-other a b e words ne = ground (arith, ne)

-- The entries and the directory's words are apart.
pte-ne-pde : (u v : ℕ) → u < 0xffc00000 → v < 0xffc00000 → pde_ptr u ≢ pte_ptr v
pte-ne-pde u v hu hv = omega (arith, pde_ptr_lem u, pte_ptr_lem v)

after_first :
    (words : Words) (v cnt e : ℕ)
    → Unmapped words v (suc cnt)
    → Unmapped (set_word (pte_ptr v) e words) (v + 4096) cnt
after_first words v cnt e u = record {
  aligned = omega (arith, u.aligned);
  below = omega (arith, u.below);
  tables = λ i h.
      let a = pde_ptr (v + 4096 + i * 4096) in
      let next : v + suc i * 4096 ≡ v + 4096 + i * 4096 = omega arith in
      let ne : a ≢ pte_ptr v =
        pte-ne-pde (v + 4096 + i * 4096) v (omega (arith, u.below)) (omega (arith, u.below)) in
      ap is_present (set_word-other a (pte_ptr v) e words ne)
      ∙ subst (λ w. is_present (words (pde_ptr w)) ≡ true) next (u.tables (suc i) (omega arith));
  free = λ i h.
      let a = pte_ptr (v + 4096 + i * 4096) in
      let next : v + suc i * 4096 ≡ v + 4096 + i * 4096 = omega arith in
      let ne : a ≢ pte_ptr v =
        omega (arith, u.below, pte_ptr_lem (v + 4096 + i * 4096), pte_ptr_lem v) in
      ap is_present (set_word-other a (pte_ptr v) e words ne)
      ∙ subst (λ w. is_present (words (pte_ptr w)) ≡ false) next (u.free (suc i) (omega arith));
}

pub map_pages_lem :
    (cnt v : ℕ) (m : Mem)
    → IsPool m.kernel_pool
    → cnt ≤ frees m.kernel_pool.pool_bitmap (size m.kernel_pool.pool_bitmap)
    → Unmapped m.words v cnt
    → (ks : List ℕ) × (length ks ≡ cnt)
      × Fresh ks m.kernel_pool.pool_bitmap
      × (map_pages cnt pf_kernel v m
          ≡ ok (
            true,
            record m {
              kernel_pool = took ks m.kernel_pool;
              words = linked m.kernel_pool.phy_addr_start v ks m.words;
            },
          ))
unfolding map_pages took linked
map_pages_lem zero v m p enough u = ([], refl, tt, refl)
map_pages_lem (suc cnt) v m p enough u =
    let pool = m.kernel_pool in
    let b = pool.pool_bitmap in
    let (k, small, free, found) = palloc_lem pool p (omega arith) in
    let m₁ : Mem = record m { kernel_pool = taken pool k } in
    let e = entry (page_at pool k) in
    let m₂ : Mem = record m {
      kernel_pool = taken pool k;
      words = set_word (pte_ptr v) e m.words;
    } in
    let here : v + 0 * 4096 ≡ v = omega arith in
    let table : is_present (m.words (pde_ptr v)) ≡ true =
      subst (λ w. is_present (m.words (pde_ptr w)) ≡ true) here (u.tables 0 (omega arith)) in
    let unused : is_present (m.words (pte_ptr v)) ≡ false =
      subst (λ w. is_present (m.words (pte_ptr w)) ≡ false) here (u.free 0 (omega arith)) in
    let added = page_table_add-entered v (page_at pool k) m₁ table unused in
    let next : u32 (v + 4096) ≡ v + 4096 = omega (arith, u.below) in
    let left : cnt ≤ frees (taken pool k).pool_bitmap (size (taken pool k).pool_bitmap) =
      subst (λ n. cnt ≤ frees (written b k true) (n * 8)) (sym (len-written b k true))
        (omega (arith, enough, frees-written b k (size b) p.bits small free)) in
    let (ks, many, fresh, rest) =
      map_pages_lem cnt (v + 4096) m₂ (taken-IsPool pool k p) left
        (after_first m.words v cnt e u) in
    (k ∷ ks, omega (arith, many), (small, free, fresh), rw (found, added, next) rest)

pub test-took :
    (ks : List ℕ) (p : Pool) (j : ℕ)
    → IsValid p.pool_bitmap
    → bitmap_scan_test (took ks p).pool_bitmap j ≡ (has j ks || bitmap_scan_test p.pool_bitmap j)
unfolding took
test-took [] p j v = refl
test-took (k ∷ ks) p j v =
    test-took ks (taken p k) j (written-IsValid p.pool_bitmap k true v)
    ∙ ground (arith, test-written p.pool_bitmap k true j v.bytes)

-- A page that is free once others were taken was free before, and is none of those.
pub Fresh-free :
    (ks : List ℕ) (b : Bitmap) (j : ℕ)
    → IsValid b
    → Fresh ks b
    → has j ks ≡ true
    → (j < size b) × (bitmap_scan_test b j ≡ false)
Fresh-free [] b j v f h = cc
Fresh-free (k ∷ ks) b j v f h = elim (Bool-cases (j == k)) [
  | inl e ↦ rw ((==_iff j k).0 e) (f.0, f.1)
  | inr e ↦
      let (small, free) =
        Fresh-free ks (written b k true) j (written-IsValid b k true v) f.2
          (ground (arith, e, h)) in
      (
        omega (arith, small, len-written b k true),
        ground (arith, free, test-written b k true j v.bytes),
      )
]

pub Fresh-Distinct : (ks : List ℕ) (b : Bitmap) → IsValid b → Fresh ks b → Distinct ks
Fresh-Distinct [] b v f = tt
Fresh-Distinct (k ∷ ks) b v f =
    (not_again, Fresh-Distinct ks (written b k true) (written-IsValid b k true v) f.2)
  where
    not_again : has k ks ≡ false
    not_again = elim (Bool-cases (has k ks)) [
      | inl h ↦ ground (
        arith,
        test-written b k true k v.bytes,
        Fresh-free ks (written b k true) k (written-IsValid b k true v) f.2 h,
      )
      | inr h ↦ h
    ]

-- The entries of the addresses from `v` on point to the pages `ks`.
abbrev pub Backs : Words → ℕ → ℕ → List ℕ → Type 0
Backs words start v [] = Unit
Backs words start v (k ∷ ks) =
    (words (pte_ptr v) ≡ entry (start + k * 4096)) × Backs words start (v + 4096) ks

-- Whether `a` is the place of one of the `n` entries from that of `v` on.
abbrev pub among_ptes : ℕ → ℕ → ℕ → Bool
among_ptes v n a = leb (0xffc00000 + v / 4096 * 4) a && ltb a (0xffc00000 + v / 4096 * 4 + n * 4)

pub linked-other :
    (start v : ℕ) (ks : List ℕ) (words : Words) (a : ℕ)
    → v + length ks * 4096 ≤ 0xffc00000
    → among_ptes v (length ks) a ≡ false
    → linked start v ks words a ≡ words a
unfolding linked
linked-other start v [] words a below out = refl
linked-other start v (k ∷ ks) words a below out =
    let e = entry (start + k * 4096) in
    linked-other start (v + 4096) ks (set_word (pte_ptr v) e words) a (omega arith)
      (ground (arith, out))
    ∙ set_word-other a (pte_ptr v) e words (ground (arith, out, pte_ptr_lem v))

pub linked-Backs :
    (start v : ℕ) (ks : List ℕ) (words : Words)
    → v + length ks * 4096 ≤ 0xffc00000
    → Backs (linked start v ks words) start v ks
unfolding linked
linked-Backs start v [] words below = tt
linked-Backs start v (k ∷ ks) words below =
    let e = entry (start + k * 4096) in
    let w = set_word (pte_ptr v) e words in
    (
      linked-other start (v + 4096) ks w (pte_ptr v) (omega arith) (ground (arith, pte_ptr_lem v))
          ∙ ground arith,
      linked-Backs start (v + 4096) ks w (omega arith),
    )

-- What `Backs` says of each address.
pub Backs-at :
    (words : Words) (start v : ℕ) (ks : List ℕ) (i k : ℕ)
    → Backs words start v ks
    → get_elem? ks i ≡ some k
    → words (pte_ptr (v + i * 4096)) ≡ entry (start + k * 4096)
Backs-at words start v [] i k b e = cc
Backs-at words start v (x ∷ ks) zero k b e =
    let same : v + 0 * 4096 ≡ v = omega arith in let at : x ≡ k = cc in rw (same, sym at) b.0
Backs-at words start v (x ∷ ks) (suc i) k b e =
    let next : v + 4096 + i * 4096 ≡ v + suc i * 4096 = omega arith in
    subst (λ a. words (pte_ptr a) ≡ entry (start + k * 4096)) next
      (Backs-at words start (v + 4096) ks i k b.1 e)
