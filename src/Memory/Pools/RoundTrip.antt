-- ===== src/Memory/Pools/RoundTrip.antt =====
-- What the kernel gets from `malloc_page`, and that `mfree_page` gives all of it back.
use loong_os.Prelude.{
  ℕ, zero, suc, ◌+◌, ◌*◌, ◌%◌, ◌^◌, ◌≤◌, ◌<◌, ◌≡◌, refl, ap, ◌∙◌, subst, true, false, some, List,
  [], ◌∷◌, ok, arith, ltb, u32, length, get_elem?,
}
use loong_os.KernelList.Chain.{has}
use loong_os.Bitmap.{Bitmap, bitmap_scan_test}
use loong_os.Bitmap.Bits.{written, len-written}
use loong_os.Bitmap.Scan.{Zeros}
use loong_os.Bitmap.Runs.{size}
use loong_os.Bitmap.Runs
use loong_os.Memory.Tables.{Words, pte_ptr, pde_ptr, is_present, entry, addr_v2p}
use loong_os.Memory.Tables.Translate.{pte_ptr_lem, addr_v2p-entry}
use loong_os.Memory.Pools.{Pool, Mem, pf_kernel, vaddr_get, malloc_page, get_kernel_pages}
use loong_os.Memory.Pools.Bitmaps.{
  IsPool, frees, taken, taken-IsPool, run_written, set_bits_lem, bitmap_scan-Zeros,
}
use loong_os.Memory.Pools.Release.{AllBelow}
use loong_os.Memory.Pools.Map.{took, linked, Fresh, Unmapped, map_pages_lem, Backs, Backs-at}

-- The kernel's memory: pools of whole pages, the kernel's below the user's and above the page tables;
-- every page of the kernel's heap has a page table, and a page that is free has no entry.
pub record IsValid (m : Mem) : Type 0 where
  pub pool : IsPool m.kernel_pool
  pub above : 0x102000 ≤ m.kernel_pool.phy_addr_start
  pub apart :
      m.kernel_pool.phy_addr_start + size m.kernel_pool.pool_bitmap * 4096
      ≤ m.user_pool.phy_addr_start
  pub vbits : Runs.IsValid m.kernel_vaddr.vaddr_bitmap
  pub aligned : m.kernel_vaddr.vaddr_start % 4096 ≡ 0
  pub below : m.kernel_vaddr.vaddr_start + size m.kernel_vaddr.vaddr_bitmap * 4096 ≤ 0xffc00000
  pub tables :
      (i : ℕ)
      → i < size m.kernel_vaddr.vaddr_bitmap
      → is_present (m.words (pde_ptr (m.kernel_vaddr.vaddr_start + i * 4096))) ≡ true
  pub unmapped :
      (i : ℕ)
      → i < size m.kernel_vaddr.vaddr_bitmap
      → bitmap_scan_test m.kernel_vaddr.vaddr_bitmap i ≡ false
      → is_present (m.words (pte_ptr (m.kernel_vaddr.vaddr_start + i * 4096))) ≡ false

pub get_kernel_pages-eq : (n : ℕ) (m : Mem) → get_kernel_pages n m ≡ malloc_page pf_kernel n m
unfolding get_kernel_pages
get_kernel_pages-eq n m = refl

-- The memory once the run of `n` addresses from number `s` on is mapped to the pages `ks`.
abbrev pub got : Mem → ℕ → ℕ → List ℕ → Mem
got m n s ks =
    let va = m.kernel_vaddr in
    record m {
      kernel_pool = took ks m.kernel_pool;
      kernel_vaddr = record va { vaddr_bitmap = run_written n va.vaddr_bitmap s true };
      words = linked m.kernel_pool.phy_addr_start (va.vaddr_start + s * 4096) ks m.words;
    }

module _ (m : Mem) (n t : ℕ) (v : IsValid m) (pos : 0 < n) (few : n < 3840)
    (run : t + n ≤ size m.kernel_vaddr.vaddr_bitmap) (zeros : Zeros m.kernel_vaddr.vaddr_bitmap t n)
    (enough : n ≤ frees m.kernel_pool.pool_bitmap (size m.kernel_pool.pool_bitmap)) where
  pub run-Unmapped :
      (s : ℕ)
      → s + n ≤ size m.kernel_vaddr.vaddr_bitmap
      → Zeros m.kernel_vaddr.vaddr_bitmap s n
      → Unmapped m.words (m.kernel_vaddr.vaddr_start + s * 4096) n
  run-Unmapped s inside z = record {
    aligned = omega (arith, v.aligned);
    below = omega (arith, v.below);
    tables = λ i h.
        let e : m.kernel_vaddr.vaddr_start + (s + i) * 4096
            ≡ m.kernel_vaddr.vaddr_start + s * 4096 + i * 4096 =
          omega arith in
        subst (λ a. is_present (m.words (pde_ptr a)) ≡ true) e (v.tables (s + i) (omega arith));
    free = λ i h.
        let e : m.kernel_vaddr.vaddr_start + (s + i) * 4096
            ≡ m.kernel_vaddr.vaddr_start + s * 4096 + i * 4096 =
          omega arith in
        subst (λ a. is_present (m.words (pte_ptr a)) ≡ false) e
          (v.unmapped (s + i) (omega arith) (z (s + i) (omega arith) (omega arith)));
  }

  pub malloc_page-got :
      (s : ℕ) × (ks : List ℕ) × (s + n ≤ size m.kernel_vaddr.vaddr_bitmap)
      × Zeros m.kernel_vaddr.vaddr_bitmap s n
      × (length ks ≡ n)
      × Fresh ks m.kernel_pool.pool_bitmap
      × (get_kernel_pages n m ≡ ok (some (m.kernel_vaddr.vaddr_start + s * 4096), got m n s ks))
  unfolding get_kernel_pages malloc_page vaddr_get
  malloc_page-got =
      let va = m.kernel_vaddr in
      let (s, found, first, z) = bitmap_scan-Zeros va.vaddr_bitmap n t v.vbits pos run zeros in
      let inside : s + n ≤ size va.vaddr_bitmap = omega arith in
      let start : u32 (va.vaddr_start + s * 4096) ≡ va.vaddr_start + s * 4096 =
        omega (arith, v.below) in
      let m₁ : Mem = record m {
        kernel_vaddr = record va { vaddr_bitmap = run_written n va.vaddr_bitmap s true };
      } in
      let (ks, many, fresh, mapped) =
        map_pages_lem n (va.vaddr_start + s * 4096) m₁ v.pool enough (run-Unmapped s inside z) in
      let low : ltb 0 n ≡ true = ground arith in
      let high : ltb n 3840 ≡ true = ground arith in
      (
        s,
        ks,
        inside,
        z,
        many,
        fresh,
        rw (low, high, found, set_bits_lem n va.vaddr_bitmap s 1 (omega arith), start, mapped) refl,
      )

pub Fresh-AllBelow : (ks : List ℕ) (b : Bitmap) → Fresh ks b → AllBelow (size b) ks
Fresh-AllBelow [] b f = tt
Fresh-AllBelow (k ∷ ks) b f = (
  f.0,
  subst (λ n. AllBelow (n * 8) ks) (len-written b k true)
      (Fresh-AllBelow ks (written b k true) f.2),
)

pub has-get_elem? : (ks : List ℕ) (i k : ℕ) → get_elem? ks i ≡ some k → has k ks ≡ true
has-get_elem? [] i k e = cc
has-get_elem? (x ∷ ks) zero k e = ground (arith, e)
has-get_elem? (x ∷ ks) (suc i) k e = ground (arith, has-get_elem? ks i k e)

pub len-took : (ks : List ℕ) (p : Pool) → size (took ks p).pool_bitmap ≡ size p.pool_bitmap
unfolding took
len-took [] p = refl
len-took (k ∷ ks) p = len-took ks (taken p k) ∙ ap (λ n. n * 8) (len-written p.pool_bitmap k true)

pub start-took : (ks : List ℕ) (p : Pool) → (took ks p).phy_addr_start ≡ p.phy_addr_start
unfolding took
start-took [] p = refl
start-took (k ∷ ks) p = start-took ks (taken p k)

pub took-IsPool : (ks : List ℕ) (p : Pool) → IsPool p → IsPool (took ks p)
unfolding took
took-IsPool [] p v = v
took-IsPool (k ∷ ks) p v = took-IsPool ks (taken p k) (taken-IsPool p k v)

-- An offset in the `i`-th page of a run is translated to the same offset in the page behind it.
pub translates :
    (words : Words) (start v : ℕ) (ks : List ℕ) (i k o : ℕ)
    → start % 4096 ≡ 0
    → start + k * 4096 + 4096 ≤ 2 ^ 32
    → v % 4096 ≡ 0
    → v + i * 4096 < 0xffc00000
    → o < 4096
    → Backs words start v ks
    → get_elem? ks i ≡ some k
    → addr_v2p words (v + i * 4096 + o) ≡ start + k * 4096 + o
translates words start v ks i k o aligned fits va below small b e =
    let w = v + i * 4096 + o in
    let same : pte_ptr (v + i * 4096) ≡ pte_ptr w =
      omega (arith, pte_ptr_lem (v + i * 4096), pte_ptr_lem w) in
    let at =
      subst (λ a. words a ≡ entry (start + k * 4096)) same (Backs-at words start v ks i k b e) in
    addr_v2p-entry words w (start + k * 4096) (omega arith) fits at ∙ omega arith

pub get_elem?-lt : (ks : List ℕ) (i k : ℕ) → get_elem? ks i ≡ some k → i < length ks
get_elem?-lt [] i k e = cc
get_elem?-lt (x ∷ ks) zero k e = omega arith
get_elem?-lt (x ∷ ks) (suc i) k e = omega (arith, get_elem?-lt ks i k e)

-- The page behind the first address of a run.
pub first_page :
    (words : Words) (start va sz : ℕ) (ks : List ℕ)
    → 0 < length ks
    → start % 4096 ≡ 0
    → va % 4096 ≡ 0
    → start + sz * 4096 < 2 ^ 32
    → AllBelow sz ks
    → Backs words start va ks
    → (p : ℕ) × (addr_v2p words va ≡ p) × (p % 4096 ≡ 0) × (start ≤ p) × (p < start + sz * 4096)
first_page words start va sz [] pos hs hv fits inside b = absurd (omega arith)
first_page words start va sz (k ∷ ks) pos hs hv fits inside b =
    let p = start + k * 4096 in
    (
      p,
      addr_v2p-entry words va p (omega arith) (omega (arith, inside)) b.0 ∙ omega arith,
      omega arith,
      omega arith,
      omega (arith, inside),
    )
