-- ===== src/Memory/Pools/Grants.antt =====
-- The two theorems on kernel pages: what a grant is, and that it can be given back.
use loong_os.Prelude.{
  ℕ, ◌+◌, ◌*◌, ◌≤◌, ◌<◌, ◌≡◌, sym, ◌∙◌, subst, true, false, ◌&&◌, ◌||◌, some, List, ok, arith, ltb,
  leb, if◌then◌else◌, length, get_elem?,
}
use loong_os.KernelList.Chain.{has, Distinct}
use loong_os.Bitmap.{bitmap_scan_test}
use loong_os.Bitmap.Scan.{Zeros}
use loong_os.Bitmap.Runs.{size}
use loong_os.Memory.Tables.{addr_v2p}
use loong_os.Memory.Pools.{Mem, pf_kernel, get_kernel_pages, mfree_page}
use loong_os.Memory.Pools.Bitmaps.{page_at, frees, test-run_written}
use loong_os.Memory.Pools.Map.{
  linked, test-took, Fresh-free, Fresh-Distinct, among_ptes, linked-other, linked-Backs,
}
use loong_os.Memory.Pools.RoundTrip.{
  IsValid, got, malloc_page-got, get_kernel_pages-eq, has-get_elem?, get_elem?-lt, translates,
}
use loong_os.Memory.Pools.Return.{SameFree, returned}

module _ (m : Mem) (n t : ℕ) (v : IsValid m) (pos : 0 < n) (few : n < 3840)
    (run : t + n ≤ size m.kernel_vaddr.vaddr_bitmap) (zeros : Zeros m.kernel_vaddr.vaddr_bitmap t n)
    (enough : n ≤ frees m.kernel_pool.pool_bitmap (size m.kernel_pool.pool_bitmap)) where
  -- When the kernel's heap has a run of `n` free addresses, the kernel's pool `n` free pages and `n`
  -- is from 1 to 3839, `get_kernel_pages` returns the start of such a run and marks just its
  -- addresses as used. It takes `n` different pages that were free from the pool, and no other
  -- changes; every address in the run is translated to the same offset in the page that its number
  -- in the run says, and no word of the page tables outside the run's entries is changed.
  pub get_kernel_pages_lem :
      (s : ℕ) × (ks : List ℕ) × (m₁ : Mem) × (get_kernel_pages n m
        ≡ ok (some (m.kernel_vaddr.vaddr_start + s * 4096), m₁))
      × (s + n ≤ size m.kernel_vaddr.vaddr_bitmap)
      × Zeros m.kernel_vaddr.vaddr_bitmap s n
      × ((i : ℕ)
          → bitmap_scan_test m₁.kernel_vaddr.vaddr_bitmap i ≡ (
              if leb s i && ltb i (s + n)
              then true
              else bitmap_scan_test m.kernel_vaddr.vaddr_bitmap i))
      × (length ks ≡ n)
      × Distinct ks
      × ((k : ℕ)
          → has k ks ≡ true
          → (k < size m.kernel_pool.pool_bitmap)
            × (bitmap_scan_test m.kernel_pool.pool_bitmap k ≡ false))
      × ((k : ℕ)
          → bitmap_scan_test m₁.kernel_pool.pool_bitmap k
            ≡ (has k ks || bitmap_scan_test m.kernel_pool.pool_bitmap k))
      × ((i k o : ℕ)
          → get_elem? ks i ≡ some k
          → o < 4096
          → addr_v2p m₁.words (m.kernel_vaddr.vaddr_start + s * 4096 + i * 4096 + o)
            ≡ page_at m.kernel_pool k + o)
      × ((a : ℕ)
          → among_ptes (m.kernel_vaddr.vaddr_start + s * 4096) n a ≡ false
          → m₁.words a ≡ m.words a)
  get_kernel_pages_lem =
      let (s, ks, inside, z, many, fresh, e) = malloc_page-got m n t v pos few run zeros enough in
      let start = m.kernel_pool.phy_addr_start in
      let va = m.kernel_vaddr.vaddr_start + s * 4096 in
      let b = m.kernel_pool.pool_bitmap in
      let below : va + length ks * 4096 ≤ 0xffc00000 = omega (arith, v.below) in
      (
        s,
        ks,
        got m n s ks,
        e,
        inside,
        z,
        (λ i. test-run_written n m.kernel_vaddr.vaddr_bitmap s true i v.vbits),
        many,
        Fresh-Distinct ks b v.pool.bits fresh,
        (λ k h. Fresh-free ks b k v.pool.bits fresh h),
        (λ k. test-took ks m.kernel_pool k v.pool.bits),
        (λ i k o at small.
            let (inside_pool, _) = Fresh-free ks b k v.pool.bits fresh (has-get_elem? ks i k at) in
            let near = get_elem?-lt ks i k at in
            translates (linked start va ks m.words) start va ks i k o v.pool.aligned
              (omega (arith, v.pool.fits)) (omega (arith, v.aligned)) (omega arith) small
              (linked-Backs start va ks m.words below) at),
        (λ a out.
            linked-other start va ks m.words a below
              (subst (λ l. among_ptes va l a ≡ false) (sym many) out)),
      )

  -- Under the same conditions `mfree_page` of what `get_kernel_pages` returned succeeds, and leaves
  -- every page of the kernel's pool and every address of the kernel's heap as free as it was before
  -- both calls, and an entry of a page table present just if it was.
  pub mfree_page-get_kernel_pages :
      (vaddr : ℕ) × (m₁ : Mem) × (m₂ : Mem) × (get_kernel_pages n m ≡ ok (some vaddr, m₁))
      × (mfree_page pf_kernel vaddr n m₁ ≡ ok m₂)
      × SameFree m₂ m
  mfree_page-get_kernel_pages =
      let (va, m₁, m₂, e, freed, _, _, _, _, same) = returned m n t v pos few run zeros enough in
      (va, m₁, m₂, get_kernel_pages-eq n m ∙ e, freed, same)
