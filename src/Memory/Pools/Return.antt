-- ===== src/Memory/Pools/Return.antt =====
-- `mfree_page` of a run that `malloc_page` granted.
use loong_os.Prelude.{
  ℕ, ◌+◌, ◌-◌, ◌*◌, ◌/◌, ◌%◌, ◌^◌, ◌≤◌, ◌<◌, ◌≡◌, refl, sym, ap, ◌∙◌, subst, true, false, some,
  List, ok, arith, ltb, leb, ◌==◌, u32, length, Bool-cases, inl, inr,
}
use loong_os.Bitmap.{bitmap_scan_test}
use loong_os.Bitmap.Scan.{Zeros}
use loong_os.Bitmap.Runs.{size}
use loong_os.Memory.Tables.{pte_ptr, is_present}
use loong_os.Memory.Tables.Translate.{pte_ptr_lem}
use loong_os.Memory.Pools.{Mem, pf_kernel, malloc_page, free_pages, vaddr_remove, mfree_page}
use loong_os.Memory.Pools.Bitmaps.{
  frees, run_written, run_written-IsValid, set_bits_lem, test-run_written,
}
use loong_os.Memory.Pools.Release.{
  AllBelow, free_pages_lem, gave, unlinked, test-gave, unlinked-other, unlinked-zero,
}
use loong_os.Memory.Pools.Map.{
  took, linked, Fresh, test-took, Fresh-free, Backs, among_ptes, linked-other, linked-Backs,
}
use loong_os.Memory.Pools.RoundTrip.{
  IsValid, got, malloc_page-got, get_kernel_pages-eq, len-took, start-took, took-IsPool,
  Fresh-AllBelow, first_page, run-Unmapped,
}

-- The same pages and addresses are free, and the same entries of the page tables are present.
pub record SameFree (m m' : Mem) : Type 0 where
  pub pages :
      (k : ℕ)
      → bitmap_scan_test m.kernel_pool.pool_bitmap k ≡ bitmap_scan_test m'.kernel_pool.pool_bitmap k
  pub addresses :
      (i : ℕ)
      → bitmap_scan_test m.kernel_vaddr.vaddr_bitmap i
        ≡ bitmap_scan_test m'.kernel_vaddr.vaddr_bitmap i
  pub entries :
      (u : ℕ)
      → u < 0xffc00000
      → is_present (m.words (pte_ptr u)) ≡ is_present (m'.words (pte_ptr u))

module _ (m : Mem) (n t : ℕ) (v : IsValid m) (pos : 0 < n) (few : n < 3840)
    (run : t + n ≤ size m.kernel_vaddr.vaddr_bitmap) (zeros : Zeros m.kernel_vaddr.vaddr_bitmap t n)
    (enough : n ≤ frees m.kernel_pool.pool_bitmap (size m.kernel_pool.pool_bitmap)) where
  mfree_page-got :
      (s : ℕ) (ks : List ℕ)
      → s + n ≤ size m.kernel_vaddr.vaddr_bitmap
      → length ks ≡ n
      → Fresh ks m.kernel_pool.pool_bitmap
      → let m₁ = got m n s ks in
        let va = m.kernel_vaddr.vaddr_start + s * 4096 in
        mfree_page pf_kernel va n m₁
        ≡ ok (record m₁ {
          kernel_pool = gave ks m₁.kernel_pool;
          kernel_vaddr = record m.kernel_vaddr {
            vaddr_bitmap = run_written n m₁.kernel_vaddr.vaddr_bitmap s false;
          };
          words = unlinked va n m₁.words;
        })
  unfolding mfree_page vaddr_remove
  mfree_page-got s ks inside many fresh =
      let pool = m.kernel_pool in
      let b = pool.pool_bitmap in
      let va = m.kernel_vaddr.vaddr_start + s * 4096 in
      let m₁ : Mem = got m n s ks in
      let start : m₁.kernel_pool.phy_addr_start ≡ pool.phy_addr_start = start-took ks pool in
      let len : size m₁.kernel_pool.pool_bitmap ≡ size b = len-took ks pool in
      let below : va + length ks * 4096 ≤ 0xffc00000 = omega (arith, v.below) in
      let within : AllBelow (size b) ks = Fresh-AllBelow ks b fresh in
      let backs : Backs m₁.words pool.phy_addr_start va ks =
        linked-Backs pool.phy_addr_start va ks m.words below in
      let backs₁ = subst (λ q. Backs m₁.words q va ks) (sym start) backs in
      let (p, phys, whole, from, to) =
        first_page m₁.words pool.phy_addr_start va (size b) ks (omega arith) v.pool.aligned
          (omega (arith, v.aligned)) v.pool.fits within backs in
      let freed =
        subst
          (λ l.
            free_pages l false va m₁
            ≡ ok (record m₁ {
              kernel_pool = gave ks m₁.kernel_pool;
              words = unlinked va l m₁.words;
            }))
          many
          (free_pages_lem ks va m₁ (took-IsPool ks pool v.pool) (omega (arith, start, len, v.apart))
            (omega (arith, v.aligned)) below (subst (λ l. AllBelow l ks) (sym len) within)
            backs₁) in
      let low : ltb 0 n ≡ true = ground arith in
      let aligned : (va % 4096 == 0) ≡ true = ground (arith, v.aligned) in
      let page : (p % 4096 == 0) ≡ true = ground arith in
      let high : leb 0x102000 p ≡ true = ground (arith, v.above) in
      let whose : leb m.user_pool.phy_addr_start p ≡ false = ground (arith, v.apart) in
      let index : u32 (va + 2 ^ 32 - m.kernel_vaddr.vaddr_start) / 4096 ≡ s =
        omega (arith, v.below) in
      rw
        (
          low,
          aligned,
          phys,
          page,
          high,
          whose,
          freed,
          index,
          set_bits_lem n (run_written n m.kernel_vaddr.vaddr_bitmap s true) s 0 (omega arith),
        )
        refl

  present_again :
      (s : ℕ) (ks : List ℕ)
      → s + n ≤ size m.kernel_vaddr.vaddr_bitmap
      → length ks ≡ n
      → (u : ℕ) → u < 0xffc00000
      → Zeros m.kernel_vaddr.vaddr_bitmap s n
      → let va = m.kernel_vaddr.vaddr_start + s * 4096 in
        is_present (unlinked va n (linked m.kernel_pool.phy_addr_start va ks m.words) (pte_ptr u))
        ≡ is_present (m.words (pte_ptr u))
  present_again s ks inside many u low z =
      let va = m.kernel_vaddr.vaddr_start + s * 4096 in
      let start = m.kernel_pool.phy_addr_start in
      let w = linked start va ks m.words in
      let below : va + n * 4096 ≤ 0xffc00000 = omega (arith, v.below) in
      let un = run-Unmapped m n t v pos few run zeros enough s inside z in
      elim (Bool-cases (among_ptes va n (pte_ptr u))) [
        | inl in_run ↦
            let i = (u - va) / 4096 in
            let small : i < n = ground (arith, in_run, pte_ptr_lem u, v.aligned) in
            let same : pte_ptr (va + i * 4096) ≡ pte_ptr u =
              ground (arith, in_run, pte_ptr_lem u, pte_ptr_lem (va + i * 4096), v.aligned) in
            let zero =
              subst (λ a. unlinked va n w a ≡ 0) same (unlinked-zero va n i w below small) in
            let free = subst (λ a. is_present (m.words a) ≡ false) same (un.free i small) in
            rw zero (sym free)
        | inr out ↦ ap is_present (
            unlinked-other va n w (pte_ptr u) below out
            ∙ linked-other start va ks m.words (pte_ptr u) (omega (arith, below, many))
                (subst (λ l. among_ptes va l (pte_ptr u) ≡ false) (sym many) out))
      ]

  -- A grant and its return, with the place of the grant.
  pub returned :
      (va : ℕ) × (m₁ : Mem) × (m₂ : Mem) × (malloc_page pf_kernel n m ≡ ok (some va, m₁))
      × (mfree_page pf_kernel va n m₁ ≡ ok m₂)
      × (va % 4096 ≡ 0)
      × (m.kernel_vaddr.vaddr_start ≤ va)
      × (va + n * 4096 ≤ 0xffc00000)
      × (m₁.has_pgdir ≡ m.has_pgdir)
      × SameFree m₂ m
  returned =
      let (s, ks, inside, z, many, fresh, e) = malloc_page-got m n t v pos few run zeros enough in
      let pool = m.kernel_pool in
      let vb = m.kernel_vaddr.vaddr_bitmap in
      let va = m.kernel_vaddr.vaddr_start + s * 4096 in
      let vb₁ = run_written n vb s true in
      let m₁ : Mem = got m n s ks in
      let m₂ : Mem = record m₁ {
        kernel_pool = gave ks m₁.kernel_pool;
        kernel_vaddr = record m.kernel_vaddr { vaddr_bitmap = run_written n vb₁ s false };
        words = unlinked va n m₁.words;
      } in
      (
        va,
        m₁,
        m₂,
        sym (get_kernel_pages-eq n m) ∙ e,
        mfree_page-got s ks inside many fresh,
        omega (arith, v.aligned),
        omega arith,
        omega (arith, v.below),
        refl,
        record {
          pages = λ k.
              test-gave ks (took ks pool) k (took-IsPool ks pool v.pool).bits
              ∙ ground (
                arith,
                test-took ks pool k v.pool.bits,
                Fresh-free ks pool.pool_bitmap k v.pool.bits fresh,
              );
          addresses = λ i.
              test-run_written n vb₁ s false i (run_written-IsValid n vb s true v.vbits)
              ∙ ground (arith, test-run_written n vb s true i v.vbits, z i);
          entries = λ u low. present_again s ks inside many u low z;
        },
      )
