-- ===== src/Memory/Tests.antt =====
-- The theorems on memory at a small memory of eight pages for the kernel.
use loong_os.Prelude.{
  ℕ, ◌+◌, ◌*◌, ◌≤◌, ◌<◌, ◌≡◌, refl, true, false, ◌&&◌, ◌||◌, none, some, List, [], ok, arith, ltb,
  leb, ◌==◌, if◌then◌else◌, inl, inr, Bool-cases, subst, length, get_elem?,
}
use loong_os.KernelList.Chain.{has, Distinct}
use loong_os.Bitmap.{Bitmap, bitmap_scan_test}
use loong_os.Bitmap.Scan.{Zeros}
use loong_os.Bitmap.Runs.{size}
use loong_os.Bitmap.Runs
use loong_os.Memory.Tables.{pte_ptr, pde_ptr, addr_v2p}
use loong_os.Memory.Pools.{Mem, PoolFlags, pf_kernel, get_kernel_pages, mfree_page}
use loong_os.Memory.Pools.Bitmaps.{frees, page_at}
use loong_os.Memory.Pools.Map.{among_ptes}
use loong_os.Memory.Pools.RoundTrip.{IsValid}
use loong_os.Memory.Pools.Return.{SameFree}
use loong_os.Memory.Pools.Grants.{get_kernel_pages_lem, mfree_page-get_kernel_pages}
use loong_os.Memory.Layout.{mem_pool_init}
use loong_os.Memory.Layout.Bounds.{mem_pool_init_lem, shared_pages, AllFree}
use loong_os.Memory.Heap.{Heap, sys_malloc}
use loong_os.Memory.Free.{sys_free}
use loong_os.Memory.Free.Whole.{sys_free-sys_malloc}

-- The first of eight is in use.
abbrev seven_free : Bitmap
seven_free = record { btmp_bytes_len = 1; bits = λ i. if i == 0 then 1 else 0 }

abbrev small : Mem
small = record {
  kernel_pool = record { pool_bitmap = seven_free; phy_addr_start = 0x200000; pool_size = 32768 };
  user_pool = record { pool_bitmap = seven_free; phy_addr_start = 0x300000; pool_size = 32768 };
  kernel_vaddr = record { vaddr_bitmap = seven_free; vaddr_start = 0xc0100000 };
  userprog_vaddr = record { vaddr_bitmap = seven_free; vaddr_start = 0x8048000 };
  has_pgdir = false;
  words = λ a. if leb 0xfffff000 a then 7 else 0;
}

seven_free-IsValid : Runs.IsValid seven_free
seven_free-IsValid = record { bytes = λ i. ground arith; small = omega arith }

small-IsValid : IsValid small
unfolding pde_ptr pte_ptr
small-IsValid = record {
  pool = record { bits = seven_free-IsValid; aligned = refl; fits = omega arith };
  above = omega arith;
  apart = omega arith;
  vbits = seven_free-IsValid;
  aligned = refl;
  below = omega arith;
  tables = λ i h. ground arith;
  unmapped = λ i h free. ground arith;
}

two-Zeros : Zeros seven_free 1 2
unfolding bitmap_scan_test
two-Zeros = λ j p q. elim (Bool-cases (j == 1)) [
  | inl e ↦ subst (λ k. bitmap_scan_test seven_free k ≡ false) {x = 1} (ground (arith, e)) refl
  | inr ne ↦
      subst (λ k. bitmap_scan_test seven_free k ≡ false) {x = 2} (ground (arith, ne, p, q)) refl
]

two_enough : 2 ≤ frees seven_free (size seven_free)
unfolding frees bitmap_scan_test
two_enough = omega arith

get_kernel_pages_example :
    (s : ℕ) × (ks : List ℕ) × (m₁ : Mem) × (get_kernel_pages 2 small
      ≡ ok (some (0xc0100000 + s * 4096), m₁))
    × (s + 2 ≤ 8)
    × Zeros seven_free s 2
    × ((i : ℕ)
        → bitmap_scan_test m₁.kernel_vaddr.vaddr_bitmap i
          ≡ (if leb s i && ltb i (s + 2) then true else bitmap_scan_test seven_free i))
    × (length ks ≡ 2)
    × Distinct ks
    × ((k : ℕ) → has k ks ≡ true → (k < 8) × (bitmap_scan_test seven_free k ≡ false))
    × ((k : ℕ)
        → bitmap_scan_test m₁.kernel_pool.pool_bitmap k
          ≡ (has k ks || bitmap_scan_test seven_free k))
    × ((i k o : ℕ)
        → get_elem? ks i ≡ some k
        → o < 4096
        → addr_v2p m₁.words (0xc0100000 + s * 4096 + i * 4096 + o)
          ≡ page_at small.kernel_pool k + o)
    × ((a : ℕ) → among_ptes (0xc0100000 + s * 4096) 2 a ≡ false → m₁.words a ≡ small.words a)
get_kernel_pages_example =
    get_kernel_pages_lem small 2 1 small-IsValid (omega arith) (omega arith) (omega arith) two-Zeros
      two_enough

mfree_page_example :
    (vaddr : ℕ) × (m₁ : Mem) × (m₂ : Mem) × (get_kernel_pages 2 small ≡ ok (some vaddr, m₁))
    × (mfree_page pf_kernel vaddr 2 m₁ ≡ ok m₂)
    × SameFree m₂ small
mfree_page_example =
    mfree_page-get_kernel_pages small 2 1 small-IsValid (omega arith) (omega arith) (omega arith)
      two-Zeros two_enough

abbrev no_arenas : Heap
no_arenas = record {
  mem = small;
  free_list = λ pf i. [];
  arena_desc = λ a. none;
  arena_cnt = λ a. 0;
  arena_large = λ a. false;
}

sys_free-sys_malloc_example :
    (a ptr : ℕ) × (h₁ : Heap) × (h₂ : Heap) × (sys_malloc 5000 no_arenas ≡ ok (some ptr, h₁))
    × (sys_free ptr h₁ ≡ ok h₂)
    × (0xc0100000 ≤ a)
    × (a + 12 ≤ ptr)
    × (ptr + 5000 ≤ a + 2 * 4096)
    × SameFree h₂.mem small
    × ((pf : PoolFlags) (i : ℕ) → h₂.free_list pf i ≡ [])
sys_free-sys_malloc_example =
    sys_free-sys_malloc no_arenas 5000 2 1 small-IsValid refl (omega arith) (omega arith)
      (omega arith) refl (omega arith) (omega arith) two-Zeros two_enough (inl (omega arith))

mem_pool_init_example :
    let l = mem_pool_init (λ a. 0) 0x2000000 in
    let kb = l.kernel_pool.pool_bitmap in
    let ub = l.user_pool.pool_bitmap in
    let vb = l.kernel_vaddr.vaddr_bitmap in
    (l.kernel_pool.pool_size + l.user_pool.pool_size ≡ shared_pages 0x2000000 * 4096)
    × (l.kernel_pool.phy_addr_start ≡ 0x200000)
    × (l.user_pool.phy_addr_start ≡ l.kernel_pool.phy_addr_start + l.kernel_pool.pool_size)
    × (l.user_pool.phy_addr_start + l.user_pool.pool_size ≤ 0x2000000)
    × (size kb * 4096 ≤ l.kernel_pool.pool_size)
    × (size ub * 4096 ≤ l.user_pool.pool_size)
    × (vb.btmp_bytes_len ≡ kb.btmp_bytes_len)
    × (l.kernel_bits ≡ 0xc009a000)
    × (l.kernel_bits + kb.btmp_bytes_len ≡ l.user_bits)
    × (l.user_bits + ub.btmp_bytes_len ≡ l.vaddr_bits)
    × (l.vaddr_bits + vb.btmp_bytes_len ≤ 0xc009e000)
    × AllFree kb
    × AllFree ub
    × AllFree vb
mem_pool_init_example = mem_pool_init_lem (λ a. 0) 0x2000000 (omega arith) (omega arith)
