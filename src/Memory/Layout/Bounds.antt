-- ===== src/Memory/Layout/Bounds.antt =====
-- The pools and their bitmaps fit into the memory and into the place reserved for them.
use loong_os.Prelude.{ℕ, ◌+◌, ◌-◌, ◌*◌, ◌/◌, ◌%◌, ◌^◌, ◌≤◌, ◌<◌, ◌≡◌, refl, ◌∙◌, false, arith}
use loong_os.Bitmap.{Bitmap, bitmap_init, bitmap_scan_test}
use loong_os.Bitmap.Bits.{test-bitmap_init}
use loong_os.Bitmap.Runs.{size}
use loong_os.Memory.Layout.{mem_pool_init}

-- The pages that are shared out: their number is kept in 16 bits.
abbrev pub shared_pages : ℕ → ℕ
shared_pages all_mem = (all_mem - 0x200000) / 4096 % 2 ^ 16

abbrev pub AllFree : Bitmap → Type 0
AllFree b = (j : ℕ) → j < size b → bitmap_scan_test b j ≡ false

init-AllFree : (b : Bitmap) → AllFree (bitmap_init b)
unfolding bitmap_init
init-AllFree b j h = test-bitmap_init b j ∙ ground (arith, h)

-- For a memory of at least 2 MB, the pools share the pages above 2 MB, as many as 16 bits can
-- count: the kernel's stand from 2 MB on, the user's behind them, and both lie inside the memory.
-- Each page that a bitmap has a bit for is one of its pool, and all are free; the kernel's heap has
-- as many addresses as its pool has bits. The three bitmaps stand one behind the other in the 16 KB
-- from 0xc009a000 on.
pub mem_pool_init_lem :
    (low : ℕ → ℕ) (all_mem : ℕ)
    → 0x200000 ≤ all_mem
    → all_mem < 2 ^ 32
    → let l = mem_pool_init low all_mem in
      let kb = l.kernel_pool.pool_bitmap in
      let ub = l.user_pool.pool_bitmap in
      let vb = l.kernel_vaddr.vaddr_bitmap in
      (l.kernel_pool.pool_size + l.user_pool.pool_size ≡ shared_pages all_mem * 4096)
      × (l.kernel_pool.phy_addr_start ≡ 0x200000)
      × (l.user_pool.phy_addr_start ≡ l.kernel_pool.phy_addr_start + l.kernel_pool.pool_size)
      × (l.user_pool.phy_addr_start + l.user_pool.pool_size ≤ all_mem)
      × (size kb * 4096 ≤ l.kernel_pool.pool_size)
      × (size ub * 4096 ≤ l.user_pool.pool_size)
      × (vb.btmp_bytes_len ≡ kb.btmp_bytes_len)
      × (l.kernel_bits ≡ 0xc009a000)
      × (l.kernel_bits + kb.btmp_bytes_len ≡ l.user_bits)
      × (l.user_bits + ub.btmp_bytes_len ≡ l.vaddr_bits)
      × (l.vaddr_bits + vb.btmp_bytes_len ≤ 0xc009e000)
      × AllFree kb
      × AllFree ub
      × AllFree vb
unfolding mem_pool_init bitmap_init
mem_pool_init_lem low all_mem enough small = (
  omega arith,
  omega arith,
  omega arith,
  omega arith,
  omega arith,
  omega arith,
  refl,
  refl,
  refl,
  refl,
  omega arith,
  init-AllFree _,
  init-AllFree _,
  init-AllFree _,
)
