-- ===== src/Memory/Layout.antt =====
-- `mem_pool_init` and `block_desc_init`: how the memory is divided.
-- The three bitmaps stand one behind another from `MEM_BITMAP_BASE` on. `low` is what that memory
-- held before; the addresses of the bitmaps' bits are part of the result.
pub mod Bounds
use loong_os.Prelude.{ℕ, zero, suc, ◌+◌, ◌-◌, ◌*◌, ◌/◌, ◌%◌, ◌^◌, List, [], ◌∷◌, u32, u16}
use loong_os.Bitmap.{Bitmap, bitmap_init}
use loong_os.Memory.Tables.{pg_size}
use loong_os.Memory.Pools.{Pool, VirtualAddr}

abbrev pub mem_bitmap_base : ℕ
mem_bitmap_base = 0xc009a000

abbrev pub k_heap_start : ℕ
k_heap_start = 0xc0100000

pub record Layout : Type 0 where
  pub kernel_pool : Pool
  pub user_pool : Pool
  pub kernel_vaddr : VirtualAddr
  pub kernel_bits : ℕ
  pub user_bits : ℕ
  pub vaddr_bits : ℕ

abbrev bitmap_at : (ℕ → ℕ) → ℕ → ℕ → Bitmap
bitmap_at low bits len = bitmap_init (record { btmp_bytes_len = len; bits = λ i. low (bits + i) })

pub mem_pool_init : (ℕ → ℕ) → ℕ → Layout
mem_pool_init low all_mem =
    let page_table_size = pg_size * 256 in
    let used_mem = page_table_size + 0x100000 in
    let free_mem = u32 (all_mem + 2 ^ 32 - used_mem) in
    let all_free_pages = u16 (free_mem / pg_size) in
    let kernel_free_pages = all_free_pages / 2 in
    let user_free_pages = all_free_pages - kernel_free_pages in
    let kbm_length = kernel_free_pages / 8 in
    let ubm_length = user_free_pages / 8 in
    let kp_start = used_mem in
    let up_start = u32 (kp_start + kernel_free_pages * pg_size) in
    let user_bits = mem_bitmap_base + kbm_length in
    let vaddr_bits = mem_bitmap_base + kbm_length + ubm_length in
    record {
      kernel_pool = record {
        pool_bitmap = bitmap_at low mem_bitmap_base kbm_length;
        phy_addr_start = kp_start;
        pool_size = u32 (kernel_free_pages * pg_size);
      };
      user_pool = record {
        pool_bitmap = bitmap_at low user_bits ubm_length;
        phy_addr_start = up_start;
        pool_size = u32 (user_free_pages * pg_size);
      };
      kernel_vaddr = record {
        vaddr_bitmap = bitmap_at low vaddr_bits kbm_length;
        vaddr_start = k_heap_start;
      };
      kernel_bits = mem_bitmap_base;
      user_bits = user_bits;
      vaddr_bits = vaddr_bits;
    }

-- `sizeof(struct arena)`: a pointer, a counter and a `bool`, which is an `int`.
abbrev pub arena_size : ℕ
arena_size = 12

abbrev pub desc_cnt : ℕ
desc_cnt = 7

-- `struct mem_block_desc`, without its list.
pub record BlockDesc : Type 0 where
  pub block_size : ℕ
  pub block_per_arena : ℕ

abbrev block_desc : ℕ → BlockDesc
block_desc size = record { block_size = size; block_per_arena = (pg_size - arena_size) / size }

-- The loop of `block_desc_init`, with `left` descriptors to go.
unfoldable pub block_descs_from : ℕ → ℕ → List BlockDesc
block_descs_from zero size = []
block_descs_from (suc left) size = block_desc size ∷ block_descs_from left (u16 (size * 2))

unfoldable pub block_desc_init : List BlockDesc
unfolding block_descs_from
block_desc_init = block_descs_from desc_cnt 16
