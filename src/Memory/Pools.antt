-- ===== src/Memory/Pools.antt =====
-- The pools of physical pages and of virtual addresses, and the routines that take pages from them
-- and give them back.
pub mod Bitmaps
pub mod Map
pub mod Release
pub mod RoundTrip
pub mod Return
pub mod Grants
use loong_os.Prelude.{
  ℕ, zero, suc, ◌+◌, ◌-◌, ◌*◌, ◌/◌, ◌%◌, ◌^◌, Bool, true, false, not, ◌&&◌, ◌||◌, Option, none,
  some, Outcome, ok, panic, ◌>>=◌, ◌>>◌, assert, ltb, leb, ◌==◌, if◌then◌else◌, u32,
}
use loong_os.Bitmap.{Bitmap, bitmap_scan, bitmap_set}
use loong_os.Memory.Tables.{
  pg_size, Words, set_word, pte_ptr, pde_ptr, is_present, entry, addr_v2p, page_table_pte_remove,
  clear_table,
}

-- `enum pool_flags`
pub data PoolFlags : Type 0 where
  pf_kernel pf_user : PoolFlags

-- `struct pool`
pub record Pool : Type 0 where
  pub pool_bitmap : Bitmap
  pub phy_addr_start : ℕ
  pub pool_size : ℕ

-- `struct virtual_addr`
pub record VirtualAddr : Type 0 where
  pub vaddr_bitmap : Bitmap
  pub vaddr_start : ℕ

-- `userprog_vaddr` and `has_pgdir` (`pgdir != NULL`) are those of the running thread.
pub record Mem : Type 0 where
  pub kernel_pool : Pool
  pub user_pool : Pool
  pub kernel_vaddr : VirtualAddr
  pub userprog_vaddr : VirtualAddr
  pub has_pgdir : Bool
  pub words : Words

abbrev pub pool_of : PoolFlags → Mem → Pool
pool_of pf_kernel m = m.kernel_pool
pool_of pf_user m = m.user_pool

abbrev pub set_pool : PoolFlags → Pool → Mem → Mem
set_pool pf_kernel p m = record m { kernel_pool = p }
set_pool pf_user p m = record m { user_pool = p }

abbrev pub vaddr_of : PoolFlags → Mem → VirtualAddr
vaddr_of pf_kernel m = m.kernel_vaddr
vaddr_of pf_user m = m.userprog_vaddr

abbrev pub set_vaddr_bits : PoolFlags → Bitmap → Mem → Mem
set_vaddr_bits pf_kernel b m = record m {
  kernel_vaddr = record m.kernel_vaddr { vaddr_bitmap = b };
}
set_vaddr_bits pf_user b m = record m {
  userprog_vaddr = record m.userprog_vaddr { vaddr_bitmap = b };
}

-- The loops over `bitmap_set`: `left` bits from `bit_idx` on.
pub set_bits : ℕ → Bitmap → ℕ → ℕ → Outcome Bitmap
set_bits zero btmp bit_idx value = ok btmp
set_bits (suc left) btmp bit_idx value = do
  btmp' ← bitmap_set btmp bit_idx value
  set_bits left btmp' (bit_idx + 1) value

-- Only a user's address is tested against the stack that is reserved below 0xc0000000.
abbrev below_stack : PoolFlags → ℕ → Bool
below_stack pf_kernel vaddr_start = true
below_stack pf_user vaddr_start = ltb vaddr_start (0xc0000000 - pg_size)

pub vaddr_get : PoolFlags → ℕ → Mem → Outcome (Option ℕ × Mem)
unfolding set_bits
vaddr_get pf pg_cnt m = do
  let va = vaddr_of pf m
  let take = λ (bit_idx_start : ℕ). (do
    btmp ← set_bits pg_cnt va.vaddr_bitmap bit_idx_start 1
    let vaddr_start = u32 (va.vaddr_start + bit_idx_start * pg_size)
    assert (below_stack pf vaddr_start)
    ok (some vaddr_start, set_vaddr_bits pf btmp m))
  found ← bitmap_scan va.vaddr_bitmap pg_cnt
  elim found [ none ↦ ok (none, m) | some bit_idx_start ↦ take bit_idx_start ]

pub palloc : Pool → Outcome (Option ℕ × Pool)
palloc m_pool = do
  found ← bitmap_scan m_pool.pool_bitmap 1
  elim found [
    | none ↦ ok (none, m_pool)
    | some bit_idx ↦ (do
      btmp ← bitmap_set m_pool.pool_bitmap bit_idx 1
      ok (
        some (u32 (bit_idx * pg_size + m_pool.phy_addr_start)),
        record m_pool { pool_bitmap = btmp },
      ))
  ]

-- `(uint32_t) palloc(...)`: NULL is 0.
abbrev null_or : Option ℕ → ℕ
null_or none = 0
null_or (some addr) = addr

pub page_table_add : ℕ → ℕ → Mem → Outcome Mem
unfolding palloc
page_table_add vaddr page_phyaddr m = do
  let pde = pde_ptr vaddr
  let pte = pte_ptr vaddr
  let map = λ (m' : Mem). (do
    assert (not (is_present (m'.words pte)))
    ok (record m' { words = set_word pte (entry page_phyaddr) m'.words }))
  let create = (do
    (found, pool') ← palloc m.kernel_pool
    let words = set_word pde (entry (null_or found)) m.words
    map (record m { kernel_pool = pool'; words = clear_table pte words }))
  if is_present (m.words pde) then map m else create

-- The loop of `malloc_page`: whether every page was found.
pub map_pages : ℕ → PoolFlags → ℕ → Mem → Outcome (Bool × Mem)
unfolding page_table_add palloc
map_pages zero pf vaddr m = ok (true, m)
map_pages (suc cnt) pf vaddr m = do
  (found, pool') ← palloc (pool_of pf m)
  let m' = set_pool pf pool' m
  elim found [
    | none ↦ ok (false, m')
    | some page_phyaddr ↦ (do
      m'' ← page_table_add vaddr page_phyaddr m'
      map_pages cnt pf (u32 (vaddr + pg_size)) m'')
  ]

pub malloc_page : PoolFlags → ℕ → Mem → Outcome (Option ℕ × Mem)
unfolding vaddr_get map_pages
malloc_page pf pg_cnt m = do
  assert (ltb 0 pg_cnt && ltb pg_cnt 3840)
  (start, m₁) ← vaddr_get pf pg_cnt m
  elim start [
    | none ↦ ok (none, m₁)
    | some vaddr_start ↦ (do
      (all, m₂) ← map_pages pg_cnt pf vaddr_start m₁
      ok (if all then some vaddr_start else none, m₂))
  ]

pub get_kernel_pages : ℕ → Mem → Outcome (Option ℕ × Mem)
get_kernel_pages pg_cnt m = malloc_page pf_kernel pg_cnt m

pub get_user_pages : ℕ → Mem → Outcome (Option ℕ × Mem)
get_user_pages pg_cnt m = malloc_page pf_user pg_cnt m

pub get_a_page_without_opvaddrbitmap : PoolFlags → ℕ → Mem → Outcome (Option ℕ × Mem)
unfolding palloc page_table_add
get_a_page_without_opvaddrbitmap pf vaddr m = do
  (found, pool') ← palloc (pool_of pf m)
  let m' = set_pool pf pool' m
  elim found [
    | none ↦ ok (none, m')
    | some page_phyaddr ↦ (do m'' ← page_table_add vaddr page_phyaddr m'; ok (some vaddr, m''))
  ]

-- A thread with a page directory may ask for a user page, and one without for a kernel page.
abbrev is_allowed : PoolFlags → Bool → Bool
is_allowed pf_kernel has_pgdir = not has_pgdir
is_allowed pf_user has_pgdir = has_pgdir

-- `bit_idx` is an `int32_t`: `bit_idx > 0`.
pub get_a_page : PoolFlags → ℕ → Mem → Outcome (Option ℕ × Mem)
unfolding get_a_page_without_opvaddrbitmap
get_a_page pf vaddr m = do
  let va = vaddr_of pf m
  assert (is_allowed pf m.has_pgdir)
  let bit_idx = u32 (vaddr + 2 ^ 32 - va.vaddr_start) / pg_size
  assert (ltb 0 bit_idx)
  btmp ← bitmap_set va.vaddr_bitmap bit_idx 1
  get_a_page_without_opvaddrbitmap pf vaddr (set_vaddr_bits pf btmp m)

pub pfree : ℕ → Mem → Outcome Mem
pfree pg_phy_addr m = do
  let pf = if leb m.user_pool.phy_addr_start pg_phy_addr then pf_user else pf_kernel
  let mem_pool = pool_of pf m
  let index = u32 (pg_phy_addr + 2 ^ 32 - mem_pool.phy_addr_start) / pg_size
  btmp ← bitmap_set mem_pool.pool_bitmap index 0
  ok (set_pool pf (record mem_pool { pool_bitmap = btmp }) m)

pub vaddr_remove : PoolFlags → ℕ → ℕ → Mem → Outcome Mem
unfolding set_bits
vaddr_remove pf vaddr pg_cnt m = do
  let va = vaddr_of pf m
  let bit_start_index = u32 (vaddr + 2 ^ 32 - va.vaddr_start) / pg_size
  btmp ← set_bits pg_cnt va.vaddr_bitmap bit_start_index 0
  ok (set_vaddr_bits pf btmp m)

-- The ASSERT of the loops of `mfree_page`, for the pool that the first page is from.
abbrev in_pool : Bool → ℕ → Mem → Bool
in_pool true phy_addr m = leb m.user_pool.phy_addr_start phy_addr
in_pool false phy_addr m =
    leb m.kernel_pool.phy_addr_start phy_addr && ltb phy_addr m.user_pool.phy_addr_start

pub free_pages : ℕ → Bool → ℕ → Mem → Outcome Mem
unfolding pfree
free_pages zero from_user vaddr m = ok m
free_pages (suc left) from_user vaddr m = do
  let phy_addr = addr_v2p m.words vaddr
  assert ((phy_addr % pg_size == 0) && in_pool from_user phy_addr m)
  m' ← pfree phy_addr m
  let m'' = record m' { words = page_table_pte_remove vaddr m'.words }
  free_pages left from_user (u32 (vaddr + pg_size)) m''

pub mfree_page : PoolFlags → ℕ → ℕ → Mem → Outcome Mem
unfolding free_pages vaddr_remove
mfree_page pf vaddr pg_cnt m = do
  assert (ltb 0 pg_cnt && (vaddr % pg_size == 0))
  let phy_addr = addr_v2p m.words vaddr
  assert ((phy_addr % pg_size == 0) && leb 0x102000 phy_addr)
  m' ← free_pages pg_cnt (leb m.user_pool.phy_addr_start phy_addr) vaddr m
  vaddr_remove pf vaddr pg_cnt m'
