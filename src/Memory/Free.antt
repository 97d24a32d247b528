-- ===== src/Memory/Free.antt =====
-- `sys_free`: a block goes back to its free list, and an arena that is free again to its pool.
pub mod RoundTrip
pub mod Whole
use loong_os.Prelude.{
  ℕ, zero, suc, ◌+◌, Bool, true, false, not, ◌&&◌, ◌||◌, Option, none, some, List, [], ◌∷◌, ◌++◌,
  Outcome, ok, panic, fault, ◌>>=◌, ◌>>◌, assert, leb, ◌==◌, if◌then◌else◌, u32,
}
use loong_os.KernelList.Chain.{has}
use loong_os.Memory.Pools.{PoolFlags, pf_kernel, pf_user, mfree_page}
use loong_os.Memory.Layout.{k_heap_start}
use loong_os.Memory.Heap.{
  Desc, Heap, set_free_list, set_cnt, block_size, block_per_arena, arena2block, block2arena,
  running_pool,
}

-- `list_remove` of the element `b`.
pub remove_block : ℕ → List ℕ → List ℕ
remove_block b [] = []
remove_block b (x ∷ xs) = if b == x then xs else x ∷ remove_block b xs

-- The loop that takes the blocks of an arena out of the free list.
pub remove_blocks : ℕ → ℕ → ℕ → ℕ → List ℕ → Outcome (List ℕ)
unfolding remove_block
remove_blocks zero a size index blocks = ok blocks
remove_blocks (suc left) a size index blocks = do
  let b = arena2block a size index
  assert (has b blocks)
  remove_blocks left a size (index + 1) (remove_block b blocks)

-- `mfree_page` on the memory of the heap.
abbrev pub free_arena : PoolFlags → ℕ → ℕ → Heap → Outcome Heap
free_arena pf a pg_cnt h = do mem' ← mfree_page pf a pg_cnt h.mem; ok (record h { mem = mem' })

pub free_block : PoolFlags → Desc → ℕ → Heap → Outcome Heap
unfolding remove_blocks
free_block pf d b h = do
  let a = block2arena b
  let blocks = h.free_list d.pf d.index
  let cnt = u32 (h.arena_cnt a + 1)
  let h' = set_cnt a cnt (set_free_list d (blocks ++ (b ∷ [])) h)
  let whole = (do
    left ← remove_blocks (block_per_arena d.index) a (block_size d.index) 0 (blocks ++ (b ∷ []))
    free_arena pf a 1 (set_free_list d left h'))
  let back = if cnt == block_per_arena d.index then whole else ok h'
  if has b blocks then fault else back

-- A kernel thread frees only addresses of the kernel's heap.
abbrev may_free : PoolFlags → ℕ → Bool
may_free pf_kernel ptr = leb k_heap_start ptr
may_free pf_user ptr = true

pub sys_free : ℕ → Heap → Outcome Heap
unfolding free_block
sys_free ptr h = do
  assert (not (ptr == 0))
  let pf = running_pool h
  assert (may_free pf ptr)
  let a = block2arena ptr
  elim (h.arena_desc a) [
    | none ↦ if h.arena_large a then free_arena pf a (h.arena_cnt a) h else fault
    | some d ↦ free_block pf d ptr h
  ]
