-- ===== src/Memory/Heap.antt =====
-- `sys_malloc` and `sys_free`: arenas of blocks of one size, and large ones of whole pages.
-- An arena is the address of its page, and the fields of its `struct arena` are functions of that
-- address. A descriptor is a pool and an index into its seven descriptors, and its free list is the
-- sequence of addresses of blocks that KernelList proves a list to hold; to append a block that the
-- list holds already would tie the list in a knot, and is a `fault`.
pub mod Blocks
use loong_os.Prelude.{
  ℕ, zero, suc, ◌+◌, ◌-◌, ◌*◌, ◌/◌, ◌%◌, ◌^◌, Bool, true, false, not, ◌&&◌, ◌||◌, Option, none,
  some, List, [], ◌∷◌, ◌++◌, Outcome, ok, panic, fault, ◌>>=◌, ◌>>◌, assert, ltb, leb, ◌==◌,
  if◌then◌else◌, u32, get_or,
}
use loong_os.KernelList.Chain.{has}
use loong_os.Memory.Tables.{pg_size}
use loong_os.Memory.Pools.{PoolFlags, pf_kernel, pf_user, Mem, pool_of, malloc_page, mfree_page}
use loong_os.Memory.Layout.{k_heap_start, arena_size, desc_cnt, BlockDesc, block_desc_init}

pub record Desc : Type 0 where
  pub pf : PoolFlags
  pub index : ℕ

abbrev pub same_pool : PoolFlags → PoolFlags → Bool
same_pool pf_kernel pf_kernel = true
same_pool pf_user pf_user = true
same_pool _ _ = false

pub record Heap : Type 0 where
  pub mem : Mem
  pub free_list : PoolFlags → ℕ → List ℕ
  pub arena_desc : ℕ → Option Desc
  pub arena_cnt : ℕ → ℕ
  pub arena_large : ℕ → Bool

abbrev pub set_free_list : Desc → List ℕ → Heap → Heap
set_free_list d blocks h = record h {
  free_list = λ pf i. if same_pool pf d.pf && (i == d.index) then blocks else h.free_list pf i;
}

abbrev pub set_cnt : ℕ → ℕ → Heap → Heap
set_cnt a cnt h = record h { arena_cnt = λ b. if b == a then cnt else h.arena_cnt b }

abbrev pub set_arena : ℕ → Option Desc → ℕ → Bool → Heap → Heap
set_arena a desc cnt large h = record h {
  arena_desc = λ b. if b == a then desc else h.arena_desc b;
  arena_cnt = λ b. if b == a then cnt else h.arena_cnt b;
  arena_large = λ b. if b == a then large else h.arena_large b;
}

abbrev pub no_desc : BlockDesc
no_desc = record { block_size = 0; block_per_arena = 0 }

-- `descs[index].block_size` and `descs[index].block_per_arena`
abbrev pub block_size : ℕ → ℕ
block_size index = (get_or block_desc_init index no_desc).block_size

abbrev pub block_per_arena : ℕ → ℕ
block_per_arena index = (get_or block_desc_init index no_desc).block_per_arena

unfoldable pub arena2block : ℕ → ℕ → ℕ → ℕ
arena2block a size index = u32 (a + arena_size + index * size)

unfoldable pub block2arena : ℕ → ℕ
block2arena b = b / 4096 * 4096

-- The loop that looks for the descriptor: `left` of them from `index` on.
pub find_desc : ℕ → ℕ → ℕ → ℕ
find_desc zero size index = index
find_desc (suc left) size index =
    let rest = find_desc left size (index + 1) in
    if leb size (block_size index) then index else rest

-- The loop that adds the blocks of a new arena to the free list.
pub split_arena : ℕ → ℕ → ℕ → ℕ → List ℕ → Outcome (List ℕ)
split_arena zero a size block_index blocks = ok blocks
split_arena (suc left) a size block_index blocks = do
  let b = arena2block a size block_index
  assert (not (has b blocks))
  split_arena left a size (block_index + 1) (blocks ++ (b ∷ []))

abbrev pub is_empty : List ℕ → Bool
is_empty [] = true
is_empty (x ∷ xs) = false

-- A new arena at the page `a`, all of its blocks in the free list.
unfoldable pub fill_arena : Desc → ℕ → Heap → Outcome Heap
unfolding split_arena
fill_arena d a h = do
  let h' = set_arena a (some d) (block_per_arena d.index) false h
  blocks ←
      split_arena (block_per_arena d.index) a (block_size d.index) 0 (h'.free_list d.pf d.index)
  ok (set_free_list d blocks h')

-- A free list with a block in it, made from a new page if it has none; `false` if there is no page.
unfoldable pub refill : Desc → Heap → Outcome (Bool × Heap)
unfolding fill_arena
refill d h =
    let new : Outcome (Bool × Heap) = (do
      (page, mem') ← malloc_page d.pf 1 h.mem
      let h' = record h { mem = mem' }
      elim page [
        | none ↦ ok (false, h')
        | some a ↦ (do h'' ← fill_arena d a h'; ok (true, h''))
      ]) in
    if is_empty (h.free_list d.pf d.index) then new else ok (true, h)

-- `list_pop` of the free list; from an empty list it would take the list's tail, a `fault`.
unfoldable pub take_block : Desc → Heap → Outcome (ℕ × Heap)
take_block d h = elim (h.free_list d.pf d.index) [
  | [] ↦ fault
  | b ∷ rest ↦
      let h' = set_free_list d rest h in
      let a = block2arena b in ok (b, set_cnt a (u32 (h'.arena_cnt a + 2 ^ 32 - 1)) h')
]

abbrev pub running_pool : Heap → PoolFlags
running_pool h = if h.mem.has_pgdir then pf_user else pf_kernel

-- A large arena of `page_cnt` pages.
unfoldable pub malloc_arena : PoolFlags → ℕ → Heap → Outcome (Option ℕ × Heap)
malloc_arena pf page_cnt h = do
  (page, mem') ← malloc_page pf page_cnt h.mem
  let h' = record h { mem = mem' }
  elim page [
    | none ↦ ok (none, h')
    | some a ↦ ok (some (u32 (a + arena_size)), set_arena a none page_cnt true h')
  ]

unfoldable pub sys_malloc_large : PoolFlags → ℕ → Heap → Outcome (Option ℕ × Heap)
unfolding malloc_arena
sys_malloc_large pf size h = malloc_arena pf (u32 (size + arena_size + pg_size - 1) / pg_size) h

unfoldable pub sys_malloc_block : PoolFlags → ℕ → Heap → Outcome (Option ℕ × Heap)
unfolding find_desc refill take_block
sys_malloc_block pf size h = do
  let d : Desc = record { pf = pf; index = find_desc desc_cnt size 0 }
  (filled, h') ← refill d h
  let taken = (do (b, h'') ← take_block d h'; ok (some b, h''))
  if filled then taken else ok (none, h')

unfoldable pub sys_malloc : ℕ → Heap → Outcome (Option ℕ × Heap)
unfolding sys_malloc_large sys_malloc_block
sys_malloc size h =
    let pf = running_pool h in
    if not (ltb 0 size && ltb size (pool_of pf h.mem).pool_size)
    then ok (none, h)
    else if ltb 1024 size
    then sys_malloc_large pf size h
    else sys_malloc_block pf size h
