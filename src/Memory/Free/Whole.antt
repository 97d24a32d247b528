-- ===== src/Memory/Free/Whole.antt =====
-- The theorem on `sys_malloc` and `sys_free` together, for requests of both kinds.
use loong_os.Prelude.{
  ℕ, suc, ◌+◌, ◌-◌, ◌*◌, ◌/◌, ◌≤◌, ◌<◌, ◌≡◌, refl, sym, ap, ◌∙◌, subst, Bool, true, false, not,
  ◌&&◌, Option, none, some, [], Outcome, ok, arith, ltb, if◌then◌else◌, Bool-cases, inl, inr, ◌⊎◌,
}
use loong_os.Bitmap.Scan.{Zeros}
use loong_os.Bitmap.Runs.{size}
use loong_os.Memory.Pools.{PoolFlags, pf_kernel, pool_of}
use loong_os.Memory.Pools.Bitmaps.{frees}
use loong_os.Memory.Pools.RoundTrip.{IsValid}
use loong_os.Memory.Pools.Return.{SameFree, returned}
use loong_os.Memory.Layout.{k_heap_start}
use loong_os.Memory.Heap.{
  Heap, find_desc, block_size, block_per_arena, running_pool, sys_malloc, sys_malloc_large,
  sys_malloc_block,
}
use loong_os.Memory.Heap.Blocks.{sizes, find_desc_lem}
use loong_os.Memory.Free.{sys_free}
use loong_os.Memory.Free.RoundTrip.{large-Returned, sys_malloc_block-first, sys_free-first}

-- The pages that a request of `bytes` bytes takes from the pool.
abbrev pages_for : ℕ → ℕ
pages_for bytes = if ltb 1024 bytes then (bytes + 12 + 4095) / 4096 else 1

-- A request for a block finds no block of its size.
abbrev NeedsPages : ℕ → Heap → Type 0
NeedsPages bytes h = (1024 < bytes) ⊎ (h.free_list pf_kernel (find_desc 7 bytes 0) ≡ [])

if_yes {ℓ} : {A : Type ℓ} {c : Bool} (x y : A) → c ≡ true → (if c then x else y) ≡ x
if_yes x y e = rw e refl

if_no {ℓ} : {A : Type ℓ} {c : Bool} (x y : A) → c ≡ false → (if c then x else y) ≡ y
if_no x y e = rw e refl

-- What `sys_malloc` does for a thread that takes its pages from the pool `pf`.
abbrev from_pool : ℕ → Heap → PoolFlags → Outcome (Option ℕ × Heap)
from_pool bytes h pf =
    if not (ltb 0 bytes && ltb bytes (pool_of pf h.mem).pool_size)
    then ok (none, h)
    else if ltb 1024 bytes
    then sys_malloc_large pf bytes h
    else sys_malloc_block pf bytes h

module _ (h : Heap) (bytes n t : ℕ) (v : IsValid h.mem) (kernel : h.mem.has_pgdir ≡ false)
    (heap : k_heap_start ≤ h.mem.kernel_vaddr.vaddr_start) (pos : 0 < bytes)
    (less : bytes < h.mem.kernel_pool.pool_size) (pages : n ≡ pages_for bytes) (few : n < 3840)
    (run : t + n ≤ size h.mem.kernel_vaddr.vaddr_bitmap)
    (zeros : Zeros h.mem.kernel_vaddr.vaddr_bitmap t n)
    (enough : n ≤ frees h.mem.kernel_pool.pool_bitmap (size h.mem.kernel_pool.pool_bitmap))
    (new : NeedsPages bytes h) where
  some_page : 0 < n
  some_page = ground (arith, pages)

  sys_malloc-branch : sys_malloc bytes h ≡ (
      if ltb 1024 bytes
      then sys_malloc_large pf_kernel bytes h
      else sys_malloc_block pf_kernel bytes h)
  unfolding sys_malloc
  sys_malloc-branch =
      let p : ltb 0 bytes ≡ true = ground arith in
      let q : ltb bytes h.mem.kernel_pool.pool_size ≡ true = ground arith in
      let pool : running_pool h ≡ pf_kernel = rw kernel refl in
      ap (from_pool bytes h) pool ∙ rw (p, q) refl

  -- For a kernel thread in a valid state, whose heap starts where the kernel's does or above, and a
  -- request of more than 0 bytes, and fewer than the pool has, that needs new pages (more than 1024
  -- bytes, or no free block of its size), from 1 to 3839 of them, when the pool and the heap's
  -- addresses have these pages: `sys_malloc` returns a pointer with room for the request inside the
  -- new pages, behind the arena's header, and `sys_free` of that pointer succeeds. After both calls
  -- the same pages, addresses and page table entries are free as before, and the free lists are
  -- those from before.
  pub sys_free-sys_malloc :
      (a ptr : ℕ) × (h₁ : Heap) × (h₂ : Heap) × (sys_malloc bytes h ≡ ok (some ptr, h₁))
      × (sys_free ptr h₁ ≡ ok h₂)
      × (h.mem.kernel_vaddr.vaddr_start ≤ a)
      × (a + 12 ≤ ptr)
      × (ptr + bytes ≤ a + n * 4096)
      × SameFree h₂.mem h.mem
      × ((pf : PoolFlags) (i : ℕ) → h₂.free_list pf i ≡ h.free_list pf i)
  sys_free-sys_malloc =
      let (a, m₁, m₂, made, freed, aligned, above, low, dir, same) =
        returned h.mem n t v some_page few run zeros enough in
      let kernel₁ : m₁.has_pgdir ≡ false = dir ∙ kernel in
      let high : k_heap_start ≤ a = omega (arith, heap, above) in
      elim (Bool-cases (ltb 1024 bytes)) [
        | inl large ↦
            let many : n ≡ (bytes + 12 + 4095) / 4096 = pages ∙ if_yes _ _ large in
            let (ptr, h₁, h₂, e, f, behind, inside, mem, lists) =
              large-Returned h m₁ m₂ a bytes n kernel kernel₁ aligned high low made freed
                (omega (arith, many)) (ground (arith, large)) (omega (arith, many)) in
            (
              a,
              ptr,
              h₁,
              h₂,
              sys_malloc-branch ∙ (if_yes _ _ large ∙ e),
              f,
              above,
              behind,
              inside,
              subst (λ m. SameFree m h.mem) (sym mem) same,
              lists,
            )
        | inr small ↦
            let one : n ≡ 1 = pages ∙ if_no _ _ small in
            let i = find_desc 7 bytes 0 in
            let (few_descs, room, _) = find_desc_lem bytes (ground (arith, small)) in
            let (least, most, several, fits) = sizes i few_descs in
            let empty : h.free_list pf_kernel i ≡ [] = elim new [
              | inl p ↦ absurd (ground (arith, small, p))
              | inr e ↦ e
            ] in
            let k = block_per_arena i - 1 in
            let per : block_per_arena i ≡ suc k = omega arith in
            let fits₁ = subst (λ c. 12 + c * block_size i ≤ 4096) per fits in
            let e =
              sys_malloc_block-first h m₁ m₂ a bytes n kernel kernel₁ aligned high low made freed i
                (block_size i) k refl refl per fits₁ (omega arith) room one empty in
            let (h₂, f, mem, lists) =
              sys_free-first h m₁ m₂ a bytes n kernel kernel₁ aligned high low made freed i
                (block_size i) k refl refl per fits₁ (omega arith) room one empty in
            (
              a,
              a + 12 + 0 * block_size i,
              _,
              h₂,
              sys_malloc-branch ∙ (if_no _ _ small ∙ e),
              f,
              above,
              omega arith,
              omega (arith, room, most, one),
              subst (λ m. SameFree m h.mem) (sym mem) same,
              lists,
            )
      ]
