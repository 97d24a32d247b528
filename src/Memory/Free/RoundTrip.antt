-- ===== src/Memory/Free/RoundTrip.antt =====
-- `sys_free` of what `sys_malloc` made from new pages gives these pages back.
use loong_os.Prelude.{
  ℕ, zero, suc, ◌+◌, ◌-◌, ◌*◌, ◌/◌, ◌%◌, ◌^◌, ◌≤◌, ◌<◌, ◌≡◌, refl, sym, ap, ap₂, ◌∙◌, subst, true,
  false, Option, none, some, List, [], ◌∷◌, ◌++◌, ok, arith, leb, ◌==◌, Bool-cases, inl, inr, u32,
  ==_iff, Outcome,
}
use loong_os.KernelList.Chain.{has, has-append}
use loong_os.Memory.Pools.{Mem, PoolFlags, pf_kernel, pf_user, malloc_page, mfree_page}
use loong_os.Memory.Layout.{k_heap_start}
use loong_os.Memory.Heap.{
  Desc, Heap, set_free_list, set_cnt, set_arena, block_size, block_per_arena, block2arena,
  find_desc, fill_arena, refill, take_block, running_pool, malloc_arena, sys_malloc_large,
  sys_malloc_block,
}
use loong_os.Memory.Heap.Blocks.{block_place, arena_blocks, split_arena_lem}
use loong_os.Memory.Free.{remove_block, remove_blocks, free_block, sys_free}

eq_self : (a : ℕ) → (a == a) ≡ true
eq_self a = ground arith

-- Blocks that stand in the order of their numbers are all taken out.
remove_blocks-arena :
    (left a s i n : ℕ)
    → a % 4096 ≡ 0
    → a + 4096 ≤ 2 ^ 32
    → 12 + n * s ≤ 4096
    → 0 < s
    → i + left ≡ n
    → remove_blocks left a s i (arena_blocks left a s i) ≡ ok []
unfolding remove_blocks remove_block arena_blocks
remove_blocks-arena zero a s i n aligned high fits pos e = refl
remove_blocks-arena (suc left) a s i n aligned high fits pos e =
    let b = a + 12 + i * s in
    let (at, _, _) = block_place a s n i aligned high fits pos (omega arith) in
    rw (at, eq_self b) (remove_blocks-arena left a s (i + 1) n aligned high fits pos (omega arith))

remove_block-last : (b : ℕ) (xs : List ℕ) → has b xs ≡ false → remove_block b (xs ++ (b ∷ [])) ≡ xs
unfolding remove_block
remove_block-last b [] h = ground arith
remove_block-last b (x ∷ xs) h = ground (arith, remove_block-last b xs)

-- The blocks from number `i` on are behind those before.
later_blocks : (left a s i b : ℕ) → b < a + 12 + i * s → has b (arena_blocks left a s i) ≡ false
unfolding arena_blocks
later_blocks zero a s i b h = refl
later_blocks (suc left) a s i b h =
    let up : i * s ≤ (i + 1) * s = grind arith in ground (arith, later_blocks left a s (i + 1) b)

-- With the first block put behind the others, all are taken out too.
remove_blocks-rotated :
    (n a s : ℕ)
    → a % 4096 ≡ 0
    → a + 4096 ≤ 2 ^ 32
    → 12 + suc n * s ≤ 4096
    → 0 < s
    → remove_blocks (suc n) a s 0 (arena_blocks n a s 1 ++ ((a + 12 + 0 * s) ∷ [])) ≡ ok []
unfolding remove_blocks
remove_blocks-rotated n a s aligned high fits pos =
    let b = a + 12 + 0 * s in
    let (at, _, _) = block_place a s (suc n) 0 aligned high fits pos (omega arith) in
    let out : has b (arena_blocks n a s 1) ≡ false = later_blocks n a s 1 b (omega arith) in
    let found : has b (arena_blocks n a s 1 ++ (b ∷ [])) ≡ true =
      ground (arith, has-append b (arena_blocks n a s 1) (b ∷ [])) in
    rw (at, found, remove_block-last b (arena_blocks n a s 1) out)
      (remove_blocks-arena n a s 1 (suc n) aligned high fits pos (omega arith))

back_to_arena : (a o : ℕ) → a % 4096 ≡ 0 → o < 4096 → block2arena (a + o) ≡ a
unfolding block2arena
back_to_arena a o aligned h = omega arith

take_block-cons :
    (d : Desc) (h : Heap) (b : ℕ) (rest : List ℕ)
    → h.free_list d.pf d.index ≡ b ∷ rest
    → take_block d h
      ≡ ok (
        b,
        set_cnt
            (block2arena b)
            (u32 (h.arena_cnt (block2arena b) + 2 ^ 32 - 1))
            (set_free_list d rest h),
      )
unfolding take_block
take_block-cons d h b rest e = rw (e, take_block) refl

sys_free-block :
    (ptr : ℕ) (h : Heap) (d : Desc)
    → (ptr == 0) ≡ false
    → running_pool h ≡ pf_kernel
    → leb k_heap_start ptr ≡ true
    → h.arena_desc (block2arena ptr) ≡ some d
    → sys_free ptr h ≡ free_block pf_kernel d ptr h
unfolding sys_free
sys_free-block ptr h d nonzero pool heap e =
    rw (nonzero, pool, heap, e) (ap (λ p. free_block p d ptr h) pool)

-- The heap once the last block of an arena is freed and the arena with it.
abbrev without_arena : Desc → ℕ → List ℕ → Mem → Heap → Heap
without_arena d b left mem h =
    let blocks = h.free_list d.pf d.index ++ (b ∷ []) in
    let a = block2arena b in
    record (set_free_list d left (set_cnt a (u32 (h.arena_cnt a + 1)) (set_free_list d blocks h))) {
      mem = mem;
    }

free_block-whole :
    (d : Desc) (b : ℕ) (h : Heap) (left : List ℕ) (mem : Mem)
    → has b (h.free_list d.pf d.index) ≡ false
    → u32 (h.arena_cnt (block2arena b) + 1) ≡ block_per_arena d.index
    → remove_blocks
        (block_per_arena d.index)
        (block2arena b)
        (block_size d.index)
        0
        (h.free_list d.pf d.index ++ (b ∷ []))
      ≡ ok left
    → mfree_page pf_kernel (block2arena b) 1 h.mem ≡ ok mem
    → free_block pf_kernel d b h ≡ ok (without_arena d b left mem h)
unfolding free_block
free_block-whole d b h left mem out full removed freed =
    let last : (u32 (h.arena_cnt (block2arena b) + 1) == block_per_arena d.index) ≡ true =
      ground (arith, full) in
    rw (out, last, removed, freed) refl

same_removal :
    {c c' a a' s s' : ℕ} {xs xs' : List ℕ}
    → c ≡ c'
    → a ≡ a'
    → s ≡ s'
    → xs ≡ xs'
    → remove_blocks c a s 0 xs ≡ remove_blocks c' a' s' 0 xs'
same_removal p q r e = λ i. remove_blocks (p i) (q i) (r i) 0 (e i)

le_mul : (k s : ℕ) → 0 < s → k ≤ k * s
le_mul k s h = grind arith

module _ (h : Heap) (m₁ m₂ : Mem) (a bytes n : ℕ) (kernel : h.mem.has_pgdir ≡ false)
    (kernel₁ : m₁.has_pgdir ≡ false) (aligned : a % 4096 ≡ 0) (high : k_heap_start ≤ a)
    (low : a + n * 4096 ≤ 0xffc00000) (made : malloc_page pf_kernel n h.mem ≡ ok (some a, m₁))
    (freed : mfree_page pf_kernel a n m₁ ≡ ok m₂) where
  -- The pointer lies in the pages, with room for the request; it is freed, and the free lists are
  -- those from before.
  abbrev pub Returned : Outcome (Option ℕ × Heap) → Type 0
  Returned result =
      (ptr : ℕ) × (h₁ : Heap) × (h₂ : Heap) × (result ≡ ok (some ptr, h₁))
      × (sys_free ptr h₁ ≡ ok h₂)
      × (a + 12 ≤ ptr)
      × (ptr + bytes ≤ a + n * 4096)
      × (h₂.mem ≡ m₂)
      × ((pf : PoolFlags) (i : ℕ) → h₂.free_list pf i ≡ h.free_list pf i)

  pub large-Returned :
      n ≡ u32 (bytes + 12 + 4096 - 1) / 4096
      → 1024 < bytes
      → bytes < 2 ^ 31
      → Returned (sys_malloc_large pf_kernel bytes h)
  unfolding sys_malloc_large malloc_arena sys_free
  large-Returned e large small =
      let ptr = a + 12 in
      let whole : u32 (a + 12) ≡ ptr = omega (arith, low, e) in
      let back : block2arena ptr ≡ a = back_to_arena a 12 aligned (omega arith) in
      let nonzero : (ptr == 0) ≡ false = ground arith in
      let heap : leb k_heap_start ptr ≡ true = ground (arith, high) in
      let h₁ : Heap = set_arena a none n true (record h { mem = m₁ }) in
      let pool : running_pool h₁ ≡ pf_kernel = rw kernel₁ refl in
      (
        ptr,
        h₁,
        record h₁ { mem = m₂ },
        ap (λ c. malloc_arena pf_kernel c h) (sym e) ∙ rw (made, whole) refl,
        rw (nonzero, pool, heap) (rw (back, eq_self a) (rw (back, eq_self a, pool, freed) refl)),
        omega arith,
        omega arith,
        refl,
        λ pf i. refl,
      )

  -- A new arena for the descriptor `i`, whose arenas have `suc k` blocks of `s` bytes.
  module _ (i s k : ℕ) (desc : find_desc 7 bytes 0 ≡ i) (of_size : block_size i ≡ s)
      (per_arena : block_per_arena i ≡ suc k) (fits : 12 + suc k * s ≤ 4096) (pos : 0 < s)
      (room : bytes ≤ s) (one : n ≡ 1) (none_free : h.free_list pf_kernel i ≡ []) where
    abbrev d : Desc
    d = record { pf = pf_kernel; index = i }

    abbrev header : Heap
    header = set_arena a (some d) (suc k) false (record h { mem = m₁ })

    abbrev filled : Heap
    filled = set_free_list d (arena_blocks (suc k) a s 0) header

    fill_arena-filled : fill_arena d a (record h { mem = m₁ }) ≡ ok filled
    unfolding fill_arena
    fill_arena-filled =
        rw
          (
            per_arena,
            of_size,
            none_free,
            split_arena_lem a s (suc k) aligned (omega (arith, low)) fits pos,
          )
          refl

    refill-filled : refill d h ≡ ok (true, filled)
    unfolding refill
    refill-filled =
        let made₁ = subst (λ c. malloc_page pf_kernel c h.mem ≡ ok (some a, m₁)) one made in
        rw (none_free, made₁, fill_arena-filled) refl

    abbrev b : ℕ
    b = a + 12 + 0 * s

    abbrev others : List ℕ
    others = arena_blocks k a s 1

    abbrev taken_first : Heap
    taken_first = set_cnt a k (set_free_list d others filled)

    b-arena : block2arena b ≡ a
    b-arena =
        let same : b ≡ a + 12 = omega arith in
        ap block2arena same ∙ back_to_arena a 12 aligned (omega arith)

    take_block-first : take_block d filled ≡ ok (b, taken_first)
    unfolding arena_blocks
    take_block-first =
        let listed : filled.free_list pf_kernel i ≡ b ∷ others = rw (eq_self i) refl in
        let less : u32 (filled.arena_cnt (block2arena b) + 2 ^ 32 - 1) ≡ k =
          rw (b-arena, eq_self a) (omega (arith, le_mul k s pos)) in
        take_block-cons d filled b others listed
        ∙ ap₂ (λ x c. ok (b, set_cnt x c (set_free_list d others filled))) b-arena less

    pub sys_malloc_block-first : sys_malloc_block pf_kernel bytes h ≡ ok (some b, taken_first)
    unfolding sys_malloc_block
    sys_malloc_block-first =
        let found : refill (record { pf = pf_kernel; index = find_desc 7 bytes 0 }) h
            ≡ ok (true, filled) =
          subst (λ j. refill (record { pf = pf_kernel; index = j }) h ≡ ok (true, filled))
            (sym desc) refill-filled in
        let first : take_block (record { pf = pf_kernel; index = find_desc 7 bytes 0 }) filled
            ≡ ok (b, taken_first) =
          subst
            (λ j. take_block (record { pf = pf_kernel; index = j }) filled ≡ ok (b, taken_first))
            (sym desc) take_block-first in
        rw (found, first) refl

    same_list :
        (pf : PoolFlags) (j : ℕ)
        → (without_arena d b [] m₂ taken_first).free_list pf j ≡ h.free_list pf j
    same_list pf_kernel j = elim (Bool-cases (j == i)) [
      | inl e ↦ rw e (sym none_free ∙ ap (h.free_list pf_kernel) (sym ((==_iff j i).0 e)))
      | inr ne ↦ rw ne refl
    ]
    same_list pf_user j = refl

    pub sys_free-first :
        (h₂ : Heap) × (sys_free b taken_first ≡ ok h₂)
        × (h₂.mem ≡ m₂)
        × ((pf : PoolFlags) (j : ℕ) → h₂.free_list pf j ≡ h.free_list pf j)
    sys_free-first =
        let freed₁ = subst (λ c. mfree_page pf_kernel a c m₁ ≡ ok m₂) one freed in
        let nonzero : (b == 0) ≡ false = ground arith in
        let heap : leb k_heap_start b ≡ true = ground (arith, high) in
        let pool : running_pool taken_first ≡ pf_kernel = rw kernel₁ refl in
        let desc_of : taken_first.arena_desc (block2arena b) ≡ some d =
          rw (b-arena, eq_self a) refl in
        let list : taken_first.free_list pf_kernel i ≡ others = rw (eq_self i) refl in
        let out : has b (taken_first.free_list pf_kernel i) ≡ false =
          subst (λ xs. has b xs ≡ false) (sym list) (later_blocks k a s 1 b (omega (arith, pos))) in
        let full : u32 (taken_first.arena_cnt (block2arena b) + 1) ≡ block_per_arena i =
          rw (b-arena, eq_self a) (omega (arith, per_arena, le_mul k s pos)) in
        let removed : remove_blocks (block_per_arena i) (block2arena b) (block_size i) 0
              (taken_first.free_list pf_kernel i ++ (b ∷ []))
            ≡ ok [] =
          same_removal per_arena b-arena of_size (ap (λ xs. xs ++ (b ∷ [])) list)
          ∙ remove_blocks-rotated k a s aligned (omega (arith, low)) fits pos in
        let released : mfree_page pf_kernel (block2arena b) 1 m₁ ≡ ok m₂ =
          subst (λ x. mfree_page pf_kernel x 1 m₁ ≡ ok m₂) (sym b-arena) freed₁ in
        (
          without_arena d b [] m₂ taken_first,
          sys_free-block b taken_first d nonzero pool heap desc_of
              ∙ free_block-whole d b taken_first [] m₂ out full removed released,
          refl,
          λ pf j. same_list pf j,
        )
