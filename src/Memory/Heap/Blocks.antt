-- ===== src/Memory/Heap/Blocks.antt =====
-- Where the blocks of an arena lie, and which size is chosen.
use loong_os.Prelude.{
  ℕ, zero, suc, ◌+◌, ◌*◌, ◌%◌, ◌^◌, ◌≤◌, ◌<◌, ◌≡◌, refl, sym, ap, ◌∙◌, false, List, [], ◌∷◌, ◌++◌,
  append_assoc, append-nil, ok, arith, leb, ◌==◌, Bool-cases, ==_iff, inl, inr,
}
use loong_os.KernelList.Chain.{has}
use loong_os.Memory.Layout.{block_desc_init, block_descs_from}
use loong_os.Memory.Heap.{
  block_size, block_per_arena, arena2block, block2arena, find_desc, split_arena,
}

-- The block sizes are 16, 32, …, 1024, and an arena is full of blocks.
abbrev pub IsSize : ℕ → Type 0
IsSize i =
    (16 ≤ block_size i)
    × (block_size i ≤ 1024)
    × (1 < block_per_arena i)
    × (12 + block_per_arena i * block_size i ≤ 4096)

pub sizes : (i : ℕ) → i < 7 → IsSize i
unfolding block_desc_init block_descs_from
sizes zero h = omega arith
sizes (suc zero) h = omega arith
sizes (suc (suc zero)) h = omega arith
sizes (suc (suc (suc zero))) h = omega arith
sizes (suc (suc (suc (suc zero)))) h = omega arith
sizes (suc (suc (suc (suc (suc zero))))) h = omega arith
sizes (suc (suc (suc (suc (suc (suc zero)))))) h = omega arith
sizes (suc (suc (suc (suc (suc (suc (suc i))))))) h = absurd (omega arith)

largest_block : block_size 6 ≡ 1024
unfolding block_desc_init block_descs_from
largest_block = refl

-- The search of a descriptor stops at the first that fits, if there is one.
record Stops (left size from found : ℕ) : Type 0 where
  pub ahead : from ≤ found
  pub within : found ≤ from + left
  pub too_small : (j : ℕ) → from ≤ j → j < found → block_size j < size
  pub enough : found < from + left → size ≤ block_size found

find_desc-Stops : (left size from : ℕ) → Stops left size from (find_desc left size from)
unfolding find_desc
find_desc-Stops zero size from = record {
  ahead = omega arith;
  within = omega arith;
  too_small = λ j p q. absurd (omega arith);
  enough = λ p. absurd (omega arith);
}
find_desc-Stops (suc left) size from = elim (Bool-cases (leb size (block_size from))) [
  | inl fits ↦ rw fits (record {
    ahead = omega arith;
    within = omega arith;
    too_small = λ j p q. absurd (omega arith);
    enough = λ p. ground (arith, fits);
  })
  | inr short ↦
      let r = find_desc-Stops left size (from + 1) in
      rw short (record {
        ahead = omega (arith, r.ahead);
        within = omega (arith, r.within);
        too_small = λ j p q. elim (Bool-cases (j == from)) [
          | inl e ↦ rw ((==_iff j from).0 e) (ground (arith, short))
          | inr ne ↦ r.too_small j (ground (arith, ne, p)) q
        ];
        enough = λ p. r.enough (omega arith);
      })
]

pub find_desc_lem :
    (size : ℕ)
    → size ≤ 1024
    → let i = find_desc 7 size 0 in
      (i < 7) × (size ≤ block_size i) × ((j : ℕ) → j < i → block_size j < size)
find_desc_lem size h =
    let r = find_desc-Stops 7 size 0 in
    let i = find_desc 7 size 0 in
    let largest : block_size 6 ≡ 1024 = largest_block in
    let few : i < 7 = elim (Bool-cases (i == 7)) [
      | inl e ↦ absurd (omega (arith, largest, r.too_small 6 (omega arith) (ground (arith, e))))
      | inr ne ↦ ground (arith, ne, r.within)
    ] in
    (few, r.enough few, λ j p. r.too_small j (omega arith) p)

mul_succ : (i s : ℕ) → (i + 1) * s ≡ i * s + s
mul_succ i s = grind arith

block-le : (i n s : ℕ) → i < n → i * s + s ≤ n * s
block-le i n s h = grind arith

-- A block of an arena lies behind the arena's header in the arena's page, and leads back to it.
pub block_place :
    (a s n i : ℕ)
    → a % 4096 ≡ 0
    → a + 4096 ≤ 2 ^ 32
    → 12 + n * s ≤ 4096
    → 0 < s
    → i < n
    → (arena2block a s i ≡ a + 12 + i * s)
      × (a + 12 + i * s + s ≤ a + 4096)
      × (block2arena (arena2block a s i) ≡ a)
unfolding arena2block block2arena
block_place a s n i aligned high fits pos h = (
  omega (arith, block-le i n s h),
  omega (arith, block-le i n s h),
  omega (arith, block-le i n s h),
)

-- The blocks of an arena from number `i` on.
unfoldable pub arena_blocks : ℕ → ℕ → ℕ → ℕ → List ℕ
arena_blocks zero a s i = []
arena_blocks (suc left) a s i = (a + 12 + i * s) ∷ arena_blocks left a s (i + 1)

abbrev AllBefore : ℕ → List ℕ → Type 0
AllBefore n [] = Unit
AllBefore n (b ∷ bs) = (b < n) × AllBefore n bs

AllBefore-has : (n : ℕ) (bs : List ℕ) → AllBefore n bs → has n bs ≡ false
AllBefore-has n [] h = refl
AllBefore-has n (b ∷ bs) h = ground (arith, AllBefore-has n bs h.1)

AllBefore-snoc :
    (n k b : ℕ) (bs : List ℕ) → n ≤ k → b < k → AllBefore n bs → AllBefore k (bs ++ (b ∷ []))
AllBefore-snoc n k b [] h small all = (small, tt)
AllBefore-snoc n k b (x ∷ bs) h small all = (omega arith, AllBefore-snoc n k b bs h small all.1)

split_arena-blocks :
    (left a s i n : ℕ) (bs : List ℕ)
    → a % 4096 ≡ 0
    → a + 4096 ≤ 2 ^ 32
    → 12 + n * s ≤ 4096
    → 0 < s
    → i + left ≡ n
    → AllBefore (a + 12 + i * s) bs
    → split_arena left a s i bs ≡ ok (bs ++ arena_blocks left a s i)
unfolding split_arena arena_blocks
split_arena-blocks zero a s i n bs aligned high fits pos e all = ap ok (sym (append-nil bs))
split_arena-blocks (suc left) a s i n bs aligned high fits pos e all =
    let b = a + 12 + i * s in
    let (at, _, _) = block_place a s n i aligned high fits pos (omega arith) in
    let later : a + 12 + (i + 1) * s ≡ b + s = omega (arith, mul_succ i s) in
    let rest =
      split_arena-blocks left a s (i + 1) n (bs ++ (b ∷ [])) aligned high fits pos (omega arith)
        (AllBefore-snoc b (a + 12 + (i + 1) * s) b bs (omega arith) (omega arith) all) in
    rw (at, AllBefore-has b bs all)
      (rest ∙ ap ok (append_assoc bs (b ∷ []) (arena_blocks left a s (i + 1))))

-- A new arena puts its blocks into an empty free list, in the order of their addresses.
pub split_arena_lem :
    (a s n : ℕ)
    → a % 4096 ≡ 0
    → a + 4096 ≤ 2 ^ 32
    → 12 + n * s ≤ 4096
    → 0 < s
    → split_arena n a s 0 [] ≡ ok (arena_blocks n a s 0)
split_arena_lem a s n aligned high fits pos =
    split_arena-blocks n a s 0 n [] aligned high fits pos (omega arith) tt
