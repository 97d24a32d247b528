-- ===== src/KernelList/Chain.antt =====
-- What it is for memory to hold a list: its nodes, sentinels included, point at one another.
use loong_os.Prelude.{ℕ, ◌≡◌, refl, Bool, true, false, ◌||◌, List, [], ◌∷◌, ◌++◌, arith, ◌==◌}
use loong_os.KernelList.{Memory, KList}

-- Consecutive addresses point at each other.
abbrev pub Chain : Memory → List ℕ → Type 0
Chain m [] = Unit
Chain m (a ∷ []) = Unit
Chain m (a ∷ b ∷ ns) = (m.next a ≡ b) × (m.prev b ≡ a) × Chain m (b ∷ ns)

abbrev pub has : ℕ → List ℕ → Bool
has a [] = false
has a (n ∷ ns) = (a == n) || has a ns

abbrev pub Distinct : List ℕ → Type 0
Distinct [] = Unit
Distinct (n ∷ ns) = (has n ns ≡ false) × Distinct ns

-- The addresses of a list that holds `xs`.
abbrev pub nodes : KList → List ℕ → List ℕ
nodes l xs = l.head ∷ xs ++ (l.tail ∷ [])

pub record Holds (m : Memory) (l : KList) (xs : List ℕ) : Type 0 where
  pub chain : Chain m (nodes l xs)
  pub distinct : Distinct (nodes l xs)

pub has-append : (a : ℕ) (xs ys : List ℕ) → has a (xs ++ ys) ≡ (has a xs || has a ys)
has-append a [] ys = refl
has-append a (x ∷ xs) ys = ground (arith, has-append a xs ys)

-- A chain stays one in a memory that agrees where it is read.
pub Chain-frame :
    (m m' : Memory) (a : ℕ) (ns : List ℕ)
    → ((q : ℕ) → has q (a ∷ ns) ≡ true → m'.next q ≡ m.next q)
    → ((q : ℕ) → has q ns ≡ true → m'.prev q ≡ m.prev q)
    → Chain m (a ∷ ns)
    → Chain m' (a ∷ ns)
Chain-frame m m' a [] hn hp c = c
Chain-frame m m' a (b ∷ ns) hn hp (n, p, c) = (
  ground (arith, hn a),
  ground (arith, hp b),
  Chain-frame m m' b ns (λ q h. hn q (ground arith)) (λ q h. hp q (ground arith)) c,
)

-- The links at a place inside a chain.
pub Chain-at :
    (m : Memory) (us : List ℕ) (a b : ℕ) (vs : List ℕ)
    → Chain m (us ++ (a ∷ b ∷ vs))
    → (m.next a ≡ b) × (m.prev b ≡ a) × Chain m (b ∷ vs)
Chain-at m [] a b vs c = c
Chain-at m (u ∷ []) a b vs c = c.2
Chain-at m (u ∷ u' ∷ us) a b vs c = Chain-at m (u' ∷ us) a b vs c.2
