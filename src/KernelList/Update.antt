-- ===== src/KernelList/Update.antt =====
-- The operations that change a list, on the sequence of its elements.
use loong_os.Prelude.{ℕ, ◌≡◌, false, List, [], ◌∷◌, ◌++◌, arith, ◌==◌, if◌then◌else◌}
use loong_os.KernelList.{Memory, list_insert_before, list_remove}
use loong_os.KernelList.Chain.{Chain, has, Distinct, Chain-frame, Chain-at, has-append}

module _ (m m' : Memory) (a e b : ℕ)
    (hn : (q : ℕ) → m'.next q ≡ (if q == e then b else if q == a then e else m.next q))
    (hp : (q : ℕ) → m'.prev q ≡ (if q == b then e else if q == e then a else m.prev q)) where
  Chain-insert :
      (us vs : List ℕ)
      → Chain m (us ++ (a ∷ b ∷ vs))
      → Distinct (us ++ (a ∷ b ∷ vs))
      → has e (us ++ (a ∷ b ∷ vs)) ≡ false
      → Chain m' (us ++ (a ∷ e ∷ b ∷ vs))
  Chain-insert [] vs (n, p, c) d out = (
    ground (arith, hn a),
    ground (arith, hp e),
    (
      ground (arith, hn e),
      ground (arith, hp b),
      Chain-frame m m' b vs (λ q h. ground (arith, hn q)) (λ q h. ground (arith, hp q)) c,
    ),
  )
  Chain-insert (u ∷ []) vs (n, p, c) d out =
      (ground (arith, hn u), ground (arith, hp a), Chain-insert [] vs c d.1 (ground arith))
  Chain-insert (u ∷ u' ∷ us) vs (n, p, c) d out = (
    ground (arith, hn u, has-append u us (a ∷ b ∷ vs)),
    ground (arith, hp u', has-append u' us (a ∷ b ∷ vs)),
    Chain-insert (u' ∷ us) vs c d.1 (ground arith),
  )

insert_fields :
    (b e : ℕ) (m : Memory)
    → let m' = list_insert_before b e m in
      ((q : ℕ) → m'.next q ≡ (if q == e then b else if q == m.prev b then e else m.next q))
      × ((q : ℕ) → m'.prev q ≡ (if q == b then e else if q == e then m.prev b else m.prev q))
      × (m'.intr_on ≡ m.intr_on)
unfolding list_insert_before
insert_fields b e m = (λ q. ground arith, λ q. ground arith, ground arith)

module _ (m m' : Memory) (a x b : ℕ) (hn : (q : ℕ) → m'.next q ≡ (if q == a then b else m.next q))
    (hp : (q : ℕ) → m'.prev q ≡ (if q == b then a else m.prev q)) where
  Chain-remove :
      (us vs : List ℕ)
      → Chain m (us ++ (a ∷ x ∷ b ∷ vs))
      → Distinct (us ++ (a ∷ x ∷ b ∷ vs))
      → Chain m' (us ++ (a ∷ b ∷ vs))
  Chain-remove [] vs (n, p, (n', p', c)) d = (
    ground (arith, hn a),
    ground (arith, hp b),
    Chain-frame m m' b vs (λ q h. ground (arith, hn q)) (λ q h. ground (arith, hp q)) c,
  )
  Chain-remove (u ∷ []) vs (n, p, c) d =
      (ground (arith, hn u), ground (arith, hp a), Chain-remove [] vs c d.1)
  Chain-remove (u ∷ u' ∷ us) vs (n, p, c) d = (
    ground (arith, hn u, has-append u us (a ∷ x ∷ b ∷ vs)),
    ground (arith, hp u', has-append u' us (a ∷ x ∷ b ∷ vs)),
    Chain-remove (u' ∷ us) vs c d.1,
  )

remove_fields :
    (x : ℕ) (m : Memory)
    → let m' = list_remove x m in
      ((q : ℕ) → m'.next q ≡ (if q == m.prev x then m.next x else m.next q))
      × ((q : ℕ) → m'.prev q ≡ (if q == m.next x then m.prev x else m.prev q))
      × (m'.intr_on ≡ m.intr_on)
unfolding list_remove
remove_fields x m = (λ q. ground arith, λ q. ground arith, ground arith)

Distinct-insert :
    (us : List ℕ) (a e : ℕ) (vs : List ℕ)
    → Distinct (us ++ (a ∷ vs))
    → has e (us ++ (a ∷ vs)) ≡ false
    → Distinct (us ++ (a ∷ e ∷ vs))
Distinct-insert [] a e vs d out = (ground arith, (ground arith, d.1))
Distinct-insert (u ∷ us) a e vs d out = (
  ground (arith, has-append u us (a ∷ vs), has-append u us (a ∷ e ∷ vs)),
  Distinct-insert us a e vs d.1 (ground arith),
)

Distinct-remove :
    (us : List ℕ) (a x : ℕ) (vs : List ℕ)
    → Distinct (us ++ (a ∷ x ∷ vs))
    → Distinct (us ++ (a ∷ vs))
Distinct-remove [] a x vs d = (ground arith, d.1.1)
Distinct-remove (u ∷ us) a x vs d = (
  ground (arith, has-append u us (a ∷ vs), has-append u us (a ∷ x ∷ vs)),
  Distinct-remove us a x vs d.1,
)

-- Only the fields of the addresses in `ns` differ, and interrupts are as they were.
pub record SameOutside (ns : List ℕ) (m m' : Memory) : Type 0 where
  pub next : (q : ℕ) → has q ns ≡ false → m'.next q ≡ m.next q
  pub prev : (q : ℕ) → has q ns ≡ false → m'.prev q ≡ m.prev q
  pub intr : m'.intr_on ≡ m.intr_on

-- An insertion between two neighbours `a` and `b`.
pub insert-between :
    (m : Memory) (us : List ℕ) (a b : ℕ) (vs : List ℕ) (e : ℕ)
    → Chain m (us ++ (a ∷ b ∷ vs))
    → Distinct (us ++ (a ∷ b ∷ vs))
    → has e (us ++ (a ∷ b ∷ vs)) ≡ false
    → Chain (list_insert_before b e m) (us ++ (a ∷ e ∷ b ∷ vs))
      × Distinct (us ++ (a ∷ e ∷ b ∷ vs))
      × SameOutside (us ++ (a ∷ e ∷ b ∷ vs)) m (list_insert_before b e m)
insert-between m us a b vs e c d out =
    let (n, p, rest) = Chain-at m us a b vs c in
    let (hn, hp, hi) = insert_fields b e m in
    let hn' : (q : ℕ)
        → (list_insert_before b e m).next q
          ≡ (if q == e then b else if q == a then e else m.next q) =
      rw p at hn in
    let hp' : (q : ℕ)
        → (list_insert_before b e m).prev q
          ≡ (if q == b then e else if q == e then a else m.prev q) =
      rw p at hp in
    (
      Chain-insert m (list_insert_before b e m) a e b hn' hp' us vs c d out,
      Distinct-insert us a e (b ∷ vs) d out,
      record {
        next = λ q h. ground (arith, hn' q, has-append q us (a ∷ e ∷ b ∷ vs));
        prev = λ q h. ground (arith, hp' q, has-append q us (a ∷ e ∷ b ∷ vs));
        intr = hi;
      },
    )

-- The removal of `x` from between its neighbours `a` and `b`.
pub remove-between :
    (m : Memory) (us : List ℕ) (a x b : ℕ) (vs : List ℕ)
    → Chain m (us ++ (a ∷ x ∷ b ∷ vs))
    → Distinct (us ++ (a ∷ x ∷ b ∷ vs))
    → Chain (list_remove x m) (us ++ (a ∷ b ∷ vs))
      × Distinct (us ++ (a ∷ b ∷ vs))
      × SameOutside (us ++ (a ∷ b ∷ vs)) m (list_remove x m)
remove-between m us a x b vs c d =
    let (n, p, (n', p', rest)) = Chain-at m us a x (b ∷ vs) c in
    let (hn, hp, hi) = remove_fields x m in
    let hn' : (q : ℕ) → (list_remove x m).next q ≡ (if q == a then b else m.next q) =
      rw (p, n') at hn in
    let hp' : (q : ℕ) → (list_remove x m).prev q ≡ (if q == b then a else m.prev q) =
      rw (p, n') at hp in
    (
      Chain-remove m (list_remove x m) a x b hn' hp' us vs c d,
      Distinct-remove us a x (b ∷ vs) d,
      record {
        next = λ q h. ground (arith, hn' q, has-append q us (a ∷ b ∷ vs));
        prev = λ q h. ground (arith, hp' q, has-append q us (a ∷ b ∷ vs));
        intr = hi;
      },
    )
