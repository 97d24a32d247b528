-- ===== src/KernelList/Walk.antt =====
-- The loops that walk through a list.
use loong_os.Prelude.{
  ℕ, zero, suc, ◌+◌, ◌^◌, ◌<◌, ◌≡◌, refl, ap, ◌∙◌, Bool, false, some, List, [], ◌∷◌, ◌++◌, arith,
  ◌==◌, if◌then◌else◌, length, u32,
}
use loong_os.KernelList.{
  Memory, KList, null, elem_find_loop, elem_find, list_len_loop, list_len, list_traversal_loop,
  list_traversal, list_empty,
}
use loong_os.KernelList.Chain.{Chain, has, Distinct, Holds, has-append}

-- The first element that passes the test, or NULL.
unfoldable pub first_that : (ℕ → Bool) → List ℕ → ℕ
first_that func [] = null
first_that func (x ∷ xs) = if func x then x else first_that func xs

suc_ne : (n : ℕ) → (suc n == 0) ≡ false
suc_ne n = ground arith

module _ (l : KList) (m : Memory) where
  -- From a node on, the three loops go through the elements behind it.
  find_from :
      (obj rounds n : ℕ) (xs : List ℕ)
      → Chain m (n ∷ xs ++ (l.tail ∷ []))
      → Distinct (n ∷ xs ++ (l.tail ∷ []))
      → length xs < rounds
      → elem_find_loop l obj m rounds (m.next n) ≡ some (has obj xs)
  unfolding elem_find_loop
  find_from obj zero n xs c d f = absurd (omega arith)
  find_from obj (suc rounds) n [] c d f = ground arith
  find_from obj (suc rounds) n (x ∷ xs) c d f =
      ground (arith, find_from obj rounds x xs c.2 d.1 (omega arith), has-append x xs (l.tail ∷ []))

  len_from :
      (rounds n k : ℕ) (xs : List ℕ)
      → Chain m (n ∷ xs ++ (l.tail ∷ []))
      → Distinct (n ∷ xs ++ (l.tail ∷ []))
      → length xs < rounds
      → k + length xs < 2 ^ 32
      → list_len_loop l m rounds (m.next n) k ≡ some (k + length xs)
  unfolding list_len_loop
  len_from zero n k xs c d f s = absurd (omega arith)
  len_from (suc rounds) n k [] c d f s = ground arith
  len_from (suc rounds) n k (x ∷ xs) c d f s =
      let wrap : u32 (k + 1) ≡ k + 1 = omega arith in
      ground (
        arith,
        wrap,
        len_from rounds x (k + 1) xs c.2 d.1 (omega arith) (omega arith),
        has-append x xs (l.tail ∷ []),
      )

  traversal_from :
      (func : ℕ → Bool) (rounds n : ℕ) (xs : List ℕ)
      → Chain m (n ∷ xs ++ (l.tail ∷ []))
      → Distinct (n ∷ xs ++ (l.tail ∷ []))
      → length xs < rounds
      → list_traversal_loop l func m rounds (m.next n) ≡ some (first_that func xs)
  unfolding list_traversal_loop first_that
  traversal_from func zero n xs c d f = absurd (omega arith)
  traversal_from func (suc rounds) n [] c d f = ground arith
  traversal_from func (suc rounds) n (x ∷ xs) c d f =
      ground (
        arith,
        traversal_from func rounds x xs c.2 d.1 (omega arith),
        has-append x xs (l.tail ∷ []),
      )

  empty_lem : (xs : List ℕ) → Holds m l xs → list_empty l m ≡ (length xs == 0)
  unfolding list_empty
  empty_lem [] h = ground (arith, h.chain.0)
  empty_lem (x ∷ xs) h = ground (arith, h.chain.0, h.distinct.1.0, has-append x xs (l.tail ∷ []))

  list_traversal_lem :
      (func : ℕ → Bool) (rounds : ℕ)
      → list_traversal rounds l func m ≡ (
          if list_empty l m then some null else list_traversal_loop l func m rounds (m.next l.head))
  unfolding list_traversal
  list_traversal_lem func rounds = refl

  traversal_lem :
      (func : ℕ → Bool) (rounds : ℕ) (xs : List ℕ)
      → Holds m l xs
      → length xs < rounds
      → list_traversal rounds l func m ≡ some (first_that func xs)
  traversal_lem func rounds [] h f =
      rw (list_traversal_lem func rounds, empty_lem [] h) (unfold first_that in refl)
  traversal_lem func rounds (x ∷ xs) h f =
      rw (list_traversal_lem func rounds, empty_lem (x ∷ xs) h, suc_ne (length xs))
        (traversal_from func rounds l.head (x ∷ xs) h.chain h.distinct f)

-- On a list that holds `xs`, fewer than 2 ^ 32 elements, with more rounds than these, `elem_find` tells whether the
-- element is one of them, `list_len` counts them, `list_empty` tells whether there are none, and
-- `list_traversal` returns the first one that the callback accepts, or NULL.
pub walks_lem :
    (l : KList) (m : Memory) (xs : List ℕ) (rounds obj : ℕ) (func : ℕ → Bool)
    → Holds m l xs
    → length xs < rounds
    → length xs < 2 ^ 32
    → (elem_find rounds l obj m ≡ some (has obj xs))
      × (list_len rounds l m ≡ some (length xs))
      × (list_empty l m ≡ (length xs == 0))
      × (list_traversal rounds l func m ≡ some (first_that func xs))
unfolding elem_find list_len
walks_lem l m xs rounds obj func h f s = (
  find_from l m obj rounds l.head xs h.chain h.distinct f,
  len_from l m rounds l.head 0 xs h.chain h.distinct f (omega arith) ∙ ap some (omega arith),
  empty_lem l m xs h,
  traversal_lem l m func rounds xs h f,
)
