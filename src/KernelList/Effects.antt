-- ===== src/KernelList/Effects.antt =====
-- Each operation of list.c on the sequence of elements that a list holds.
use loong_os.Prelude.{
  drop, ℕ, ◌≡◌, ◌≢◌, refl, sym, ap, subst, ◌∙◌, true, false, List, [], ◌∷◌, ◌++◌, arith,
  append_assoc,
}
use loong_os.KernelList.{Memory, KList, list_push, list_append, list_remove, list_pop, list_init}
use loong_os.KernelList.Chain.{Chain, has, Distinct, nodes, Holds, Chain-frame}
use loong_os.KernelList.Update.{SameOutside, insert-between, remove-between}

unsnoc : (x : ℕ) (xs : List ℕ) → (us : List ℕ) × (a : ℕ) × (x ∷ xs ≡ us ++ (a ∷ []))
unsnoc x [] = ([], x, refl)
unsnoc x (y ∷ xs) = let (us, a, e) = unsnoc y xs in (x ∷ us, a, ap (λ r. x ∷ r) e)

nodes-split :
    (l : KList) (us : List ℕ) (a : ℕ) (xs zs : List ℕ)
    → l.head ∷ xs ≡ us ++ (a ∷ [])
    → nodes l (xs ++ zs) ≡ us ++ (a ∷ zs ++ (l.tail ∷ []))
nodes-split l us a xs zs e =
    ap (λ r. l.head ∷ r) (append_assoc xs zs (l.tail ∷ []))
    ∙ ap (λ r. r ++ (zs ++ (l.tail ∷ []))) e
    ∙ append_assoc us (a ∷ []) (zs ++ (l.tail ∷ []))

-- What an operation makes of a list, and that it touches nothing else.
abbrev pub Becomes : Memory → KList → List ℕ → List ℕ → Memory → Type 0
Becomes m l touched ys m' = Holds m' l ys × SameOutside (nodes l touched) m m'

-- The empty list is what `list_init` makes of two different sentinels.
pub list_init-Holds : (l : KList) (m : Memory) → l.head ≢ l.tail → Holds (list_init l m) l []
unfolding list_init
list_init-Holds l m ne = record { chain = ground arith; distinct = ground arith }

append-nil_eq : (xs : List ℕ) → xs ++ [] ≡ xs
append-nil_eq [] = refl
append-nil_eq (x ∷ xs) = ap (λ r. x ∷ r) (append-nil_eq xs)

retold :
    {l : KList} {m m' : Memory} {ns : List ℕ} {xs : List ℕ}
    → ns ≡ nodes l xs
    → Chain m' ns
    → Distinct ns
    → SameOutside ns m m'
    → Becomes m l xs xs m'
retold {m} {m'} e c d s = (
  record { chain = subst (Chain m') e c; distinct = subst Distinct e d },
  subst (λ ns. SameOutside ns m m') e s,
)

list_append-Becomes :
    (l : KList) (m : Memory) (xs : List ℕ) (e : ℕ)
    → Holds m l xs
    → has e (nodes l xs) ≡ false
    → Becomes m l (xs ++ (e ∷ [])) (xs ++ (e ∷ [])) (list_append l e m)
unfolding list_append
list_append-Becomes l m xs e h out =
    let (us, a, eq) = unsnoc l.head xs in
    let before : nodes l xs ≡ us ++ (a ∷ l.tail ∷ []) =
      ap (nodes l) (sym (append-nil_eq xs)) ∙ nodes-split l us a xs [] eq in
    let after : nodes l (xs ++ (e ∷ [])) ≡ us ++ (a ∷ e ∷ l.tail ∷ []) =
      nodes-split l us a xs (e ∷ []) eq in
    let (c, d, s) =
      insert-between m us a l.tail [] e (subst (Chain m) before h.chain)
        (subst Distinct before h.distinct) (subst (λ ns. has e ns ≡ false) before out) in
    retold (sym after) c d s

list_push-Becomes :
    (l : KList) (m : Memory) (xs : List ℕ) (e : ℕ)
    → Holds m l xs
    → has e (nodes l xs) ≡ false
    → Becomes m l (e ∷ xs) (e ∷ xs) (list_push l e m)
unfolding list_push
list_push-Becomes l m [] e h out =
    let first : m.next l.head ≡ l.tail = h.chain.0 in
    let (c, d, s) = insert-between m [] l.head l.tail [] e h.chain h.distinct out in
    rw first (record { chain = c; distinct = d }, s)
list_push-Becomes l m (x ∷ xs) e h out =
    let first : m.next l.head ≡ x = h.chain.0 in
    let (c, d, s) = insert-between m [] l.head x (xs ++ (l.tail ∷ [])) e h.chain h.distinct out in
    rw first (record { chain = c; distinct = d }, s)

list_remove-Becomes :
    (l : KList) (m : Memory) (xs ys : List ℕ) (x : ℕ)
    → Holds m l (xs ++ (x ∷ ys))
    → Becomes m l (xs ++ ys) (xs ++ ys) (list_remove x m)
list_remove-Becomes l m xs [] x h =
    let (us, a, eq) = unsnoc l.head xs in
    let before : nodes l (xs ++ (x ∷ [])) ≡ us ++ (a ∷ x ∷ l.tail ∷ []) =
      nodes-split l us a xs (x ∷ []) eq in
    let after : nodes l (xs ++ []) ≡ us ++ (a ∷ l.tail ∷ []) = nodes-split l us a xs [] eq in
    let (c, d, s) =
      remove-between m us a x l.tail [] (subst (Chain m) before h.chain)
        (subst Distinct before h.distinct) in
    retold (sym after) c d s
list_remove-Becomes l m xs (y ∷ ys) x h =
    let (us, a, eq) = unsnoc l.head xs in
    let vs = ys ++ (l.tail ∷ []) in
    let before : nodes l (xs ++ (x ∷ y ∷ ys)) ≡ us ++ (a ∷ x ∷ y ∷ vs) =
      nodes-split l us a xs (x ∷ y ∷ ys) eq in
    let after : nodes l (xs ++ (y ∷ ys)) ≡ us ++ (a ∷ y ∷ vs) = nodes-split l us a xs (y ∷ ys) eq in
    let (c, d, s) =
      remove-between m us a x y vs (subst (Chain m) before h.chain)
        (subst Distinct before h.distinct) in
    retold (sym after) c d s

list_pop_lem :
    (l : KList) (m : Memory) → list_pop l m ≡ (m.next l.head, list_remove (m.next l.head) m)
unfolding list_pop
list_pop_lem l m = refl

-- An element that is not in the list is put in front by `list_push` and at the end by
-- `list_append`. Both change the fields of no other address than the nodes of the new list, and
-- leave the interrupt flag as it was.
pub list_insert_lem :
    (l : KList) (m : Memory) (xs : List ℕ) (e : ℕ)
    → Holds m l xs
    → has e (nodes l xs) ≡ false
    → Becomes m l (e ∷ xs) (e ∷ xs) (list_push l e m)
      × Becomes m l (xs ++ (e ∷ [])) (xs ++ (e ∷ [])) (list_append l e m)
list_insert_lem l m xs e h out =
    (list_push-Becomes l m xs e h out, list_append-Becomes l m xs e h out)

abbrev pub first_or : ℕ → List ℕ → ℕ
first_or x [] = x
first_or x (y ∷ ys) = y

list_pop-first :
    (l : KList) (m : Memory) (ys : List ℕ) (x : ℕ)
    → Holds m l (x ∷ ys)
    → ((list_pop l m).0 ≡ x) × Becomes m l ys ys (list_pop l m).1
list_pop-first l m ys x h =
    rw (list_pop_lem l m, h.chain.0) (refl, list_remove-Becomes l m [] ys x h)

-- `list_remove` takes an element out of the list that holds it, wherever it stands in it, and
-- `list_pop` of a list that is not empty returns the first element and takes it out. They change
-- the fields of no other address than the nodes of the new list, and leave the interrupt flag as it
-- was.
pub list_delete_lem :
    (l : KList) (m : Memory) (xs ys : List ℕ) (x : ℕ)
    → Holds m l (xs ++ (x ∷ ys))
    → let others = drop 1 (xs ++ (x ∷ ys)) in
      Becomes m l (xs ++ ys) (xs ++ ys) (list_remove x m)
      × ((list_pop l m).0 ≡ first_or x xs)
      × Becomes m l others others (list_pop l m).1
list_delete_lem l m [] ys x h =
    let (e, b) = list_pop-first l m ys x h in (list_remove-Becomes l m [] ys x h, e, b)
list_delete_lem l m (z ∷ zs) ys x h =
    let (e, b) = list_pop-first l m (zs ++ (x ∷ ys)) z h in
    (list_remove-Becomes l m (z ∷ zs) ys x h, e, b)

-- A list that has no address in common with the changed one still holds what it held.
pub SameOutside-Holds :
    (l : KList) (m m' : Memory) (ns ys : List ℕ)
    → SameOutside ns m m'
    → ((q : ℕ) → has q (nodes l ys) ≡ true → has q ns ≡ false)
    → Holds m l ys
    → Holds m' l ys
SameOutside-Holds l m m' ns ys s apart h = record {
  chain =
      Chain-frame m m' l.head (ys ++ (l.tail ∷ [])) (λ q i. s.next q (apart q i))
        (λ q i. s.prev q (apart q (ground arith))) h.chain;
  distinct = h.distinct;
}
