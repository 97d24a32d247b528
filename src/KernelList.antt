-- ===== src/KernelList.antt =====
-- lib/kernel/list.c and list.h: the doubly linked list that the scheduler, the locks, the heap and
-- the inode cache thread through their objects; with the interrupt flag of kernel/interrupt.c,
-- under which its updates run.
-- A pointer is an address, and the memory gives each address its two fields.
pub mod Chain
pub mod Update
pub mod Effects
pub mod Walk
mod Tests
use loong_os.Prelude.{
  ℕ, zero, suc, ◌+◌, Bool, true, false, Option, none, some, ◌==◌, if◌then◌else◌, u32,
}

-- The `prev` and `next` fields of every `struct list_elem`, and the interrupt flag.
pub record Memory : Type 0 where
  pub prev : ℕ → ℕ
  pub next : ℕ → ℕ
  pub intr_on : Bool

-- `struct list`: the addresses of its two sentinels.
pub record KList : Type 0 where
  pub head : ℕ
  pub tail : ℕ

abbrev pub null : ℕ
null = 0

abbrev pub update : (ℕ → ℕ) → ℕ → ℕ → ℕ → ℕ
update f p v q = if q == p then v else f q

-- `p->prev = v` and `p->next = v`
abbrev pub set_prev : ℕ → ℕ → Memory → Memory
set_prev p v m = record m { prev = update m.prev p v }

abbrev pub set_next : ℕ → ℕ → Memory → Memory
set_next p v m = record m { next = update m.next p v }

-- `intr_enable` and `intr_disable` return the flag as it was.
abbrev pub intr_enable : Memory → Bool × Memory
intr_enable m = (m.intr_on, record m { intr_on = true })

abbrev pub intr_disable : Memory → Bool × Memory
intr_disable m = (m.intr_on, record m { intr_on = false })

abbrev pub intr_set_status : Bool → Memory → Bool × Memory
intr_set_status status m = if status then intr_enable m else intr_disable m

pub list_init : KList → Memory → Memory
list_init l m =
    let m = set_prev l.head null m in
    let m = set_next l.head l.tail m in let m = set_prev l.tail l.head m in set_next l.tail null m

pub list_insert_before : ℕ → ℕ → Memory → Memory
list_insert_before before elem m =
    let (old_status, m₀) = intr_disable m in
    let m₁ = set_next (m₀.prev before) elem m₀ in
    let m₂ = set_prev elem (m₁.prev before) m₁ in
    let m₃ = set_next elem before m₂ in
    let m₄ = set_prev before elem m₃ in (intr_set_status old_status m₄).1

pub list_push : KList → ℕ → Memory → Memory
unfolding list_insert_before
list_push plist elem m = list_insert_before (m.next plist.head) elem m

pub list_append : KList → ℕ → Memory → Memory
unfolding list_insert_before
list_append plist elem m = list_insert_before plist.tail elem m

pub list_remove : ℕ → Memory → Memory
list_remove pelem m =
    let (old_status, m₀) = intr_disable m in
    let m₁ = set_next (m₀.prev pelem) (m₀.next pelem) m₀ in
    let m₂ = set_prev (m₁.next pelem) (m₁.prev pelem) m₁ in (intr_set_status old_status m₂).1

pub list_pop : KList → Memory → ℕ × Memory
unfolding list_remove
list_pop plist m = let elem = m.next plist.head in (elem, list_remove elem m)

-- The loops are given their rounds; `none` says that these were too few.
pub elem_find_loop : KList → ℕ → Memory → ℕ → ℕ → Option Bool
elem_find_loop plist obj_elem m zero elem = none
elem_find_loop plist obj_elem m (suc rounds) elem =
    let rest = elem_find_loop plist obj_elem m rounds (m.next elem) in
    if elem == plist.tail then some false else if elem == obj_elem then some true else rest

pub elem_find : ℕ → KList → ℕ → Memory → Option Bool
unfolding elem_find_loop
elem_find rounds plist obj_elem m = elem_find_loop plist obj_elem m rounds (m.next plist.head)

pub list_empty : KList → Memory → Bool
list_empty plist m = m.next plist.head == plist.tail

-- The callback `func(elem, arg)` is a test on the element.
pub list_traversal_loop : KList → (ℕ → Bool) → Memory → ℕ → ℕ → Option ℕ
list_traversal_loop plist func m zero elem = none
list_traversal_loop plist func m (suc rounds) elem =
    let rest = list_traversal_loop plist func m rounds (m.next elem) in
    if elem == plist.tail then some null else if func elem then some elem else rest

pub list_traversal : ℕ → KList → (ℕ → Bool) → Memory → Option ℕ
unfolding list_traversal_loop list_empty
list_traversal rounds plist func m =
    let found = list_traversal_loop plist func m rounds (m.next plist.head) in
    if list_empty plist m then some null else found

pub list_len_loop : KList → Memory → ℕ → ℕ → ℕ → Option ℕ
list_len_loop plist m zero elem length = none
list_len_loop plist m (suc rounds) elem length =
    let rest = list_len_loop plist m rounds (m.next elem) (u32 (length + 1)) in
    if elem == plist.tail then some length else rest

pub list_len : ℕ → KList → Memory → Option ℕ
unfolding list_len_loop
list_len rounds plist m = list_len_loop plist m rounds (m.next plist.head) 0
