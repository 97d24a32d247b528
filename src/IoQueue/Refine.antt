-- ===== src/IoQueue/Refine.antt =====
-- The ring behaves as a queue of at most 63 characters.
use loong_os.Prelude.{
  ℕ, zero, suc, ◌+◌, ◌-◌, ◌%◌, ◌<◌, ◌≡◌, ◌≢◌, refl, sym, ap, ap₂, ◌∙◌, true, Option, none, some,
  List, [], ◌∷◌, ◌++◌, arith, ok, ◌==◌, if◌then◌else◌, length, length-set, set, subst, drop, panic,
  get_or, Bool-cases, inl, inr,
}
use loong_os.Scheduler.{Kernel, is_blocked}
use loong_os.Scheduler.Invariant
use loong_os.Scheduler.Turns.{thread_unblock_lem}
use loong_os.IoQueue.{
  IoQueue, next_pos, ioq_full, ioq_empty, wake_if_waiting, wakeup, store_char, take_char,
}

-- The `n` characters from index `i` on, going round at 64.
unfoldable pub window : List ℕ → ℕ → ℕ → List ℕ
window buf i zero = []
window buf i (suc n) = get_or buf i 0 ∷ window buf (next_pos i) n

abbrev pub count : IoQueue → ℕ
count q = (q.head + 64 - q.tail) % 64

-- The characters that were put in and not taken out, the oldest first.
abbrev pub contents : IoQueue → List ℕ
contents q = window q.buf q.tail (count q)

pub record IsValid (q : IoQueue) : Type 0 where
  pub size : length q.buf ≡ 64
  pub head : q.head < 64
  pub tail : q.tail < 64

length-window : (buf : List ℕ) (i n : ℕ) → length (window buf i n) ≡ n
unfolding window
length-window buf i zero = refl
length-window buf i (suc n) = ap suc (length-window buf (next_pos i) n)

get_or-set_self : (buf : List ℕ) (i c : ℕ) → i < length buf → get_or (set buf i c) i 0 ≡ c
get_or-set_self [] i c h = absurd (omega arith)
get_or-set_self (b ∷ buf) zero c h = refl
get_or-set_self (b ∷ buf) (suc i) c h = get_or-set_self buf i c (omega arith)

get_or-set_other : (buf : List ℕ) (i j c : ℕ) → i ≢ j → get_or (set buf j c) i 0 ≡ get_or buf i 0
get_or-set_other [] i j c h = refl
get_or-set_other (b ∷ buf) zero zero c h = absurd (h refl)
get_or-set_other (b ∷ buf) zero (suc j) c h = refl
get_or-set_other (b ∷ buf) (suc i) zero c h = refl
get_or-set_other (b ∷ buf) (suc i) (suc j) c h = get_or-set_other buf i j c (omega arith)

-- A write just behind the window does not change it.
window-set :
    (buf : List ℕ) (i n c : ℕ)
    → i < 64
    → n < 64
    → window (set buf ((i + n) % 64) c) i n ≡ window buf i n
unfolding window
window-set buf i zero c hi hn = refl
window-set buf i (suc n) c hi hn =
    let e : (next_pos i + n) % 64 ≡ (i + suc n) % 64 = omega arith in
    let rest =
      ap (λ j. window (set buf j c) (next_pos i) n) (sym e)
      ∙ window-set buf (next_pos i) n c (omega arith) (omega arith) in
    ap₂ (λ (x : ℕ) (xs : List ℕ). x ∷ xs)
      (get_or-set_other buf i ((i + suc n) % 64) c (omega arith)) rest

window-snoc :
    (buf : List ℕ) (i n : ℕ)
    → i < 64
    → window buf i (suc n) ≡ window buf i n ++ (get_or buf ((i + n) % 64) 0 ∷ [])
unfolding window
window-snoc buf i zero hi =
    let e : i ≡ (i + 0) % 64 = omega arith in ap (λ j. get_or buf j 0 ∷ []) e
window-snoc buf i (suc n) hi =
    let e : (next_pos i + n) % 64 ≡ (i + suc n) % 64 = omega arith in
    ap (λ (xs : List ℕ). get_or buf i 0 ∷ xs)
      (window-snoc buf (next_pos i) n (omega arith)
        ∙ ap (λ j. window buf (next_pos i) n ++ (get_or buf j 0 ∷ [])) e)

-- A thread that waits at the queue, if any, is blocked in the kernel.
abbrev pub WaiterBlocked : Option ℕ → Kernel → Type 0
WaiterBlocked none k = Unit
WaiterBlocked (some t) k = is_blocked (k.status t) ≡ true

-- The ready queue with the waiter in front.
abbrev pub with_waiter : Option ℕ → List ℕ → List ℕ
with_waiter none ready_list = ready_list
with_waiter (some t) ready_list = t ∷ ready_list

wake_lem :
    (w : Option ℕ) (k : Kernel)
    → Invariant.IsValid k
    → WaiterBlocked w k
    → Invariant.Runs (wake_if_waiting w k) k.cur (with_waiter w k.ready_list)
unfolding wake_if_waiting wakeup
wake_lem none k v b = record { after = k; returns = refl; valid = v; cur = refl; ready_list = refl }
wake_lem (some t) k v b = thread_unblock_lem k t v b

contents-store :
    (buf : List ℕ) (i n c : ℕ)
    → length buf ≡ 64
    → i < 64
    → n < 64
    → window (set buf ((i + n) % 64) c) i (suc n) ≡ window buf i n ++ (c ∷ [])
contents-store buf i n c size hi hn =
    let at = (i + n) % 64 in
    window-snoc (set buf at c) i n hi
    ∙ ap₂ (λ (s : List ℕ) (x : ℕ). s ++ (x ∷ [])) (window-set buf i n c hi hn)
        (get_or-set_self buf at c (omega arith))

-- Once there is room, `ioq_putchar` appends its character to the contents and does not move the
-- producer; a blocked consumer that waits becomes ready, in front of the ready queue, and waits no
-- longer. The current thread keeps running, and the queue and the scheduler stay valid.
pub store_char_lem :
    (c : ℕ) (q : IoQueue) (k : Kernel)
    → IsValid q
    → Invariant.IsValid k
    → WaiterBlocked q.consumer k
    → length (contents q) < 63
    → (q' : IoQueue) × (k' : Kernel) × (store_char c q k ≡ ok (q', k'))
      × IsValid q'
      × (contents q' ≡ contents q ++ (c ∷ []))
      × (q'.producer ≡ q.producer)
      × (q'.consumer ≡ none)
      × Invariant.IsValid k'
      × (k'.cur ≡ k.cur)
      × (k'.ready_list ≡ with_waiter q.consumer k.ready_list)
unfolding store_char
store_char_lem c q k v kv b room =
    let record { after = k'; returns = e; valid = kv'; cur = same; ready_list = woken } =
      wake_lem q.consumer k kv b in
    let n = count q in
    let few : n < 63 = omega (arith, length-window q.buf q.tail n) in
    let at : (q.tail + n) % 64 ≡ q.head = omega (arith, v) in
    let more : (next_pos q.head + 64 - q.tail) % 64 ≡ suc n = omega (arith, v) in
    let q' : IoQueue = record q {
      buf = set q.buf q.head c;
      head = next_pos q.head;
      consumer = none;
    } in
    let valid : IsValid q' = record {
      size = length-set q.buf q.head c ∙ v.size;
      head = omega arith;
      tail = v.tail;
    } in
    let holds : contents q' ≡ contents q ++ (c ∷ []) =
      ap (window (set q.buf q.head c) q.tail) more
      ∙ subst (λ j. window (set q.buf j c) q.tail (suc n) ≡ contents q ++ (c ∷ [])) at
          (contents-store q.buf q.tail n c v.size v.tail (omega arith)) in
    (q', k', rw e refl, valid, holds, refl, refl, kv', same, woken)

-- Once there is a character, `ioq_getchar` returns the oldest and leaves the others; a blocked
-- producer that waits becomes ready, in front of the ready queue, and waits no longer. The current
-- thread keeps running, and the queue and the scheduler stay valid.
pub take_char_lem :
    (c : ℕ) (s : List ℕ) (q : IoQueue) (k : Kernel)
    → IsValid q
    → Invariant.IsValid k
    → WaiterBlocked q.producer k
    → contents q ≡ c ∷ s
    → (q' : IoQueue) × (k' : Kernel) × (take_char q k ≡ ok (c, q', k'))
      × IsValid q'
      × (contents q' ≡ s)
      × (q'.producer ≡ none)
      × (q'.consumer ≡ q.consumer)
      × Invariant.IsValid k'
      × (k'.cur ≡ k.cur)
      × (k'.ready_list ≡ with_waiter q.producer k.ready_list)
unfolding take_char window
take_char_lem c s q k v kv b full =
    let record { after = k'; returns = e; valid = kv'; cur = same; ready_list = woken } =
      wake_lem q.producer k kv b in
    let n = length s in
    let size : count q ≡ suc n = sym (length-window q.buf q.tail (count q)) ∙ ap length full in
    let split : get_or q.buf q.tail 0 ∷ window q.buf (next_pos q.tail) n ≡ c ∷ s =
      ap (window q.buf q.tail) (sym size) ∙ full in
    let less : (q.head + 64 - next_pos q.tail) % 64 ≡ n = omega (arith, v, size) in
    let q' : IoQueue = record q { tail = next_pos q.tail; producer = none } in
    let valid : IsValid q' = record { size = v.size; head = v.head; tail = omega arith } in
    let front : get_or q.buf q.tail 0 ≡ c = ap (λ (s : List ℕ). get_or s 0 0) split in
    let holds : contents q' ≡ s = ap (window q.buf (next_pos q.tail)) less ∙ ap (drop 1) split in
    (q', k', rw (e, front) refl, valid, holds, refl, refl, kv', same, woken)

ring_full : (h t : ℕ) → h < 64 → t < 64 → (next_pos h == t) ≡ ((h + 64 - t) % 64 == 63)
ring_full h t hh ht = ground arith

ring_empty : (h t : ℕ) → h < 64 → t < 64 → (h == t) ≡ ((h + 64 - t) % 64 == 0)
ring_empty h t hh ht = ground arith

-- `ioq_full` says whether the queue holds 63 characters and `ioq_empty` whether it holds none, and
-- both fail their ASSERT if interrupts are on.
pub ioq_tests :
    (q : IoQueue) (k : Kernel)
    → IsValid q
    → (ioq_full q k ≡ (if k.intr_on then panic else ok (length (contents q) == 63)))
      × (ioq_empty q k ≡ (if k.intr_on then panic else ok (length (contents q) == 0)))
unfolding ioq_full ioq_empty
ioq_tests q k v =
    let size = length-window q.buf q.tail (count q) in
    let full = ring_full q.head q.tail v.head v.tail in
    let empty = ring_empty q.head q.tail v.head v.tail in
    elim (Bool-cases k.intr_on) [
      | inl on ↦ (rw on refl, rw on refl)
      | inr off ↦ (rw (off, size, full) refl, rw (off, size, empty) refl)
    ]
