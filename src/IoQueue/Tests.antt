-- ===== src/IoQueue/Tests.antt =====
-- The ring's theorems on a queue that wraps round, with a consumer that waits.
use loong_os.Prelude.{
  ◌≡◌, refl, false, none, some, [], ◌∷◌, ◌++◌, arith, ok, ◌==◌, if◌then◌else◌, replicate,
}
use loong_os.Scheduler.{Kernel, running, ready, blocked}
use loong_os.Scheduler.Invariant
use loong_os.IoQueue.{IoQueue, store_char, take_char}
use loong_os.IoQueue.Refine.{IsValid, contents, window, store_char_lem, take_char_lem}

abbrev kernel : Kernel
kernel = record {
  cur = 1;
  status = λ t. if t == 1 then running else if t == 2 then ready else blocked;
  ready_list = 2 ∷ [];
  idle_thread = 9;
  priority = λ t. 31;
  thread_ticks = λ t. 0;
  elapsed_ticks = λ t. 0;
  ticks = 0;
  stack_magic = λ t. 0x12345678;
  intr_on = false;
}

kernel-IsValid : Invariant.IsValid kernel
kernel-IsValid = record {
  queue = λ t. ground arith;
  runs = λ t. ground arith;
  distinct = (refl, tt);
  idle = refl;
}

-- 'a' stands in the last place of the ring and 'b' in the first; thread 7 waits for a character.
abbrev wrapped : IoQueue
wrapped = record {
  producer = none;
  consumer = some 7;
  buf = b'b' ∷ (replicate 62 0 ++ (b'a' ∷ []));
  head = 1;
  tail = 63;
}

wrapped-IsValid : IsValid wrapped
wrapped-IsValid = record { size = refl; head = omega arith; tail = omega arith }

contents-wrapped : contents wrapped ≡ b'a' ∷ b'b' ∷ []
unfolding window
contents-wrapped = refl

store_char_example :
    (q' : IoQueue) × (k' : Kernel) × (store_char b'c' wrapped kernel ≡ ok (q', k'))
    × IsValid q'
    × (contents q' ≡ contents wrapped ++ (b'c' ∷ []))
    × (q'.producer ≡ none)
    × (q'.consumer ≡ none)
    × Invariant.IsValid k'
    × (k'.cur ≡ 1)
    × (k'.ready_list ≡ 7 ∷ 2 ∷ [])
unfolding window
store_char_example =
    store_char_lem b'c' wrapped kernel wrapped-IsValid kernel-IsValid refl (omega arith)

take_char_example :
    (q' : IoQueue) × (k' : Kernel) × (take_char wrapped kernel ≡ ok (b'a', q', k'))
    × IsValid q'
    × (contents q' ≡ b'b' ∷ [])
    × (q'.producer ≡ none)
    × (q'.consumer ≡ some 7)
    × Invariant.IsValid k'
    × (k'.cur ≡ 1)
    × (k'.ready_list ≡ 2 ∷ [])
unfolding window
take_char_example =
    take_char_lem b'a' (b'b' ∷ []) wrapped kernel wrapped-IsValid kernel-IsValid tt refl
