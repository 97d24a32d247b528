-- ===== src/Keyboard/Keys.antt =====
-- What the handler does with the keys that write a character.
use loong_os.Prelude.{
  ℕ, ◌-◌, ◌≤◌, ◌<◌, ◌≡◌, ◌≢◌, refl, subst, panic, Bool, true, false, not, ◌&&◌, [], ◌∷◌, ◌++◌,
  arith, ok, ltb, ◌==◌, ==_iff, if◌then◌else◌, length, Bool-cases, inl, inr, leb, bit_and, u8,
}
use loong_os.Prelude.Bits.{tried, tried_at, Bool-and}
use loong_os.Scheduler.{Kernel}
use loong_os.Scheduler.Invariant
use loong_os.IoQueue.{IoQueue, ioq_full}
use loong_os.IoQueue.Refine.{IsValid, contents, WaiterBlocked, store_char_lem, ioq_tests}
use loong_os.Keyboard.{
  Keyboard, key_char, shifted, pressed_char, enqueue, handle_key, intr_keyboard_handler,
}

abbrev pub is_letter : ℕ → Bool
is_letter c = leb b'a' c && leb c b'z'

abbrev pub differ : Bool → Bool → Bool
differ true b = not b
differ false b = b

-- The character that a key writes: a letter is a capital if just one of shift and caps lock is on,
-- and only shift counts for the other keys.
abbrev pub meant : ℕ → Bool → Bool → ℕ
meant key shift caps =
    let c = key_char key false in
    if is_letter c then (if differ shift caps then c - 32 else c) else key_char key shift

check_key : Bool → Bool → ℕ → Bool
check_key shift caps key = key_char key (shifted key shift caps) == meant key shift caps

checks : (shift caps : Bool) → tried 59 (check_key shift caps) ≡ true
unfolding tried check_key
checks true true = refl
checks true false = refl
checks false true = refl
checks false false = refl

key_char_lem :
    (key : ℕ) (shift caps : Bool)
    → key < 59
    → key_char key (shifted key shift caps) ≡ meant key shift caps
unfolding check_key
key_char_lem key shift caps h =
    let found = tried_at 59 (check_key shift caps) key (checks shift caps) h in
    (==_iff (key_char key (shifted key shift caps)) (meant key shift caps)).0 found

plain_code : ℕ → Bool
plain_code key = (bit_and key 0x0080 == 0) && (bit_and key 0x00ff == key)

plain_codes : tried 59 plain_code ≡ true
unfolding tried plain_code
plain_codes = refl

-- `enqueue` of a character that is kept, or lost because the queue is full.
enqueue_lem :
    (c : ℕ) (q : IoQueue) (k : Kernel)
    → IsValid q
    → Invariant.IsValid k
    → WaiterBlocked q.consumer k
    → k.intr_on ≡ false
    → length (contents q) ≤ 63
    → (q' : IoQueue) × (k' : Kernel) × (enqueue c q k ≡ ok (q', k'))
      × IsValid q'
      × (contents q' ≡ (if length (contents q) == 63 then contents q else contents q ++ (c ∷ [])))
      × Invariant.IsValid k'
      × (k'.cur ≡ k.cur)
unfolding enqueue
enqueue_lem c q k v kv b off most =
    let full : ioq_full q k ≡ ok (length (contents q) == 63) =
      subst (λ b. ioq_full q k ≡ (if b then panic else ok (length (contents q) == 63))) off
        (ioq_tests q k v).0 in
    elim (Bool-cases (length (contents q) == 63)) [
      | inl e ↦ (q, k, rw (full, e) refl, v, rw e refl, kv, refl)
      | inr e ↦
          let (q', k', r, v', holds, _, _, kv', same, _) =
            store_char_lem c q k v kv b (ground (arith, e, most)) in
          (q', k', rw (full, e) r, v', rw e holds, kv', same)
    ]

-- A key that writes a character, pressed while neither Ctrl is held and not behind 0xe0, appends
-- to the queue the character that it means under shift and caps lock; if the queue holds 63
-- characters already, it is lost. The state of the other keys stays as it was, and the current
-- thread keeps running.
pub typed_key :
    (key : ℕ) (s : Keyboard) (q : IoQueue) (k : Kernel)
    → 0 < key
    → key < 59
    → meant key s.shift_status s.caps_lock_status ≢ 0
    → s.ctrl_status ≡ false
    → s.ext_scancode ≡ false
    → IsValid q
    → Invariant.IsValid k
    → WaiterBlocked q.consumer k
    → k.intr_on ≡ false
    → length (contents q) ≤ 63
    → let c = meant key s.shift_status s.caps_lock_status in
      (q' : IoQueue) × (k' : Kernel) × (intr_keyboard_handler key s q k
        ≡ ok (record s { ext_scancode = false }, q', k'))
      × IsValid q'
      × (contents q' ≡ (if length (contents q) == 63 then contents q else contents q ++ (c ∷ [])))
      × Invariant.IsValid k'
      × (k'.cur ≡ k.cur)
unfolding intr_keyboard_handler handle_key pressed_char plain_code
typed_key key s q k pos small letter ctrl ext v kv b off most =
    let c = meant key s.shift_status s.caps_lock_status in
    let (q', k', r, v', holds, kv', same) = enqueue_lem c q k v kv b off most in
    let (bits, index) =
      Bool-and (bit_and key 0x0080 == 0) (bit_and key 0x00ff == key)
        (tried_at 59 plain_code key plain_codes small) in
    let low : bit_and key 0x00ff ≡ key = (==_iff (bit_and key 0x00ff) key).0 index in
    let byte : u8 key ≡ key = omega arith in
    let not_ext : (key == 0xe0) ≡ false = ground arith in
    let char = key_char_lem key s.shift_status s.caps_lock_status small in
    let shown : (c == 0) ≡ false = ground (arith, letter) in
    let above : ltb 0 key ≡ true = ground arith in
    let below : ltb key 0x3b ≡ true = ground arith in
    (
      q',
      k',
      rw (ext, not_ext, bits, above, below, low, byte, ctrl, char, shown, r) refl,
      v',
      holds,
      kv',
      same,
    )
