-- ===== src/Keyboard/Modifiers.antt =====
-- What the handler does with the keys that are held, and with caps lock.
use loong_os.Prelude.{
  ℕ, ◌≡◌, refl, sym, subst, Bool, true, false, not, List, [], ◌∷◌, arith, Outcome, ok, ◌>>=◌,
  if◌then◌else◌,
}
use loong_os.Scheduler.{Kernel}
use loong_os.IoQueue.{IoQueue}
use loong_os.Keyboard.{
  Keyboard, pressed_char, handle_key, break_key, make_key, intr_keyboard_handler,
}

pub data Modifier : Type 0 where
  ctrl_l ctrl_r shift_l shift_r alt_l alt_r caps_lock : Modifier

-- The bytes that a key sends when it is pressed (`true`) and when it is released.
abbrev pub bytes : Modifier → Bool → List ℕ
bytes ctrl_l down = (if down then 0x1d else 0x9d) ∷ []
bytes ctrl_r down = 0xe0 ∷ (if down then 0x1d else 0x9d) ∷ []
bytes shift_l down = (if down then 0x2a else 0xaa) ∷ []
bytes shift_r down = (if down then 0x36 else 0xb6) ∷ []
bytes alt_l down = (if down then 0x38 else 0xb8) ∷ []
bytes alt_r down = 0xe0 ∷ (if down then 0x38 else 0xb8) ∷ []
bytes caps_lock down = (if down then 0x3a else 0xba) ∷ []

-- The state that follows: a key is held until it is released, and caps lock changes over when it is
-- pressed.
abbrev pub held : Modifier → Bool → Keyboard → Keyboard
held ctrl_l down s = record s { ctrl_status = down }
held ctrl_r down s = record s { ctrl_status = down }
held shift_l down s = record s { shift_status = down }
held shift_r down s = record s { shift_status = down }
held alt_l down s = record s { alt_status = down }
held alt_r down s = record s { alt_status = down }
held caps_lock down s = record s {
  caps_lock_status = if down then not s.caps_lock_status else s.caps_lock_status;
}

-- One interrupt for each byte.
unfoldable pub interrupts :
    List ℕ → Keyboard → IoQueue → Kernel → Outcome (Keyboard × IoQueue × Kernel)
interrupts [] s q k = ok (s, q, k)
interrupts (b ∷ bs) s q k = intr_keyboard_handler b s q k >>= λ r. interrupts bs r.0 r.1 r.2

abbrev keyboard : Bool → Bool → Bool → Bool → Keyboard
keyboard c s a l = record {
  ctrl_status = c;
  shift_status = s;
  alt_status = a;
  caps_lock_status = l;
  ext_scancode = false;
}

holds :
    (m : Modifier) (down c s a l : Bool) (q : IoQueue) (k : Kernel)
    → interrupts (bytes m down) (keyboard c s a l) q k ≡ ok (held m down (keyboard c s a l), q, k)
unfolding interrupts intr_keyboard_handler handle_key pressed_char break_key make_key
holds ctrl_l true c s a l q k = ground arith
holds ctrl_l false c s a l q k = refl
holds ctrl_r true c s a l q k = ground arith
holds ctrl_r false c s a l q k = refl
holds shift_l true c s a l q k = ground arith
holds shift_l false c s a l q k = refl
holds shift_r true c s a l q k = ground arith
holds shift_r false c s a l q k = refl
holds alt_l true c s a l q k = ground arith
holds alt_l false c s a l q k = refl
holds alt_r true c s a l q k = ground arith
holds alt_r false c s a l q k = refl
holds caps_lock true c s a l q k = ground arith
holds caps_lock false c s a l q k = refl

-- If the last byte was not 0xe0, pressing or releasing a Ctrl, Shift or Alt key, left or right, sets
-- or clears the status of its kind, and pressing caps lock turns its status over; releasing caps
-- lock changes nothing. The other statuses, the queue and the scheduler stay as they were, also
-- for the right Ctrl and Alt keys, which take two interrupts.
pub modifiers_lem :
    (m : Modifier) (down : Bool) (s : Keyboard) (q : IoQueue) (k : Kernel)
    → s.ext_scancode ≡ false
    → interrupts (bytes m down) s q k ≡ ok (held m down s, q, k)
modifiers_lem m down s q k ext =
    let family = λ (e : Bool).
      interrupts (bytes m down) (record s { ext_scancode = e }) q k
      ≡ ok (held m down (record s { ext_scancode = e }), q, k) in
    subst family (sym ext)
      (holds m down s.ctrl_status s.shift_status s.alt_status s.caps_lock_status q k)
