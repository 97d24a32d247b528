-- ===== src/Keyboard.antt =====
-- device/keyboard.c: the handler of keyboard interrupts.
-- `inb(KBD_BUF_PORT)` is the byte that the keyboard sends, an argument. What the handler prints for
-- an unknown key is left out.
pub mod Keys
pub mod Modifiers
mod Tests
use loong_os.Prelude.{
  ℕ, ◌+◌, ◌-◌, Bool, true, false, not, ◌&&◌, ◌||◌, List, [], ◌∷◌, Outcome, ok, ◌>>=◌, ltb, ◌==◌,
  if◌then◌else◌, bit_and, bit_or, get_or, u8,
}
use loong_os.Scheduler.{Kernel}
use loong_os.IoQueue.{IoQueue, ioq_full, store_char}

-- The keys that are held, and whether the last byte was 0xe0.
pub record Keyboard : Type 0 where
  pub ctrl_status : Bool
  pub shift_status : Bool
  pub alt_status : Bool
  pub caps_lock_status : Bool
  pub ext_scancode : Bool

abbrev pub ctrl_l_make : ℕ
ctrl_l_make = 0x1d

abbrev pub ctrl_r_make : ℕ
ctrl_r_make = 0xe01d

abbrev pub shift_l_make : ℕ
shift_l_make = 0x2a

abbrev pub shift_r_make : ℕ
shift_r_make = 0x36

abbrev pub alt_l_make : ℕ
alt_l_make = 0x38

abbrev pub alt_r_make : ℕ
alt_r_make = 0xe038

abbrev pub caps_lock_make : ℕ
caps_lock_make = 0x3a

-- The two characters of each key, without and with shift.
abbrev pub keymap : List (ℕ × ℕ)
keymap =
    (0, 0)
    ∷ (27, 27)
    ∷ (49, 33)
    ∷ (50, 64)
    ∷ (51, 35)
    ∷ (52, 36)
    ∷ (53, 37)
    ∷ (54, 94)
    ∷ (55, 38)
    ∷ (56, 42)
    ∷ (57, 40)
    ∷ (48, 41)
    ∷ (45, 95)
    ∷ (61, 43)
    ∷ (8, 8)
    ∷ (9, 9)
    ∷ (113, 81)
    ∷ (119, 87)
    ∷ (101, 69)
    ∷ (114, 82)
    ∷ (116, 84)
    ∷ (121, 89)
    ∷ (117, 85)
    ∷ (105, 73)
    ∷ (111, 79)
    ∷ (112, 80)
    ∷ (91, 123)
    ∷ (93, 125)
    ∷ (13, 13)
    ∷ (0, 0)
    ∷ (97, 65)
    ∷ (115, 83)
    ∷ (100, 68)
    ∷ (102, 70)
    ∷ (103, 71)
    ∷ (104, 72)
    ∷ (106, 74)
    ∷ (107, 75)
    ∷ (108, 76)
    ∷ (59, 58)
    ∷ (39, 34)
    ∷ (96, 126)
    ∷ (0, 0)
    ∷ (92, 124)
    ∷ (122, 90)
    ∷ (120, 88)
    ∷ (99, 67)
    ∷ (118, 86)
    ∷ (98, 66)
    ∷ (110, 78)
    ∷ (109, 77)
    ∷ (44, 60)
    ∷ (46, 62)
    ∷ (47, 63)
    ∷ (0, 0)
    ∷ (42, 42)
    ∷ (0, 0)
    ∷ (32, 32)
    ∷ (0, 0)
    ∷ []

-- The keys on which caps lock has no effect.
abbrev pub double_char : ℕ → Bool
double_char scancode =
    ltb scancode 0x0e
    || (scancode == 0x29)
    || (scancode == 0x1a)
    || (scancode == 0x1b)
    || (scancode == 0x2b)
    || (scancode == 0x27)
    || (scancode == 0x28)
    || (scancode == 0x33)
    || (scancode == 0x34)
    || (scancode == 0x35)

abbrev pub shifted : ℕ → Bool → Bool → Bool
shifted scancode shift_down_last caps_lock_last =
    if double_char scancode
    then shift_down_last
    else if shift_down_last && caps_lock_last
    then false
    else shift_down_last || caps_lock_last

-- `keymap[index][shift]`
abbrev pub key_char : ℕ → Bool → ℕ
key_char index shift = let row = get_or keymap index (0, 0) in if shift then row.1 else row.0

-- The character of a pressed key, with Ctrl+l and Ctrl+u made control characters.
unfoldable pub pressed_char : ℕ → Keyboard → ℕ
pressed_char scancode s =
    let c =
      key_char (u8 (bit_and scancode 0x00ff))
        (shifted scancode s.shift_status s.caps_lock_status) in
    if s.ctrl_status && ((c == b'l') || (c == b'u')) then u8 (c + 256 - b'a') else c

-- What a released key, given by its make code, changes.
pub break_key : ℕ → Keyboard → Keyboard
break_key make_code s =
    if (make_code == ctrl_l_make) || (make_code == ctrl_r_make)
    then record s { ctrl_status = false }
    else if (make_code == alt_l_make) || (make_code == alt_r_make)
    then record s { alt_status = false }
    else if (make_code == shift_l_make) || (make_code == shift_r_make)
    then record s { shift_status = false }
    else s

-- What a pressed key without a character changes.
pub make_key : ℕ → Keyboard → Keyboard
make_key scancode s =
    if (scancode == ctrl_l_make) || (scancode == ctrl_r_make)
    then record s { ctrl_status = true }
    else if (scancode == shift_l_make) || (scancode == shift_r_make)
    then record s { shift_status = true }
    else if (scancode == alt_l_make) || (scancode == alt_r_make)
    then record s { alt_status = true }
    else if scancode == caps_lock_make
    then record s { caps_lock_status = not s.caps_lock_status }
    else s

-- `if (!ioq_full(&kbd_buf)) ioq_putchar(&kbd_buf, cur_char);`
pub enqueue : ℕ → IoQueue → Kernel → Outcome (IoQueue × Kernel)
enqueue cur_char kbd_buf k = do
  full ← ioq_full kbd_buf k
  if not full then store_char cur_char kbd_buf k else ok (kbd_buf, k)

-- The handler behind the 0xe0 test, on the merged scan code.
pub handle_key : ℕ → Keyboard → IoQueue → Kernel → Outcome (Keyboard × IoQueue × Kernel)
handle_key scancode s kbd_buf k =
    let cur_char = pressed_char scancode s in
    let typed = (do (q, k') ← enqueue cur_char kbd_buf k; ok (s, q, k')) in
    let known =
      (ltb 0 scancode && ltb scancode 0x3b)
      || (scancode == ctrl_r_make)
      || (scancode == alt_r_make) in
    if not (bit_and scancode 0x0080 == 0)
    then ok (break_key (bit_and scancode 0xff7f) s, kbd_buf, k)
    else if not known
    then ok (s, kbd_buf, k)
    else if not (cur_char == 0)
    then typed
    else ok (make_key (bit_and scancode 0x00ff) s, kbd_buf, k)

pub intr_keyboard_handler : ℕ → Keyboard → IoQueue → Kernel → Outcome (Keyboard × IoQueue × Kernel)
intr_keyboard_handler byte s kbd_buf k =
    let scancode = if s.ext_scancode then bit_or 0xe000 byte else byte in
    if byte == 0xe0
    then ok (record s { ext_scancode = true }, kbd_buf, k)
    else handle_key scancode (record s { ext_scancode = false }) kbd_buf k
