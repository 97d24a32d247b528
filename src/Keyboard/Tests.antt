-- ===== src/Keyboard/Tests.antt =====
-- Key strokes, on a queue for which thread 7 waits.
use loong_os.Prelude.{
  ◌≡◌, refl, true, false, none, some, [], ◌∷◌, arith, ok, ◌==◌, if◌then◌else◌, replicate,
}
use loong_os.Scheduler.{Kernel, running, ready, blocked}
use loong_os.Scheduler.Invariant
use loong_os.IoQueue.{IoQueue}
use loong_os.IoQueue.Refine.{IsValid, contents, window}
use loong_os.Keyboard.{Keyboard, pressed_char, intr_keyboard_handler}
use loong_os.Keyboard.Keys.{typed_key}
use loong_os.Keyboard.Modifiers.{ctrl_r, interrupts, modifiers_lem}

abbrev kernel : Kernel
kernel = record {
  cur = 1;
  status = λ t. if t == 1 then running else if t == 2 then ready else blocked;
  ready_list = 2 ∷ [];
  idle_thread = 9;
  priority = λ t. 31;
  thread_ticks = λ t. 0;
  elapsed_ticks = λ t. 0;
  ticks = 0;
  stack_magic = λ t. 0x12345678;
  intr_on = false;
}

kernel-IsValid : Invariant.IsValid kernel
kernel-IsValid = record {
  queue = λ t. ground arith;
  runs = λ t. ground arith;
  distinct = (refl, tt);
  idle = refl;
}

abbrev kbd_buf : IoQueue
kbd_buf = record { producer = none; consumer = some 7; buf = replicate 64 0; head = 0; tail = 0 }

kbd_buf-IsValid : IsValid kbd_buf
kbd_buf-IsValid = record { size = refl; head = omega arith; tail = omega arith }

-- Shift is held.
abbrev shifting : Keyboard
shifting = record {
  ctrl_status = false;
  shift_status = true;
  alt_status = false;
  caps_lock_status = false;
  ext_scancode = false;
}

-- 0x1e is the key of 'a'.
typed_key_example :
    (q' : IoQueue) × (k' : Kernel) × (intr_keyboard_handler 0x1e shifting kbd_buf kernel
      ≡ ok (shifting, q', k'))
    × IsValid q'
    × (contents q' ≡ b'A' ∷ [])
    × Invariant.IsValid k'
    × (k'.cur ≡ 1)
unfolding window
typed_key_example =
    typed_key 0x1e shifting kbd_buf kernel (omega arith) (omega arith) (omega arith) refl refl
      kbd_buf-IsValid kernel-IsValid refl refl (omega arith)

modifiers_example :
    interrupts (0xe0 ∷ 0x1d ∷ []) shifting kbd_buf kernel
    ≡ ok (record shifting { ctrl_status = true }, kbd_buf, kernel)
modifiers_example = modifiers_lem ctrl_r true shifting kbd_buf kernel refl

-- Ctrl+l is character 11, the distance of 'l' from 'a'.
ctrl_and_l : pressed_char 0x26 (record shifting { ctrl_status = true; shift_status = false }) ≡ 11
unfolding pressed_char
ctrl_and_l = refl
