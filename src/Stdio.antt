-- ===== src/Stdio.antt =====
-- lib/stdio.c: numbers and formats written as text.
-- The buffer is split at `buf_ptr`: the bytes written so far and the room behind them, and a write
-- where there is no room is a `fault`. The variable arguments are the words on the caller's stack;
-- `object` gives the object that a word points to. `itoa` is given a bound on its depth, and going
-- deeper counts as a `fault`.
pub mod Digits
pub mod Format
pub mod Printf
mod Tests
use loong_os.Prelude.{
  ℕ, zero, suc, ◌+◌, ◌-◌, ◌^◌, ◌%◌, ◌/◌, Bool, true, false, not, some, List, [], ◌∷◌, ◌++◌, Outcome,
  ok, fault, ◌>>=◌, ltb, ◌==◌, if◌then◌else◌, u32, u8, length, take, drop, replicate,
}
use loong_os.CString.{Pointer, strcpy, strlen}

pub record Buffer : Type 0 where
  pub out : List ℕ
  pub room : List ℕ

-- `*(buf_ptr++) = c`
abbrev pub put : ℕ → Buffer → Outcome Buffer
put c b = elim b.room [
  | [] ↦ fault
  | x ∷ rest ↦ ok (record { out = b.out ++ (c ∷ []); room = rest })
]

-- The character of a digit.
abbrev pub digit : ℕ → ℕ
digit m = if ltb m 10 then m + b'0' else u8 (m - 10 + b'A')

pub itoa : ℕ → ℕ → Buffer → ℕ → Outcome Buffer
itoa zero value buf base = fault
itoa (suc depth) value buf base =
    let m = value % base in
    let i = value / base in
    let higher = itoa depth i buf base in
    let both = (do buf' ← (if i == 0 then ok buf else higher); put (digit m) buf') in
    if base == 0 then fault else both

-- A `uint32_t` has at most 32 digits in any base.
abbrev pub max_depth : ℕ
max_depth = 32

abbrev pub percent : ℕ
percent = b'%'

-- `va_arg`
abbrev pub va_arg : List ℕ → Outcome (ℕ × List ℕ)
va_arg [] = fault
va_arg (word ∷ ap) = ok (word, ap)

-- `%d`: a word from `2 ^ 31` on is a negative `int32_t`.
pub put_decimal : ℕ → Buffer → Outcome Buffer
put_decimal arg_int buf = do
  let minus = (do buf' ← put b'-' buf; itoa max_depth (u32 (2 ^ 32 - arg_int)) buf' 10)
  if ltb arg_int (2 ^ 31) then itoa max_depth arg_int buf 10 else minus

-- `%s`: the string with its terminator is copied, and `buf_ptr` moves behind its characters.
pub put_string : Pointer → Buffer → Outcome Buffer
put_string arg_str buf = do
  room ← strcpy (some buf.room) arg_str
  n ← strlen arg_str
  ok (record { out = buf.out ++ take n room; room = drop n room })

module _ (object : ℕ → Pointer) where
  -- The loop of `vsprintf`, from `index_ptr` on.
  pub vsprintf_loop : List ℕ → List ℕ → Buffer → Outcome Buffer
  vsprintf_loop [] ap buf = fault
  vsprintf_loop (c ∷ []) ap buf = if c == 0 then ok buf else fault
  vsprintf_loop (c ∷ d ∷ format) ap buf =
      let plain = (do buf' ← put c buf; vsprintf_loop (d ∷ format) ap buf') in
      let again = vsprintf_loop (d ∷ format) ap buf in
      let string = (do
        (word, ap') ← va_arg ap
        buf' ← put_string (object word) buf
        vsprintf_loop format ap' buf') in
      let char = (do
        (word, ap') ← va_arg ap
        buf' ← put (u8 word) buf
        vsprintf_loop format ap' buf') in
      let decimal = (do
        (word, ap') ← va_arg ap
        buf' ← put_decimal word buf
        vsprintf_loop format ap' buf') in
      let hexadecimal = (do
        (word, ap') ← va_arg ap
        buf' ← itoa max_depth word buf 16
        vsprintf_loop format ap' buf') in
      if c == 0
      then ok buf
      else if not (c == percent)
      then plain
      else if d == b's'
      then string
      else if d == b'c'
      then char
      else if d == b'd'
      then decimal
      else if d == b'x'
      then hexadecimal
      else again

  -- What `str` then holds, and the length that is returned.
  pub vsprintf : List ℕ → List ℕ → List ℕ → Outcome (List ℕ × ℕ)
  vsprintf str format ap = do
    buf ← vsprintf_loop format ap (record { out = []; room = str })
    len ← strlen (some (buf.out ++ buf.room))
    ok (buf.out ++ buf.room, len)

  -- The bytes handed to `write`, and the length that is returned.
  pub printf : List ℕ → List ℕ → Outcome (List ℕ × ℕ)
  printf format args = do
    (buf, len) ← vsprintf (replicate 1024 0) format args
    n ← strlen (some buf)
    ok (take n buf, len)

  pub sprintf : List ℕ → List ℕ → List ℕ → Outcome (List ℕ × ℕ)
  sprintf buf format args = vsprintf buf format args
