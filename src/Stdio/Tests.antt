-- ===== src/Stdio/Tests.antt =====
-- Runs of the formats, and their theorems on a format with an argument of each kind.
use loong_os.Prelude.{
  ◌⊎◌, ℕ, ◌≤◌, ◌≡◌, ◌≢◌, refl, inr, none, some, List, [], ◌∷◌, arith, ok, ◌==◌, if◌then◌else◌,
  length, replicate,
}
use loong_os.CString.{Pointer}
use loong_os.CString.Strings.{cstr}
use loong_os.Stdio.{itoa, max_depth, put_decimal, vsprintf_loop, printf, sprintf}
use loong_os.Stdio.Digits.{numeral, itoa_lem, reads, wrote, to_buffer, first}
use loong_os.Stdio.Format.{
  Item, plain, string, char, decimal, hexadecimal, source, words, rendered, decimal_text,
}
use loong_os.Stdio.Printf.{printf_lem, sprintf-unterminated}

abbrev hi : List ℕ
hi = b'h' ∷ b'i' ∷ []

-- The word 4096 points to "hi".
abbrev object : ℕ → Pointer
object a = if a == 4096 then some (cstr hi []) else none

-- "a%s%d%x%c"
abbrev items : List Item
items = plain b'a' ∷ string 4096 hi ∷ decimal 4294967284 ∷ hexadecimal 0x2f ∷ char b'!' ∷ []

-- "ahi-122F!"
abbrev line : List ℕ
line = b'a' ∷ b'h' ∷ b'i' ∷ b'-' ∷ b'1' ∷ b'2' ∷ b'2' ∷ b'F' ∷ b'!' ∷ []

rendered-items : rendered items ≡ line
unfolding rendered decimal_text numeral
rendered-items = refl

printf_example :
    printf object (source items) (words items) ≡ ok (rendered items, length (rendered items))
unfolding rendered decimal_text numeral
printf_example =
    printf_lem object items
      (
        (omega arith, omega arith),
        (
          (([], refl), (omega arith, (omega arith, tt)), omega arith),
          (omega arith, (omega arith, (omega arith, tt))),
        ),
      )
      (omega arith)

sprintf_example :
    sprintf object (7 ∷ 7 ∷ b'x' ∷ 0 ∷ []) (b'h' ∷ b'i' ∷ 0 ∷ []) []
    ≡ ok (b'h' ∷ b'i' ∷ b'x' ∷ 0 ∷ [], 3)
sprintf_example =
    sprintf-unterminated object hi (7 ∷ 7 ∷ []) (b'x' ∷ []) [] []
      ((omega arith), (omega arith), ((omega arith), (omega arith), tt)) (omega arith, tt) refl
      (omega arith)

itoa_example :
    (s : List ℕ) × (itoa max_depth 305 (to_buffer [] (replicate 12 0)) 16
      ≡ ok (wrote s (to_buffer [] (replicate 12 0))))
    × (reads 16 0 s ≡ 305)
    × (length s ≤ 8)
    × ((◌≡◌ {A = ℕ} 305 0) ⊎ (first s ≢ b'0'))
itoa_example =
    itoa_lem 16 305 (to_buffer [] (replicate 12 0)) (inr refl) (omega arith) (omega arith)

-- "%%d": the second character is no conversion, and is read again as the start of one.
double_percent :
    vsprintf_loop object (b'%' ∷ b'%' ∷ b'd' ∷ 0 ∷ []) (7 ∷ []) (to_buffer [] (0 ∷ 0 ∷ []))
    ≡ ok (to_buffer (b'7' ∷ []) (0 ∷ []))
unfolding vsprintf_loop put_decimal itoa
double_percent = refl
