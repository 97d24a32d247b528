-- ===== src/Stdio/Format.antt =====
-- `vsprintf` renders a format and its arguments.
use loong_os.Prelude.{
  ℕ, zero, suc, ◌-◌, ◌^◌, ◌≤◌, ◌<◌, ◌≡◌, ◌≢◌, ◌⊎◌, Bool, refl, sym, ap, ◌∙◌, some, List, [], ◌∷◌,
  ◌++◌, append_assoc, append-nil, arith, ok, ltb, ◌==◌, if◌then◌else◌, Bool-cases, inl, inr, u8,
  u32, length, length-append, false, take, drop, replicate, ◌>>=◌, ap₂, subst,
}
use loong_os.CString.{Pointer}
use loong_os.CString.Strings.{NoZero, cstr, strcpy_fits, strlen-cstr}
use loong_os.Stdio.{Buffer, put, itoa, max_depth, put_decimal, put_string, vsprintf_loop}
use loong_os.Stdio.Digits.{numeral, wrote, to_buffer, put_lem, itoa-numeral}

abbrev pub zero_bytes : ℕ → List ℕ
zero_bytes n = replicate n 0

drop-replicate : (k n : ℕ) → drop k (zero_bytes n) ≡ zero_bytes (n - k)
drop-replicate zero n = let e : n ≡ n - 0 = omega arith in ap zero_bytes e
drop-replicate (suc k) zero = let e : 0 ≡ 0 - suc k = omega arith in ap zero_bytes e
drop-replicate (suc k) (suc n) =
    let e : n - k ≡ suc n - suc k = omega arith in drop-replicate k n ∙ ap zero_bytes e

length-replicate : (n : ℕ) → length (zero_bytes n) ≡ n
length-replicate zero = refl
length-replicate (suc n) = ap suc (length-replicate n)

-- A buffer with `n` zeros left.
abbrev zeros : List ℕ → ℕ → Buffer
zeros o n = to_buffer o (zero_bytes n)

wrote-zeros : (s o : List ℕ) (n : ℕ) → wrote s (zeros o n) ≡ zeros (o ++ s) (n - length s)
wrote-zeros s o n = ap (to_buffer (o ++ s)) (drop-replicate (length s) n)

put-zeros :
    (c : ℕ) (o : List ℕ) (n : ℕ) → 0 < n → put c (zeros o n) ≡ ok (zeros (o ++ (c ∷ [])) (n - 1))
put-zeros c o n h =
    put_lem c (zeros o n) (omega (arith, length-replicate n)) ∙ ap ok (wrote-zeros (c ∷ []) o n)

module _ (base v : ℕ) (o : List ℕ) (n : ℕ) where
  itoa-zeros :
      (base ≡ 10) ⊎ (base ≡ 16)
      → v < 2 ^ 32
      → length (numeral max_depth base v) ≤ n
      → itoa max_depth v (zeros o n) base
        ≡ ok (zeros (o ++ numeral max_depth base v) (n - length (numeral max_depth base v)))
  itoa-zeros b h fits =
      itoa-numeral max_depth base v (zeros o n) b h (omega arith)
        (omega (arith, length-replicate n))
      ∙ ap ok (wrote-zeros (numeral max_depth base v) o n)

-- An `int32_t` as text.
unfoldable pub decimal_text : ℕ → List ℕ
decimal_text w =
    if ltb w (2 ^ 31) then numeral max_depth 10 w else b'-' ∷ numeral max_depth 10 (2 ^ 32 - w)

minus_zeros :
    (o s : List ℕ) (n : ℕ)
    → zeros ((o ++ (b'-' ∷ [])) ++ s) (n - 1 - length s)
      ≡ zeros (o ++ (b'-' ∷ s)) (n - length (b'-' ∷ s))
minus_zeros o s n = ap₂ zeros (append_assoc o (b'-' ∷ []) s) (omega arith)

put_decimal-zeros :
    (w : ℕ) (o : List ℕ) (n : ℕ)
    → w < 2 ^ 32
    → length (decimal_text w) ≤ n
    → put_decimal w (zeros o n) ≡ ok (zeros (o ++ decimal_text w) (n - length (decimal_text w)))
unfolding put_decimal decimal_text
put_decimal-zeros w o n h fits =
    let v = 2 ^ 32 - w in
    let text = λ (b : Bool). if b then numeral max_depth 10 w else b'-' ∷ numeral max_depth 10 v in
    elim (Bool-cases (ltb w (2 ^ 31))) [
      | inl e ↦ rw e (itoa-zeros 10 w o n (inl refl) h (subst (λ b. length (text b) ≤ n) e fits))
      | inr e ↦
          let room = subst (λ b. length (text b) ≤ n) e fits in
          let big : 2 ^ 31 ≤ w = ground (arith, e) in
          let same : u32 v ≡ v = omega arith in
          let digits =
            itoa-zeros 10 v (o ++ (b'-' ∷ [])) (n - 1) (inl refl) (omega arith) (omega arith) in
          rw (e, put-zeros b'-' o n (omega arith), same, digits)
            (ap ok (minus_zeros o (numeral max_depth 10 v) n))
    ]

pub take-append : (s t : List ℕ) → take (length s) (s ++ t) ≡ s
take-append [] t = refl
take-append (c ∷ s) t = ap (λ s. c ∷ s) (take-append s t)

drop-append : (s t : List ℕ) → drop (length s) (s ++ t) ≡ t
drop-append [] t = refl
drop-append (c ∷ s) t = drop-append s t

terminator : (k n : ℕ) → k < n → 0 ∷ drop (suc k) (zero_bytes n) ≡ zero_bytes (n - k)
terminator k n h =
    let e : suc (n - suc k) ≡ n - k = omega arith in
    ap (λ (r : List ℕ). 0 ∷ r) (drop-replicate (suc k) n) ∙ ap zero_bytes e

put_string-zeros :
    (s rest o : List ℕ) (n : ℕ)
    → NoZero s
    → length s < 2 ^ 32
    → length s < n
    → put_string (some (cstr s rest)) (zeros o n) ≡ ok (zeros (o ++ s) (n - length s))
unfolding put_string
put_string-zeros s rest o n nz small fits =
    let copied = strcpy_fits (zero_bytes n) s rest nz in
    let behind : List ℕ = 0 ∷ drop (suc (length s)) (zero_bytes n) in
    rw
      (
        copied (omega (arith, length-replicate n)),
        strlen-cstr s rest nz small,
        take-append s behind,
        drop-append s behind,
      )
      (ap (λ r. ok (to_buffer (o ++ s) r)) (terminator (length s) n fits))

-- A piece of a format, with its argument.
pub data Item : Type 0 where
  plain : ℕ → Item
  string : ℕ → List ℕ → Item
  char decimal hexadecimal : ℕ → Item

unfoldable pub source : List Item → List ℕ
source [] = 0 ∷ []
source (plain c ∷ items) = c ∷ source items
source (string word s ∷ items) = b'%' ∷ b's' ∷ source items
source (char word ∷ items) = b'%' ∷ b'c' ∷ source items
source (decimal word ∷ items) = b'%' ∷ b'd' ∷ source items
source (hexadecimal word ∷ items) = b'%' ∷ b'x' ∷ source items

unfoldable pub words : List Item → List ℕ
words [] = []
words (plain c ∷ items) = words items
words (string word s ∷ items) = word ∷ words items
words (char word ∷ items) = word ∷ words items
words (decimal word ∷ items) = word ∷ words items
words (hexadecimal word ∷ items) = word ∷ words items

abbrev pub text : Item → List ℕ
text (plain c) = c ∷ []
text (string word s) = s
text (char word) = u8 word ∷ []
text (decimal word) = decimal_text word
text (hexadecimal word) = numeral max_depth 16 word

unfoldable pub rendered : List Item → List ℕ
rendered [] = []
rendered (item ∷ items) = text item ++ rendered items

length-source : (items : List Item) → 0 < length (source items)
unfolding source
length-source [] = omega arith
length-source (plain c ∷ items) = omega arith
length-source (string word s ∷ items) = omega arith
length-source (char word ∷ items) = omega arith
length-source (decimal word ∷ items) = omega arith
length-source (hexadecimal word ∷ items) = omega arith

module _ (object : ℕ → Pointer) where
  -- The item's argument is a word, and the word of a string points to the string.
  abbrev pub IsItem : Item → Type 0
  IsItem (plain c) = (c ≢ 0) × (c ≢ b'%')
  IsItem (string word s) =
      ((rest : List ℕ) × (object word ≡ some (cstr s rest))) × NoZero s × (length s < 2 ^ 32)
  IsItem (char word) = u8 word ≢ 0
  IsItem (decimal word) = word < 2 ^ 32
  IsItem (hexadecimal word) = word < 2 ^ 32

  abbrev pub AllItems : List Item → Type 0
  AllItems [] = Unit
  AllItems (item ∷ items) = IsItem item × AllItems items

  pub plain-step :
      (c : ℕ) (format ap : List ℕ) (buf : Buffer)
      → c ≢ 0
      → c ≢ b'%'
      → 0 < length format
      → vsprintf_loop object (c ∷ format) ap buf ≡ (put c buf >>= vsprintf_loop object format ap)
  unfolding vsprintf_loop
  plain-step c [] ap buf nz np h = absurd (omega arith)
  plain-step c (d ∷ format) ap buf nz np h =
      let zero_test : (c == 0) ≡ false = ground (arith, nz) in
      let percent_test : (c == b'%') ≡ false = ground (arith, np) in
      rw (zero_test, percent_test) refl

  -- What is left of the room once the first item is written.
  then_rest :
      (s t o : List ℕ) (n : ℕ)
      → zeros ((o ++ s) ++ t) (n - length s - length t)
        ≡ zeros (o ++ (s ++ t)) (n - length (s ++ t))
  then_rest s t o n = ap₂ zeros (append_assoc o s t) (omega (arith, length-append s t))

  pub vsprintf_loop-rendered :
      (items : List Item) (o : List ℕ) (n : ℕ)
      → AllItems items
      → length (rendered items) < n
      → vsprintf_loop object (source items) (words items) (zeros o n)
        ≡ ok (zeros (o ++ rendered items) (n - length (rendered items)))
  unfolding vsprintf_loop source words rendered
  vsprintf_loop-rendered [] o n h room = ap ok (ap₂ zeros (sym (append-nil o)) (omega arith))
  vsprintf_loop-rendered (plain c ∷ items) o n h room =
      plain-step c (source items) (words items) (zeros o n) h.0.0 h.0.1 (length-source items)
      ∙ rw (put-zeros c o n (omega arith)) (
          vsprintf_loop-rendered items (o ++ (c ∷ [])) (n - 1) h.1
            (omega (arith, room, length-append (c ∷ []) (rendered items)))
          ∙ ap ok (then_rest (c ∷ []) (rendered items) o n))
  vsprintf_loop-rendered (string w s ∷ items) o n h room =
      let ((rest, e), nz, small) = h.0 in
      let fits : length s < n = omega (arith, room, length-append s (rendered items)) in
      rw (ap (λ p. put_string p (zeros o n)) e ∙ put_string-zeros s rest o n nz small fits) (
        vsprintf_loop-rendered items (o ++ s) (n - length s) h.1
          (omega (arith, room, length-append s (rendered items)))
        ∙ ap ok (then_rest s (rendered items) o n))
  vsprintf_loop-rendered (char w ∷ items) o n h room = rw (put-zeros (u8 w) o n (omega arith)) (
      vsprintf_loop-rendered items (o ++ (u8 w ∷ [])) (n - 1) h.1
        (omega (arith, room, length-append (u8 w ∷ []) (rendered items)))
      ∙ ap ok (then_rest (u8 w ∷ []) (rendered items) o n))
  vsprintf_loop-rendered (decimal w ∷ items) o n h room =
      let s = decimal_text w in
      let fits : length s ≤ n = omega (arith, room, length-append s (rendered items)) in
      rw (put_decimal-zeros w o n h.0 fits) (
        vsprintf_loop-rendered items (o ++ s) (n - length s) h.1
          (omega (arith, room, length-append s (rendered items)))
        ∙ ap ok (then_rest s (rendered items) o n))
  vsprintf_loop-rendered (hexadecimal w ∷ items) o n h room =
      let s = numeral max_depth 16 w in
      let fits : length s ≤ n = omega (arith, room, length-append s (rendered items)) in
      rw (itoa-zeros 16 w o n (inr refl) h.0 fits) (
        vsprintf_loop-rendered items (o ++ s) (n - length s) h.1
          (omega (arith, room, length-append s (rendered items)))
        ∙ ap ok (then_rest s (rendered items) o n))
