-- ===== src/Stdio/Printf.antt =====
-- `printf` and `sprintf` on whole formats.
use loong_os.Prelude.{
  ℕ, zero, suc, ◌+◌, ◌-◌, ◌^◌, ◌%◌, ◌/◌, ◌≤◌, ◌<◌, ◌≡◌, ◌≢◌, refl, sym, ap, ◌∙◌, List, [], ◌∷◌,
  ◌++◌, append_assoc, append-nil, arith, ok, ltb, ◌==◌, Bool-cases, inl, inr, length, length-append,
}
use loong_os.CString.{Pointer}
use loong_os.CString.Strings.{NoZero, NoZero-append, cstr, strlen-cstr}
use loong_os.Stdio.{digit, max_depth, vsprintf_loop, vsprintf, printf, sprintf}
use loong_os.Stdio.Digits.{IsBase, numeral, divide, to_buffer}
use loong_os.Stdio.Format.{
  Item, plain, string, char, decimal, hexadecimal, source, words, rendered, text, decimal_text,
  AllItems, IsItem, zero_bytes, vsprintf_loop-rendered, plain-step, take-append,
}

digit_zero : (m : ℕ) → m < 16 → digit m ≢ 0
digit_zero m h = ground arith

NoZero-numeral : (depth base v : ℕ) → IsBase base → NoZero (numeral depth base v)
unfolding numeral
NoZero-numeral zero base v b = tt
NoZero-numeral (suc depth) base v b =
    let (_, m, _, _) = divide base v b in
    let d : NoZero (digit (v % base) ∷ []) = (digit_zero (v % base) m, tt) in
    elim (Bool-cases (v / base == 0)) [
      | inl z ↦ rw z d
      | inr z ↦ rw z (
          NoZero-append (numeral depth base (v / base)) _ (NoZero-numeral depth base (v / base) b)
            d)
    ]

NoZero-decimal_text : (w : ℕ) → NoZero (decimal_text w)
unfolding decimal_text
NoZero-decimal_text w = elim (Bool-cases (ltb w (2 ^ 31))) [
  | inl e ↦ rw e (NoZero-numeral max_depth 10 w (inl refl))
  | inr e ↦ rw e ((omega arith), NoZero-numeral max_depth 10 (2 ^ 32 - w) (inl refl))
]

module _ (object : ℕ → Pointer) where
  NoZero-item : (item : Item) → IsItem object item → NoZero (text item)
  NoZero-item (plain c) h = (h.0, tt)
  NoZero-item (string w s) h = h.1
  NoZero-item (char w) h = (h, tt)
  NoZero-item (decimal w) h = NoZero-decimal_text w
  NoZero-item (hexadecimal w) h = NoZero-numeral max_depth 16 w (inr refl)

  NoZero-rendered : (items : List Item) → AllItems object items → NoZero (rendered items)
  unfolding rendered
  NoZero-rendered [] h = tt
  NoZero-rendered (item ∷ items) h =
      NoZero-append (text item) (rendered items) (NoZero-item item h.0) (NoZero-rendered items h.1)

  vsprintf-rendered :
      (items : List Item) (n : ℕ)
      → AllItems object items
      → length (rendered items) < n
      → n ≤ 2 ^ 32
      → vsprintf object (zero_bytes n) (source items) (words items)
        ≡ ok (
          cstr (rendered items) (zero_bytes (n - 1 - length (rendered items))),
          length (rendered items),
        )
  unfolding vsprintf
  vsprintf-rendered items n h room small =
      let s = rendered items in
      let rest = zero_bytes (n - 1 - length s) in
      let e : n - length s ≡ suc (n - 1 - length s) = omega arith in
      let len = strlen-cstr s rest (NoZero-rendered items h) (omega arith) in
      rw (vsprintf_loop-rendered object items [] n h room, e, len) refl

  -- `printf` hands to `write` exactly the text of the format with its arguments: ordinary characters
  -- as they are, strings and characters of the arguments, the decimal text of an `int`, the digits
  -- of a word in base 16. It returns the length of the text. The text must be shorter than the
  -- buffer of 1024 bytes, no character of it may be 0, and the argument of `%s` must point to a string.
  pub printf_lem :
      (items : List Item)
      → AllItems object items
      → length (rendered items) < 1024
      → printf object (source items) (words items) ≡ ok (rendered items, length (rendered items))
  unfolding printf
  printf_lem items h room =
      let s = rendered items in
      let rest = zero_bytes (1024 - 1 - length s) in
      let len = strlen-cstr s rest (NoZero-rendered items h) (omega arith) in
      rw (vsprintf-rendered items 1024 h room (omega arith), len, take-append s (0 ∷ rest)) refl

-- Ordinary characters, which a format copies.
abbrev pub Ordinary : List ℕ → Type 0
Ordinary [] = Unit
Ordinary (c ∷ s) = (c ≢ 0) × (c ≢ b'%') × Ordinary s

Ordinary-NoZero : (s : List ℕ) → Ordinary s → NoZero s
Ordinary-NoZero [] h = tt
Ordinary-NoZero (c ∷ s) h = (h.0, Ordinary-NoZero s h.2)

length-terminated : (s : List ℕ) → 0 < length (s ++ (0 ∷ []))
length-terminated s = omega (arith, length-append s (0 ∷ []))

module _ (object : ℕ → Pointer) where
  copies_plain :
      (s old o room args : List ℕ)
      → Ordinary s
      → length old ≡ length s
      → vsprintf_loop object (s ++ (0 ∷ [])) args (to_buffer o (old ++ room))
        ≡ ok (to_buffer (o ++ s) room)
  unfolding vsprintf_loop
  copies_plain [] [] o room args h same = ap ok (ap (λ o. to_buffer o room) (sym (append-nil o)))
  copies_plain [] (x ∷ old) o room args h same = absurd (omega arith)
  copies_plain (c ∷ s) [] o room args h same = absurd (omega arith)
  copies_plain (c ∷ s) (x ∷ old) o room args h same =
      plain-step object c (s ++ (0 ∷ [])) args (to_buffer o ((x ∷ old) ++ room)) h.0 h.1
        (length-terminated s)
      ∙ copies_plain s old (o ++ (c ∷ [])) room args h.2 (omega arith)
      ∙ ap (λ o. ok (to_buffer o room)) (append_assoc o (c ∷ []) s)

  -- `sprintf` of ordinary characters `s` into a buffer that holds, behind as many bytes, another
  -- string `t`, writes the characters and no terminator: the buffer then holds the string `s ++ t`,
  -- and the length that is returned is that of the two together, which must be below 2 ^ 32.
  pub sprintf-unterminated :
      (s old t u args : List ℕ)
      → Ordinary s
      → NoZero t
      → length old ≡ length s
      → length s + length t < 2 ^ 32
      → sprintf object (old ++ cstr t u) (s ++ (0 ∷ [])) args
        ≡ ok (cstr (s ++ t) u, length s + length t)
  unfolding sprintf vsprintf
  sprintf-unterminated s old t u args h ht same small =
      let copied = copies_plain s old [] (cstr t u) args h same in
      let len =
        strlen-cstr (s ++ t) u (NoZero-append s t (Ordinary-NoZero s h) ht)
          (omega (arith, length-append s t)) in
      rw (copied, sym (append_assoc s t (0 ∷ u)), len, length-append s t) refl
