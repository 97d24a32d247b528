-- ===== src/Stdio/Digits.antt =====
-- `itoa` writes the numeral of its value, and reading the numeral gives the value back.
use loong_os.Prelude.{
  true, ℕ, zero, suc, ◌+◌, ◌-◌, ◌*◌, ◌^◌, ◌%◌, ◌/◌, ◌≤◌, ◌<◌, ◌≡◌, ◌≢◌, refl, sym, ap, ap₂, subst,
  length-drop, false, List, [], ◌∷◌, ◌++◌, append_assoc, arith, ok, ltb, ◌==◌, if◌then◌else◌,
  Bool-cases, inl, inr, ◌⊎◌, length, length-append, drop,
}
use loong_os.Stdio.{Buffer, put, digit, itoa, max_depth}

-- The bases that the formats use.
abbrev pub IsBase : ℕ → Type 0
IsBase base = (base ≡ 10) ⊎ (base ≡ 16)

-- The digits of `v`, the highest first, if it has at most `depth` of them.
unfoldable pub numeral : ℕ → ℕ → ℕ → List ℕ
numeral zero base v = []
numeral (suc depth) base v =
    let higher = numeral depth base (v / base) in
    (if v / base == 0 then [] else higher) ++ (digit (v % base) ∷ [])

abbrev digit_value : ℕ → ℕ
digit_value c = if ltb c b'A' then c - b'0' else c + 10 - b'A'

-- The number that a sequence of digits stands for, behind digits that stand for `acc`.
unfoldable pub reads : ℕ → ℕ → List ℕ → ℕ
reads base acc [] = acc
reads base acc (c ∷ s) = reads base (acc * base + digit_value c) s

reads-snoc :
    (base acc : ℕ) (s : List ℕ) (c : ℕ)
    → reads base acc (s ++ (c ∷ [])) ≡ reads base acc s * base + digit_value c
unfolding reads
reads-snoc base acc [] c = refl
reads-snoc base acc (x ∷ s) c = reads-snoc base (acc * base + digit_value x) s c

digit_value-digit : (m : ℕ) → m < 16 → digit_value (digit m) ≡ m
digit_value-digit m h = ground arith

pub divide :
    (base v : ℕ)
    → IsBase base
    → (v / base * base + v % base ≡ v)
      × (v % base < 16)
      × (v % base < base)
      × (v / base + v / base ≤ v)
divide base v (inl e) = rw e (omega arith, omega arith, omega arith, omega arith)
divide base v (inr e) = rw e (omega arith, omega arith, omega arith, omega arith)

halves : (depth base v : ℕ) → IsBase base → v < 2 ^ suc depth → v / base < 2 ^ depth
halves depth base v b h = let (_, _, _, d) = divide base v b in omega arith

reads-numeral :
    (depth base v : ℕ) → IsBase base → v < 2 ^ depth → reads base 0 (numeral depth base v) ≡ v
unfolding numeral reads
reads-numeral zero base v b h = omega arith
reads-numeral (suc depth) base v b h =
    let (e, m, _, _) = divide base v b in
    let ih = reads-numeral depth base (v / base) b (halves depth base v b h) in
    let last = digit_value-digit (v % base) m in
    elim (Bool-cases (v / base == 0)) [
      | inl z ↦ rw (z, last) (grind (arith, e, z))
      | inr z ↦
          rw (z, reads-snoc base 0 (numeral depth base (v / base)) (digit (v % base)), ih, last) e
    ]

narrower : (base v k : ℕ) → IsBase base → v < base ^ suc (suc k) → v / base < base ^ suc k
narrower base v k (inl e) h =
    let small = subst (λ b. v < b ^ suc (suc k)) e h in
    subst (λ b. v / b < b ^ suc k) (sym e) (omega arith)
narrower base v k (inr e) h =
    let small = subst (λ b. v < b ^ suc (suc k)) e h in
    subst (λ b. v / b < b ^ suc k) (sym e) (omega arith)

single : (base v : ℕ) → IsBase base → v < base ^ 1 → v / base ≡ 0
single base v (inl e) h =
    let small = subst (λ b. v < b ^ 1) e h in subst (λ b. v / b ≡ 0) (sym e) (omega arith)
single base v (inr e) h =
    let small = subst (λ b. v < b ^ 1) e h in subst (λ b. v / b ≡ 0) (sym e) (omega arith)

length-numeral :
    (depth base v k : ℕ) → IsBase base → v < base ^ suc k → length (numeral depth base v) ≤ suc k
unfolding numeral
length-numeral zero base v k b h = omega arith
length-numeral (suc depth) base v zero b h = rw (single base v b h) (omega arith)
length-numeral (suc depth) base v (suc k) b h = elim (Bool-cases (v / base == 0)) [
  | inl z ↦ rw z (omega arith)
  | inr z ↦
      rw (z, length-append (numeral depth base (v / base)) (digit (v % base) ∷ []))
        (omega (arith, length-numeral depth base (v / base) k b (narrower base v k b h)))
]

-- The first character, if there is one.
abbrev pub first : List ℕ → ℕ
first [] = 0
first (c ∷ s) = c

first-append : (s t : List ℕ) → 0 < length s → first (s ++ t) ≡ first s
first-append [] t h = absurd (omega arith)
first-append (c ∷ s) t h = refl

digit-nonzero : (m : ℕ) → 0 < m → m < 16 → digit m ≢ b'0'
digit-nonzero m pos small = ground arith

decimal_range : (base v : ℕ) → base ≡ 10 → v < 2 ^ 32 → v < base ^ 10
decimal_range base v e h = subst (λ b. v < b ^ 10) (sym e) (omega arith)

hexadecimal_range : (base v : ℕ) → base ≡ 16 → v < 2 ^ 32 → v < base ^ 8
hexadecimal_range base v e h = subst (λ b. v < b ^ 8) (sym e) (omega arith)

length-numeral-pos : (depth base v : ℕ) → v < 2 ^ depth → 0 < v → 0 < length (numeral depth base v)
unfolding numeral
length-numeral-pos zero base v h pos = omega arith
length-numeral-pos (suc depth) base v h pos =
    let higher = (if v / base == 0 then [] else numeral depth base (v / base)) in
    rw (length-append higher (digit (v % base) ∷ [])) (omega arith)

numeral-first :
    (depth base v : ℕ) → IsBase base → v < 2 ^ depth → 0 < v → first (numeral depth base v) ≢ b'0'
unfolding numeral
numeral-first zero base v b h pos = omega arith
numeral-first (suc depth) base v b h pos =
    let (e, m, _, _) = divide base v b in
    let small = halves depth base v b h in
    let higher = numeral depth base (v / base) in
    elim (Bool-cases (v / base == 0)) [
      | inl z ↦ rw z (digit-nonzero (v % base) (grind (arith, e, z)) m)
      | inr z ↦
          let long = length-numeral-pos depth base (v / base) small (ground (arith, z)) in
          rw (z, first-append higher (digit (v % base) ∷ []) long)
            (numeral-first depth base (v / base) b small (ground (arith, z)))
    ]

base_nonzero : (base : ℕ) → IsBase base → (base == 0) ≡ false
base_nonzero base (inl e) = ground (arith, e)
base_nonzero base (inr e) = ground (arith, e)

drop-nil : (n : ℕ) → drop {A = ℕ} n [] ≡ []
drop-nil zero = refl
drop-nil (suc n) = refl

abbrev pub to_buffer : List ℕ → List ℕ → Buffer
to_buffer o r = record { out = o; room = r }

-- Writing characters that fit.
abbrev pub wrote : List ℕ → Buffer → Buffer
wrote s buf = record { out = buf.out ++ s; room = drop (length s) buf.room }

drop-append :
    (s t room : List ℕ) → drop (length (s ++ t)) room ≡ drop (length t) (drop (length s) room)
drop-append [] t room = refl
drop-append (c ∷ s) t [] = sym (drop-nil (length t))
drop-append (c ∷ s) t (x ∷ room) = drop-append s t room

pub wrote-wrote : (s t : List ℕ) (buf : Buffer) → wrote t (wrote s buf) ≡ wrote (s ++ t) buf
wrote-wrote s t buf = ap₂ to_buffer (append_assoc buf.out s t) (sym (drop-append s t buf.room))

put-room :
    (c : ℕ) (o room : List ℕ)
    → 0 < length room
    → put c (to_buffer o room) ≡ ok (wrote (c ∷ []) (to_buffer o room))
put-room c o [] h = absurd (omega arith)
put-room c o (x ∷ room) h = refl

pub put_lem : (c : ℕ) (buf : Buffer) → 0 < length buf.room → put c buf ≡ ok (wrote (c ∷ []) buf)
put_lem c buf h = put-room c buf.out buf.room h

pub length-wrote :
    (s : List ℕ) (buf : Buffer) → length (wrote s buf).room ≡ length buf.room - length s
length-wrote s buf = length-drop (length s) buf.room

deeper : (depth w : ℕ) → w < 2 ^ depth → 0 < w → 0 < depth
deeper zero w h pos = omega arith
deeper (suc depth) w h pos = omega arith

pub itoa-numeral :
    (depth base v : ℕ) (buf : Buffer)
    → IsBase base
    → v < 2 ^ depth
    → 0 < depth
    → length (numeral depth base v) ≤ length buf.room
    → itoa depth v buf base ≡ ok (wrote (numeral depth base v) buf)
unfolding itoa numeral
itoa-numeral zero base v buf b h pos fits = absurd (omega arith)
itoa-numeral (suc depth) base v buf b h pos fits =
    let d = digit (v % base) ∷ [] in
    let small = halves depth base v b h in
    let higher = numeral depth base (v / base) in
    let nonzero = base_nonzero base b in
    elim (Bool-cases (v / base == 0)) [
      | inl z ↦
          rw (nonzero, z)
            (put_lem (digit (v % base)) buf (
              omega (
                arith,
                subst (λ t. length ((if t then [] else higher) ++ d) ≤ length buf.room) z fits,
              )))
      | inr z ↦
          let room =
            subst (λ n. n ≤ length buf.room) (length-append higher d)
              (subst (λ t. length ((if t then [] else higher) ++ d) ≤ length buf.room) z fits) in
          let ih =
            itoa-numeral depth base (v / base) buf b small
              (deeper depth (v / base) small (ground (arith, z))) (omega arith) in
          let last =
            put_lem (digit (v % base)) (wrote higher buf)
              (omega (arith, length-wrote higher buf)) in
          rw (nonzero, z, ih, last) (ap ok (wrote-wrote higher d buf))
    ]

pub length-numeral-short :
    (base v : ℕ) → IsBase base → v < 2 ^ 32 → length (numeral max_depth base v) ≤ 10
length-numeral-short base v (inl e) h =
    length-numeral max_depth base v 9 (inl e) (decimal_range base v e h)
length-numeral-short base v (inr e) h =
    let short = length-numeral max_depth base v 7 (inr e) (hexadecimal_range base v e h) in
    omega arith

numeral-width :
    (base v : ℕ)
    → IsBase base
    → v < 2 ^ 32
    → length (numeral max_depth base v) ≤ (if base == 10 then 10 else 8)
numeral-width base v (inl e) h =
    let ten : (base == 10) ≡ true = ground (arith, e) in
    rw ten (length-numeral max_depth base v 9 (inl e) (decimal_range base v e h))
numeral-width base v (inr e) h =
    let sixteen : (base == 10) ≡ false = ground (arith, e) in
    rw sixteen (length-numeral max_depth base v 7 (inr e) (hexadecimal_range base v e h))

leading :
    (base v : ℕ) → IsBase base → v < 2 ^ 32 → (v ≡ 0) ⊎ (first (numeral max_depth base v) ≢ b'0')
leading base zero b h = inl refl
leading base (suc v) b h = inr (numeral-first max_depth base (suc v) b h (omega arith))

-- For a value below `2 ^ 32` and base 10 or 16, `itoa` appends digits that read back as the value
-- to the buffer, if the room is at least 10 bytes; there are at most 10 of them in base 10 and at
-- most 8 in base 16, and the first is not `0` unless the value is 0.
pub itoa_lem :
    (base v : ℕ) (buf : Buffer)
    → IsBase base
    → v < 2 ^ 32
    → 10 ≤ length buf.room
    → (s : List ℕ) × (itoa max_depth v buf base ≡ ok (wrote s buf))
      × (reads base 0 s ≡ v)
      × (length s ≤ (if base == 10 then 10 else 8))
      × ((v ≡ 0) ⊎ (first s ≢ b'0'))
itoa_lem base v buf b h room =
    let s = numeral max_depth base v in
    (
      s,
      itoa-numeral max_depth base v buf b h (omega arith)
          (let short = length-numeral-short base v b h in omega arith),
      reads-numeral max_depth base v b h,
      numeral-width base v b h,
      leading base v b h,
    )
