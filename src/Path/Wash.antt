-- ===== src/Path/Wash.antt =====
-- `wash_path` computes the normal form of an absolute path.
use loong_os.Prelude.{
  ℕ, zero, suc, ◌+◌, ◌-◌, ◌^◌, ◌≤◌, ◌<◌, ◌≡◌, ◌≢◌, refl, sym, ap, ◌∙◌, subst, true, false, Option,
  some, List, [], ◌∷◌, arith, ok, ◌==◌, Bool-cases, inl, inr, length, length-append, replicate,
  get_elem?, Outcome,
}
use loong_os.CString.Strings.{NoZero, cstr, strcat_fits}
use loong_os.CString.Compare.{AllBytes}
use loong_os.Path.{
  slash, is_named, poke, wash_name, wash_loop, wash_path, rest_or_null, skip_slashes,
}
use loong_os.Path.Parse.{
  components, first_name, later, name_of, rest_of, path_parse_lem, NoZero-first, Fits,
}
use loong_os.Path.Depth.{
  blank, cleared, parse_more_lem, overlay, length-overlay, Fits-first, no_name, a_name, Front-cases,
  first-ne-zero,
}
use loong_os.Path.Render.{same, text, render, IsName, AllNames, strcmp-same, Shows}
use loong_os.Path.Names.{apply, parent, cut_last-Shows, append_name-Shows}

-- The stack after all names of a path, one after the other.
unfoldable pub normal : List (List ℕ) → List (List ℕ) → List (List ℕ)
normal st [] = st
normal st (c ∷ names) = normal (apply c st) names

wash_name-Shows :
    {size : ℕ} (st : List (List ℕ)) (c zeros buf : List ℕ)
    → Shows size st buf
    → AllNames st
    → IsName c
    → size < 2 ^ 32
    → length (render st) + length c + 2 ≤ size
    → (buf' : List ℕ) × (wash_name (cstr c zeros) buf ≡ ok buf') × Shows size (apply c st) buf'
unfolding wash_name apply
wash_name-Shows st c zeros buf s h n small fits =
    let (p, run_p, is_p) =
      strcmp-same (b'.' ∷ b'.' ∷ []) c [] zeros (omega arith) n.no_zero (omega arith) n.bytes in
    let (q, run_q, is_q) =
      strcmp-same (b'.' ∷ []) c [] zeros (omega arith) n.no_zero (omega arith) n.bytes in
    elim (Bool-cases (same (b'.' ∷ b'.' ∷ []) c)) [
      | inl up ↦ rw (run_p, is_p, up) (cut_last-Shows st buf s h small)
      | inr down ↦ elim (Bool-cases (same (b'.' ∷ []) c)) [
        | inl stay ↦ rw (run_p, is_p, down, run_q, is_q, stay) (buf, refl, s)
        | inr push ↦
            rw (run_p, is_p, down, run_q, is_q, push) (append_name-Shows st c zeros buf s h n fits)
      ]
    ]

-- What holds of the three stacks that a name can lead to holds of the one that it leads to.
apply_lem :
    (P : List (List ℕ) → Type 0) (c : List ℕ) (st : List (List ℕ))
    → P (parent st)
    → P st
    → P (c ∷ st)
    → P (apply c st)
unfolding apply
apply_lem P c st up stay push = elim (Bool-cases (same (b'.' ∷ b'.' ∷ []) c)) [
  | inl e ↦ rw e up
  | inr e ↦ elim (Bool-cases (same (b'.' ∷ []) c)) [
    | inl f ↦ rw (e, f) stay
    | inr f ↦ rw (e, f) push
  ]
]

AllNames-parent : (st : List (List ℕ)) → AllNames st → AllNames (parent st)
AllNames-parent [] h = tt
AllNames-parent (d ∷ st) h = h.1

length-parent :
    (st : List (List ℕ)) → AllNames st → length (render (parent st)) ≤ length (render st)
unfolding render
length-parent [] h = omega arith
length-parent (d ∷ []) h = omega (arith, h.0.nonempty)
length-parent (d ∷ e ∷ st) h = omega (arith, length-append (text (e ∷ st)) (slash ∷ d))

length-push :
    (c : List ℕ) (st : List (List ℕ)) → length (render (c ∷ st)) ≤ length (render st) + length c + 1
unfolding render
length-push c [] = omega arith
length-push c (d ∷ st) = omega (arith, length-append (text (d ∷ st)) (slash ∷ c))

length-apply :
    (c : List ℕ) (st : List (List ℕ))
    → AllNames st
    → length (render (apply c st)) ≤ length (render st) + length c + 1
length-apply c st h =
    apply_lem (λ t. length (render t) ≤ length (render st) + length c + 1) c st
      (omega (arith, length-parent st h)) (omega arith) (length-push c st)

-- A name in a cleared buffer is a string.
overlay-cstr :
    (n : List ℕ) (k : ℕ)
    → length n < k
    → overlay n (replicate k 0) ≡ cstr n (replicate (k - length n - 1) 0)
overlay-cstr [] zero h = absurd (omega arith)
overlay-cstr [] (suc k) h = ap (λ m. 0 ∷ replicate m 0) (omega arith)
overlay-cstr (c ∷ n) zero h = absurd (omega arith)
overlay-cstr (c ∷ n) (suc k) h =
    ap (λ r. c ∷ r)
      (overlay-cstr n k (omega arith) ∙ ap (λ m. cstr n (replicate m 0)) (omega arith))

no_slash-cons :
    (c : ℕ) (n : List ℕ)
    → (c == slash) ≡ false
    → ((j : ℕ) → get_elem? n j ≢ some slash)
    → (j : ℕ) → get_elem? (c ∷ n) j ≢ some slash
no_slash-cons c n h free zero e = ground (arith, h, e)
no_slash-cons c n h free (suc j) e = free j e

name_of-no_slash : (s : List ℕ) (j : ℕ) → get_elem? (name_of s) j ≢ some slash
unfolding name_of
name_of-no_slash [] j = λ e. ground arith
name_of-no_slash (c ∷ s) j = elim (Bool-cases (c == slash)) [
  | inl h ↦ rw h (λ e. ground arith)
  | inr h ↦ rw h (no_slash-cons c (name_of s) h (name_of-no_slash s) j)
]

AllBytes-skip : (s : List ℕ) → AllBytes s → AllBytes (skip_slashes s)
unfolding skip_slashes
AllBytes-skip [] h = tt
AllBytes-skip (c ∷ s) h = elim (Bool-cases (c == slash)) [
  | inl e ↦ rw e (AllBytes-skip s h.1)
  | inr e ↦ rw e h
]

AllBytes-name : (s : List ℕ) → AllBytes s → AllBytes (name_of s) × AllBytes (rest_of s)
unfolding name_of rest_of
AllBytes-name [] h = (tt, tt)
AllBytes-name (c ∷ s) h = elim (Bool-cases (c == slash)) [
  | inl e ↦ rw e (tt, h)
  | inr e ↦ rw e ((h.0, (AllBytes-name s h.1).0), (AllBytes-name s h.1).1)
]

AllBytes-first : (s : List ℕ) → AllBytes s → AllBytes (first_name s) × AllBytes (later s)
unfolding first_name later
AllBytes-first s h = AllBytes-name (skip_slashes s) (AllBytes-skip s h)

first-no_slash : (s : List ℕ) (j : ℕ) → get_elem? (first_name s) j ≢ some slash
unfolding first_name
first-no_slash s j = name_of-no_slash (skip_slashes s) j

IsName-first :
    (s : List ℕ) (x : ℕ) (w : List ℕ)
    → NoZero s
    → AllBytes s
    → first_name s ≡ x ∷ w
    → IsName (first_name s)
IsName-first s x w z b e = record {
  nonempty = omega (arith, ap length e);
  no_zero = (NoZero-first s z).0;
  bytes = (AllBytes-first s b).0;
  no_slash = first-no_slash s;
}

-- The bytes that names take in a path.
unfoldable pub weight : List (List ℕ) → ℕ
weight [] = 0
weight (c ∷ names) = length c + 1 + weight names

named : (x : ℕ) (w buf : List ℕ) → x ≢ 0 → is_named (overlay (x ∷ w) buf) ≡ true
named x w buf ne = ground arith

-- While there is a name, the loop handles it and parses the next one into a cleared buffer.
wash_step :
    (rounds : ℕ) (s buf buf' : List ℕ) (x : ℕ) (w : List ℕ)
    → first_name s ≡ x ∷ w
    → x ≢ 0
    → length (first_name s) ≤ 16
    → length (first_name (later s)) ≤ 16
    → wash_name (overlay (first_name s) blank) buf ≡ ok buf'
    → wash_loop (suc rounds) (rest_or_null (later s)) (overlay (first_name s) blank) buf
      ≡ wash_loop rounds
          (rest_or_null (later (later s)))
          (overlay (first_name (later s)) blank)
          buf'
unfolding wash_loop
wash_step rounds s buf buf' x w e ne short short' run =
    let full = overlay (first_name s) blank in
    let size : length full ≡ 16 = length-overlay (first_name s) blank (omega arith) in
    let is : is_named full ≡ true =
      subst (λ n. is_named (overlay n blank) ≡ true) (sym e) (named x w blank ne) in
    rw
      (
        is,
        run,
        cleared full size,
        parse_more_lem (later s) blank,
        path_parse_lem (later s) blank short',
      )
      refl

abbrev pub Washed : ℕ → List (List ℕ) → Outcome (Option (List ℕ)) → Type 0
Washed size st r = (buf : List ℕ) × (r ≡ ok (some buf)) × Shows size st buf

wash_end :
    (rounds : ℕ) (s buf : List ℕ)
    → first_name s ≡ []
    → wash_loop (suc rounds) (rest_or_null (later s)) (overlay (first_name s) blank) buf
      ≡ ok (some buf)
unfolding wash_loop
wash_end rounds s buf e = rw e refl

-- From a stack that the buffer shows, the loop leaves the stack after all further names.
wash_loop_lem :
    (size rounds : ℕ) (s : List ℕ) (st : List (List ℕ)) (buf : List ℕ)
    → NoZero s
    → AllBytes s
    → Fits 15 (components s)
    → Shows size st buf
    → AllNames st
    → size < 2 ^ 32
    → length (render st) + weight (components s) + 1 ≤ size
    → length (components s) < rounds
    → Washed size
        (normal st (components s))
        (wash_loop rounds (rest_or_null (later s)) (overlay (first_name s) blank) buf)
unfolding normal weight
wash_loop_lem size zero s st buf z b f sh names small fits r = absurd (omega arith)
wash_loop_lem size (suc rounds) s st buf z b f sh names small fits r = elim (Front-cases s) [
  | no_name e c ↦
      (buf, wash_end rounds s buf e, subst (λ l. Shows size (normal st l) buf) (sym c) sh)
  | a_name x w e c ↦
      let n = first_name s in
      let c' : components s ≡ n ∷ components (later s) =
        c ∙ ap (λ m. m ∷ components (later s)) (sym e) in
      let name = IsName-first s x w z b e in
      let short : length n ≤ 15 = Fits-first 15 s f in
      let fs : Fits 15 (components (later s)) = (subst (Fits 15) c' f).1 in
      let len : length (components s) ≡ suc (length (components (later s))) = ap length c' in
      let wt : weight (components s) ≡ length n + 1 + weight (components (later s)) =
        ap weight c' in
      let (buf', run, sh') =
        wash_name-Shows st n (replicate (16 - length n - 1) 0) buf sh names name small
          (omega (arith, wt)) in
      let run' =
        subst (λ m. wash_name m buf ≡ ok buf') (sym (overlay-cstr n 16 (omega (arith, short))))
          run in
      let step =
        wash_step rounds s buf buf' x w e (first-ne-zero s x w z e) (omega (arith, short))
          (omega (arith, Fits-first 15 (later s) fs)) run' in
      let (last, ends, shows) =
        wash_loop_lem size rounds (later s) (apply n st) buf' (NoZero-first s z).1
          (AllBytes-first s b).1 fs sh'
          (apply_lem AllNames n st (AllNames-parent st names) names (name, names)) small
          (omega (arith, wt, length-apply n st names)) (omega (arith, len)) in
      (last, step ∙ ends, subst (λ l. Shows size (normal st l) last) (sym c') shows)
]

wash_root :
    (rounds : ℕ) (s rest : List ℕ) (a b : ℕ)
    → first_name (slash ∷ s) ≡ []
    → wash_path rounds (slash ∷ s) (a ∷ b ∷ rest) ≡ ok (some (cstr (slash ∷ []) rest))
unfolding wash_path poke
wash_root rounds s rest a b e = rw (path_parse_lem (slash ∷ s) blank (rw e (omega arith)), e) refl

wash_start :
    (rounds : ℕ) (s rest : List ℕ) (a b x : ℕ) (w : List ℕ)
    → first_name (slash ∷ s) ≡ x ∷ w
    → x ≢ 0
    → length (first_name (slash ∷ s)) ≤ 16
    → wash_path rounds (slash ∷ s) (a ∷ b ∷ rest)
      ≡ wash_loop rounds
          (rest_or_null (later (slash ∷ s)))
          (overlay (first_name (slash ∷ s)) blank)
          (cstr (slash ∷ []) rest)
unfolding wash_path poke
wash_start rounds s rest a b x w e ne short =
    let full = overlay (first_name (slash ∷ s)) blank in
    let is : is_named full ≡ true =
      subst (λ n. is_named (overlay n blank) ≡ true) (sym e) (named x w blank ne) in
    rw
      (
        path_parse_lem (slash ∷ s) blank short,
        is,
        (strcat_fits [] (b ∷ rest) (slash ∷ []) [] tt (omega arith) (omega arith)),
      )
      refl

slash-ne-zero : slash ≢ 0
slash-ne-zero = omega arith

length-root : length (render []) ≡ 1
unfolding render
length-root = refl

root-Shows : (rest : List ℕ) → Shows (length rest + 2) [] (cstr (slash ∷ []) rest)
unfolding render
root-Shows rest = record { room = rest; holds = refl; total = omega arith }

-- Given an absolute path of bytes whose names have at most 15 characters, and a buffer that holds
-- what its names and one byte more take, `wash_path` writes the path's normal form into the buffer:
-- the stack of names that results when each `..` drops the name before it, if there is one, each
-- `.` nothing, and repeated slashes separate but once.
pub wash_path_lem :
    (s new : List ℕ) (rounds : ℕ)
    → NoZero s
    → AllBytes s
    → Fits 15 (components (slash ∷ s))
    → weight (components (slash ∷ s)) + 2 ≤ length new
    → length new < 2 ^ 32
    → length (components (slash ∷ s)) < rounds
    → Washed (length new) (normal [] (components (slash ∷ s))) (wash_path rounds (slash ∷ s) new)
unfolding normal
wash_path_lem s [] rounds z b f fits small r = absurd (omega arith)
wash_path_lem s (a ∷ []) rounds z b f fits small r = absurd (omega arith)
wash_path_lem s (a ∷ b₀ ∷ rest) rounds z b f fits small r =
    let path = slash ∷ s in
    let zp : NoZero path = (slash-ne-zero, z) in
    let size : length rest + 2 ≡ length (a ∷ b₀ ∷ rest) = omega arith in
    let start = subst (λ n. Shows n [] (cstr (slash ∷ []) rest)) size (root-Shows rest) in
    elim (Front-cases path) [
      | no_name e c ↦ (
        cstr (slash ∷ []) rest,
        wash_root rounds s rest a b₀ e,
        subst (λ l. Shows (length (a ∷ b₀ ∷ rest)) (normal [] l) (cstr (slash ∷ []) rest)) (sym c)
            start,
      )
      | a_name x w e c ↦
          let (last, ends, shows) =
            wash_loop_lem (length (a ∷ b₀ ∷ rest)) rounds path [] (cstr (slash ∷ []) rest) zp
              (omega arith, b) f start tt small (omega (arith, length-root)) r in
          (
            last,
            wash_start rounds s rest a b₀ x w e (first-ne-zero path x w zp e)
                  (omega (arith, Fits-first 15 path f))
                ∙ ends,
            shows,
          )
    ]
