-- ===== src/Path/Depth.antt =====
-- `path_depth_cnt` counts the names in a path.
use loong_os.Prelude.{
  ℕ, zero, suc, ◌+◌, ◌^◌, ◌≤◌, ◌<◌, ◌≡◌, ◌≢◌, refl, sym, ap, ◌∙◌, subst, true, false, some, List,
  [], ◌∷◌, ◌++◌, arith, ok, length, drop, replicate, u32,
}
use loong_os.CString.{memset}
use loong_os.CString.Strings.{NoZero}
use loong_os.CString.Memory.{memset_fits}
use loong_os.Path.{
  max_file_name_len, skip_slashes, store_name, path_parse, parse_more, is_named, depth_loop,
  path_depth_cnt, rest_or_null,
}
use loong_os.Path.Parse.{
  components, components_lem, first_name, later, later-eq-nil, path_parse_lem, NoZero-first, Fits,
  emit, nil_components,
}

abbrev pub blank : List ℕ
blank = replicate max_file_name_len 0

drop-all : (n : ℕ) (xs : List ℕ) → length xs ≤ n → drop n xs ≡ []
drop-all zero [] h = refl
drop-all zero (x ∷ xs) h = absurd (omega arith)
drop-all (suc n) [] h = refl
drop-all (suc n) (x ∷ xs) h = drop-all n xs (omega arith)

pub cleared : (name : List ℕ) → length name ≡ 16 → memset (some name) 0 max_file_name_len ≡ ok blank
cleared name h = memset_fits name 0 16 (omega arith) ∙ rw (drop-all 16 name (omega arith)) refl

pub parse_more_lem : (s buf : List ℕ) → parse_more (rest_or_null s) buf ≡ path_parse s buf
unfolding parse_more path_parse skip_slashes store_name
parse_more_lem [] buf = refl
parse_more_lem (c ∷ s) buf = refl

pub length-overlay :
    (n buf : List ℕ) → length n ≤ length buf → length (n ++ drop (length n) buf) ≡ length buf
length-overlay [] buf h = refl
length-overlay (c ∷ n) [] h = absurd (omega arith)
length-overlay (c ∷ n) (b ∷ buf) h = ap suc (length-overlay n buf (omega arith))

-- The buffer after the name of `s` was stored in it.
abbrev pub overlay : List ℕ → List ℕ → List ℕ
overlay n buf = n ++ drop (length n) buf

pub Fits-first : (n : ℕ) (s : List ℕ) → Fits n (components s) → length (first_name s) ≤ n
Fits-first n s f = split (first_name s) (components_lem s)
  where
    split : (w : List ℕ) → components s ≡ emit w (components (later s)) → length w ≤ n
    split [] e = omega arith
    split (c ∷ w) e = (subst (Fits n) e f).0

-- Either the path has no more names, or it has a first one that begins with a character.
pub data Front (s : List ℕ) : Type 0 where
  no_name : first_name s ≡ [] → components s ≡ [] → Front s
  a_name :
      (c : ℕ) (w : List ℕ)
      → first_name s ≡ c ∷ w
      → components s ≡ (c ∷ w) ∷ components (later s)
      → Front s

pub Front-cases : (s : List ℕ) → Front s
Front-cases s = split (first_name s) refl
  where
    split : (w : List ℕ) → first_name s ≡ w → Front s
    split [] e = no_name e (components_lem s ∙ rw (e, later-eq-nil s e) nil_components)
    split (c ∷ w) e = a_name c w e (components_lem s ∙ ap (λ v. emit v (components (later s))) e)

named : (x : ℕ) (w buf : List ℕ) → x ≢ 0 → is_named (overlay (x ∷ w) buf) ≡ true
named x w buf ne = ground arith

-- While there is a name, the loop counts it and parses the next one into a cleared buffer.
depth_step :
    (rounds : ℕ) (s buf : List ℕ) (depth : ℕ) (x : ℕ) (w : List ℕ)
    → first_name s ≡ x ∷ w
    → x ≢ 0
    → length (first_name s) ≤ 16
    → length (first_name (later s)) ≤ 16
    → length buf ≡ 16
    → depth_loop (suc rounds) (rest_or_null (later s)) (overlay (first_name s) buf) depth
      ≡ depth_loop rounds
          (rest_or_null (later (later s)))
          (overlay (first_name (later s)) blank)
          (u32 (depth + 1))
unfolding depth_loop
depth_step rounds s buf depth x w e ne short short' l =
    let size : length (overlay (first_name s) buf) ≡ 16 =
      length-overlay (first_name s) buf (omega arith) ∙ l in
    let is : is_named (overlay (first_name s) buf) ≡ true =
      subst (λ n. is_named (overlay n buf) ≡ true) (sym e) (named x w buf ne) in
    rw
      (
        is,
        cleared (overlay (first_name s) buf) size,
        parse_more_lem (later s) blank,
        path_parse_lem (later s) blank short',
      )
      refl

pub first-ne-zero : (s : List ℕ) (x : ℕ) (w : List ℕ) → NoZero s → first_name s ≡ x ∷ w → x ≢ 0
first-ne-zero s x w z e = (subst NoZero e (NoZero-first s z).0).0

ending :
    (rounds : ℕ) (s buf : List ℕ) (depth : ℕ)
    → first_name s ≡ []
    → components s ≡ []
    → is_named buf ≡ false
    → depth_loop (suc rounds) (rest_or_null (later s)) (overlay (first_name s) buf) depth
      ≡ ok (some (depth + length (components s)))
unfolding depth_loop
ending rounds s buf depth e c g = rw (e, c, g) (ap (λ d. ok (some d)) (omega arith))

depth_loop_lem :
    (rounds : ℕ) (s buf : List ℕ) (depth : ℕ)
    → NoZero s
    → Fits 16 (components s)
    → length buf ≡ 16
    → (components s ≡ [] → is_named buf ≡ false)
    → length (components s) < rounds
    → depth + length (components s) < 2 ^ 32
    → depth_loop rounds (rest_or_null (later s)) (overlay (first_name s) buf) depth
      ≡ ok (some (depth + length (components s)))
depth_loop_lem zero s buf depth z f l g r small = absurd (omega arith)
depth_loop_lem (suc rounds) s buf depth z f l g r small = elim (Front-cases s) [
  | no_name e c ↦ ending rounds s buf depth e c (g c)
  | a_name x w e c ↦
      let fs : Fits 16 (components (later s)) = (subst (Fits 16) c f).1 in
      let len : length (components s) ≡ suc (length (components (later s))) = ap length c in
      let wrap : u32 (depth + 1) ≡ depth + 1 = omega (arith, len) in
      depth_step rounds s buf depth x w e (first-ne-zero s x w z e) (Fits-first 16 s f)
        (Fits-first 16 (later s) fs) l
      ∙ ap
          (depth_loop rounds (rest_or_null (later (later s)))
            (overlay (first_name (later s)) blank))
          wrap
      ∙ depth_loop_lem rounds (later s) blank (depth + 1) (NoZero-first s z).1 fs refl (λ n. refl)
          (omega (arith, len)) (omega (arith, len))
      ∙ ap (λ d. ok (some d)) (omega (arith, len))
]

-- `path_depth_cnt` returns the number of names in a path that has any, if each fits in the 16 bytes
-- of its buffer, whatever the buffer holds at first.
pub path_depth_cnt_lem :
    (s garbage : List ℕ) (rounds : ℕ)
    → NoZero s
    → Fits 16 (components s)
    → components s ≢ []
    → length garbage ≡ 16
    → length (components s) < rounds
    → rounds < 2 ^ 32
    → path_depth_cnt rounds s garbage ≡ ok (some (length (components s)))
unfolding path_depth_cnt
path_depth_cnt_lem s garbage rounds z f ne l r small =
    rw (path_parse_lem s garbage (omega (arith, Fits-first 16 s f))) (
      depth_loop_lem rounds s garbage 0 z f l (λ e. absurd (ne e)) r (omega arith)
      ∙ ap (λ d. ok (some d)) (omega arith))

one_round :
    (s garbage : List ℕ) (rounds : ℕ)
    → first_name s ≡ []
    → length garbage ≡ 16
    → is_named garbage ≡ true
    → path_depth_cnt (suc (suc rounds)) s garbage ≡ ok (some 1)
unfolding path_depth_cnt depth_loop parse_more
one_round s garbage rounds e l g =
    rw (path_parse_lem s garbage (rw e (omega arith)), e, later-eq-nil s e, g, cleared garbage l)
      refl

-- On a path with no name, the first byte of the buffer of 16 is read, with two rounds or more, though nothing was written to it: if
-- it happens not to be 0, the result is 1 and not 0.
pub path_depth_cnt_garbage :
    (s garbage : List ℕ) (rounds : ℕ)
    → components s ≡ []
    → length garbage ≡ 16
    → is_named garbage ≡ true
    → 1 < rounds
    → path_depth_cnt rounds s garbage ≡ ok (some 1)
path_depth_cnt_garbage s garbage zero c l g r = absurd (omega arith)
path_depth_cnt_garbage s garbage (suc zero) c l g r = absurd (omega arith)
path_depth_cnt_garbage s garbage (suc (suc rounds)) c l g r = elim (Front-cases s) [
  | no_name e n ↦ one_round s garbage rounds e l g
  | a_name x w e n ↦ ground (arith, c, n)
]
