-- ===== src/Path/Names.antt =====
-- One name of a path, handled by `wash_path`, on the stack of names.
use loong_os.Prelude.{
  ℕ, suc, ◌+◌, ◌^◌, ◌≤◌, ◌<◌, ◌≡◌, ◌≢◌, refl, sym, ap, ◌∙◌, subst, true, false, some, List, [], ◌∷◌,
  ◌++◌, arith, ok, ◌==◌, if◌then◌else◌, Bool-cases, inl, inr, length, length-append, drop,
  length-drop, get_elem?, append_assoc,
}
use loong_os.CString.{strrchr}
use loong_os.CString.Strings.{NoZero-append, NoZero, cstr, strcat_fits}
use loong_os.CString.Compare.{AllBytes}
use loong_os.CString.Search.{strchr-cstr}
use loong_os.Path.{slash, poke, cut_last, append_name}
use loong_os.Path.Render.{
  same, same_iff, text, render, IsName, AllNames, NoZero-render, AllBytes-render, strcmp-same,
  Shows, poke-at, last-slash,
}

abbrev pub parent : List (List ℕ) → List (List ℕ)
parent [] = []
parent (d ∷ above) = above

-- What a name does to the stack: `..` drops the name on top, `.` does nothing.
unfoldable pub apply : List ℕ → List (List ℕ) → List (List ℕ)
apply c st =
    if same (b'.' ∷ b'.' ∷ []) c then parent st else if same (b'.' ∷ []) c then st else c ∷ st

shows :
    {size : ℕ} {st : List (List ℕ)} {buf : List ℕ} (room : List ℕ)
    → buf ≡ cstr (render st) room
    → length (render st) + 1 + length room ≡ size
    → Shows size st buf
shows room e t = record { room = room; holds = e; total = t }

-- `cut_last` finds the slash before the last name.
rindex :
    (pre c room : List ℕ)
    → NoZero (pre ++ (slash ∷ c))
    → ((j : ℕ) → get_elem? c j ≢ some slash)
    → length (pre ++ (slash ∷ c)) < 2 ^ 32
    → strrchr (some (cstr (pre ++ (slash ∷ c)) room)) slash ≡ ok (some (length pre))
rindex pre c room z free small =
    let (r, run, last) = (strchr-cstr (pre ++ (slash ∷ c)) room slash z small).1 in
    run ∙ ap ok (last-slash pre c r free last)

cut_last-root : (room : List ℕ) → cut_last (cstr (slash ∷ []) room) ≡ ok (cstr (slash ∷ []) room)
unfolding cut_last poke
cut_last-root room = rw (rindex [] [] room (omega arith) (λ j e. ground arith) (omega arith)) refl

cut_last-deep :
    (p : ℕ) (pre c room : List ℕ)
    → NoZero ((p ∷ pre) ++ (slash ∷ c))
    → ((j : ℕ) → get_elem? c j ≢ some slash)
    → length ((p ∷ pre) ++ (slash ∷ c)) < 2 ^ 32
    → cut_last (cstr ((p ∷ pre) ++ (slash ∷ c)) room) ≡ ok (cstr (p ∷ pre) (c ++ (0 ∷ room)))
unfolding cut_last
cut_last-deep p pre c room z free small =
    rw
      (
        rindex (p ∷ pre) c room z free small,
        suc_ne (length pre),
        append_assoc pre (slash ∷ c) (0 ∷ room),
      )
      (poke-at (p ∷ pre) slash (c ++ (0 ∷ room)) 0)
  where
    suc_ne : (n : ℕ) → (suc n == 0) ≡ false
    suc_ne n = ground arith

cut_last-one :
    (x : ℕ) (c room : List ℕ)
    → NoZero (slash ∷ x ∷ c)
    → ((j : ℕ) → get_elem? (x ∷ c) j ≢ some slash)
    → length (slash ∷ x ∷ c) < 2 ^ 32
    → cut_last (cstr (slash ∷ x ∷ c) room) ≡ ok (cstr (slash ∷ []) (c ++ (0 ∷ room)))
unfolding cut_last poke
cut_last-one x c room z free small = rw (rindex [] (x ∷ c) room z free small) refl

text-front : (d : List ℕ) (st : List (List ℕ)) → (pre : List ℕ) × (text (d ∷ st) ≡ slash ∷ pre)
unfolding text
text-front d [] = (d, refl)
text-front d (e ∷ st) =
    let (pre, eq) = text-front e st in (pre ++ (slash ∷ d), ap (λ t. t ++ (slash ∷ d)) eq)

cut_last-top :
    (top pre c room buf : List ℕ)
    → top ≡ slash ∷ pre
    → buf ≡ cstr (top ++ (slash ∷ c)) room
    → NoZero (top ++ (slash ∷ c))
    → ((j : ℕ) → get_elem? c j ≢ some slash)
    → length (top ++ (slash ∷ c)) < 2 ^ 32
    → cut_last buf ≡ ok (cstr top (c ++ (0 ∷ room)))
cut_last-top top pre c room buf e b z free small =
    ap cut_last (b ∙ ap (λ t. cstr (t ++ (slash ∷ c)) room) e)
    ∙ cut_last-deep slash pre c room (subst (λ t. NoZero (t ++ (slash ∷ c))) e z) free
        (subst (λ t. length (t ++ (slash ∷ c)) < 2 ^ 32) e small)
    ∙ ap (λ t. ok (cstr t (c ++ (0 ∷ room)))) (sym e)

-- `..` cuts the top name off, and leaves the root as it is.
pub cut_last-Shows :
    {size : ℕ} (st : List (List ℕ)) (buf : List ℕ)
    → Shows size st buf
    → AllNames st
    → size < 2 ^ 32
    → (buf' : List ℕ) × (cut_last buf ≡ ok buf') × Shows size (parent st) buf'
unfolding render
cut_last-Shows [] buf s h small = (
  cstr (slash ∷ []) s.room,
  ap cut_last s.holds ∙ cut_last-root s.room,
  shows s.room refl s.total,
)
cut_last-Shows ([] ∷ st) buf s h small = absurd (omega (arith, h.0.nonempty))
cut_last-Shows ((x ∷ c) ∷ []) buf s h small = (
  cstr (slash ∷ []) (c ++ (0 ∷ s.room)),
  ap cut_last s.holds
      ∙ cut_last-one x c s.room (omega arith, h.0.no_zero) h.0.no_slash (omega (arith, one_size s)),
  shows (c ++ (0 ∷ s.room)) refl (omega (arith, one_size s, length-append c (0 ∷ s.room))),
)
  where
    one_size :
        {size : ℕ} {buf : List ℕ} (s : Shows size ((x ∷ c) ∷ []) buf)
        → length c + 3 + length s.room ≡ size
    one_size s = omega (arith, s.total)
cut_last-Shows {size} (c ∷ d ∷ st) buf s h small =
    let (pre, eq) = text-front d st in
    let size_eq : length (text (d ∷ st)) + length c + 2 + length s.room ≡ size =
      omega (arith, s.total, length-append (text (d ∷ st)) (slash ∷ c)) in
    (
      cstr (text (d ∷ st)) (c ++ (0 ∷ s.room)),
      cut_last-top (text (d ∷ st)) pre c s.room buf eq s.holds (NoZero-render (c ∷ d ∷ st) h)
          h.0.no_slash (omega (arith, s.total)),
      shows (c ++ (0 ∷ s.room)) refl (omega (arith, size_eq, length-append c (0 ∷ s.room))),
    )

text-ne-root :
    (c : List ℕ) (st : List (List ℕ)) → 0 < length c → same (text (c ∷ st)) (slash ∷ []) ≡ false
unfolding text
text-ne-root c st h = elim (Bool-cases (same (text st ++ (slash ∷ c)) (slash ∷ []))) [
  | inl e ↦ absurd (
      omega (
        arith,
        length-append (text st) (slash ∷ c),
        ap length ((same_iff (text st ++ (slash ∷ c)) (slash ∷ [])).0 e),
      ))
  | inr e ↦ e
]

append_name-root :
    (c zeros room : List ℕ)
    → NoZero c
    → length c ≤ length room
    → append_name (cstr c zeros) (cstr (slash ∷ []) room)
      ≡ ok (cstr (slash ∷ c) (drop (length c) room))
unfolding append_name
append_name-root c zeros room z fits =
    let (r, run, is) =
      strcmp-same (slash ∷ []) (slash ∷ []) room [] (omega arith) (omega arith) (omega arith)
        (omega arith) in
    rw (run, is ∙ yes_same) ((strcat_fits (slash ∷ []) room c zeros (omega arith) z fits))
  where
    yes_same : same (slash ∷ []) (slash ∷ []) ≡ true
    yes_same = (same_iff (slash ∷ []) (slash ∷ [])).1 refl

append_name-deep :
    (t c zeros room : List ℕ)
    → NoZero t
    → AllBytes t
    → NoZero c
    → same t (slash ∷ []) ≡ false
    → length c + 1 ≤ length room
    → append_name (cstr c zeros) (cstr t room)
      ≡ ok (cstr ((t ++ (slash ∷ [])) ++ c) (drop (length c) (drop 1 room)))
unfolding append_name
append_name-deep t c zeros room zt bt z ne fits =
    let (r, run, is) = strcmp-same t (slash ∷ []) room [] zt (omega arith) bt (omega arith) in
    rw (run, is ∙ ne, (strcat_fits t room (slash ∷ []) [] zt (omega arith) (omega arith)))
      ((strcat_fits (t ++ (slash ∷ [])) (drop 1 room) c zeros
          (NoZero-append t (slash ∷ []) zt (omega arith)) z)
        (omega (arith, length-drop 1 room)))

-- Any other name is pushed, if the buffer has room for it and a slash.
pub append_name-Shows :
    {size : ℕ} (st : List (List ℕ)) (c zeros buf : List ℕ)
    → Shows size st buf
    → AllNames st
    → IsName c
    → length (render st) + length c + 2 ≤ size
    → (buf' : List ℕ) × (append_name (cstr c zeros) buf ≡ ok buf') × Shows size (c ∷ st) buf'
unfolding render
append_name-Shows [] c zeros buf s h n fits = (
  cstr (slash ∷ c) (drop (length c) s.room),
  ap (append_name (cstr c zeros)) s.holds
      ∙ append_name-root c zeros s.room n.no_zero (omega (arith, s.total)),
  shows (drop (length c) s.room) refl (omega (arith, s.total, length-drop (length c) s.room)),
)
append_name-Shows {size} (d ∷ st) c zeros buf s h n fits =
    let t = text (d ∷ st) in
    let left = drop (length c) (drop 1 s.room) in
    let room_size : length t + 1 + length s.room ≡ size = s.total in
    let same_text : (t ++ (slash ∷ [])) ++ c ≡ text (c ∷ d ∷ st) = append_assoc t (slash ∷ []) c in
    (
      cstr ((t ++ (slash ∷ [])) ++ c) left,
      ap (append_name (cstr c zeros)) s.holds
          ∙ append_name-deep t c zeros s.room (NoZero-render (d ∷ st) h)
              (AllBytes-render (d ∷ st) h) n.no_zero (text-ne-root d st h.0.nonempty)
              (omega (arith, s.total)),
      shows left (ap (λ t. cstr t left) same_text) (
          omega (
            arith,
            room_size,
            length-append t (slash ∷ c),
            length-drop (length c) (drop 1 s.room),
            length-drop 1 s.room,
          )),
    )
