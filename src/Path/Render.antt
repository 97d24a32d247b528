-- ===== src/Path/Render.antt =====
-- A normalised path as a stack of names, and how the string routines see it.
use loong_os.Prelude.{
  ℕ, zero, suc, ◌+◌, ◌-◌, ◌<◌, ◌≡◌, ◌≢◌, ◌↔◌, refl, sym, ap, ◌∙◌, Bool, true, false, ◌&&◌, Option,
  none, some, List, [], ◌∷◌, ◌++◌, arith, ok, ◌==◌, Bool-cases, ==_iff, ltb, inl, inr, length,
  get_elem?,
}
use loong_os.CString.{Sign, negative, nought, positive, strcmp}
use loong_os.CString.Strings.{NoZero-append, NoZero, cstr}
use loong_os.CString.Compare.{AllBytes, strcmp-cstr}
use loong_os.CString.Search.{IsLast}
use loong_os.Path.{slash, is_nought, poke}

-- Whether two names are equal.
unfoldable pub same : List ℕ → List ℕ → Bool
same [] [] = true
same [] (y ∷ b) = false
same (x ∷ a) [] = false
same (x ∷ a) (y ∷ b) = (x == y) && same a b

pub same_iff : (a b : List ℕ) → (same a b ≡ true) ↔ (a ≡ b)
unfolding same
same_iff [] [] = (λ e. refl, λ e. refl)
same_iff [] (y ∷ b) = (λ e. ground arith, λ e. ground arith)
same_iff (x ∷ a) [] = (λ e. ground arith, λ e. ground arith)
same_iff (x ∷ a) (y ∷ b) = (λ e. ground (arith, same_iff a b), λ e. ground (arith, same_iff a b))

-- The names of a directory and of the directories above it, the root left out, written as a path.
unfoldable pub text : List (List ℕ) → List ℕ
text [] = []
text (c ∷ above) = text above ++ (slash ∷ c)

unfoldable pub render : List (List ℕ) → List ℕ
unfolding text
render [] = slash ∷ []
render (c ∷ above) = text (c ∷ above)

-- A name: some bytes, neither zeros nor slashes.
pub record IsName (c : List ℕ) : Type 0 where
  pub nonempty : 0 < length c
  pub no_zero : NoZero c
  pub bytes : AllBytes c
  pub no_slash : (j : ℕ) → get_elem? c j ≢ some slash

abbrev pub AllNames : List (List ℕ) → Type 0
AllNames [] = Unit
AllNames (c ∷ above) = IsName c × AllNames above

AllBytes-append : (a b : List ℕ) → AllBytes a → AllBytes b → AllBytes (a ++ b)
AllBytes-append [] b ha hb = hb
AllBytes-append (x ∷ a) b ha hb = (ha.0, AllBytes-append a b ha.1 hb)

NoZero-text : (st : List (List ℕ)) → AllNames st → NoZero (text st)
unfolding text
NoZero-text [] h = tt
NoZero-text (c ∷ st) h =
    NoZero-append (text st) (slash ∷ c) (NoZero-text st h.1) (omega arith, h.0.no_zero)

AllBytes-text : (st : List (List ℕ)) → AllNames st → AllBytes (text st)
unfolding text
AllBytes-text [] h = tt
AllBytes-text (c ∷ st) h =
    AllBytes-append (text st) (slash ∷ c) (AllBytes-text st h.1) (omega arith, h.0.bytes)

pub NoZero-render : (st : List (List ℕ)) → AllNames st → NoZero (render st)
unfolding render
NoZero-render [] h = omega arith
NoZero-render (c ∷ st) h = NoZero-text (c ∷ st) h

pub AllBytes-render : (st : List (List ℕ)) → AllNames st → AllBytes (render st)
unfolding render
AllBytes-render [] h = omega arith
AllBytes-render (c ∷ st) h = AllBytes-text (c ∷ st) h

-- `strcmp` tells whether two strings are equal.
pub strcmp-same :
    (a b u v : List ℕ)
    → NoZero a
    → NoZero b
    → AllBytes a
    → AllBytes b
    → (r : Sign) × (strcmp (some (cstr a u)) (some (cstr b v)) ≡ ok r) × (is_nought r ≡ same a b)
strcmp-same a b u v ha hb ba bb =
    let (r, run, swapped, iff) = strcmp-cstr a b u v ha hb ba bb in
    (r, run, agree r (same a b) iff (same_iff a b))
  where
    agree : (r : Sign) (s : Bool) → (r ≡ nought) ↔ (a ≡ b) → (s ≡ true) ↔ (a ≡ b) → is_nought r ≡ s
    agree nought s i j = sym (j.1 (i.0 refl))
    agree negative true i j = ground (arith, i.1 (j.0 refl))
    agree negative false i j = refl
    agree positive true i j = ground (arith, i.1 (j.0 refl))
    agree positive false i j = refl

-- A buffer of `size` bytes holds the path.
pub record Shows (size : ℕ) (st : List (List ℕ)) (buf : List ℕ) : Type 0 where
  pub room : List ℕ
  pub holds : buf ≡ cstr (render st) room
  pub total : length (render st) + 1 + length room ≡ size

pub poke-at :
    (pre : List ℕ) (x : ℕ) (post : List ℕ) (v : ℕ)
    → poke (pre ++ (x ∷ post)) (length pre) v ≡ ok (pre ++ (v ∷ post))
unfolding poke
poke-at [] x post v = refl
poke-at (p ∷ pre) x post v = rw (poke-at pre x post v) refl

get_elem?-at :
    (pre : List ℕ) (x : ℕ) (post : List ℕ) → get_elem? (pre ++ (x ∷ post)) (length pre) ≡ some x
get_elem?-at [] x post = refl
get_elem?-at (p ∷ pre) x post = get_elem?-at pre x post

get_elem?-past :
    (pre : List ℕ) (x : ℕ) (post : List ℕ) (i : ℕ)
    → length pre < i
    → get_elem? (pre ++ (x ∷ post)) i ≡ get_elem? post (i - length pre - 1)
get_elem?-past [] x post zero h = absurd (omega arith)
get_elem?-past [] x post (suc i) h = ap (get_elem? post) (omega arith)
get_elem?-past (p ∷ pre) x post zero h = absurd (omega arith)
get_elem?-past (p ∷ pre) x post (suc i) h =
    get_elem?-past pre x post i (omega arith) ∙ ap (get_elem? post) (omega arith)

-- The last slash of `pre/c` is the one before `c`.
pub last-slash :
    (pre c : List ℕ) (r : Option ℕ)
    → ((j : ℕ) → get_elem? c j ≢ some slash)
    → IsLast (pre ++ (slash ∷ c)) slash r
    → r ≡ some (length pre)
last-slash pre c none free l = absurd (l (length pre) (get_elem?-at pre slash c))
last-slash pre c (some i) free (is, after) = elim (Bool-cases (i == length pre)) [
  | inl e ↦ ap some ((==_iff i (length pre)).0 e)
  | inr ne ↦ elim (Bool-cases (ltb i (length pre))) [
    | inl lt ↦ absurd (after (length pre) (ground (arith, lt)) (get_elem?-at pre slash c))
    | inr ge ↦ absurd (
        free (i - length pre - 1)
          (sym (get_elem?-past pre slash c i (ground (arith, ne, ge))) ∙ is))
  ]
]
