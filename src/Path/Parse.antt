-- ===== src/Path/Parse.antt =====
-- `path_parse` takes the first name off a path.
use loong_os.Prelude.{
  ℕ, ◌≤◌, ◌≡◌, refl, sym, ap, ◌∙◌, List, [], ◌∷◌, ◌++◌, arith, ok, ◌==◌, if◌then◌else◌, Bool-cases,
  inl, inr, length, drop, append_assoc, append-nil,
}
use loong_os.CString.Strings.{NoZero}
use loong_os.Path.{slash, skip_slashes, store_name, path_parse, rest_or_null}

-- The names in a path: what stands between its slashes, if it is not empty.
abbrev pub emit : List ℕ → List (List ℕ) → List (List ℕ)
emit [] names = names
emit (c ∷ w) names = (c ∷ w) ∷ names

unfoldable pub names_after : List ℕ → List ℕ → List (List ℕ)
names_after w [] = emit w []
names_after w (c ∷ s) =
    if c == slash then emit w (names_after [] s) else names_after (w ++ (c ∷ [])) s

unfoldable pub components : List ℕ → List (List ℕ)
unfolding names_after
components s = names_after [] s

-- The characters before the first slash, and the rest.
unfoldable pub name_of : List ℕ → List ℕ
name_of [] = []
name_of (c ∷ s) = if c == slash then [] else c ∷ name_of s

unfoldable pub rest_of : List ℕ → List ℕ
rest_of [] = []
rest_of (c ∷ s) = if c == slash then c ∷ s else rest_of s

store_name_lem :
    (s buf : List ℕ)
    → length (name_of s) ≤ length buf
    → store_name s buf ≡ ok (rest_of s, name_of s ++ drop (length (name_of s)) buf)
unfolding store_name name_of rest_of
store_name_lem [] buf h = refl
store_name_lem (c ∷ s) [] h = ground arith
store_name_lem (c ∷ s) (b ∷ buf) h = elim (Bool-cases (c == slash)) [
  | inl e ↦ rw e refl
  | inr e ↦ rw (e, store_name_lem s buf (ground (arith, e, h))) refl
]

names_after-name : (w s : List ℕ) → names_after w s ≡ emit (w ++ name_of s) (components (rest_of s))
unfolding components name_of rest_of
names_after-name w [] = rw append-nil refl
names_after-name w (c ∷ s) = elim (Bool-cases (c == slash)) [
  | inl e ↦ rw (e, append-nil) (rw e refl)
  | inr e ↦
      rw (e, names_after-name (w ++ (c ∷ [])) s)
        (ap (λ v. emit v (components (rest_of s))) (append_assoc w (c ∷ []) (name_of s)))
]

components-skip : (s : List ℕ) → components (skip_slashes s) ≡ components s
unfolding components skip_slashes
components-skip [] = refl
components-skip (c ∷ s) = ground (arith, components-skip s)

-- The first name of a path, and what stands behind it.
unfoldable pub first_name : List ℕ → List ℕ
first_name s = name_of (skip_slashes s)

unfoldable pub later : List ℕ → List ℕ
later s = rest_of (skip_slashes s)

pub components_lem : (s : List ℕ) → components s ≡ emit (first_name s) (components (later s))
unfolding first_name later
components_lem s =
    sym (components-skip s) ∙ (unfold components in names_after-name [] (skip_slashes s))

pub later-eq-nil : (s : List ℕ) → first_name s ≡ [] → later s ≡ []
unfolding first_name later skip_slashes name_of rest_of
later-eq-nil [] e = refl
later-eq-nil (c ∷ s) e = elim (Bool-cases (c == slash)) [
  | inl h ↦ rw h (later-eq-nil s (rw h at e))
  | inr h ↦ ground (arith, h)
]

pub path_parse_lem :
    (s buf : List ℕ)
    → length (first_name s) ≤ length buf
    → path_parse s buf
      ≡ ok (rest_or_null (later s), first_name s ++ drop (length (first_name s)) buf)
unfolding path_parse first_name later
path_parse_lem s buf h = rw (store_name_lem (skip_slashes s) buf h) refl

NoZero-skip : (s : List ℕ) → NoZero s → NoZero (skip_slashes s)
unfolding skip_slashes
NoZero-skip [] h = tt
NoZero-skip (c ∷ s) h = elim (Bool-cases (c == slash)) [
  | inl e ↦ rw e (NoZero-skip s h.1)
  | inr e ↦ rw e h
]

NoZero-name : (s : List ℕ) → NoZero s → NoZero (name_of s) × NoZero (rest_of s)
unfolding name_of rest_of
NoZero-name [] h = (tt, tt)
NoZero-name (c ∷ s) h = elim (Bool-cases (c == slash)) [
  | inl e ↦ rw e (tt, h)
  | inr e ↦ rw e ((h.0, (NoZero-name s h.1).0), (NoZero-name s h.1).1)
]

pub NoZero-first : (s : List ℕ) → NoZero s → NoZero (first_name s) × NoZero (later s)
unfolding first_name later
NoZero-first s h = NoZero-name (skip_slashes s) (NoZero-skip s h)

-- Every name is short enough for a buffer of `n` bytes.
abbrev pub Fits : ℕ → List (List ℕ) → Type 0
Fits n [] = Unit
Fits n (w ∷ names) = (length w ≤ n) × Fits n names

pub nil_components : components [] ≡ []
unfolding components
nil_components = refl
