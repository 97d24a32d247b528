-- ===== src/CString.antt =====
-- lib/string.c: bytes and strings behind pointers.
-- A pointer is `none` if it is NULL, and else the bytes from where it points to the end of its
-- object; to leave these is a `fault`. A routine that writes returns what its destination then
-- holds. Source and destination are different objects. `char` is signed, as on the x86.
pub mod Memory
pub mod Strings
pub mod Compare
pub mod Search
mod Tests
use loong_os.Prelude.{
  ℕ, zero, suc, ◌+◌, ◌-◌, ◌%◌, Bool, true, false, not, ◌&&◌, Option, none, some, List, [], ◌∷◌,
  Outcome, ok, panic, fault, ◌>>=◌, ◌>>◌, assert, ltb, ◌==◌, if◌then◌else◌, u32,
}

abbrev pub Pointer : Type 0
Pointer = Option (List ℕ)

-- The three results of a comparison: -1, 0 and +1.
pub data Sign : Type 0 where
  negative nought positive : Sign

-- A byte read as a `char`, moved up by 128 so that it stays a number.
abbrev pub signed : ℕ → ℕ
signed c = (c + 128) % 256

-- `while (size-- > 0) *dst++ = value;`
pub memset_loop : List ℕ → ℕ → ℕ → Outcome (List ℕ)
memset_loop dst value zero = ok dst
memset_loop [] value (suc size) = fault
memset_loop (x ∷ dst) value (suc size) = do rest ← memset_loop dst value size; ok (value ∷ rest)

unfoldable pub memset : Pointer → ℕ → ℕ → Outcome (List ℕ)
unfolding memset_loop
memset none value size = panic
memset (some dst) value size = memset_loop dst value size

-- `while (size-- > 0) *dst++ = *src++;`
pub memcpy_loop : List ℕ → List ℕ → ℕ → Outcome (List ℕ)
memcpy_loop dst src zero = ok dst
memcpy_loop (x ∷ dst) (y ∷ src) (suc size) = do rest ← memcpy_loop dst src size; ok (y ∷ rest)
memcpy_loop [] src (suc size) = fault
memcpy_loop dst [] (suc size) = fault

pub memcpy : Pointer → Pointer → ℕ → Outcome (List ℕ)
unfolding memcpy_loop
memcpy (some dst) (some src) size = memcpy_loop dst src size
memcpy dst src size = panic

pub memcmp_loop : List ℕ → List ℕ → ℕ → Outcome Sign
memcmp_loop a b zero = ok nought
memcmp_loop (x ∷ a) (y ∷ b) (suc size) =
    let rest = memcmp_loop a b size in
    if x == y then rest else ok (if ltb (signed y) (signed x) then positive else negative)
memcmp_loop [] b (suc size) = fault
memcmp_loop a [] (suc size) = fault

pub memcmp : Pointer → Pointer → ℕ → Outcome Sign
unfolding memcmp_loop
memcmp (some a) (some b) size = memcmp_loop a b size
memcmp a b size = panic

-- `while (*dst_++ = *src_++);` copies the bytes up to the zero, and the zero.
pub strcpy_loop : List ℕ → List ℕ → Outcome (List ℕ)
strcpy_loop dst [] = fault
strcpy_loop [] (y ∷ src) = fault
strcpy_loop (x ∷ dst) (y ∷ src) =
    let rest = (do bytes ← strcpy_loop dst src; ok (y ∷ bytes)) in
    if y == 0 then ok (y ∷ dst) else rest

pub strcpy : Pointer → Pointer → Outcome (List ℕ)
unfolding strcpy_loop
strcpy (some dst) (some src) = strcpy_loop dst src
strcpy dst src = panic

-- `while (*p++);` with the number of steps taken so far; the loop also steps over the zero.
pub strlen_loop : List ℕ → ℕ → Outcome ℕ
strlen_loop [] steps = fault
strlen_loop (x ∷ p) steps =
    let rest = strlen_loop p (steps + 1) in if x == 0 then ok (steps + 1) else rest

pub strlen : Pointer → Outcome ℕ
unfolding strlen_loop
strlen none = panic
strlen (some str) = do steps ← strlen_loop str 0; ok (u32 (steps - 1))

unfoldable pub strcmp_loop : List ℕ → List ℕ → Outcome Sign
strcmp_loop (x ∷ a) (y ∷ b) =
    let rest = strcmp_loop a b in
    if not (x == 0) && (x == y)
    then rest
    else ok (
        if ltb (signed x) (signed y)
        then negative
        else if ltb (signed y) (signed x)
        then positive
        else nought)
strcmp_loop [] b = fault
strcmp_loop a [] = fault

unfoldable pub strcmp : Pointer → Pointer → Outcome Sign
unfolding strcmp_loop
strcmp (some a) (some b) = strcmp_loop a b
strcmp a b = panic

-- The searches return the offset of the byte that is found.
pub strchr_loop : List ℕ → ℕ → ℕ → Outcome (Option ℕ)
strchr_loop [] ch at = fault
strchr_loop (x ∷ str) ch at =
    let rest = strchr_loop str ch (at + 1) in
    if x == 0 then ok none else if x == ch then ok (some at) else rest

pub strchr : Pointer → ℕ → Outcome (Option ℕ)
unfolding strchr_loop
strchr none ch = panic
strchr (some str) ch = strchr_loop str ch 0

pub strrchr_loop : List ℕ → ℕ → ℕ → Option ℕ → Outcome (Option ℕ)
strrchr_loop [] ch at last_char = fault
strrchr_loop (x ∷ str) ch at last_char =
    let rest = strrchr_loop str ch (at + 1) (if x == ch then some at else last_char) in
    if x == 0 then ok last_char else rest

unfoldable pub strrchr : Pointer → ℕ → Outcome (Option ℕ)
unfolding strrchr_loop
strrchr none ch = panic
strrchr (some str) ch = strrchr_loop str ch 0 none

-- `while (*str++); --str;` walks to the zero, and the second loop copies from there.
pub strcat_loop : List ℕ → List ℕ → Outcome (List ℕ)
unfolding strcpy_loop
strcat_loop [] src = fault
strcat_loop (x ∷ str) src =
    let rest = (do bytes ← strcat_loop str src; ok (x ∷ bytes)) in
    if x == 0 then strcpy_loop (x ∷ str) src else rest

unfoldable pub strcat : Pointer → Pointer → Outcome (List ℕ)
unfolding strcat_loop
strcat (some dst) (some src) = strcat_loop dst src
strcat dst src = panic

pub strchrs_loop : List ℕ → ℕ → ℕ → Outcome ℕ
strchrs_loop [] ch ch_cnt = fault
strchrs_loop (x ∷ p) ch ch_cnt =
    let rest = strchrs_loop p ch (if x == ch then u32 (ch_cnt + 1) else ch_cnt) in
    if x == 0 then ok ch_cnt else rest

pub strchrs : Pointer → ℕ → Outcome ℕ
unfolding strchrs_loop
strchrs none ch = panic
strchrs (some str) ch = strchrs_loop str ch 0
