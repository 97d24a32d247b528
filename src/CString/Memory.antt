-- ===== src/CString/Memory.antt =====
-- `memset` and `memcpy` on objects of any size.
use loong_os.Prelude.{
  Bool-cases, inl, inr, leb, if◌then◌else◌, ℕ, zero, suc, ◌≤◌, ◌<◌, ◌≡◌, refl, some, List, [], ◌∷◌,
  ◌++◌, arith, ok, fault, length, take, drop, replicate,
}
use loong_os.CString.{memset_loop, memset, memcpy_loop, memcpy}

memset_loop-fill :
    (dst : List ℕ) (v n : ℕ)
    → n ≤ length dst
    → memset_loop dst v n ≡ ok (replicate n v ++ drop n dst)
unfolding memset_loop
memset_loop-fill dst v zero h = refl
memset_loop-fill [] v (suc n) h = absurd (omega arith)
memset_loop-fill (x ∷ dst) v (suc n) h = rw (memset_loop-fill dst v n (omega arith))

memset_loop-fault : (dst : List ℕ) (v n : ℕ) → length dst < n → memset_loop dst v n ≡ fault
unfolding memset_loop
memset_loop-fault dst v zero h = absurd (omega arith)
memset_loop-fault [] v (suc n) h = refl
memset_loop-fault (x ∷ dst) v (suc n) h = rw (memset_loop-fault dst v n (omega arith))

memcpy_loop-copy :
    (dst src : List ℕ) (n : ℕ)
    → n ≤ length dst
    → n ≤ length src
    → memcpy_loop dst src n ≡ ok (take n src ++ drop n dst)
unfolding memcpy_loop
memcpy_loop-copy dst src zero h k = refl
memcpy_loop-copy [] src (suc n) h k = absurd (omega arith)
memcpy_loop-copy (x ∷ dst) [] (suc n) h k = absurd (omega arith)
memcpy_loop-copy (x ∷ dst) (y ∷ src) (suc n) h k =
    rw (memcpy_loop-copy dst src n (omega arith) (omega arith))

memcpy_loop-fault :
    (dst src : List ℕ) (n : ℕ) → length dst < n → n ≤ length src → memcpy_loop dst src n ≡ fault
unfolding memcpy_loop
memcpy_loop-fault dst src zero h k = absurd (omega arith)
memcpy_loop-fault [] src (suc n) h k = refl
memcpy_loop-fault (x ∷ dst) [] (suc n) h k = absurd (omega arith)
memcpy_loop-fault (x ∷ dst) (y ∷ src) (suc n) h k =
    rw (memcpy_loop-fault dst src n (omega arith) (omega arith))

pub memset_fits :
    (dst : List ℕ) (v n : ℕ)
    → n ≤ length dst
    → memset (some dst) v n ≡ ok (replicate n v ++ drop n dst)
unfolding memset
memset_fits dst v n h = memset_loop-fill dst v n h

-- `memset` replaces the first `size` bytes by the value and `memcpy` by those of the source, which
-- has that many; both leave the later bytes as they were. Both leave the destination if that is
-- shorter than `size`.
pub memset-memcpy :
    (dst src : List ℕ) (v n : ℕ)
    → n ≤ length src
    → (memset (some dst) v n
        ≡ (if leb n (length dst) then ok (replicate n v ++ drop n dst) else fault))
      × (memcpy (some dst) (some src) n
          ≡ (if leb n (length dst) then ok (take n src ++ drop n dst) else fault))
unfolding memset memcpy
memset-memcpy dst src v n k = elim (Bool-cases (leb n (length dst))) [
  | inl e ↦
      let fits : n ≤ length dst = ground (arith, e) in
      (rw e (memset_loop-fill dst v n fits), rw e (memcpy_loop-copy dst src n fits k))
  | inr e ↦
      let short : length dst < n = ground (arith, e) in
      (rw e (memset_loop-fault dst v n short), rw e (memcpy_loop-fault dst src n short k))
]
