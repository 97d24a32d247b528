-- ===== src/Memory/Pools/Bitmaps.antt =====
-- Runs of bits that are set and cleared, and pages that are taken from a pool.
use loong_os.Prelude.{
  ℕ, zero, suc, ◌+◌, ◌*◌, ◌%◌, ◌^◌, ◌≤◌, ◌<◌, ◌≡◌, refl, ap, ◌∙◌, Bool, true, false, ◌&&◌, Option,
  none, some, ok, arith, ltb, leb, ltb→lt, ◌==◌, ==_iff, if◌then◌else◌, Bool-cases, inl, inr, u32,
}
use loong_os.Bitmap.{Bitmap, bitmap_scan, bitmap_scan_test}
use loong_os.Bitmap.Bits.{written, bitmap_set-written, test-written, IsBytes-written, len-written}
use loong_os.Bitmap.Scan.{Zeros, IsLeastRun}
use loong_os.Bitmap.Runs.{IsValid, size, bitmap_scan_one, bitmap_scan_run}
use loong_os.Memory.Pools.{Pool, set_bits, palloc}

pub written-IsValid : (b : Bitmap) (i : ℕ) (v : Bool) → IsValid b → IsValid (written b i v)
written-IsValid b i v h = record {
  bytes = IsBytes-written b i v h.bytes;
  small = omega (arith, len-written b i v, h.small);
}

-- The bits that a loop over `bitmap_set` leaves.
pub run_written : ℕ → Bitmap → ℕ → Bool → Bitmap
run_written zero b s v = b
run_written (suc n) b s v = run_written n (written b s v) (s + 1) v

pub set_bits_lem :
    (n : ℕ) (b : Bitmap) (s v : ℕ) → v < 2 → set_bits n b s v ≡ ok (run_written n b s (v == 1))
unfolding set_bits run_written
set_bits_lem zero b s v h = refl
set_bits_lem (suc n) b s v h =
    rw (bitmap_set-written b s v h) (set_bits_lem n (written b s (v == 1)) (s + 1) v h)

pub run_written-IsValid :
    (n : ℕ) (b : Bitmap) (s : ℕ) (v : Bool) → IsValid b → IsValid (run_written n b s v)
unfolding run_written
run_written-IsValid zero b s v h = h
run_written-IsValid (suc n) b s v h =
    run_written-IsValid n (written b s v) (s + 1) v (written-IsValid b s v h)

pub len-run_written :
    (n : ℕ) (b : Bitmap) (s : ℕ) (v : Bool)
    → (run_written n b s v).btmp_bytes_len ≡ b.btmp_bytes_len
unfolding run_written
len-run_written zero b s v = refl
len-run_written (suc n) b s v = len-run_written n (written b s v) (s + 1) v ∙ len-written b s v

pub test-run_written :
    (n : ℕ) (b : Bitmap) (s : ℕ) (v : Bool) (j : ℕ)
    → IsValid b
    → bitmap_scan_test (run_written n b s v) j
      ≡ (if leb s j && ltb j (s + n) then v else bitmap_scan_test b j)
unfolding run_written
test-run_written zero b s v j h = ground arith
test-run_written (suc n) b s v j h =
    test-run_written n (written b s v) (s + 1) v j (written-IsValid b s v h)
    ∙ ground (arith, test-written b s v j h.bytes)

least_found :
    (b : Bitmap) (n t : ℕ) (r : Option ℕ)
    → bitmap_scan b n ≡ ok r
    → IsLeastRun b n (size b + 1) r
    → t + n ≤ size b + 1
    → Zeros b t n
    → (s : ℕ) × (bitmap_scan b n ≡ ok (some s)) × (s ≤ t) × Zeros b s n
least_found b n t none found least fits z = absurd (least t fits z)
least_found b n t (some s) found (within, zs, first) fits z = (s, found, not_before, zs)
  where
    not_before : s ≤ t
    not_before = elim (Bool-cases (ltb t s)) [
      | inl h ↦ absurd (first t (ltb→lt t s h) z)
      | inr h ↦ ground (arith, h)
    ]

-- When a run of `n` zero bits lies in the bitmap, a scan finds one that does.
pub bitmap_scan-Zeros :
    (b : Bitmap) (n t : ℕ)
    → IsValid b
    → 0 < n
    → t + n ≤ size b
    → Zeros b t n
    → (s : ℕ) × (bitmap_scan b n ≡ ok (some s)) × (s ≤ t) × Zeros b s n
bitmap_scan-Zeros b n t v pos fits z =
    let here : bitmap_scan_test b t ≡ false = z t (omega arith) (omega arith) in
    elim (Bool-cases (n == 1)) [
      | inl e ↦
          let one : n ≡ 1 = (==_iff n 1).0 e in
          let (s, found, first, zero_bit, _) = bitmap_scan_one b t v (omega arith) here in
          (s, ap (bitmap_scan b) one ∙ found, first, λ j p q. ground (arith, zero_bit, one))
      | inr e ↦
          let (r, found, least) = bitmap_scan_run b n t v (ground (arith, e)) (omega arith) here in
          least_found b n t r found least (omega arith) z
    ]

-- The number of zero bits among the first `n`.
unfoldable pub frees : Bitmap → ℕ → ℕ
frees b zero = 0
frees b (suc n) = if bitmap_scan_test b n then frees b n else suc (frees b n)

pub frees-some :
    (b : Bitmap) (n : ℕ) → 0 < frees b n → (k : ℕ) × (k < n) × (bitmap_scan_test b k ≡ false)
unfolding frees
frees-some b zero h = absurd (omega arith)
frees-some b (suc n) h = elim (Bool-cases (bitmap_scan_test b n)) [
  | inl used ↦
      let (k, small, free) = frees-some b n (ground (arith, used, h)) in (k, omega arith, free)
  | inr free ↦ (n, omega arith, free)
]

frees-written_out :
    (b : Bitmap) (i n : ℕ) → IsValid b → n ≤ i → frees (written b i true) n ≡ frees b n
unfolding frees
frees-written_out b i zero v h = refl
frees-written_out b i (suc n) v h =
    ground (arith, test-written b i true n v.bytes, frees-written_out b i n v)

pub frees-written :
    (b : Bitmap) (i n : ℕ)
    → IsValid b
    → i < n
    → bitmap_scan_test b i ≡ false
    → suc (frees (written b i true) n) ≡ frees b n
unfolding frees
frees-written b i zero v h free = absurd (omega arith)
frees-written b i (suc n) v h free = elim (Bool-cases (i == n)) [
  | inl e ↦ ground (arith, e, free, test-written b i true n v.bytes, frees-written_out b i n v)
  | inr e ↦ ground (arith, e, test-written b i true n v.bytes, frees-written b i n v)
]

-- A pool whose addresses are those of whole pages below 4 GB.
pub record IsPool (p : Pool) : Type 0 where
  pub bits : IsValid p.pool_bitmap
  pub aligned : p.phy_addr_start % 4096 ≡ 0
  pub fits : p.phy_addr_start + size p.pool_bitmap * 4096 < 2 ^ 32

abbrev pub page_at : Pool → ℕ → ℕ
page_at p k = p.phy_addr_start + k * 4096

abbrev pub taken : Pool → ℕ → Pool
taken p k = record p { pool_bitmap = written p.pool_bitmap k true }

-- `palloc` of a pool with a free page takes the first one.
pub palloc_lem :
    (p : Pool)
    → IsPool p
    → 0 < frees p.pool_bitmap (size p.pool_bitmap)
    → (k : ℕ) × (k < size p.pool_bitmap)
      × (bitmap_scan_test p.pool_bitmap k ≡ false)
      × (palloc p ≡ ok (some (page_at p k), taken p k))
unfolding palloc
palloc_lem p v some_free =
    let b = p.pool_bitmap in
    let (j, inside, free) = frees-some b (size b) some_free in
    let (k, found, first, zero_bit, _) = bitmap_scan_one b j v.bits inside free in
    let small : k < size b = omega arith in
    let addr : u32 (k * 4096 + p.phy_addr_start) ≡ page_at p k = omega (arith, v.fits) in
    (k, small, zero_bit, rw (found, bitmap_set-written b k 1 (omega arith), addr) refl)

pub taken-IsPool : (p : Pool) (k : ℕ) → IsPool p → IsPool (taken p k)
taken-IsPool p k v = record {
  bits = written-IsValid p.pool_bitmap k true v.bits;
  aligned = v.aligned;
  fits = omega (arith, v.fits, len-written p.pool_bitmap k true);
}
