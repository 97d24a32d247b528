-- ===== src/Memory/Pools/Release.antt =====
-- The loop of `mfree_page` gives the pages that addresses are mapped to back to the kernel's pool.
use loong_os.Prelude.{
  ℕ, zero, suc, ◌+◌, ◌-◌, ◌*◌, ◌/◌, ◌%◌, ◌^◌, ◌≤◌, ◌<◌, ◌≡◌, refl, sym, ◌∙◌, subst, true, false,
  not, ◌&&◌, List, [], ◌∷◌, ok, arith, ltb, leb, ◌==◌, u32, length,
}
use loong_os.KernelList.Chain.{has}
use loong_os.Bitmap.{bitmap_scan_test}
use loong_os.Bitmap.Bits.{written, test-written, len-written, bitmap_set-written}
use loong_os.Bitmap.Runs.{IsValid, size}
use loong_os.Memory.Tables.{Words, set_word, pte_ptr, addr_v2p, page_table_pte_remove}
use loong_os.Memory.Tables.Translate.{pte_ptr_lem, addr_v2p-entry}
use loong_os.Memory.Pools.{Pool, Mem, pfree, free_pages}
use loong_os.Memory.Pools.Bitmaps.{IsPool, page_at, written-IsValid}
use loong_os.Memory.Pools.Map.{Backs, set_word-other, among_ptes}

abbrev pub given : Pool → ℕ → Pool
given p k = record p { pool_bitmap = written p.pool_bitmap k false }

-- The pool once the pages `ks` are back, and the tables once the entries from `v` on are removed.
unfoldable pub gave : List ℕ → Pool → Pool
gave [] p = p
gave (k ∷ ks) p = gave ks (given p k)

unfoldable pub unlinked : ℕ → ℕ → Words → Words
unlinked v zero words = words
unlinked v (suc n) words = unlinked (v + 4096) n (set_word (pte_ptr v) 0 words)

abbrev pub AllBelow : ℕ → List ℕ → Type 0
AllBelow n [] = Unit
AllBelow n (k ∷ ks) = (k < n) × AllBelow n ks

given-IsPool : (p : Pool) (k : ℕ) → IsPool p → IsPool (given p k)
given-IsPool p k v = record {
  bits = written-IsValid p.pool_bitmap k false v.bits;
  aligned = v.aligned;
  fits = omega (arith, v.fits, len-written p.pool_bitmap k false);
}

-- A page of the kernel's pool goes back there.
pfree_lem :
    (k : ℕ) (m : Mem)
    → IsPool m.kernel_pool
    → page_at m.kernel_pool k < m.user_pool.phy_addr_start
    → page_at m.kernel_pool k < 2 ^ 32
    → pfree (page_at m.kernel_pool k) m ≡ ok (record m { kernel_pool = given m.kernel_pool k })
unfolding pfree
pfree_lem k m p low small =
    let pool = m.kernel_pool in
    let whose : leb m.user_pool.phy_addr_start (page_at pool k) ≡ false = ground (arith, low) in
    let index : u32 (page_at pool k + 2 ^ 32 - pool.phy_addr_start) / 4096 ≡ k =
      omega (arith, p.fits) in
    rw (whose, index, bitmap_set-written pool.pool_bitmap k 0 (omega arith)) refl

Backs-above :
    (words : Words) (start u v e : ℕ) (ks : List ℕ)
    → u + 4096 ≤ v
    → v + length ks * 4096 ≤ 0xffc00000
    → Backs words start v ks
    → Backs (set_word (pte_ptr u) e words) start v ks
Backs-above words start u v e [] h below b = tt
Backs-above words start u v e (k ∷ ks) h below b = (
  set_word-other (pte_ptr v) (pte_ptr u) e words (omega (arith, pte_ptr_lem u, pte_ptr_lem v))
      ∙ b.0,
  Backs-above words start u (v + 4096) e ks (omega arith) (omega arith) b.1,
)

pub free_pages_lem :
    (ks : List ℕ) (v : ℕ) (m : Mem)
    → IsPool m.kernel_pool
    → m.kernel_pool.phy_addr_start + size m.kernel_pool.pool_bitmap * 4096
      ≤ m.user_pool.phy_addr_start
    → v % 4096 ≡ 0
    → v + length ks * 4096 ≤ 0xffc00000
    → AllBelow (size m.kernel_pool.pool_bitmap) ks
    → Backs m.words m.kernel_pool.phy_addr_start v ks
    → free_pages (length ks) false v m
      ≡ ok
          (record m { kernel_pool = gave ks m.kernel_pool; words = unlinked v (length ks) m.words })
unfolding free_pages gave unlinked page_table_pte_remove
free_pages_lem [] v m p apart aligned below inside b = refl
free_pages_lem (k ∷ ks) v m p apart aligned below inside b =
    let pool = m.kernel_pool in
    let page = page_at pool k in
    let phys : addr_v2p m.words v ≡ page =
      addr_v2p-entry m.words v page (omega (arith, p.aligned)) (omega (arith, p.fits, inside)) b.0
      ∙ omega arith in
    let whole : (page % 4096 == 0) ≡ true = ground (arith, p.aligned) in
    let from : leb pool.phy_addr_start page ≡ true = ground arith in
    let to : ltb page m.user_pool.phy_addr_start ≡ true = ground (arith, apart, inside) in
    let back = pfree_lem k m p (omega (arith, apart, inside)) (omega (arith, p.fits, inside)) in
    let next : u32 (v + 4096) ≡ v + 4096 = omega arith in
    let m₁ : Mem = record m {
      kernel_pool = given pool k;
      words = set_word (pte_ptr v) 0 m.words;
    } in
    let len = len-written pool.pool_bitmap k false in
    let rest =
      free_pages_lem ks (v + 4096) m₁ (given-IsPool pool k p) (omega (arith, apart, len))
        (omega arith) (omega arith) (subst (λ n. AllBelow (n * 8) ks) (sym len) inside.1)
        (Backs-above m.words pool.phy_addr_start v (v + 4096) 0 ks (omega arith) (omega arith)
          b.1) in
    rw (phys, whole, from, to, back, next) rest

pub test-gave :
    (ks : List ℕ) (p : Pool) (j : ℕ)
    → IsValid p.pool_bitmap
    → bitmap_scan_test (gave ks p).pool_bitmap j
      ≡ (not (has j ks) && bitmap_scan_test p.pool_bitmap j)
unfolding gave
test-gave [] p j v = ground arith
test-gave (k ∷ ks) p j v =
    test-gave ks (given p k) j (written-IsValid p.pool_bitmap k false v)
    ∙ ground (arith, test-written p.pool_bitmap k false j v.bytes)

pub unlinked-other :
    (v n : ℕ) (words : Words) (a : ℕ)
    → v + n * 4096 ≤ 0xffc00000
    → among_ptes v n a ≡ false
    → unlinked v n words a ≡ words a
unfolding unlinked
unlinked-other v zero words a below out = refl
unlinked-other v (suc n) words a below out =
    unlinked-other (v + 4096) n (set_word (pte_ptr v) 0 words) a (omega arith) (ground (arith, out))
    ∙ set_word-other a (pte_ptr v) 0 words (ground (arith, out, pte_ptr_lem v))

pub unlinked-zero :
    (v n i : ℕ) (words : Words)
    → v + n * 4096 ≤ 0xffc00000
    → i < n
    → unlinked v n words (pte_ptr (v + i * 4096)) ≡ 0
unfolding unlinked
unlinked-zero v zero i words below h = absurd (omega arith)
unlinked-zero v (suc n) zero words below h =
    let here : v + 0 * 4096 ≡ v = omega arith in
    let w = set_word (pte_ptr v) 0 words in
    subst (λ u. unlinked (v + 4096) n w (pte_ptr u) ≡ 0) (sym here)
      (unlinked-other (v + 4096) n w (pte_ptr v) (omega arith) (ground (arith, pte_ptr_lem v))
        ∙ ground arith)
unlinked-zero v (suc n) (suc i) words below h =
    let next : v + 4096 + i * 4096 ≡ v + suc i * 4096 = omega arith in
    subst (λ u. unlinked (v + 4096) n (set_word (pte_ptr v) 0 words) (pte_ptr u) ≡ 0) next
      (unlinked-zero (v + 4096) n i (set_word (pte_ptr v) 0 words) (omega arith) (omega arith))
