-- ===== src/Memory/Tables/Translate.antt =====
-- Where the entries of the page tables stand, and what they say.
use loong_os.Prelude.{ℕ, ◌+◌, ◌*◌, ◌/◌, ◌%◌, ◌^◌, ◌≤◌, ◌<◌, ◌≡◌, arith, true}
use loong_os.Memory.Tables.{pte_ptr, pde_ptr, entry, is_present, addr_v2p, Words}

pub pte_ptr_lem : (v : ℕ) → v < 2 ^ 32 → pte_ptr v ≡ 0xffc00000 + v / 4096 * 4
unfolding pte_ptr
pte_ptr_lem v h = omega arith

pub pde_ptr_lem : (v : ℕ) → v < 2 ^ 32 → pde_ptr v ≡ 0xfffff000 + v / 2 ^ 22 * 4
unfolding pde_ptr
pde_ptr_lem v h = omega arith

-- An entry for a page translates the addresses of its page.
pub addr_v2p-entry :
    (words : Words) (v p : ℕ)
    → p % 4096 ≡ 0
    → p + 4096 ≤ 2 ^ 32
    → words (pte_ptr v) ≡ entry p
    → addr_v2p words v ≡ p + v % 4096
unfolding addr_v2p
addr_v2p-entry words v p aligned fits e = omega (arith, e)

pub is_present-entry : (p : ℕ) → is_present (entry p) ≡ true
is_present-entry p = ground arith
