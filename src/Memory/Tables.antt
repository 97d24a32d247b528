-- ===== src/Memory/Tables.antt =====
-- The page tables: `pte_ptr`, `pde_ptr`, `addr_v2p` and `page_table_pte_remove`.
-- The tables are seen through the last entry of the page directory, which points to the directory
-- itself: `words` gives the 32-bit word at a virtual address in there. Masks and shifts are written
-- with division and remainder by powers of 2.
pub mod Translate
use loong_os.Prelude.{ℕ, ◌+◌, ◌*◌, ◌/◌, ◌%◌, ◌^◌, Bool, not, ◌==◌, if◌then◌else◌, u32}

abbrev pub pg_size : ℕ
pg_size = 4096

abbrev pub Words : Type 0
Words = ℕ → ℕ

abbrev pub set_word : ℕ → ℕ → Words → Words
set_word addr v words a = if a == addr then v else words a

-- `PDE_IDX` and `PTE_IDX`
abbrev pub pde_idx : ℕ → ℕ
pde_idx addr = addr / 2 ^ 22

abbrev pub pte_idx : ℕ → ℕ
pte_idx addr = addr % 2 ^ 22 / 2 ^ 12

unfoldable pub pte_ptr : ℕ → ℕ
pte_ptr vaddr = u32 (0xffc00000 + vaddr / 2 ^ 22 * 2 ^ 22 / 2 ^ 10 + pte_idx vaddr * 4)

unfoldable pub pde_ptr : ℕ → ℕ
pde_ptr vaddr = u32 (0xfffff000 + pde_idx vaddr * 4)

-- `word & 0x00000001`
abbrev pub is_present : ℕ → Bool
is_present word = not (word % 2 == 0)

-- `page_phyaddr | PG_US_U | PG_RW_W | PG_P_1`
abbrev pub entry : ℕ → ℕ
entry page_phyaddr = page_phyaddr / 8 * 8 + 7

unfoldable pub addr_v2p : Words → ℕ → ℕ
addr_v2p words vaddr = u32 (words (pte_ptr vaddr) / 4096 * 4096 + vaddr % 4096)

-- `*pte &= PG_P_0`, where `PG_P_0` is 0.
unfoldable pub page_table_pte_remove : ℕ → Words → Words
page_table_pte_remove vaddr words = set_word (pte_ptr vaddr) 0 words

-- `memset((void*)((int)pte & 0xfffff000), 0, PG_SIZE)`
abbrev pub clear_table : ℕ → Words → Words
clear_table pte words a = if a / 4096 == pte / 4096 then 0 else words a
