-- ===== src/Memory.antt =====
-- kernel/memory.c and memory.h: page tables, the pools of pages, and the heap of blocks.
-- What the pages hold is not part of the state, so the calls of `memset` on pages that are handed
-- out are left out; the words of the page tables, which the code reads, are. The routines are those
-- of one thread that has the lock of the pool: the calls of `lock_acquire` and `lock_release` are
-- left out.
pub mod Tables
pub mod Pools
pub mod Layout
pub mod Heap
pub mod Free
mod Tests
