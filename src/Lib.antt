-- ===== src/Lib.antt =====
-- loong-OS, modelled and verified part by part.
--
-- A failed ASSERT (kernel/debug.h) stops the machine: routines that contain one return an
-- `Outcome` (Prelude/Assert), `ok` with their result or `panic`. The build does not set NDEBUG.
--
-- Prelude        shared names, tests on numbers, lists, bits of bytes.
-- Bitmap         lib/kernel/bitmap.c and bitmap.h. A bitmap is its length and the memory at its
--                pointer, a function from the byte's offset, since `bitmap_scan` may read past the
--                end. Each loop is a function on the rounds left; the first has one round for
--                each byte and one more, the second nine, the third `bit_left`.
-- CString        lib/string.c. A pointer is NULL or the bytes from where it points to the end of
--                its object; leaving the object is the `fault` of `Outcome`. Loops recur on the
--                object or on `size`.
-- KernelList     lib/kernel/list.c and list.h, with intr_enable, intr_disable and
--                intr_set_status of kernel/interrupt.c. Pointers are addresses in a memory of
--                `prev` and `next` fields. The walks are given their rounds, of which one more
--                than the list has elements is enough.
-- Scheduler      thread/thread.c and thread.h, with the handler of device/timer.c. The ready queue is
--                the sequence that KernelList proves `thread_ready_list` to hold. `switch_to`
--                changes the current thread; page tables and the TSS are left out.
-- Path           path_parse and path_depth_cnt of fs/fs.c, wash_path of shell/buildin_cmd.c. A path
--                that is read is its characters; a buffer that is written is its bytes, and the
--                string routines of CString are called on it as the code calls them. The loops
--                take one round for each name and one more.
-- Stdio          lib/stdio.c. The variable arguments are words, and a parameter gives the object that
--                a word points to. `itoa` is bounded by 32 calls, as many as a `uint32_t` has digits
--                in base 2.
-- IoQueue        device/ioqueue.c and ioqueue.h. The ring with its two waiting threads, next to the
--                state of Scheduler, which waking a thread changes. The loops in which a thread
--                waits for room or for a character are not modelled: they take the queue's lock.
-- Keyboard       device/keyboard.c. The handler takes the byte that the port would give, the state of
--                the keys, the queue `kbd_buf` and the scheduler's state.
-- Memory         kernel/memory.c and memory.h. Memory/Tables has the page tables, Memory/Pools the
--                pools of pages and addresses over Bitmap, Memory/Layout the division of the memory,
--                Memory/Heap and Memory/Free `sys_malloc` and `sys_free` with their arenas, whose
--                free lists are sequences as in Scheduler. The pools' locks are left out: the
--                routines are those of one thread that holds them. Loops recur on their count.
-- Sync           thread/sync.c and sync.h. The state is that of Scheduler, a lock, and for each thread
--                the place in `lock_acquire` or `lock_release` where it is; the routines are split
--                into the steps between which an interrupt can switch threads. Sync/Safety has the
--                transition system of all threads with the lock and the scheduler.
-- Inode          fs/inode.c: place, writing, clearing and reading of inodes. A disk is its bytes;
--                `ide_read` and `ide_write` are what the drive then does, the copying of sectors.
--                Who has an inode open is in Files.
-- Files          fs/file.c and fs/fs.c: the table of open files, a process's descriptors, opening,
--                closing and seeking. Inodes are named by number, with their counts and marks of writers.
-- Format         partition_format of fs/fs.c, and fs/super_block.h: the numbers of the super block, and
--                the sectors that are written for an empty file system.
--
-- FileData       file_read of fs/file.c: the blocks that are collected, and the loop that copies their
--                bytes. The loop gets 140 rounds, enough for the 139 blocks of a file; a count that makes
--                the sum with the position wrap around asks for sectors behind `all_blocks`, and the
--                rounds run out in a fault. FileData/Write
--                has file_write: the blocks taken from the bitmap (Owns, Grows, Collects), the loop
--                that writes (Appends, with 141 rounds in the same way) and a whole call (Whole).
-- Directory      fs/dir.c: the entries of a directory in its sectors. Inode, disk and block bitmap are in
--                the state of FileData/Write, from which the allocation of blocks is taken. The loops
--                over 140 blocks and 21 entries have their rounds from the source.
--
-- The parts meet in this way: the scheduler's queue is the sequence that KernelList proves a list to
-- hold, Sync and IoQueue block and wake threads of Scheduler, Memory
-- takes pages and addresses from bitmaps, Keyboard fills an IoQueue, and Path and Stdio call the string
-- routines of CString on the buffers that they write.
--
-- Not modelled: the rest of the file system, the shell's commands, processes and system calls, the disk driver, and the assembly sources.
pub mod Bitmap
pub mod CString
pub mod Directory
pub mod FileData
pub mod Files
pub mod Format
pub mod Inode
pub mod IoQueue
pub mod KernelList
pub mod Keyboard
pub mod Memory
pub mod Path
pub mod Prelude
pub mod Scheduler
pub mod Stdio
pub mod Sync
