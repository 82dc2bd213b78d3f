-- ===== src/Lib.antt =====
-- The Vana kernel: a verification library for its C code.
--
-- Vana is a small 32-bit x86 kernel. Its core is the block allocator of the kernel heap
-- (src/memory/heap), the memory and string helpers (src/memory/memory.c, src/string/string.c),
-- the path parser and the file layer (src/fs/pparser.c, src/fs/file.c), the FAT16 driver
-- (src/fs/fat/fat16.c), the disk driver and the byte stream over it (src/disk), the ELF loader
-- (src/loader/formats), the scheduler's run queue and the memory of processes (src/task), the
-- keyboard layer and the PS/2 driver that feeds it (src/keyboard), the page tables
-- (src/memory/paging), the text console (src/kernel.c), the tables of segments, interrupts and
-- commands (src/gdt/gdt.c, src/idt/idt.c), and the system calls (src/isr80h). `fopen` parses its
-- path by the parser, which allocates from the kernel heap, finds the disk, and hands the parts
-- to a driver through a table of callbacks; the FAT16 driver reads through the disk stream, and
-- the ELF loader through the file layer. A process allocates from the kernel heap and maps what
-- it gets in its page directory. A system call finds its arguments on the stack of the task that
-- calls; a text is copied from the task through its page directory, in which one page of the
-- kernel is mapped for the copy. User programs reach all this through a small C library
-- (programs/stdlib).
--
-- Which file models what:
-- - Prelude: tests on numbers, lists as arrays, signed integers, error codes (src/status.h).
-- - Memory, Memory/Laws: memset, memcmp, memcpy.
-- - Memory/Heap and below: heap_create, heap_malloc, heap_free and their helpers. The table is a
--   list of entry bytes, and a write outside of it is `none`.
-- - Strings and below: all of string.c. A pointer is the list of bytes up to the end of its
--   buffer.
-- - PathParser and below: all of pparser.c. The kernel heap is what its next calls answer and a
--   count of live allocations; the linked list of parts is a list.
-- - Vfs and below: file.c, and disk_get and disk_search_and_init of disk.c. `struct filesystem`
--   is a record of callbacks over a state type `S` that the driver chooses. Its count of live
--   allocations is that of file.c and pparser.c; what a driver allocates belongs to its state.
-- - Disk, Disk/Ports: the port writes of disk_read_sector.
-- - Disk/Streamer and below: streamer.c over a parameter that gives the bytes of each sector.
-- - Fat16 and below: fat16.c over the disk stream. The state of a mounted driver is a record with
--   its three streams, and the callbacks are a value of the file layer's record (Fat16/Driver).
--   An item that the search allocates is a value, and its allocations are counted.
-- - Task and below: the run queue of task.c. Tasks are nodes at addresses, allocated or not, and
--   the null pointer is 0.
-- - Task/User: what task.c reads of a task's memory, through its page directory and byte by byte.
--   Task/Copy and below, Task/Stack, Task/Bytes: proofs about it.
-- - Kheap, Kheap/Start: kheap.c, the allocator at the kernel's addresses, and the words that
--   kzalloc clears.
-- - Process and below: the allocations of a process in process.c, on the kernel's heap and in its
--   page directory. Process/Slots and below: the table of processes.
-- - Elf and below: elfloader.c. A file is the bytes at an address; a read behind them is `none`.
-- - Idt and below: idt.c and pic.c. Functions are known by their addresses, and what a call does
--   is a parameter.
-- - Keyboard, Keyboard/Ring: keyboard.c.
-- - Keyboard/Classic and below: classic.c. The reads of the scancode port are an argument.
--   Keyboard/Classic/Layout: the keys of a US keyboard, written down row by row.
-- - Isr80h and below: the registration of the system calls, and the commands 0 to 5, in
--   src/isr80h.
-- - Paging, Paging/Mapping: mapping and translation of paging.c, over a memory of words.
-- - Paging/Chunk: new page directories and their end, over the kernel's heap. Paging/Identity and
--   below: proofs about a new one, with Memory/Heap/OneBlock for allocations of one block.
-- - Paging64 and below: the tables of four levels in paging64.c, over a memory of words of 64 bits.
-- - Stdlib and below: itoa, printf, strtok and vana_parse_command in programs/stdlib/src. The
--   static pointer of strtok leads into a buffer of the call of vana_parse_command that set it, and
--   may only be read during that call.
-- - Readline and below: the line reader of programs/stdlib/src/vana.c. The keys are a list.
-- - Console and below: the console of kernel.c. The video memory is a list of cells from 0xB8000
--   on, and the cursor wraps at 2 ^ 16 as the source's does.
-- - Gdt, Gdt/Decode: gdt.c, and what the processor reads from a descriptor. A panic is `none`.
--
-- Numbers. Sizes and addresses of the heap wrap at 2 ^ 32 where the source computes them so.
-- Counts and positions of type `int` (the head and the tail of the keyboard ring, the position of
-- a stream, the index of a descriptor) are natural numbers without an upper bound: the source's
-- arithmetic on them is undefined where it leaves 2 ^ 31.
--
-- Faults. `none` stands for an access outside a buffer, through a null pointer or into the buffer
-- of a call that has returned, for a sector before the disk, and for fuel that has run out. The
-- loop over the parts of a path gets one round more than the path has bytes, and a read from a
-- disk stream needs one round more than it fills sectors. The line reader gets one round more
-- than there are keys, the loop that counts a directory's entries one more than there are
-- entries, and a read along a chain of clusters more rounds than it has bytes. `itoa` gets 11
-- rounds, as the buffer holds so many characters before its NUL, and the command parser more
-- rounds than the text that it cuts has characters.
--
-- Memory. The processor's memory is a function from addresses to words. What a task's address is
-- translated to is computed from the task's directory in that memory; a page that is not present,
-- on which the processor would fault, is translated like the others, and the kernel's own
-- directory maps every address to itself. Without an allocation that fails, a new directory has
-- 1,026 blocks: 1,024 tables, the directory and its chunk.
--
-- Not modelled: the loading of processes, their arguments and their end but for the table, the
-- commands 6 to 9 of the system calls, the switch of the directory that the processor uses, the
-- 64-bit files but paging64.c, the start-up sequence, assembly and boot code, the wrappers of
-- system calls and the other user programs, and example_libc, which the kernel does not use. The
-- drive behind the ports and the interrupt controller are hardware.
pub mod Console
pub mod Elf
pub mod Isr80h
pub mod Kheap
pub mod Paging
pub mod Paging64
pub mod Prelude
pub mod Memory
pub mod Process
pub mod Readline
pub mod Stdlib
pub mod Strings
pub mod PathParser
pub mod Fat16
pub mod Gdt
pub mod Idt
pub mod Keyboard
pub mod Task
pub mod Vfs
pub mod Disk
