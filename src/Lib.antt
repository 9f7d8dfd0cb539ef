-- ===== src/Lib.antt =====
-- A verification library for the NocturneOS kernel: the parts of its C code that keep memory, arrays,
-- strings, files, threads and connections, modelled as functions, with what holds of them.
--
-- The program is a 32-bit kernel. At boot, kernel/src/mem/pmm.c builds a bitmap of the physical pages
-- from the memory map of the boot loader and marks what is taken; from then on it gives out pages. The
-- kernel heap of kernel/src/mem/vmm.c keeps a table of blocks in address order on top of it. The arrays
-- of kernel/src/lib/libvector hold the kernel's tables and take their buffers from the heap. The routines
-- of kernel/src/lib/string.c copy, fill, compare and read bytes for all of them. The heap maps the pages
-- of its blocks through kernel/src/arch/x86/mem. File descriptors stand on streams, these on the virtual
-- file system, and that on the drivers which the file system manager finds on each disk. The network code
-- keeps the table of addresses and that of the TCP connections, computes the checksums, and carries packets between
-- the queues of the cards and the handlers of the protocols. The scheduler keeps the threads and the processes in two
-- circular lists and switches round them; the media notifier tells the file system manager of disks that come and go.
--
-- Prelude: the numbers, words, lists and outcomes that the other files share. A `size_t` and a
-- `uint32_t` are natural numbers with their wrap-around written out (`u32`, `sub32`); `Outcome` says
-- whether a call returns, stops in an endless loop or leaves its arrays.
--
-- Pmm: kernel/src/mem/pmm.c. The record Pmm is the bitmap with the two counters; phys_alloc_single_page,
-- phys_alloc_multi_pages, phys_free_single_page, phys_free_multi_pages, phys_is_used_page and
-- phys_mark_page_entry are the functions of these names. Pmm/Boot: check_memory_map, init_pmm and
-- mark_reserved_memory_as_used. The child files speak of page numbers: Sweep of the loops that mark and
-- clear runs, Search and Completeness of the search for a run.
--
-- Heap: the block table of kernel/src/mem/vmm.c: alloc_no_map, free_no_map, heap_get_block,
-- heap_get_block_idx and vmm_is_page_used_by_entries. Insert has its invariant.
--
-- Paging: kernel/src/arch/x86/mem/paging.c and paging_common.c. The record Mapping is the page directory
-- with its tables and the allocator of their frames; a page has an entry, which Lookup reads, Map sets
-- for one page and Range for a range.
--
-- Kmalloc: the rest of kernel/src/mem/vmm.c on the record Kernel, which joins Heap, Paging and Memory:
-- vmm_init (Init), kmalloc_common (Ensure and Alloc), kmalloc_common_contiguous, kfree (Free) and
-- krealloc_common (Resize and Move). Pmm/Room bounds the frames that they take.
--
-- Vector: kernel/src/lib/libvector/src/vector.c. The allocator is a parameter; Vector/Inv states a
-- condition on realloc and calloc, which krealloc_common meets where a block stays in place or moves up, for the
-- lemmas of Push, Edit and Resize that relate the growing operations to lists.
--
-- Memory and Strings: kernel/src/lib/string.c on a memory that gives the byte at each address. Memory
-- has memcpy, memset, memmove and memcmp with their loops over machine words; Strings has the functions
-- on strings that end with a NUL byte.
--
-- Time: kernel/src/lib/time_conversion.c, fsm_DateConvertToUnix and fsm_convertUnix; Calendar has the
-- sums of days behind them.
--
-- Utf: kernel/src/lib/utf_conversion.c, utf16_to_utf8 on the list of the units.
--
-- Endian: kernel/src/net/endianess.c, the conversions between host and network order.
--
--
-- Fsm and Nvfs: kernel/src/fs/fsm.c and kernel/src/fs/nvfs.c, with nvfs_decode of
-- rust/noct-nvfs/src/lib.rs. A driver is a record of functions on a world of which nothing is assumed.
-- Detach and Scan are about the mounts, Driver about the lookup by name, Dispatch about the way from a
-- name to a driver.
--
-- Stdio: kernel/src/lib/stdio.c. Descriptors: kernel/src/sys/file_descriptors.c.
--
-- Arp: kernel/src/net/arp.c. Checksum: ipv4_checksum of kernel/src/net/ipv4.c and checksum of
-- kernel/src/net/tcp.c. Tcp: the connections of kernel/src/net/tcp.c; Packet has the
-- packets as bytes, Respond the answers to one packet, Connect is about the table, Seal about
-- the checksums of what is sent, Handshake about the states.
--
-- Cmos: read_rtc of kernel/src/drv/cmos.c; the readings of the registers are a parameter. Sample is
-- about the loop, Convert about the formats of the clock.
--
-- Links: the circular lists of kernel/src/lib/list.c; Chain, Cycle and Distinct have the lemmas, Edit, Removal and
-- Other the operations, Ring a list seen from any of its items. Scheduler: kernel/src/sys/scheduler/scheduler.c and
-- thread.c, kernel/src/sys/sync.c and kernel/src/arch/x86/asm/switch_task.s, over Links; Threads creates threads,
-- Lasting is about processes that do not end, Select walks to the next thread, Switch switches to it, Blocks has what a process gives back, Reclaim takes away what is dead, Processes searches the
-- processes, Start is about new threads. The walk over the threads has a round of fuel for each thread that it
-- passes and one more. A Lock is the mutex as a caller finds it: free, or held for so many more tests, or for ever.
--
-- Network: kernel/src/net/udp.c, ipv4.c, ethernet.c, stack.c and dhcp.c. Bytes reads fields, Deliver follows a packet
-- from the sender to the handler of the receiver, Resolve is about the tries to find an address, Queue about the
-- queues and Dhcp about the client. The loop of ipv4_send_packet has the ten rounds of the code.
--
-- Notifier: kernel/src/drv/disk/media_notifier.c over Fsm and over the four calls of rust/noct-diskman, which are an
-- argument; Watch is about a round over the disks, whose registry changes on the way. The loop has the rounds of the
-- count that it reads first, 1024 at most.
--
-- Bounds and fuel: the searches in bitmaps and tables are recursions on the list or on the number of
-- entries left, which are the bounds of the loops in C. The loops that run to a NUL byte take the number
-- of rounds that they may make and are `none` when these do not reach; each theorem about one
-- asks for one round more than the string is long and states that the loop then ends with a result. The
-- loop over the years of fsm_convertUnix ends within 140 rounds for every 32-bit time. The loop of fsm_detach_fs has one
-- round for each mount and one more; the folding of a checksum ends within three rounds; the sampling
-- loop of the clock has as many rounds as readings are given.
--
-- Not modelled: what is written to the log; interrupts; init_task_manager and
-- process_wait; the device drivers; the file systems behind the drivers' functions; the graphics; and the Rust crates
-- under rust, but for the decoding of file names.
pub mod Prelude
pub mod Pmm
pub mod Heap
pub mod Kmalloc
pub mod Links
pub mod Vector
pub mod Memory
pub mod Strings
pub mod Time
pub mod Utf
pub mod Endian
pub mod Paging
pub mod Fsm
pub mod Network
pub mod Notifier
pub mod Nvfs
pub mod Arp
pub mod Checksum
pub mod Cmos
pub mod Tcp
pub mod Scheduler
pub mod Stdio
pub mod Descriptors
