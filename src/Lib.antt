-- ===== src/Lib.antt =====
-- A kernel for x86: page frames, paging, processes, system calls, interrupts, the timer, and a file
-- system in a boot module behind a mount table.
--
-- The parts and their files.
--   Memory: the kernel's address space as a byte at each address, with 32-bit little-endian accesses,
--     and `memset`, `memcpy`, `strlen`, `strcpy` and `strncpy` (lib/string.c). Text: `strcmp`, `strncmp` and
--     `strstr` of strings as values. Format: `vsnprintf` of lib/string.c with its number formatting.
--   Serial: drivers/serial.c; the device is the sequence of the values of its status register. Log: lib/log.c,
--     which writes through `serial_write`; its loop over the format is a scan by characters, with a mode for what
--     stands before. Fb: drivers/fb.c, the screen as memory and the cursor as bytes at ports.
--   Frames: mem/page_frame_allocator.c. `Mem` is memory with the allocator's static variables; the
--     bitmap lies in that memory. `alloc_loop` is the loop of `alloc_frame`, on a counter of the frames
--     left, which starts at `total_frames`, so it passes every frame.
--   Paging: mem/paging.c. A directory is named by its physical address, and tables are reached through
--     the kernel window (`phys_to_virt`). `map_page` is `ensure_table`, then `write_entry`.
--   Process: mem/process.c and mem/switch_asm.s. A pointer to a `process_t` is an index of the table,
--     NULL is `none`. `Create` has the two functions that make processes, `Schedule` has `schedule`.
--   Kernel: the state that interrupt handlers share, and how a handler ends: it returns, control goes to
--     a process, or the machine is stopped in a loop of `hlt`.
--   Syscall: arch/x86/syscall.c. Fault: the page fault handler of mem/page_frame_allocator.c.
--   Devices: arch/x86/pic.c and arch/x86/pit.c. Interrupt and Trap: arch/x86/interrupt.c with the frame
--     of arch/x86/interrupt_asm.s; the handlers are called through the table that `Interrupt` keeps.
--   Descriptors: arch/x86/gdt.c, arch/x86/idt.c and arch/x86/tss.c, the tables that the processor reads.
--   Vfs: fs/vfs.c. A file system is a record of operations over a state of its own, which the calls of
--     `Vfs.Calls` reach through the mount table. Initrd: fs/initrd.c, which fills such a record.
--   Image: tools/create_initrd.c, which makes the module that Initrd reads.
--   Boot: kmain.c, which sets up the parts in order and takes up the boot modules.
--   App: the program of app and its library of system calls, which traps into the kernel through `Trap`.
--   Steps: what can happen between two instructions of user code, as a relation, with the runs it allows.
--   Examples: runs on concrete data.
--
-- How it is modelled. A 32-bit word is a natural number, reduced modulo 2^32 where the code can wrap
-- around. Static variables are fields of records that the operations take and give back. A loop is
-- recursion on the number of rounds that its bounds give. The process table is a list of any length; the
-- kernel's has 64 slots. Addresses that the linker chooses are the fields of `Layout`.
--
-- Bounds of the loops. A wait for the transmitter has the 1000 reads that the code allows. A decimal numeral
-- takes ten rounds, which are enough for 32 bits, and a hexadecimal one eight. `strlen` and `strcpy` are given a
-- number of rounds and answer none when it does not reach the terminator; one more than the string's length is
-- enough. The arguments of a format are the words on the stack behind it, and the text at an address is a
-- parameter; a format that makes the code read behind its terminator has no result. The
-- loops of kmain.c, whose bounds lie in memory, take a number of rounds and have no result when it is used up.
--
-- What is not modelled: what the kernel's components log, the entry code (loader.s), the instructions
-- that load the descriptor tables and access ports, the translation cache, and the stores
-- of user programs to their memory. A text has no bytes behind its terminator: where a caller of
-- `serial_write` asks for more characters than the text has, the model sends zeros.
--
-- Where the model is wider than the machine. Memory has a byte at every kernel address, but `init_paging` maps only
-- the first 1024 frames behind the kernel window, and in the kernel an access to another frame is a page fault that
-- halts it. So the theorems on page directories, page faults, program loading and fork are about frames below a limit
-- of at most 1024 (`Owns`). The word of a bit in the frame bitmap has an address that is not reduced modulo 2^32.
-- A handler is a function, so it runs to its end: the gates leave interrupts enabled, and the kernel can be
-- interrupted by a tick while it is in a system call, which neither `Steps` nor `App` has. A run in `App` has no tick
-- and no page fault between the instructions of the program either. The store of the exit status by `sys_wait` goes
-- through a pointer that the kernel does not check; it is kept as the pair of address and value, and does not change
-- the modelled memory or the process table.
pub mod App
pub mod Base
pub mod Boot
pub mod Descriptors
pub mod Devices
pub mod Examples
pub mod Fault
pub mod Fb
pub mod Format
pub mod Frames
pub mod Image
pub mod Initrd
pub mod Interrupt
pub mod Kernel
pub mod Log
pub mod Memory
pub mod Paging
pub mod Process
pub mod Serial
pub mod Steps
pub mod Syscall
pub mod Text
pub mod Trap
pub mod Vfs
