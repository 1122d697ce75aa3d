-- ===== src/Syscall.antt =====
-- arch/x86/syscall.c: the calls, `sys_fork` apart, and the table with its handler.
pub mod Calls
pub mod Fork
pub mod Table
pub mod Family
pub mod Child
pub mod Page
pub mod Forked
pub mod Words
pub mod Copying
pub mod Copied
pub mod Doubles
pub mod Doubled
