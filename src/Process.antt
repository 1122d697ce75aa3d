-- ===== src/Process.antt =====
-- mem/process.c: the process table, the ready queue and the scheduler. A pointer into the table is
-- an index, NULL is `none`. Each kernel stack is kept with its process, as bytes from offset 0.
pub mod Data
pub mod Create
pub mod Schedule
pub mod Table
pub mod Queue
pub mod Slot
pub mod Make
pub mod Enter
pub mod Padded
pub mod Page
pub mod Load
pub mod Program
