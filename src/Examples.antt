-- ===== src/Examples.antt =====
-- Concrete runs of the kernel's components.
pub mod Directories
mod Frames
mod Paging
mod Processes
mod Serial
mod Texts
mod Image
mod Boot
mod Files
mod Descriptors
mod Faults
mod App
mod Programs
mod Forks
