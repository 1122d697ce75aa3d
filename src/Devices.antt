-- ===== src/Devices.antt =====
-- The devices that the kernel drives through ports.
pub mod Pic
pub mod Pit
