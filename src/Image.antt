-- ===== src/Image.antt =====
-- The physical-memory image of kernel/executable/winpmem.cpp.
pub mod Device
pub mod Text
pub mod Copy
pub mod Driver
pub mod Acquire
pub mod Metadata
