-- ===== src/Memory.antt =====
-- The memory managers of kernel/src/memory.
pub mod Bits
pub mod Heap
pub mod Pmm
