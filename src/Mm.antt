-- ===== src/Mm.antt =====
-- src/mm and the memory that the hypervisor reads and writes through raw pointers.
pub mod Words
pub mod Allocator
