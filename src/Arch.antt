-- ===== src/Arch.antt =====
-- src/arch/aarch64: the register context of a vCPU and the decoding of its exits.
pub mod Regs
pub mod Decode
pub mod Decoding
pub mod Abort
mod Tests
