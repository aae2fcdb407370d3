-- ===== src/Spmc.antt =====
-- src/sp_context.rs and src/spmc_handler.rs: the partition manager at S-EL2.
pub mod Context
pub mod Replies
pub mod World
pub mod Dispatch
pub mod Store
pub mod Rest
pub mod Preemption
pub mod Descriptor
pub mod Directory
mod Tests
