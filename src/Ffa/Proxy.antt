-- ===== src/Ffa/Proxy.antt =====
-- src/ffa/proxy.rs: the calls of the FF-A proxy, in the build with `linux_guest` and without
-- `tfa_boot`.
pub mod State
pub mod Discovery
pub mod Sharing
pub mod Borrowing
pub mod Notify
pub mod Messages
pub mod Dispatch
pub mod Containment
pub mod Ownership
pub mod Lifecycle
pub mod Calls
mod Tests
pub mod Safety
pub mod History
