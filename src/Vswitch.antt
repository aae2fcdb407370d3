-- ===== src/Vswitch.antt =====
-- src/vswitch.rs: the virtual switch between the VMs, and the ring of received frames of each port.
pub mod RxRing
pub mod Fifo
pub mod MacTable
pub mod Learning
pub mod Forward
mod Tests
