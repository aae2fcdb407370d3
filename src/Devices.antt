-- ===== src/Devices.antt =====
-- src/devices: the devices that the hypervisor emulates.
pub mod Virtio
pub mod Pl031
pub mod Pl011
pub mod Gic
pub mod Manager
pub mod Board
mod Tests
