-- ===== src/Devices/Gic.antt =====
-- src/devices/gic: the emulated interrupt controller.
pub mod Distributor
pub mod Redistributor
pub mod Routing
