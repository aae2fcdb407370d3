-- ===== src/Devices/Virtio.antt =====
-- src/devices/virtio: queues shared with a guest, the network and the block device, the transport.
pub mod Queue
pub mod Used
pub mod Drain
pub mod Net
pub mod Transmit
pub mod Frames
pub mod Bytes
pub mod Blk
pub mod Disk
pub mod Backend
pub mod Mmio
pub mod Setup
pub mod Inject
pub mod Scattered
pub mod Instances
mod Tests
