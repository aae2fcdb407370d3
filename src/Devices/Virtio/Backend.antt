-- ===== src/Devices/Virtio/Backend.antt =====
-- src/devices/virtio/mod.rs: the trait of a device behind the transport.
use hypervisor.Prelude.{ℕ, Result}
use hypervisor.Devices.Virtio.Queue.{Virtqueue, Stop}

-- `VirtioDevice`: `D` is the state of the device, `W` what it shares with the rest of the machine. The
-- operation `inject_spi` is the one of the transport, with which it signals completion.
pub record VirtioDevice (D W : Type 0) : Type 0 where
  pub device_id : ℕ
  pub device_features : ℕ
  pub num_queues : ℕ
  pub max_queue_size : ℕ
  pub config_read : D → (offset size : ℕ) → ℕ
  pub config_write : D → (offset value size : ℕ) → D
  pub queue_notify : D → ℕ → Virtqueue → W → Result Stop (D × Virtqueue × W)
  pub inject_spi : ℕ → W → W
