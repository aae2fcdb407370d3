-- ===== src/Devices/Virtio/Instances.antt =====
-- src/devices/virtio: the two devices behind the transport.
use hypervisor.Prelude.{ℕ, List, ◌∷◌, Result, ok, err}
use hypervisor.Ffa.Descriptors.{Bytes}
use hypervisor.Vswitch.MacTable.{VSwitch}
use hypervisor.Vswitch.Forward.{Ports}
use hypervisor.Devices.Virtio.Queue.{Virtqueue, Stop}
use hypervisor.Devices.Virtio.Backend.{VirtioDevice}
use hypervisor.Devices.Virtio.Net
use hypervisor.Devices.Virtio.Net.{VirtioNet, Host}
use hypervisor.Devices.Virtio.Blk
use hypervisor.Devices.Virtio.Blk.{VirtioBlk, Disk}

-- What the devices share with the machine: the memory, the switch, and the interrupts that were
-- injected, the last one first.
pub record Machine : Type 0 where
  pub ram : Bytes
  pub switch : VSwitch
  pub ports : Ports
  pub spis : List ℕ

abbrev pub inject : ℕ → Machine → Machine
inject intid w = record w { spis = intid ∷ w.spis }

abbrev pub net_done :
    VirtioNet → Machine → Result Stop Host → Result Stop (VirtioNet × Virtqueue × Machine)
net_done d w (err e) = err e
net_done d w (ok h) = ok (d, h.queue, record w { ram = h.ram; switch = h.switch; ports = h.ports })

abbrev pub net : VirtioDevice VirtioNet Machine
net = record {
  device_id = Net.device_id;
  device_features = Net.device_features;
  num_queues = 2;
  max_queue_size = 256;
  config_read = Net.config_read;
  config_write = λ d offset value size. d;
  queue_notify = λ d i q w. net_done d w (
      Net.queue_notify d i (record { queue = q; ram = w.ram; switch = w.switch; ports = w.ports }));
  inject_spi = inject;
}

abbrev pub blk_done :
    VirtioBlk → Machine → Result Stop Disk → Result Stop (VirtioBlk × Virtqueue × Machine)
blk_done d w (err e) = err e
blk_done d w (ok s) = ok (d, s.queue, record w { ram = s.ram })

-- The loop of the block device has 2^16 rounds here, as that of the network device.
abbrev pub blk : VirtioDevice VirtioBlk Machine
blk = record {
  device_id = Blk.device_id;
  device_features = Blk.device_features;
  num_queues = 1;
  max_queue_size = 256;
  config_read = Blk.config_read;
  config_write = λ d offset value size. d;
  queue_notify = λ d i q w.
      blk_done d w (Blk.queue_notify d Net.max_rounds (record { queue = q; ram = w.ram }));
  inject_spi = inject;
}
