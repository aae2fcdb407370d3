-- ===== src/Devices/Board.antt =====
-- src/devices/mod.rs: the devices of the enumeration, behind the trait.
use hypervisor.Prelude.{ℕ, Option, none, some, List, [], ◌∷◌, Result, ok, err}
use hypervisor.Devices.Virtio.Queue.{Stop}
use hypervisor.Devices.Virtio.Mmio.{Transport}
use hypervisor.Devices.Virtio.Mmio
use hypervisor.Devices.Virtio.Net.{VirtioNet}
use hypervisor.Devices.Virtio.Blk.{VirtioBlk}
use hypervisor.Devices.Virtio.Instances.{Machine, net, blk}
use hypervisor.Devices.Pl031.{VirtualPl031, Counter, pl031_base, pl031_size}
use hypervisor.Devices.Pl031
use hypervisor.Devices.Pl011.{VirtualUart, uart_size, push_rx}
use hypervisor.Devices.Pl011
use hypervisor.Devices.Manager.{MmioDevice, DeviceManager, register_device}
use hypervisor.Devices.Gic.Distributor.{VirtualGicd, gicd_size}
use hypervisor.Devices.Gic.Distributor
use hypervisor.Devices.Gic.Redistributor.{VirtualGicr}
use hypervisor.Devices.Gic.Redistributor
use hypervisor.Devices.Virtio.Blk
use hypervisor.Devices.Virtio.Net
use hypervisor.Vswitch.MacTable.{VSwitch, add_port}

-- The registered devices.
pub data Device : Type 0 where
  uart : VirtualUart → Device
  gicd : VirtualGicd → Device
  gicr : VirtualGicr → Device
  virtio_blk : Transport VirtioBlk → Device
  virtio_net : Transport VirtioNet → Device
  pl031 : VirtualPl031 → Device

-- The machine with its counter, what was sent to the physical serial port, and what was written through
-- to the physical distributor, the last one first.
pub record Board : Type 0 where
  pub machine : Machine
  pub counter : Counter
  pub sent : List ℕ
  pub passed : List (ℕ × ℕ × ℕ)

abbrev send : Option ℕ → Board → Board
send none b = b
send (some ch) b = record b { sent = ch ∷ b.sent }

abbrev pub on_board : {V : Type 0} → Board → Result Stop (V × Machine) → Result Stop (V × Board)
on_board b (err e) = err e
on_board b (ok (v, m)) = ok (v, record b { machine = m })

abbrev pub put :
    {V : Type 0} → (V → Device) → Result Stop (V × Board) → Result Stop (Device × Board)
put f (err e) = err e
put f (ok (v, b)) = ok (f v, b)

-- `DeviceManager::uart_mut`, and the push of a received byte through it.
unfoldable pub receive : List (Option Device) → ℕ → List (Option Device)
receive [] ch = []
receive (some (uart u) ∷ slots) ch = some (uart (push_rx u ch)) ∷ slots
receive (slot ∷ slots) ch = slot ∷ receive slots ch

-- The transport that `DeviceManager::virtio_net_mut` points to.
unfoldable pub virtio_net_of : List (Option Device) → Option (Transport VirtioNet)
virtio_net_of [] = none
virtio_net_of (some (virtio_net t) ∷ slots) = some t
virtio_net_of (slot ∷ slots) = virtio_net_of slots

-- Only the serial port asks for an interrupt here.
unfoldable pub pending_irq : Device → Option ℕ
pending_irq (uart u) = Pl011.pending_irq u
pending_irq _ = none

-- `DeviceManager::route_spi`: the first distributor decides.
unfoldable pub route_spi : List (Option Device) → ℕ → ℕ
route_spi [] intid = 0
route_spi (some (gicd g) ∷ slots) intid = Distributor.route_spi g intid
route_spi (slot ∷ slots) intid = route_spi slots intid

-- The addresses that the platform has for the devices.
pub record Platform : Type 0 where
  pub uart_base : ℕ
  pub gicd_base : ℕ
  pub gicr_base : ℕ

abbrev pass : Option (ℕ × ℕ × ℕ) → Board → Board
pass none b = b
pass (some w) b = record b { passed = w ∷ b.passed }

unfoldable pub read : Device → Board → (offset size : ℕ) → Option ℕ × Device
read (uart u) b off size = (some (Pl011.read u off size).0, uart (Pl011.read u off size).1)
read (gicd g) b off size = (some (Distributor.read g off size), gicd g)
read (gicr g) b off size = (Redistributor.read g off size, gicr g)
read (virtio_blk t) b off size = (some (Mmio.read blk t off size), virtio_blk t)
read (virtio_net t) b off size = (some (Mmio.read net t off size), virtio_net t)
read (pl031 p) b off size = (some (Pl031.read b.counter p off size), pl031 p)

unfoldable pub write : Device → Board → (offset value size : ℕ) → Result Stop (Device × Board)
write (uart u) b off v size =
    let out = (Pl011.write u off v size).0 in ok (uart out.0, send out.1 b)
write (gicd g) b off v size =
    ok (gicd (Distributor.write g off v size), pass (Distributor.forwarded off v size) b)
write (gicr g) b off v size = ok (gicr (Redistributor.write g off v size), b)
write (virtio_blk t) b off v size =
    put virtio_blk (on_board b (Mmio.write blk t off v size b.machine))
write (virtio_net t) b off v size =
    put virtio_net (on_board b (Mmio.write net t off v size b.machine))
write (pl031 p) b off v size = ok (pl031 (Pl031.write b.counter p off v size).0, b)

unfoldable pub base_address : Platform → Device → ℕ
base_address p (uart u) = p.uart_base
base_address p (gicd g) = p.gicd_base
base_address p (gicr g) = p.gicr_base
base_address p (virtio_blk t) = t.base
base_address p (virtio_net t) = t.base
base_address p (pl031 c) = pl031_base

unfoldable pub size : Device → ℕ
size (uart u) = uart_size
size (gicd g) = gicd_size
size (gicr g) = Redistributor.size g
size (virtio_blk t) = 0x200
size (virtio_net t) = 0x200
size (pl031 c) = pl031_size

unfoldable pub devices : Platform → MmioDevice Device Board
unfolding read write base_address size
devices p = record { read = read; write = write; base_address = base_address p; size = size }

-- `virtio_slot(0)` and `virtio_slot(1)`, with the interrupts 48 and 49.
abbrev virtio_slot0 : ℕ
virtio_slot0 = 0x0A000000

abbrev virtio_slot1 : ℕ
virtio_slot1 = 0x0A000200

-- `attach_virtio_blk` and `attach_virtio_net`, in the slots 0 and 1 of the platform.
unfoldable pub attach_virtio_blk :
    DeviceManager Device → (disk_base disk_size : ℕ) → DeviceManager Device
attach_virtio_blk m base size =
    (register_device m (virtio_blk (Mmio.new virtio_slot0 (Blk.new base size) 48))).0

unfoldable pub attach_virtio_net :
    DeviceManager Device → ℕ → VSwitch → DeviceManager Device × VSwitch
attach_virtio_net m vm switch =
    ((register_device m (virtio_net (Mmio.new virtio_slot1 (Net.new vm) 49))).0, add_port switch)
