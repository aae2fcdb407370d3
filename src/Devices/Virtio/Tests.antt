-- ===== src/Devices/Virtio/Tests.antt =====
-- The theorems on queues, devices and the transport at small memories.
use hypervisor.Prelude.{
  ℕ, ◌+◌, ◌-◌, ◌^◌, ◌≡◌, refl, arith, true, inl, List, [], ◌∷◌, ◌++◌, length, take, ok,
}
use hypervisor.Ffa.Descriptors.{Bytes}
use hypervisor.Ffa.Proxy.Discovery.{write_u16}
use hypervisor.Vswitch.RxRing
use hypervisor.Vswitch.MacTable
use hypervisor.Vswitch.Forward.{drop}
use hypervisor.Devices.Virtio.Queue.{Virtqueue, VirtqDesc}
use hypervisor.Devices.Virtio.Drain.{Ends}
use hypervisor.Devices.Virtio.Net.{VirtioNet, Host, process_tx, gather, header_size}
use hypervisor.Devices.Virtio.Net
use hypervisor.Devices.Virtio.Transmit.{IsLive, Drained, process_tx-Drained}
use hypervisor.Devices.Virtio.Frames.{bytes_of, gather-bytes_of}
use hypervisor.Devices.Virtio.Blk.{VirtioBlk, Progress, read_disk, write_disk}
use hypervisor.Devices.Virtio.Blk
use hypervisor.Devices.Virtio.Inject.{capacity, scatter}
use hypervisor.Devices.Virtio.Scattered.{packet, scatter-packet}
use hypervisor.Devices.Virtio.Mmio.{Transport}
use hypervisor.Devices.Virtio.Mmio
use hypervisor.Devices.Virtio.Setup.{writes, setup, IsSetUp, writes-setup}
use hypervisor.Devices.Virtio.Instances.{Machine, net}

-- One chain is available: index 1 at 0x2002.
abbrev memory : Bytes
memory = write_u16 (λ a. 0) 0x2002 1

abbrev queue : Virtqueue
queue = record {
  desc_addr = 0x1000;
  avail_addr = 0x2000;
  used_addr = 0x3000;
  num = 8;
  last_avail_idx = 0;
  ready = true;
}

abbrev host : Host
host = record {
  queue = queue;
  ram = memory;
  switch = MacTable.new;
  ports = RxRing.new ∷ RxRing.new ∷ [];
}

abbrev vm0_net : VirtioNet
vm0_net = Net.new 0

queue-IsLive : IsLive memory queue
queue-IsLive = record {
  ready = refl;
  avail = omega arith;
  used = omega arith;
  size = omega arith;
  last = omega arith;
  index = omega arith;
  apart = inl (omega arith);
}

process_tx-Drained_example : Ends (Drained vm0_net host) (process_tx vm0_net host)
process_tx-Drained_example = process_tx-Drained vm0_net host queue-IsLive

abbrev desc : ℕ → ℕ → VirtqDesc
desc addr len = record { addr = addr; len = len; flags = 0; next = 0 }

-- A header in one buffer and the start of the next.
abbrev chain : List VirtqDesc
chain = desc 0x100 10 ∷ desc 0x200 4 ∷ []

gather-bytes_of_example :
    gather (λ a. a) chain 0 [] ≡ [] ++ drop (header_size - 0) (bytes_of (λ a. a) chain)
unfolding bytes_of
gather-bytes_of_example = gather-bytes_of (λ a. a) chain 0 [] (omega arith)

abbrev disk : VirtioBlk
unfolding Blk.new
disk = Blk.new 0x10000 0x1000

abbrev start : Progress
start = record { ram = λ a. a; written = 0; status = 0 }

-- An offset at which offset and length together wrap: the write lands in front of the disk.
run-write_disk_wraps :
    (write_disk disk (desc 0x200 1024 ∷ []) (2 ^ 64 - 512) start).ram (0x10000 - 512) ≡ 0x200
unfolding write_disk disk
run-write_disk_wraps = refl

abbrev transport : Transport VirtioNet
transport = Mmio.new 0x0A000200 vm0_net 49

abbrev machine : Machine
machine = record {
  ram = memory;
  switch = MacTable.new;
  ports = RxRing.new ∷ RxRing.new ∷ [];
  spis = [];
}

transport-two : length transport.queues ≡ Mmio.max_queues
unfolding Mmio.new
transport-two = refl

writes-setup_example :
    IsSetUp net transport 1 machine 256 0x48001000 0x48002000 0x48003000
      (writes net (setup 1 256 0x48001000 0x48002000 0x48003000) (ok (transport, machine)))
writes-setup_example =
    writes-setup net transport 1 (omega arith) (omega arith) transport-two machine 256 0x48001000
      0x48002000 0x48003000 (omega arith) (omega arith) (omega arith) (omega arith)

-- Two writable buffers.
abbrev room : List VirtqDesc
room =
    record { addr = 0x100; len = 10; flags = 2; next = 0 }
    ∷ record { addr = 0x200; len = 20; flags = 2; next = 0 }
    ∷ []

scatter-packet_example :
    take (12 + 3 - 0) (bytes_of (scatter (7 ∷ 8 ∷ 9 ∷ []) room 0 (λ a. 0)).0 room)
    ≡ drop 0 (packet (7 ∷ 8 ∷ 9 ∷ []))
unfolding capacity
scatter-packet_example =
    scatter-packet (7 ∷ 8 ∷ 9 ∷ []) room 0 (λ a. 0) (refl, (inl (omega arith), tt), (refl, tt, tt))
      (omega arith)
