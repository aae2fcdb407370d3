-- ===== src/Devices/Virtio/Net.antt =====
-- src/devices/virtio/net.rs: the network device.
use hypervisor.Prelude.{
  ℕ, zero, suc, ◌+◌, ◌-◌, ◌*◌, ◌%◌, ◌^◌, ◌&&◌, Option, none, some, List, [], ◌∷◌, ◌++◌, length,
  get_or, Result, ok, err, bit_or, leb, ltb, min, ◌==◌, if◌then◌else◌,
}
use hypervisor.Ffa.Descriptors.{Bytes}
use hypervisor.Vswitch.RxRing.{max_frame_size}
use hypervisor.Vswitch.MacTable.{VSwitch}
use hypervisor.Vswitch.Forward.{Ports, forward}
use hypervisor.Devices.Virtio.Queue.{
  VirtqDesc, DescChain, Virtqueue, Stop, get_avail_desc, put_used,
}
use hypervisor.Devices.Virtio.Drain.{drain}

pub record VirtioNet : Type 0 where
  pub mac : List ℕ
  pub port_id : ℕ
  pub status : ℕ

-- The numbers that the device reports.
abbrev pub device_id : ℕ
device_id = 1

abbrev pub device_features : ℕ
device_features = 2 ^ 32 + 2 ^ 5 + 2 ^ 16

unfoldable pub mac_for_vm : ℕ → List ℕ
mac_for_vm vm = 0x52 ∷ 0x54 ∷ 0 ∷ 0 ∷ 0 ∷ (vm + 1) % 2 ^ 8 ∷ []

unfoldable pub new : ℕ → VirtioNet
unfolding mac_for_vm
new vm = record { mac = mac_for_vm vm; port_id = vm; status = 1 }

abbrev pub header_size : ℕ
header_size = 12

-- The four bytes of a MAC address from `i` on that a 4-byte read gives.
unfoldable pub config_read : VirtioNet → (offset size : ℕ) → ℕ
config_read d offset size =
    let mac = λ (i : ℕ). get_or d.mac i 0 in
    if leb offset 5 && size == 1
    then mac offset
    else (if offset == 6 && size == 2
        then d.status
        else (if offset == 0 && size == 4
            then bit_or (bit_or (bit_or (mac 0) (mac 1 * 2 ^ 8)) (mac 2 * 2 ^ 16)) (mac 3 * 2 ^ 24)
            else (if offset == 4 && size == 4
                then bit_or (bit_or (mac 4) (mac 5 * 2 ^ 8)) (d.status * 2 ^ 16)
                else 0)))

-- The bytes of a buffer.
abbrev pub bytes_at : Bytes → ℕ → ℕ → List ℕ
bytes_at m a zero = []
bytes_at m a (suc n) = m a ∷ bytes_at m (a + 1) n

-- A buffer that fits behind the frame so far.
abbrev pub append_fitting : Bytes → ℕ → ℕ → List ℕ → List ℕ
append_fitting m a n frame =
    if leb (length frame + n) max_frame_size then frame ++ bytes_at m a n else frame

-- The loop over the descriptors: the bytes behind the header, which ends `total` bytes along.
unfoldable pub gather : Bytes → List VirtqDesc → (total : ℕ) → List ℕ → List ℕ
gather m [] total frame = frame
gather m (d ∷ ds) total frame =
    let skip = min (header_size - total) d.len in
    gather m ds (total + d.len) (
      if ltb total header_size
      then (if ltb 0 (d.len - skip)
          then append_fitting m (d.addr + skip) (d.len - skip) frame
          else frame)
      else append_fitting m d.addr d.len frame)

-- What the loop over the queue works on.
pub record Host : Type 0 where
  pub queue : Virtqueue
  pub ram : Bytes
  pub switch : VSwitch
  pub ports : Ports

-- A frame that is too short for its addresses is not sent.
unfoldable pub send : Host → ℕ → List ℕ → Host
send h port frame =
    let out =
      if leb 14 (length frame) then forward h.switch h.ports port frame else (h.switch, h.ports) in
    record h { switch = out.0; ports = out.1 }

abbrev pub finish : Host → Result Stop Bytes → Result Stop (Option Host)
finish h (err e) = err e
finish h (ok m) = ok (some (record h { ram = m }))

unfoldable pub transmit :
    ℕ → Host → Result Stop (Option (DescChain × Virtqueue)) → Result Stop (Option Host)
unfolding send gather
transmit port h (err e) = err e
transmit port h (ok none) = ok none
transmit port h (ok (some (chain, q))) =
    let sent = send (record h { queue = q }) port (gather h.ram chain.descs 0 []) in
    finish sent (put_used h.ram q chain.head 0)

-- One round of `process_tx`.
unfoldable pub tx_round : VirtioNet → Host → Result Stop (Option Host)
unfolding transmit
tx_round d h = transmit d.port_id h (get_avail_desc h.ram h.queue)

-- An index of 16 bits comes round after 2^16 chains.
abbrev pub max_rounds : ℕ
max_rounds = 2 ^ 16

unfoldable pub process_tx : VirtioNet → Host → Result Stop Host
unfolding tx_round
process_tx d h = drain (tx_round d) max_rounds h

unfoldable pub queue_notify : VirtioNet → ℕ → Host → Result Stop Host
unfolding process_tx
queue_notify d idx h = if idx == 1 then process_tx d h else ok h
