-- ===== src/Devices/Virtio/Mmio.antt =====
-- src/devices/virtio/mmio.rs: the registers of the transport.
use hypervisor.Prelude.{
  ℕ, ◌-◌, ◌*◌, ◌/◌, ◌%◌, ◌^◌, Bool, ◌&&◌, not, Option, none, some, List, [], ◌∷◌, get_or, set, map,
  Result, ok, err, bit_and, bit_or, leb, ltb, ◌==◌, if◌then◌else◌,
}
use hypervisor.Devices.Virtio.Queue.{
  Virtqueue, Stop, low_half, set_desc_addr, set_avail_addr, set_used_addr,
}
use hypervisor.Devices.Virtio.Queue
use hypervisor.Devices.Virtio.Backend.{VirtioDevice}

abbrev pub max_queues : ℕ
max_queues = 2

-- `VirtioMmioTransport`.
pub record Transport (D : Type 0) : Type 0 where
  pub base : ℕ
  pub device : D
  pub queues : List Virtqueue
  pub queue_sel : ℕ
  pub status : ℕ
  pub interrupt_status : ℕ
  pub device_features_sel : ℕ
  pub driver_features_sel : ℕ
  pub driver_features : ℕ
  pub config_generation : ℕ
  pub irq_intid : ℕ
  pub queue_desc_high : ℕ
  pub queue_driver_high : ℕ
  pub queue_device_high : ℕ

unfoldable pub new : {D : Type 0} → ℕ → D → ℕ → Transport D
new base device irq = record {
  base = base;
  device = device;
  queues = Queue.new ∷ Queue.new ∷ [];
  queue_sel = 0;
  status = 0;
  interrupt_status = 0;
  device_features_sel = 0;
  driver_features_sel = 0;
  driver_features = 0;
  config_generation = 0;
  irq_intid = irq;
  queue_desc_high = 0;
  queue_driver_high = 0;
  queue_device_high = 0;
}

-- The registers, by their offsets.
pub data Register : Type 0 where
  magic_value version device_id vendor_id device_features device_features_sel : Register
  driver_features driver_features_sel queue_sel queue_num_max queue_num queue_ready : Register
  queue_notify interrupt_status interrupt_ack status : Register
  queue_desc_low queue_desc_high queue_driver_low queue_driver_high : Register
  queue_device_low queue_device_high config_generation other : Register

abbrev pub register_list : List (ℕ × Register)
register_list =
    (0x000, magic_value)
    ∷ (0x004, version)
    ∷ (0x008, device_id)
    ∷ (0x00C, vendor_id)
    ∷ (0x010, device_features)
    ∷ (0x014, device_features_sel)
    ∷ (0x020, driver_features)
    ∷ (0x024, driver_features_sel)
    ∷ (0x030, queue_sel)
    ∷ (0x034, queue_num_max)
    ∷ (0x038, queue_num)
    ∷ (0x044, queue_ready)
    ∷ (0x050, queue_notify)
    ∷ (0x060, interrupt_status)
    ∷ (0x064, interrupt_ack)
    ∷ (0x070, status)
    ∷ (0x080, queue_desc_low)
    ∷ (0x084, queue_desc_high)
    ∷ (0x090, queue_driver_low)
    ∷ (0x094, queue_driver_high)
    ∷ (0x0A0, queue_device_low)
    ∷ (0x0A4, queue_device_high)
    ∷ (0x0FC, config_generation)
    ∷ []

abbrev pub look_up : List (ℕ × Register) → ℕ → Register
look_up [] off = other
look_up ((o, r) ∷ rs) off = let rest = look_up rs off in if o == off then r else rest

unfoldable pub register_of : ℕ → Register
register_of off = look_up register_list off

abbrev pub config_space : ℕ
config_space = 0x100

-- The bits of a 32-bit word that another does not have.
abbrev pub clear_bits : ℕ → ℕ → ℕ
clear_bits a b = bit_and a (2 ^ 32 - 1 - b)

abbrev pub replace_low : ℕ → ℕ → ℕ
replace_low a v = bit_or (bit_and a 0xFFFFFFFF00000000) v

abbrev pub replace_high : ℕ → ℕ → ℕ
replace_high a v = bit_or (bit_and a 0xFFFFFFFF) (v * 2 ^ 32)

abbrev bit_of : Bool → ℕ
bit_of b = if b then 1 else 0

module _ {D W : Type 0} (B : VirtioDevice D W) where
  abbrev pub queue_at : Transport D → ℕ → Virtqueue
  queue_at t i = get_or t.queues i Queue.new

  -- The selected queue, if there is one.
  unfoldable pub current_queue : Transport D → Option ℕ
  current_queue t =
      if ltb t.queue_sel max_queues && ltb t.queue_sel B.num_queues then some t.queue_sel else none

  -- A change of the selected queue, and none without one.
  abbrev pub change : Transport D → Option ℕ → (Virtqueue → Virtqueue) → Transport D
  change t none f = t
  change t (some i) f = record t { queues = set t.queues i (f (queue_at t i)) }

  abbrev pub on_queue : Transport D → (Virtqueue → Virtqueue) → Transport D
  unfolding current_queue
  on_queue t f = change t (current_queue t) f

  abbrev pub signal_interrupt : Transport D → W → Transport D × W
  signal_interrupt t w =
      (record t { interrupt_status = bit_or t.interrupt_status 1 }, B.inject_spi t.irq_intid w)

  unfoldable pub reset : Transport D → Transport D
  reset t = record t {
    status = 0;
    interrupt_status = 0;
    device_features_sel = 0;
    driver_features_sel = 0;
    driver_features = 0;
    queue_sel = 0;
    queues = map (λ _. Queue.new) t.queues;
  }

  abbrev pub value_of : Transport D → Option ℕ → ℕ → (Virtqueue → ℕ) → ℕ
  value_of t none d f = d
  value_of t (some i) d f = f (queue_at t i)

  unfoldable pub read_register : Register → Transport D → ℕ
  unfolding current_queue
  read_register magic_value t = 0x74726976
  read_register version t = 2
  read_register device_id t = B.device_id
  read_register vendor_id t = 0x554D4551
  read_register device_features t =
      if t.device_features_sel == 0
      then B.device_features % 2 ^ 32
      else B.device_features / 2 ^ 32 % 2 ^ 32
  read_register queue_num_max t = value_of t (current_queue t) 0 (λ _. B.max_queue_size)
  read_register queue_ready t = value_of t (current_queue t) 0 (λ q. bit_of q.ready)
  read_register interrupt_status t = t.interrupt_status
  read_register status t = t.status
  read_register config_generation t = t.config_generation
  read_register _ t = 0

  unfoldable pub read : Transport D → (offset size : ℕ) → ℕ
  unfolding read_register register_of
  read t offset size =
      if leb config_space offset
      then B.config_read t.device (offset - config_space) size
      else (if not (size == 4) then 0 else read_register (register_of offset) t)

  -- A notification of queue `i` that is up.
  abbrev pub put_back :
      Transport D → ℕ → Result Stop (D × Virtqueue × W) → Result Stop (Transport D × W)
  put_back t i (err e) = err e
  put_back t i (ok (d, q, w)) =
      ok (signal_interrupt (record t { device = d; queues = set t.queues i q }) w)

  unfoldable pub notify : Transport D → ℕ → W → Result Stop (Transport D × W)
  notify t i w =
      if ltb i max_queues && ltb i B.num_queues && (queue_at t i).ready
      then put_back t i (B.queue_notify t.device i (queue_at t i) w)
      else ok (t, w)

  -- A write of the 32-bit value `v`.
  unfoldable pub write_register : Register → Transport D → ℕ → W → Result Stop (Transport D × W)
  unfolding notify reset on_queue set_desc_addr set_avail_addr set_used_addr
  write_register device_features_sel t v w = ok (record t { device_features_sel = v }, w)
  write_register driver_features t v w = ok (
    record t {
      driver_features =
          if t.driver_features_sel == 0
          then replace_low t.driver_features v
          else replace_high t.driver_features v;
    },
    w,
  )
  write_register driver_features_sel t v w = ok (record t { driver_features_sel = v }, w)
  write_register queue_sel t v w = ok (
    record t { queue_sel = v; queue_desc_high = 0; queue_driver_high = 0; queue_device_high = 0 },
    w,
  )
  write_register queue_num t v w = ok (on_queue t (λ q. record q { num = v % 2 ^ 16 }), w)
  write_register queue_ready t v w = ok (on_queue t (λ q. record q { ready = not (v == 0) }), w)
  write_register queue_notify t v w = notify t (v % 2 ^ 16) w
  write_register interrupt_ack t v w =
      ok (record t { interrupt_status = clear_bits t.interrupt_status v }, w)
  write_register status t v w = ok (if v == 0 then reset t else record t { status = v }, w)
  write_register queue_desc_low t v w =
      ok (on_queue t (λ q. set_desc_addr q v t.queue_desc_high), w)
  write_register queue_desc_high t v w = ok (
    on_queue (record t { queue_desc_high = v }) (λ q. set_desc_addr q (low_half q.desc_addr) v),
    w,
  )
  write_register queue_driver_low t v w =
      ok (on_queue t (λ q. set_avail_addr q v t.queue_driver_high), w)
  write_register queue_driver_high t v w = ok (
    on_queue (record t { queue_driver_high = v }) (λ q. set_avail_addr q (low_half q.avail_addr) v),
    w,
  )
  write_register queue_device_low t v w =
      ok (on_queue t (λ q. set_used_addr q v t.queue_device_high), w)
  write_register queue_device_high t v w = ok (
    on_queue (record t { queue_device_high = v }) (λ q. set_used_addr q (low_half q.used_addr) v),
    w,
  )
  write_register _ t v w = ok (t, w)

  unfoldable pub write : Transport D → (offset value size : ℕ) → W → Result Stop (Transport D × W)
  unfolding write_register register_of
  write t offset value size w =
      if leb config_space offset
      then ok (record t { device = B.config_write t.device (offset - config_space) value size }, w)
      else (if not (size == 4)
          then ok (t, w)
          else write_register (register_of offset) t (value % 2 ^ 32) w)
