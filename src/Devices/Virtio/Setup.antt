-- ===== src/Devices/Virtio/Setup.antt =====
-- src/devices/virtio/mmio.rs: how a driver sets up a queue.
use hypervisor.Prelude.{
  ℕ, zero, suc, ◌+◌, ◌*◌, ◌/◌, ◌%◌, ◌^◌, ◌<◌, ◌≡◌, ◌≢◌, refl, ◌∙◌, ap, sym, arith, true, ◌&&◌, some,
  List, [], ◌∷◌, length, get_or, set, get_or-set_self, get_or-set_ne, Result, ok, err, bit_or, ltb,
}
use hypervisor.Bits.Fields.{bit_or_fields, bit_or-zero, zero-bit_or}
use hypervisor.Devices.Virtio.Queue.{
  Virtqueue, Stop, join, low_half, set_desc_addr, set_avail_addr, set_used_addr,
}
use hypervisor.Devices.Virtio.Queue
use hypervisor.Devices.Virtio.Backend.{VirtioDevice}
use hypervisor.Devices.Virtio.Mmio.{
  Transport, max_queues, queue_at, current_queue, change, on_queue, write, write_register,
  register_of,
}

set-set {ℓ} : {A : Type ℓ} (xs : List A) (i : ℕ) (a b : A) → set (set xs i a) i b ≡ set xs i b
set-set [] i a b = refl
set-set (x ∷ xs) zero a b = refl
set-set (x ∷ xs) (suc i) a b = ap (λ l. x ∷ l) (set-set xs i a b)

join_sum : (low high : ℕ) → low < 2 ^ 32 → join low high ≡ low + high * 2 ^ 32
join_sum low high h =
    let l : low ≡ 0 * 2 ^ 32 + low = omega arith in
    let r : high * 2 ^ 32 ≡ high * 2 ^ 32 + 0 = omega arith in
    (λ j. bit_or (l j) (r j))
    ∙ bit_or_fields 32 0 low high 0 h (omega arith)
    ∙ rw (zero-bit_or, bit_or-zero) (omega arith)

-- The last of the two writes of an address gives all of it.
low_half-join : (low high : ℕ) → low < 2 ^ 32 → low_half (join low high) ≡ low
low_half-join low high h = omega (arith, join_sum low high h)

set-get_or {ℓ} : {A : Type ℓ} (xs : List A) (i : ℕ) (d : A) → set xs i (get_or xs i d) ≡ xs
set-get_or [] i d = refl
set-get_or (x ∷ xs) zero d = refl
set-get_or (x ∷ xs) (suc i) d = ap (λ l. x ∷ l) (set-get_or xs i d)

-- What the driver writes to set up queue `i` with `n` descriptors.
abbrev pub setup : (i n desc avail used : ℕ) → List (ℕ × ℕ)
setup i n desc avail used =
    (0x030, i)
    ∷ (0x038, n)
    ∷ (0x080, desc % 2 ^ 32)
    ∷ (0x084, desc / 2 ^ 32)
    ∷ (0x090, avail % 2 ^ 32)
    ∷ (0x094, avail / 2 ^ 32)
    ∷ (0x0A0, used % 2 ^ 32)
    ∷ (0x0A4, used / 2 ^ 32)
    ∷ (0x044, 1)
    ∷ []

module _ {D W : Type 0} (B : VirtioDevice D W) where
  abbrev pub then_write : ℕ → ℕ → Result Stop (Transport D × W) → Result Stop (Transport D × W)
  then_write off v (err e) = err e
  then_write off v (ok (t, w)) = write B t off v 4 w

  -- A sequence of 4-byte writes, of values to offsets.
  abbrev pub writes : List (ℕ × ℕ) → Result Stop (Transport D × W) → Result Stop (Transport D × W)
  writes [] r = r
  writes ((off, v) ∷ ps) r = writes ps (then_write off v r)

  module _ (t : Transport D) (i : ℕ) where
    -- The queue that the driver asks for.
    abbrev pub queue_of : (n desc avail used : ℕ) → Virtqueue
    queue_of n desc avail used = record (queue_at B t i) {
      num = n;
      desc_addr = desc;
      avail_addr = avail;
      used_addr = used;
      ready = true;
    }

    -- The sequence of writes comes to an end with queue `i` as asked for and the other as it was.
    pub record IsSetUp (w : W) (n desc avail used : ℕ) (out : Result Stop (Transport D × W))
        : Type 0 where
      pub transport : Transport D
      pub returns : out ≡ ok (transport, w)
      pub queue : queue_at B transport i ≡ queue_of n desc avail used
      pub others : (j : ℕ) → i ≢ j → queue_at B transport j ≡ queue_at B t j

  module _ (t : Transport D) (i : ℕ) (few : i < max_queues) (has : i < B.num_queues)
      (two : length t.queues ≡ max_queues) where
    -- The transport with queue `i` selected, and that queue and the three high halves given.
    abbrev held : Virtqueue → (d a u : ℕ) → Transport D
    held q d a u = record t {
      queue_sel = i;
      queues = set t.queues i q;
      queue_desc_high = d;
      queue_driver_high = a;
      queue_device_high = u;
    }

    current-held : (q : Virtqueue) (d a u : ℕ) → current_queue B (held q d a u) ≡ some i
    unfolding current_queue
    current-held q d a u =
        let both : ltb i max_queues && ltb i B.num_queues ≡ true = ground (arith, few, has) in
        rw both refl

    on_queue-held :
        (q : Virtqueue) (d a u : ℕ) (f : Virtqueue → Virtqueue)
        → on_queue B (held q d a u) f ≡ held (f q) d a u
    unfolding current_queue
    on_queue-held q d a u f =
        let here : get_or (set t.queues i q) i Queue.new ≡ q =
          get_or-set_self t.queues i q Queue.new (omega (arith, two, few)) in
        let over : set (set t.queues i q) i (f q) ≡ set t.queues i (f q) =
          set-set t.queues i q (f q) in
        ap (λ o. change B (held q d a u) o f) (current-held q d a u)
        ∙ ap (λ x. change B (held q d a u) (some i) (λ _. f x)) here
        ∙ (λ j. record t {
          queue_sel = i;
          queues = over j;
          queue_desc_high = d;
          queue_driver_high = a;
          queue_device_high = u;
        })

    module _ (w : W) where
      abbrev state : Virtqueue → (d a u : ℕ) → Result Stop (Transport D × W)
      state q d a u = ok (held q d a u, w)

      changed :
          (q : Virtqueue) (d a u : ℕ) (f : Virtqueue → Virtqueue)
          → ok (on_queue B (held q d a u) f, w) ≡ state (f q) d a u
      changed q d a u f = ap (λ x. ok (x, w)) (on_queue-held q d a u f)

      selects : then_write 0x030 i (ok (t, w)) ≡ state (queue_at B t i) 0 0 0
      unfolding write write_register register_of
      selects =
          let narrow : i % 2 ^ 32 ≡ i = omega arith in
          let same = sym (set-get_or t.queues i Queue.new) in
          λ j. ok (
            record t {
              queue_sel = narrow j;
              queues = same j;
              queue_desc_high = 0;
              queue_driver_high = 0;
              queue_device_high = 0;
            },
            w,
          )

      sizes :
          (q : Virtqueue) (n d a u : ℕ)
          → then_write 0x038 n (state q d a u)
            ≡ state (record q { num = n % 2 ^ 32 % 2 ^ 16 }) d a u
      unfolding write write_register register_of current_queue
      sizes q n d a u = changed q d a u (λ x. record x { num = n % 2 ^ 32 % 2 ^ 16 })

      desc_low :
          (q : Virtqueue) (v d a u : ℕ)
          → then_write 0x080 v (state q d a u) ≡ state (set_desc_addr q (v % 2 ^ 32) d) d a u
      unfolding write write_register register_of current_queue
      desc_low q v d a u = changed q d a u (λ x. set_desc_addr x (v % 2 ^ 32) d)

      desc_high :
          (q : Virtqueue) (v d a u : ℕ)
          → then_write 0x084 v (state q d a u)
            ≡ state (set_desc_addr q (low_half q.desc_addr) (v % 2 ^ 32)) (v % 2 ^ 32) a u
      unfolding write write_register register_of current_queue
      desc_high q v d a u =
          changed q (v % 2 ^ 32) a u (λ x. set_desc_addr x (low_half x.desc_addr) (v % 2 ^ 32))

      driver_low :
          (q : Virtqueue) (v d a u : ℕ)
          → then_write 0x090 v (state q d a u) ≡ state (set_avail_addr q (v % 2 ^ 32) a) d a u
      unfolding write write_register register_of current_queue
      driver_low q v d a u = changed q d a u (λ x. set_avail_addr x (v % 2 ^ 32) a)

      driver_high :
          (q : Virtqueue) (v d a u : ℕ)
          → then_write 0x094 v (state q d a u)
            ≡ state (set_avail_addr q (low_half q.avail_addr) (v % 2 ^ 32)) d (v % 2 ^ 32) u
      unfolding write write_register register_of current_queue
      driver_high q v d a u =
          changed q d (v % 2 ^ 32) u (λ x. set_avail_addr x (low_half x.avail_addr) (v % 2 ^ 32))

      device_low :
          (q : Virtqueue) (v d a u : ℕ)
          → then_write 0x0A0 v (state q d a u) ≡ state (set_used_addr q (v % 2 ^ 32) u) d a u
      unfolding write write_register register_of current_queue
      device_low q v d a u = changed q d a u (λ x. set_used_addr x (v % 2 ^ 32) u)

      device_high :
          (q : Virtqueue) (v d a u : ℕ)
          → then_write 0x0A4 v (state q d a u)
            ≡ state (set_used_addr q (low_half q.used_addr) (v % 2 ^ 32)) d a (v % 2 ^ 32)
      unfolding write write_register register_of current_queue
      device_high q v d a u =
          changed q d a (v % 2 ^ 32) (λ x. set_used_addr x (low_half x.used_addr) (v % 2 ^ 32))

      readies :
          (q : Virtqueue) (d a u : ℕ)
          → then_write 0x044 1 (state q d a u) ≡ state (record q { ready = true }) d a u
      unfolding write write_register register_of current_queue
      readies q d a u = changed q d a u (λ x. record x { ready = true })

      -- The two writes of an address, one after the other.
      address :
          (v low : ℕ)
          → v < 2 ^ 64
          → join (low_half (join (v % 2 ^ 32 % 2 ^ 32) low)) (v / 2 ^ 32 % 2 ^ 32) ≡ v
      address v low h =
          let l = low_half-join (v % 2 ^ 32 % 2 ^ 32) low (omega arith) in
          ap (λ x. join x (v / 2 ^ 32 % 2 ^ 32)) l
          ∙ join_sum (v % 2 ^ 32 % 2 ^ 32) (v / 2 ^ 32 % 2 ^ 32) (omega arith)
          ∙ omega arith

      -- The nine register writes with which a driver sets up a queue that the device has, from whatever
      -- state of the transport: the queue gets the number of descriptors and the three 64-bit
      -- addresses, each put together from its halves, and is ready; its place in the available ring and
      -- the other queue stay as they were.
      pub writes-setup :
          (n desc avail used : ℕ)
          → n < 2 ^ 16
          → desc < 2 ^ 64
          → avail < 2 ^ 64
          → used < 2 ^ 64
          → IsSetUp t i w n desc avail used (writes (setup i n desc avail used) (ok (t, w)))
      unfolding set_desc_addr set_avail_addr set_used_addr
      writes-setup n desc avail used ln ld la lu =
          let narrow : n % 2 ^ 32 % 2 ^ 16 ≡ n = omega arith in
          let q0 = record (queue_at B t i) { num = n % 2 ^ 32 % 2 ^ 16 } in
          let dl = desc % 2 ^ 32 in
          let dh = desc / 2 ^ 32 in
          let al = avail % 2 ^ 32 in
          let ah = avail / 2 ^ 32 in
          let ul = used % 2 ^ 32 in
          let uh = used / 2 ^ 32 in
          let q1 = set_desc_addr q0 (dl % 2 ^ 32) 0 in
          let q2 = set_desc_addr q1 (low_half q1.desc_addr) (dh % 2 ^ 32) in
          let q3 = set_avail_addr q2 (al % 2 ^ 32) 0 in
          let q4 = set_avail_addr q3 (low_half q3.avail_addr) (ah % 2 ^ 32) in
          let q5 = set_used_addr q4 (ul % 2 ^ 32) 0 in
          let q6 = set_used_addr q5 (low_half q5.used_addr) (uh % 2 ^ 32) in
          let d = dh % 2 ^ 32 in
          let a = ah % 2 ^ 32 in
          let u = uh % 2 ^ 32 in
          let w8 : List (ℕ × ℕ) = (0x044, 1) ∷ [] in
          let w7 = (0x0A4, uh) ∷ w8 in
          let w6 = (0x0A0, ul) ∷ w7 in
          let w5 = (0x094, ah) ∷ w6 in
          let w4 = (0x090, al) ∷ w5 in
          let w3 = (0x084, dh) ∷ w4 in
          let w2 = (0x080, dl) ∷ w3 in
          record {
            transport = held (record q6 { ready = true }) d a u;
            returns =
                ap (writes ((0x038, n) ∷ w2)) selects
                ∙ ap (writes w2) (sizes (queue_at B t i) n 0 0 0)
                ∙ ap (writes w3) (desc_low q0 dl 0 0 0)
                ∙ ap (writes w4) (desc_high q1 dh 0 0 0)
                ∙ ap (writes w5) (driver_low q2 al d 0 0)
                ∙ ap (writes w6) (driver_high q3 ah d 0 0)
                ∙ ap (writes w7) (device_low q4 ul d a 0)
                ∙ ap (writes w8) (device_high q5 uh d a 0)
                ∙ readies q6 d a u;
            queue =
                get_or-set_self t.queues i (record q6 { ready = true }) Queue.new
                  (omega (arith, two, few))
                ∙ (λ j. record (queue_at B t i) {
                  num = narrow j;
                  desc_addr = address desc 0 ld j;
                  avail_addr = address avail 0 la j;
                  used_addr = address used 0 lu j;
                  ready = true;
                });
            others = λ j ne. get_or-set_ne t.queues i j (record q6 { ready = true }) Queue.new ne;
          }
