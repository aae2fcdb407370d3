-- ===== src/Devices/Virtio/Transmit.antt =====
-- src/devices/virtio/net.rs: the end of the transmission loop, and the frames it sends.
use hypervisor.Prelude.{
  ℕ, suc, ◌+◌, ◌-◌, ◌*◌, ◌%◌, ◌^◌, ◌<◌, ◌≤◌, ◌≡◌, refl, subst, ◌∙◌, ap, arith, ◌⊎◌, true, false,
  not, none, some, [], ok, ◌==◌,
}
use hypervisor.Ffa.Descriptors.{Bytes}
use hypervisor.Devices.Virtio.Queue.{
  Virtqueue, avail_idx, used_idx, has_avail, head_at, walk, advance, get_avail_desc, put_used,
  publish,
}
use hypervisor.Devices.Virtio.Drain.{Ends, Rounds, drain-Ends}
use hypervisor.Devices.Virtio.Net.{
  VirtioNet, Host, send, gather, transmit, tx_round, process_tx, max_rounds,
}
use hypervisor.Devices.Virtio.Used.{IsGivenBack, publish-IsGivenBack}
use native.Mathlib.Nat.{mod-lt}

-- A queue that the guest set up, with the index it advances outside the used ring.
pub record IsLive (m : Bytes) (q : Virtqueue) : Type 0 where
  pub ready : q.ready ≡ true
  pub avail : 0 < q.avail_addr
  pub used : 0 < q.used_addr
  pub size : 0 < q.num
  pub last : q.last_avail_idx < 2 ^ 16
  pub index : avail_idx m q < 2 ^ 16
  pub apart :
      (q.avail_addr + 4 ≤ q.used_addr + 2) ⊎ (q.used_addr + 4 + q.num * 8 ≤ q.avail_addr + 2)

-- The chains that the guest has made available and the device has not taken.
abbrev pub pending : Bytes → Virtqueue → ℕ
pending m q = (avail_idx m q + 2 ^ 16 - q.last_avail_idx) % 2 ^ 16

publish-avail_idx :
    (m : Bytes) (q : Virtqueue) (head len : ℕ)
    → IsLive m q
    → avail_idx (publish m q head len) q ≡ avail_idx m q
unfolding publish
publish-avail_idx m q head len l =
    let slot : used_idx m q % q.num < q.num = mod-lt (used_idx m q) l.size in
    ground (arith, slot, l.apart)

-- One round took the next chain, with its head from the available ring, and gave that head back in
-- the next entry of the used ring, with no bytes written; memory is otherwise as it was.
pub record IsServed (h h' : Host) : Type 0 where
  pub taken : h'.queue ≡ advance h.queue
  pub given_back : IsGivenBack h.ram h.queue (head_at h.ram h.queue) 0 h'.ram

-- The loop of `d` came from the first state to the last by `n` rounds that each served a chain.
pub data Served (d : VirtioNet) (h0 : Host) : ℕ → Host → Type 0 where
  begin : Served d h0 0 h0
  next :
      {n : ℕ} {h h' : Host}
      → Served d h0 n h
      → tx_round d h ≡ ok (some h')
      → IsServed h h'
      → Served d h0 (suc n) h'

-- A state with `k` chains left, of a loop that began in `h0`.
record Left (d : VirtioNet) (h0 : Host) (k : ℕ) (h : Host) : Type 0 where
  count : ℕ
  served : Served d h0 count h
  all : count + k ≡ pending h0.ram h0.queue
  live : IsLive h.ram h.queue
  left : pending h.ram h.queue ≡ k
  same : avail_idx h.ram h.queue ≡ avail_idx h0.ram h0.queue

has_avail-pending :
    (m : Bytes) (q : Virtqueue) → IsLive m q → has_avail m q ≡ not (pending m q == 0)
unfolding has_avail
has_avail-pending m q l = ground (arith, l.ready, l.avail, l.last, l.index)

stops : (d : VirtioNet) (h0 h : Host) → Left d h0 0 h → tx_round d h ≡ ok none
unfolding tx_round transmit get_avail_desc
stops d h0 h p =
    let empty : has_avail h.ram h.queue ≡ false =
      has_avail-pending h.ram h.queue p.live ∙ ground (arith, p.left) in
    rw empty refl

-- The state after a round that takes a chain.
abbrev after : VirtioNet → Host → Host
after d h =
    let q = advance h.queue in
    let head = head_at h.ram h.queue in
    let frame = gather h.ram (walk h.ram h.queue 4 head) 0 [] in
    record (send (record h { queue = q }) d.port_id frame) { ram = publish h.ram q head 0 }

round_lem :
    (d : VirtioNet) (h : Host)
    → IsLive h.ram h.queue
    → (pending h.ram h.queue == 0) ≡ false
    → tx_round d h ≡ ok (some (after d h))
unfolding tx_round transmit get_avail_desc put_used advance
round_lem d h l e =
    let full : has_avail h.ram h.queue ≡ true = has_avail-pending h.ram h.queue l ∙ ap not e in
    let size : (h.queue.num == 0) ≡ false = ground (arith, l.size) in
    let used : (h.queue.used_addr == 0) ≡ false = ground (arith, l.used) in
    rw (full, size) (rw (used, size) refl)

goes :
    (d : VirtioNet) (h0 : Host) (k : ℕ) (h : Host)
    → Left d h0 (suc k) h
    → Rounds (Left d h0 k) (tx_round d h)
unfolding send advance publish
goes d h0 k h p =
    let l = p.live in
    let q = advance h.queue in
    let head = head_at h.ram h.queue in
    let moved : IsLive h.ram q = record {
      ready = l.ready;
      avail = l.avail;
      used = l.used;
      size = l.size;
      last = omega arith;
      index = l.index;
      apart = l.apart;
    } in
    let same = publish-avail_idx h.ram q head 0 moved in
    record {
      next = after d h;
      returns = round_lem d h l (ground (arith, p.left));
      holds = record {
        count = suc p.count;
        served =
            next p.served (round_lem d h l (ground (arith, p.left)))
              (record { taken = refl; given_back = publish-IsGivenBack h.ram h.queue head 0 });
        all = omega (arith, p.all);
        live = record {
          ready = l.ready;
          avail = l.avail;
          used = l.used;
          size = l.size;
          last = omega arith;
          index = rw same l.index;
          apart = l.apart;
        };
        left = rw same (omega (arith, p.left, l.last, l.index));
        same = same ∙ p.same;
      };
    }

-- The loop that began in `h0` is over: it took every chain that was available, and each of its rounds
-- gave one back in the used ring.
pub record Drained (d : VirtioNet) (h0 : Host) (h : Host) : Type 0 where
  pub taken : h.queue.last_avail_idx ≡ avail_idx h0.ram h0.queue
  pub served : Served d h0 (pending h0.ram h0.queue) h
  pub live : IsLive h.ram h.queue

-- With a queue that is set up, whatever the chains in it, the transmission loop ends, after at most
-- 2^16 rounds: every available chain has been taken, in as many rounds as there were chains, each of
-- which wrote the head of its chain to the next entry of the used ring, advanced the index, and changed
-- no other byte. The queue stays set up.
pub process_tx-Drained :
    (d : VirtioNet) (h : Host) → IsLive h.ram h.queue → Ends (Drained d h) (process_tx d h)
unfolding process_tx
process_tx-Drained d h l =
    let start : Left d h (pending h.ram h.queue) h = record {
      count = 0;
      served = begin;
      all = omega arith;
      live = l;
      left = refl;
      same = refl;
    } in
    let e =
      drain-Ends (tx_round d) (Left d h) (stops d h) (goes d h) max_rounds (pending h.ram h.queue) h
        (omega arith) start in
    record {
      last = e.last;
      returns = e.returns;
      holds = record {
        taken = omega (arith, e.holds.left, e.holds.same, e.holds.live.last, e.holds.live.index);
        served = subst (λ n. Served d h n e.last) (omega (arith, e.holds.all)) e.holds.served;
        live = e.holds.live;
      };
    }
