-- ===== src/Devices/Virtio/Inject.antt =====
-- src/devices/virtio/mmio.rs: a received frame put into the queue of the guest.
use hypervisor.Prelude.{
  ℕ, ◌+◌, ◌-◌, ◌%◌, ◌^◌, Bool, true, false, not, Option, none, some, List, [], ◌∷◌, ◌++◌, length,
  get_or, set, take, Result, ok, err, bit_or, ltb, min, ◌==◌, if◌then◌else◌,
}
use hypervisor.Ffa.Descriptors.{Bytes}
use hypervisor.Vswitch.Forward.{drop}
use hypervisor.Devices.Virtio.Queue.{
  VirtqDesc, is_writable, DescChain, Virtqueue, Stop, get_avail_desc, put_used,
}
use hypervisor.Devices.Virtio.Queue
use hypervisor.Devices.Virtio.Blk.{write_bytes}
use hypervisor.Devices.Virtio.Mmio.{Transport}

-- The `virtio_net_hdr_v1`, with one buffer.
abbrev pub header : List ℕ
header = 0 ∷ 0 ∷ 0 ∷ 0 ∷ 0 ∷ 0 ∷ 0 ∷ 0 ∷ 0 ∷ 0 ∷ 1 ∷ 0 ∷ []

-- The room in the writable buffers.
unfoldable pub capacity : List VirtqDesc → ℕ
capacity [] = 0
capacity (d ∷ ds) = (if is_writable d then d.len else 0) + capacity ds

-- The next `n` bytes, `written` of them behind: of the header and the frame, or of the frame.
unfoldable pub piece : List ℕ → (written n : ℕ) → List ℕ
piece frame written n =
    let of_header = min (12 - written) n in
    if ltb written 12
    then take of_header (drop written header) ++ take (n - of_header) frame
    else take n (drop (written - 12) frame)

-- The loop over the buffers; it gives the memory and the number of bytes written.
unfoldable pub scatter : List ℕ → List VirtqDesc → (written : ℕ) → Bytes → Bytes × ℕ
unfolding piece
scatter frame [] written m = (m, written)
scatter frame (d ∷ ds) written m =
    let n = min (12 + length frame - written) d.len in
    let skipped = scatter frame ds written m in
    let stored = scatter frame ds (written + n) (write_bytes m d.addr n (piece frame written n)) in
    if not (is_writable d) then skipped else stored

-- Whether a frame was taken, the transport, the memory, and the interrupts that were injected.
pub record Injected (D : Type 0) : Type 0 where
  pub taken : Bool
  pub transport : Transport D
  pub ram : Bytes
  pub spis : List ℕ

module _ {D : Type 0} where
  abbrev pub with_queue : Transport D → Virtqueue → Transport D
  with_queue t q = record t { queues = set t.queues 0 q }

  abbrev pub given_back : Transport D → Result Stop Bytes → Result Stop (Injected D)
  given_back t (err e) = err e
  given_back t (ok m) = ok (record { taken = false; transport = t; ram = m; spis = [] })

  abbrev pub signalled : Transport D → Result Stop Bytes → Result Stop (Injected D)
  signalled t (err e) = err e
  signalled t (ok m) = ok (record {
    taken = true;
    transport = record t { interrupt_status = bit_or t.interrupt_status 1 };
    ram = m;
    spis = t.irq_intid ∷ [];
  })

  unfoldable pub inject_chain :
      Transport D
      → Bytes
      → List ℕ
      → Result Stop (Option (DescChain × Virtqueue))
      → Result Stop (Injected D)
  unfolding scatter capacity
  inject_chain t m frame (err e) = err e
  inject_chain t m frame (ok none) =
      ok (record { taken = false; transport = t; ram = m; spis = [] })
  inject_chain t m frame (ok (some (chain, q))) =
      let done = scatter frame chain.descs 0 m in
      if length chain.descs == 0
      then ok (record { taken = false; transport = with_queue t q; ram = m; spis = [] })
      else (if ltb (capacity chain.descs) (12 + length frame)
          then given_back (with_queue t q) (put_used m q chain.head 0)
          else signalled (with_queue t q) (put_used done.0 q chain.head (done.1 % 2 ^ 32)))

  unfoldable pub inject_rx : Transport D → Bytes → List ℕ → Result Stop (Injected D)
  unfolding inject_chain
  inject_rx t m frame = inject_chain t m frame (get_avail_desc m (get_or t.queues 0 Queue.new))
