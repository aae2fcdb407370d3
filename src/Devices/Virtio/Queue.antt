-- ===== src/Devices/Virtio/Queue.antt =====
-- src/devices/virtio/queue.rs: a split virtqueue in guest memory.
use hypervisor.Prelude.{
  ℕ, zero, suc, ◌+◌, ◌*◌, ◌%◌, ◌^◌, Bool, false, ◌||◌, not, Option, none, some, List, [], ◌∷◌,
  Result, ok, err, bit_and, bit_or, leb, ◌==◌, if◌then◌else◌,
}
use hypervisor.Ffa.Descriptors.{Bytes, read_u16, read_u32, read_u64}
use hypervisor.Ffa.Proxy.Discovery.{write_u16, write_u32}

pub record VirtqDesc : Type 0 where
  pub addr : ℕ
  pub len : ℕ
  pub flags : ℕ
  pub next : ℕ

-- The bits NEXT and WRITE of the flags.
abbrev pub has_next : VirtqDesc → Bool
has_next d = not (bit_and d.flags 1 == 0)

abbrev pub is_writable : VirtqDesc → Bool
is_writable d = not (bit_and d.flags 2 == 0)

-- A chain: its head, and the valid ones of its four descriptors.
pub record DescChain : Type 0 where
  pub head : ℕ
  pub descs : List VirtqDesc

pub record Virtqueue : Type 0 where
  pub desc_addr : ℕ
  pub avail_addr : ℕ
  pub used_addr : ℕ
  pub num : ℕ
  pub last_avail_idx : ℕ
  pub ready : Bool

abbrev pub new : Virtqueue
new = record {
  desc_addr = 0;
  avail_addr = 0;
  used_addr = 0;
  num = 0;
  last_avail_idx = 0;
  ready = false;
}

-- Two 32-bit halves as an address, and its low half.
abbrev pub join : (low high : ℕ) → ℕ
join low high = bit_or low (high * 2 ^ 32)

abbrev pub low_half : ℕ → ℕ
low_half a = a % 2 ^ 32

unfoldable pub set_desc_addr : Virtqueue → (low high : ℕ) → Virtqueue
set_desc_addr q low high = record q { desc_addr = join low high }

unfoldable pub set_avail_addr : Virtqueue → (low high : ℕ) → Virtqueue
set_avail_addr q low high = record q { avail_addr = join low high }

unfoldable pub set_used_addr : Virtqueue → (low high : ℕ) → Virtqueue
set_used_addr q low high = record q { used_addr = join low high }

-- The index that the guest advances, and the one that the device advances.
abbrev pub avail_idx : Bytes → Virtqueue → ℕ
avail_idx m q = read_u16 m (q.avail_addr + 2)

abbrev pub used_idx : Bytes → Virtqueue → ℕ
used_idx m q = read_u16 m (q.used_addr + 2)

unfoldable pub has_avail : Bytes → Virtqueue → Bool
has_avail m q =
    if not q.ready || q.avail_addr == 0 then false else not (avail_idx m q == q.last_avail_idx)

-- What stops the code: a remainder by a queue size of zero panics. A loop of this model also stops
-- when it has no rounds left.
pub data Stop : Type 0 where
  division_by_zero out_of_fuel : Stop

unfoldable pub read_desc : Bytes → ℕ → VirtqDesc
read_desc m p = record {
  addr = read_u64 m p;
  len = read_u32 m (p + 8);
  flags = read_u16 m (p + 12);
  next = read_u16 m (p + 14);
}

-- The walk along a chain, with `n` of its four steps left.
unfoldable pub walk : Bytes → Virtqueue → ℕ → ℕ → List VirtqDesc
unfolding read_desc
walk m q zero idx = []
walk m q (suc n) idx =
    let d = read_desc m (q.desc_addr + idx * 16) in
    let rest = walk m q n d.next in
    if leb q.num idx then [] else (if not (has_next d) then d ∷ [] else d ∷ rest)

abbrev pub head_at : Bytes → Virtqueue → ℕ
head_at m q = read_u16 m (q.avail_addr + 4 + q.last_avail_idx % q.num * 2)

unfoldable pub advance : Virtqueue → Virtqueue
advance q = record q { last_avail_idx = (q.last_avail_idx + 1) % 2 ^ 16 }

unfoldable pub get_avail_desc : Bytes → Virtqueue → Result Stop (Option (DescChain × Virtqueue))
unfolding has_avail walk advance
get_avail_desc m q =
    if not (has_avail m q)
    then ok none
    else (if q.num == 0
        then err division_by_zero
        else ok (some (record { head = head_at m q; descs = walk m q 4 (head_at m q) }, advance q)))

-- The ring entry, and then the index.
unfoldable pub publish : Bytes → Virtqueue → (head len : ℕ) → Bytes
publish m q head len =
    let slot = q.used_addr + 4 + used_idx m q % q.num * 8 in
    write_u16 (write_u32 (write_u32 m slot head) (slot + 4) len) (q.used_addr + 2)
      (used_idx m q + 1)

unfoldable pub put_used : Bytes → Virtqueue → (head len : ℕ) → Result Stop Bytes
unfolding publish
put_used m q head len =
    if q.used_addr == 0
    then ok m
    else (if q.num == 0 then err division_by_zero else ok (publish m q head len))
