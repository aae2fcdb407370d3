-- ===== src/Devices/Virtio/Used.antt =====
-- src/devices/virtio/queue.rs: what giving a chain back leaves in memory.
use hypervisor.Prelude.{ℕ, ◌+◌, ◌*◌, ◌%◌, ◌^◌, ◌<◌, ◌≤◌, ◌≡◌, ◌∙◌, arith, ◌⊎◌}
use hypervisor.Ffa.Descriptors.{Bytes, read_u32}
use hypervisor.Ffa.Proxy.Discovery.{write_u16, write_u32}
use hypervisor.Devices.Virtio.Queue.{Virtqueue, used_idx, publish}
use native.Mathlib.Nat.{mod-lt}

-- Where the next entry of the used ring stands.
abbrev pub next_entry : Bytes → Virtqueue → ℕ
next_entry m q = q.used_addr + 4 + used_idx m q % q.num * 8

-- The address is neither in the next entry nor in the index.
abbrev pub IsUntouched : Bytes → Virtqueue → ℕ → Type 0
IsUntouched m q a =
    ((a < next_entry m q) ⊎ (next_entry m q + 8 ≤ a))
    × ((a < q.used_addr + 2) ⊎ (q.used_addr + 4 ≤ a))

-- The address is neither in the index nor in the entries of the used ring.
abbrev pub IsOffRing : Virtqueue → ℕ → Type 0
IsOffRing q a = (a < q.used_addr + 2) ⊎ (q.used_addr + 4 + q.num * 8 ≤ a)

-- A chain was given back: the next entry names its head and the bytes written, the index advances, and
-- nothing else changes.
pub record IsGivenBack (m : Bytes) (q : Virtqueue) (head len : ℕ) (m' : Bytes) : Type 0 where
  pub entry_head : read_u32 m' (next_entry m q) ≡ head % 2 ^ 32
  pub entry_len : read_u32 m' (next_entry m q + 4) ≡ len % 2 ^ 32
  pub index : used_idx m' q ≡ (used_idx m q + 1) % 2 ^ 16
  pub others : (a : ℕ) → IsUntouched m q a → m' a ≡ m a

read_u32_below : (m : Bytes) (p q v : ℕ) → q + 2 ≤ p → read_u32 (write_u16 m q v) p ≡ read_u32 m p
read_u32_below m p q v h = ground (arith, h)

read_u32-write_u32 : (m : Bytes) (p v : ℕ) → read_u32 (write_u32 m p v) p ≡ v % 2 ^ 32
read_u32-write_u32 m p v = ground arith

read_u32_above : (m : Bytes) (p q v : ℕ) → p + 4 ≤ q → read_u32 (write_u32 m q v) p ≡ read_u32 m p
read_u32_above m p q v h = ground (arith, h)

pub publish-IsGivenBack :
    (m : Bytes) (q : Virtqueue) (head len : ℕ) → IsGivenBack m q head len (publish m q head len)
unfolding publish
publish-IsGivenBack m q head len =
    let slot = next_entry m q in
    let named = write_u32 m slot head in
    let filled = write_u32 named (slot + 4) len in
    record {
      entry_head =
          read_u32_below filled slot (q.used_addr + 2) _ (omega arith)
          ∙ read_u32_above named slot (slot + 4) len (omega arith)
          ∙ read_u32-write_u32 m slot head;
      entry_len =
          read_u32_below filled (slot + 4) (q.used_addr + 2) _ (omega arith)
          ∙ read_u32-write_u32 named (slot + 4) len;
      index = ground arith;
      others = λ a out. ground (arith, out);
    }

-- Giving a chain back changes no byte off the used ring.
pub publish_off_ring :
    (m : Bytes) (q : Virtqueue) (head len a : ℕ)
    → 0 < q.num
    → IsOffRing q a
    → publish m q head len a ≡ m a
publish_off_ring m q head len a some_entries off =
    let inside : used_idx m q % q.num < q.num = mod-lt (used_idx m q) some_entries in
    (publish-IsGivenBack m q head len).others a (ground (arith, inside, off), ground (arith, off))
