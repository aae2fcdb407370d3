-- ===== src/Devices/Virtio/Disk.antt =====
-- src/devices/virtio/blk.rs: which memory a request to the block device touches.
use hypervisor.Prelude.{
  ℕ, ◌+◌, ◌-◌, ◌%◌, ◌^◌, ◌<◌, ◌≤◌, ◌≡◌, ◌≢◌, refl, ◌∙◌, ap, Result, ok, arith, ◌⊎◌, inl, inr, Bool,
  true, false, ◌&&◌, List, [], ◌∷◌, leb, ltb, ◌==◌, if◌then◌else◌, Bool-cases,
}
use hypervisor.Ffa.Descriptors.{Bytes}
use hypervisor.Ffa.Proxy.Messages.{copy_bytes}
use hypervisor.Devices.Virtio.Queue.{VirtqDesc, Virtqueue, Stop}
use hypervisor.Devices.Virtio.Used.{IsOffRing}
use hypervisor.Devices.Virtio.Blk.{
  VirtioBlk, Progress, read_disk, write_disk, serve, s_ok, s_unsupp, req_type, byte_offset,
}

-- The bytes of all buffers together.
abbrev pub total : List VirtqDesc → ℕ
total [] = 0
total (b ∷ bs) = b.len + total bs

abbrev pub IsOutside : VirtioBlk → ℕ → Type 0
IsOutside d a = (a < d.disk_base) ⊎ (d.disk_base + d.disk_size ≤ a)

-- The buffer does not overlap the disk.
abbrev pub IsApart : VirtioBlk → VirtqDesc → Type 0
IsApart d b = (b.addr + b.len ≤ d.disk_base) ⊎ (d.disk_base + d.disk_size ≤ b.addr)

abbrev pub AllApart : VirtioBlk → List VirtqDesc → Type 0
AllApart d [] = Unit {0}
AllApart d (b ∷ bs) = IsApart d b × AllApart d bs

if-ram :
    (P : Bytes → Type 0) (c : Bool) (x y : Progress)
    → P x.ram
    → (c ≡ false → P y.ram)
    → P (if c then x else y).ram
if-ram P true x y p q = p
if-ram P false x y p q = q refl

pub write_disk-outside :
    (d : VirtioBlk) (bs : List VirtqDesc) (off : ℕ) (p : Progress) (a : ℕ)
    → d.disk_base + d.disk_size ≤ 2 ^ 64
    → off + total bs < 2 ^ 64
    → IsOutside d a
    → (write_disk d bs off p).ram a ≡ p.ram a
unfolding write_disk copy_bytes
write_disk-outside d [] off p a s h o = refl
write_disk-outside d (b ∷ bs) off p a s h o =
    let next = (off + b.len) % 2 ^ 64 in
    if-ram (λ m. m a ≡ p.ram a) (ltb d.disk_size next) _ _ refl
      (λ e. write_disk-outside d bs next _ a s (omega (arith, h)) o ∙ ground (arith, e, h, s, o))

-- A value that address `a` held in memory `m`, or that a byte of the disk held there.
abbrev pub FromDisk : VirtioBlk → Bytes → ℕ → ℕ → Type 0
FromDisk d m a v = (v ≡ m a) ⊎ ((o : ℕ) × (o < d.disk_size) × (v ≡ m (d.disk_base + o)))

-- The copy of `n` bytes of the disk to a buffer.
abbrev fetched : VirtioBlk → Bytes → ℕ → VirtqDesc → Bytes
unfolding copy_bytes
fetched d m off b = copy_bytes m ((d.disk_base + off) % 2 ^ 64) b.addr b.len

fetched-FromDisk :
    (d : VirtioBlk) (m : Bytes) (off : ℕ) (b : VirtqDesc) (a : ℕ)
    → d.disk_base + d.disk_size ≤ 2 ^ 64
    → off + b.len ≤ d.disk_size
    → FromDisk d m a (fetched d m off b a)
unfolding copy_bytes fetched
fetched-FromDisk d m off b a s h = elim (Bool-cases (leb b.addr a && ltb a (b.addr + b.len))) [
  | inl c ↦ inr (off + (a - b.addr), ground (arith, c, h), rw c (ap m (ground (arith, c, h, s))))
  | inr c ↦ inl (rw c refl)
]

fetched-disk :
    (d : VirtioBlk) (m : Bytes) (off : ℕ) (b : VirtqDesc) (o : ℕ)
    → IsApart d b
    → o < d.disk_size
    → fetched d m off b (d.disk_base + o) ≡ m (d.disk_base + o)
unfolding copy_bytes fetched
fetched-disk d m off b o k h = ground (arith, k, h)

-- What a value of the memory after a copy was before it.
FromDisk-fetched :
    (d : VirtioBlk) (m : Bytes) (off : ℕ) (b : VirtqDesc) (a v : ℕ)
    → d.disk_base + d.disk_size ≤ 2 ^ 64
    → off + b.len ≤ d.disk_size
    → IsApart d b
    → FromDisk d (fetched d m off b) a v
    → FromDisk d m a v
FromDisk-fetched d m off b a v s h k (inl e) = elim (fetched-FromDisk d m off b a s h) [
  | inl f ↦ inl (e ∙ f)
  | inr (o, l, f) ↦ inr (o, l, e ∙ f)
]
FromDisk-fetched d m off b a v s h k (inr (o, l, e)) = inr (o, l, e ∙ fetched-disk d m off b o k l)

pub read_disk-FromDisk :
    (d : VirtioBlk) (bs : List VirtqDesc) (off : ℕ) (p : Progress) (a : ℕ)
    → d.disk_base + d.disk_size ≤ 2 ^ 64
    → off + total bs < 2 ^ 64
    → AllApart d bs
    → FromDisk d p.ram a ((read_disk d bs off p).ram a)
unfolding read_disk fetched
read_disk-FromDisk d [] off p a s h k = inl refl
read_disk-FromDisk d (b ∷ bs) off p a s h k =
    let next = (off + b.len) % 2 ^ 64 in
    if-ram (λ m. FromDisk d p.ram a (m a)) (ltb d.disk_size next) _ _ (inl refl)
      (λ e.
        FromDisk-fetched d p.ram off b a _ s (ground (arith, e, h)) (k.0)
          (read_disk-FromDisk d bs next _ a s (omega (arith, h)) (k.1)))

-- What a request leaves in memory, with the sum of its offset and its buffers below 2^64.
pub record Bounded (d : VirtioBlk) (m : Bytes) (hdr : VirtqDesc) (out : Progress) : Type 0 where
  pub reading : req_type m hdr ≡ 0 → (a : ℕ) → FromDisk d m a (out.ram a)
  pub writing : req_type m hdr ≡ 1 → (a : ℕ) → IsOutside d a → out.ram a ≡ m a
  pub unsupported :
      1 < req_type m hdr
      → req_type m hdr ≢ 8
      → (out.ram ≡ m) × (out.status ≡ s_unsupp) × (out.written ≡ 0)

-- With a disk below 2^64, a request whose offset and buffers together do not reach 2^64, and buffers
-- apart from the disk: after a read each byte of memory is what it was or is a byte of the disk; a
-- write changes no byte outside the disk; an unknown request changes nothing and is reported so.
pub serve-Bounded :
    (d : VirtioBlk) (m : Bytes) (hdr : VirtqDesc) (bs : List VirtqDesc)
    → d.disk_base + d.disk_size ≤ 2 ^ 64
    → byte_offset m hdr + total bs < 2 ^ 64
    → AllApart d bs
    → Bounded d m hdr (serve d m hdr bs)
unfolding serve
serve-Bounded d m hdr bs s h k =
    let p : Progress = record { ram = m; written = 0; status = s_ok } in
    record {
      reading = λ e a. rw e (read_disk-FromDisk d bs (byte_offset m hdr) p a s h k);
      writing = λ e a o. rw e (write_disk-outside d bs (byte_offset m hdr) p a s h o);
      unsupported = λ l n.
          let no_read : (req_type m hdr == 0) ≡ false = ground (arith, l) in
          let no_write : (req_type m hdr == 1) ≡ false = ground (arith, l) in
          let no_id : (req_type m hdr == 8) ≡ false = ground (arith, n) in
          rw (no_read, no_write, no_id) (refl, refl, refl);
    }

-- What a request leaves in memory, with the status byte at `status` and the used ring of `q`: off
-- these, what `Bounded` says; and an unknown request leaves its status there.
pub record IsBounded (d : VirtioBlk) (m : Bytes) (q : Virtqueue) (hdr : VirtqDesc) (status : ℕ)
    (m' : Bytes) : Type 0 where
  pub reading : req_type m hdr ≡ 0 → (a : ℕ) → a ≢ status → IsOffRing q a → FromDisk d m a (m' a)
  pub writing :
      req_type m hdr ≡ 1 → (a : ℕ) → IsOutside d a → a ≢ status → IsOffRing q a → m' a ≡ m a
  pub unsupported :
      1 < req_type m hdr
      → req_type m hdr ≢ 8
      → ((a : ℕ) → a ≢ status → IsOffRing q a → m' a ≡ m a)
        × (IsOffRing q status → m' status ≡ s_unsupp)

-- A request that ends with such a memory.
pub record IsAnswered (d : VirtioBlk) (m : Bytes) (q : Virtqueue) (hdr : VirtqDesc) (status : ℕ)
    (out : Result Stop Bytes) : Type 0 where
  pub memory : Bytes
  pub returns : out ≡ ok memory
  pub bounded : IsBounded d m q hdr status memory

-- Data written to sectors of the disk is read back from them: with buffers of the same length at an
-- offset where they lie within the disk, the reading buffer holds what the writing one held.
pub read_disk-write_disk :
    (d : VirtioBlk) (b c : VirtqDesc) (off i : ℕ) (p : Progress)
    → d.disk_base + d.disk_size ≤ 2 ^ 64
    → off + b.len ≤ d.disk_size
    → c.len ≡ b.len
    → i < b.len
    → (read_disk d (c ∷ []) off (write_disk d (b ∷ []) off p)).ram (c.addr + i) ≡ p.ram (b.addr + i)
unfolding read_disk write_disk copy_bytes
read_disk-write_disk d b c off i p s h e l = ground (arith, s, h, e, l)
