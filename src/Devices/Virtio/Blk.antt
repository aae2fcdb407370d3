-- ===== src/Devices/Virtio/Blk.antt =====
-- src/devices/virtio/blk.rs: the block device. Sums and products wrap, as in a release build.
use hypervisor.Prelude.{
  ℕ, ◌+◌, ◌-◌, ◌*◌, ◌/◌, ◌%◌, ◌^◌, ◌&&◌, Option, none, some, List, [], ◌∷◌, get_or, Result, ok, err,
  leb, ltb, min, ◌==◌, if◌then◌else◌,
}
use hypervisor.Ffa.Descriptors.{Bytes, read_u32, read_u64}
use hypervisor.Ffa.Proxy.Discovery.{write_u8}
use hypervisor.Ffa.Proxy.Messages.{copy_bytes}
use hypervisor.Devices.Virtio.Queue.{
  VirtqDesc, DescChain, Virtqueue, Stop, get_avail_desc, put_used,
}
use hypervisor.Devices.Virtio.Drain.{drain}

pub record VirtioBlk : Type 0 where
  pub disk_base : ℕ
  pub disk_size : ℕ
  pub capacity : ℕ

unfoldable pub new : (disk_base disk_size : ℕ) → VirtioBlk
new disk_base disk_size = record {
  disk_base = disk_base;
  disk_size = disk_size;
  capacity = disk_size / 512;
}

abbrev pub device_id : ℕ
device_id = 2

abbrev pub device_features : ℕ
device_features = 2 ^ 32 + 2 ^ 6 + 2 ^ 1 + 2 ^ 2

unfoldable pub config_read : VirtioBlk → (offset size : ℕ) → ℕ
config_read d offset size =
    if offset == 0 && size == 4
    then d.capacity % 2 ^ 32
    else (if offset == 4 && size == 4
        then d.capacity / 2 ^ 32 % 2 ^ 32
        else (if offset == 0 && size == 8
            then d.capacity
            else (if offset == 8 && size == 4
                then 0x00200000
                else (if offset == 12 && size == 4
                    then 128
                    else (if offset == 20 && size == 4 then 512 else 0)))))

abbrev pub s_ok : ℕ
s_ok = 0

abbrev pub s_ioerr : ℕ
s_ioerr = 1

abbrev pub s_unsupp : ℕ
s_unsupp = 2

-- A request in progress: the memory, the bytes written to the guest, the status.
pub record Progress : Type 0 where
  pub ram : Bytes
  pub written : ℕ
  pub status : ℕ

-- The loops over the data descriptors from `disk_off` on, for a read of the disk and for a write.
unfoldable pub read_disk : VirtioBlk → List VirtqDesc → (disk_off : ℕ) → Progress → Progress
unfolding copy_bytes
read_disk d [] disk_off p = p
read_disk d (b ∷ bs) disk_off p =
    let rest = read_disk d bs ((disk_off + b.len) % 2 ^ 64) (record p {
      ram = copy_bytes p.ram ((d.disk_base + disk_off) % 2 ^ 64) b.addr b.len;
      written = (p.written + b.len) % 2 ^ 32;
    }) in
    if ltb d.disk_size ((disk_off + b.len) % 2 ^ 64) then record p { status = s_ioerr } else rest

unfoldable pub write_disk : VirtioBlk → List VirtqDesc → (disk_off : ℕ) → Progress → Progress
unfolding copy_bytes
write_disk d [] disk_off p = p
write_disk d (b ∷ bs) disk_off p =
    let rest =
      write_disk d bs ((disk_off + b.len) % 2 ^ 64)
        (record p { ram = copy_bytes p.ram b.addr ((d.disk_base + disk_off) % 2 ^ 64) b.len }) in
    if ltb d.disk_size ((disk_off + b.len) % 2 ^ 64) then record p { status = s_ioerr } else rest

-- "hypervisor-vda", padded with zeros to 20 bytes.
abbrev pub device_name : List ℕ
device_name =
    104 ∷ 121 ∷ 112 ∷ 101 ∷ 114 ∷ 118 ∷ 105 ∷ 115 ∷ 111 ∷ 114 ∷ 45 ∷ 118 ∷ 100 ∷ 97 ∷ 0 ∷ 0 ∷ 0 ∷ 0
    ∷ 0 ∷ 0 ∷ []

abbrev pub write_bytes : Bytes → ℕ → ℕ → List ℕ → Bytes
write_bytes m p n bs a = if leb p a && ltb a (p + n) then get_or bs (a - p) 0 else m a

unfoldable pub get_id : List VirtqDesc → Progress → Progress
get_id [] p = p
get_id (b ∷ bs) p = record p {
  ram = write_bytes p.ram b.addr (min b.len 20) device_name;
  written = min b.len 20;
}

-- All but the last descriptor, and the last one.
abbrev pub but_last : List VirtqDesc → List VirtqDesc
but_last [] = []
but_last (b ∷ []) = []
but_last (b ∷ c ∷ bs) = b ∷ but_last (c ∷ bs)

abbrev pub last : VirtqDesc → List VirtqDesc → VirtqDesc
last b [] = b
last b (c ∷ bs) = last c bs

abbrev pub req_type : Bytes → VirtqDesc → ℕ
req_type m hdr = read_u32 m hdr.addr

-- The offset on the disk of the header's sector.
abbrev pub byte_offset : Bytes → VirtqDesc → ℕ
byte_offset m hdr = read_u64 m (hdr.addr + 8) * 512 % 2 ^ 64

-- The request of the header on the data descriptors.
unfoldable pub serve : VirtioBlk → Bytes → VirtqDesc → List VirtqDesc → Progress
unfolding read_disk write_disk get_id
serve d m hdr bs =
    let p : Progress = record { ram = m; written = 0; status = s_ok } in
    if req_type m hdr == 0
    then read_disk d bs (byte_offset m hdr) p
    else (if req_type m hdr == 1
        then write_disk d bs (byte_offset m hdr) p
        else (if req_type m hdr == 8 then get_id bs p else record p { status = s_unsupp }))

-- The status byte behind the data, and the chain given back; a chain of fewer than two descriptors
-- is dropped.
unfoldable pub process_descs :
    VirtioBlk → Bytes → Virtqueue → ℕ → List VirtqDesc → Result Stop Bytes
unfolding serve
process_descs d m q head [] = ok m
process_descs d m q head (hdr ∷ []) = ok m
process_descs d m q head (hdr ∷ b ∷ bs) =
    let p = serve d m hdr (but_last (b ∷ bs)) in
    put_used (write_u8 p.ram (last b bs).addr p.status) q head ((p.written + 1) % 2 ^ 32)

unfoldable pub process_request : VirtioBlk → Bytes → Virtqueue → DescChain → Result Stop Bytes
unfolding process_descs
process_request d m q c = process_descs d m q c.head c.descs

-- The queue and the memory behind it.
pub record Disk : Type 0 where
  pub queue : Virtqueue
  pub ram : Bytes

abbrev pub with_ram : Virtqueue → Result Stop Bytes → Result Stop (Option Disk)
with_ram q (err e) = err e
with_ram q (ok m) = ok (some (record { queue = q; ram = m }))

unfoldable pub take_request :
    VirtioBlk → Bytes → Result Stop (Option (DescChain × Virtqueue)) → Result Stop (Option Disk)
unfolding process_request
take_request d m (err e) = err e
take_request d m (ok none) = ok none
take_request d m (ok (some (chain, q))) = with_ram q (process_request d m q chain)

unfoldable pub blk_round : VirtioBlk → Disk → Result Stop (Option Disk)
unfolding take_request
blk_round d s = take_request d s.ram (get_avail_desc s.ram s.queue)

-- The loop over the queue, with `n` rounds.
unfoldable pub queue_notify : VirtioBlk → (n : ℕ) → Disk → Result Stop Disk
unfolding blk_round
queue_notify d n s = drain (blk_round d) n s
