-- ===== src/Spmc/World.antt =====
-- src/spmc_handler.rs: the state of the event loop, and the requests that work on it alone.
use hypervisor.Prelude.{
  ℕ, suc, ◌+◌, ◌*◌, ◌%◌, ◌^◌, Bool, true, false, ◌||◌, not, List, [], ◌∷◌, get_or, bit_and, leb,
  ◌==◌, if◌then◌else◌,
}
use hypervisor.Ffa.Ids.{invalid_parameters, denied}
use hypervisor.Ffa.Descriptors.{Bytes}
use hypervisor.Ffa.Proxy.Discovery.{write_u16, write_u32}
use hypervisor.Spmc.Replies.{SmcResult8, make_error, success}
use hypervisor.Spmc.Context.{SpContext, Slots, registered}

-- The buffers of the Normal World.
pub record NwdRxtxState : Type 0 where
  pub tx_pa : ℕ
  pub rx_pa : ℕ
  pub page_count : ℕ
  pub mapped : Bool

abbrev pub unmapped : NwdRxtxState
unmapped = record { tx_pa = 0; rx_pa = 0; page_count = 0; mapped = false }

-- The store of partitions, the static `NWD_RXTX`, and the memory.
pub record World : Type 0 where
  pub sps : Slots
  pub nwd : NwdRxtxState
  pub ram : Bytes

abbrev pub Reply : Type 0
Reply = SmcResult8 × World

abbrev pub bad_buffers : ℕ → ℕ → ℕ → Bool
bad_buffers tx rx n = not (bit_and tx 0xFFF == 0) || not (bit_and rx 0xFFF == 0) || n == 0

unfoldable pub handle_rxtx_map : World → SmcResult8 → Reply
handle_rxtx_map w r =
    let n = r.x3 % 2 ^ 32 in
    if bad_buffers r.x1 r.x2 n
    then (make_error invalid_parameters, w)
    else (if w.nwd.mapped then (make_error denied, w) else (
      success,
      record w { nwd = record { tx_pa = r.x1; rx_pa = r.x2; page_count = n; mapped = true } },
    ))

unfoldable pub handle_rxtx_unmap : World → Reply
handle_rxtx_unmap w =
    if not w.nwd.mapped then (make_error denied, w) else (success, record w { nwd = unmapped })

unfoldable pub handle_rx_release : World → Reply
handle_rx_release w = if not w.nwd.mapped then (make_error denied, w) else (success, w)

-- The four words of a UUID.
abbrev pub write_uuid : Bytes → ℕ → List ℕ → Bytes
write_uuid m p u =
    write_u32
      (write_u32 (write_u32 (write_u32 m p (get_or u 0 0)) (p + 4) (get_or u 1 0)) (p + 8)
        (get_or u 2 0))
      (p + 12) (get_or u 3 0)

-- The 24 bytes that describe a partition.
unfoldable pub write_descriptor : Bytes → ℕ → SpContext → Bytes
write_descriptor m p sp =
    write_uuid (write_u32 (write_u16 (write_u16 m p sp.id) (p + 2) 1) (p + 4) 1) (p + 8) sp.uuid

-- The loop over the partitions, `count` of them behind it; `size` is the length of the buffer.
unfoldable pub write_descriptors : (rx size : ℕ) → Bytes → (count : ℕ) → List SpContext → Bytes
unfolding write_descriptor
write_descriptors rx size m count [] = m
write_descriptors rx size m count (sp ∷ sps) =
    write_descriptors rx size
      (if leb (count * 24 + 24) size then write_descriptor m (rx + count * 24) sp else m)
      (count + 1) sps

unfoldable pub count : List SpContext → ℕ
count [] = 0
count (sp ∷ sps) = suc (count sps)

abbrev pub buffer_size : NwdRxtxState → ℕ
buffer_size n = if n.mapped then n.page_count * 4096 else 0

unfoldable pub handle_partition_info_get : World → Reply
unfolding write_descriptors count
handle_partition_info_get w = (
  record success { x2 = count (registered w.sps) },
  record w { ram = write_descriptors w.nwd.rx_pa (buffer_size w.nwd) w.ram 0 (registered w.sps) },
)
