-- ===== src/Ffa/Proxy/Discovery.antt =====
-- src/ffa/proxy.rs: version, IDs, the RX and TX buffers and the list of partitions.
use hypervisor.Prelude.{
  ℕ, ◌+◌, ◌*◌, ◌/◌, ◌%◌, ◌^◌, Bool, true, false, ◌||◌, not, List, [], ◌∷◌, any, bit_and, ltb, ◌==◌,
  if◌then◌else◌,
}
use hypervisor.Ffa.Ids.{denied, invalid_parameters, busy, not_supported, ffa_spmc_id}
use hypervisor.Ffa.Mailbox.{FfaMailbox, new}
use hypervisor.Ffa.Descriptors.{Bytes}
use hypervisor.Ffa.Proxy.State.{
  Regs, Proxy, Reply, fail, succeed, get_mailbox, put_mailbox, caller, is_guest_ram,
}

-- `forward_ffa_to_spmc`, with the SMC to EL3 a parameter.
abbrev pub forward_ffa_to_spmc : (Regs → Regs) → Regs → Proxy → Reply
forward_ffa_to_spmc smc r s = (smc r, s)

unfoldable pub handle_version : Regs → Proxy → Reply
handle_version r s = (record r { x0 = 0x00010001 }, s)

unfoldable pub handle_id_get : Regs → Proxy → Reply
handle_id_get r s = (record (succeed r) { x2 = caller s }, s)

unfoldable pub handle_spm_id_get : Regs → Proxy → Reply
handle_spm_id_get r s = (record (succeed r) { x2 = ffa_spmc_id }, s)

unfoldable pub handle_run : (Regs → Regs) → Regs → Proxy → Reply
handle_run smc r s = if s.spmc_present then forward_ffa_to_spmc smc r s else fail r s not_supported

-- The function IDs that FFA_FEATURES knows.
abbrev pub supported_ids : List ℕ
supported_ids =
    0x84000063 ∷ 0x84000069 ∷ 0x84000064 ∷ 0xC4000066 ∷ 0x84000067 ∷ 0x84000065 ∷ 0x84000068
    ∷ 0x8400006F ∷ 0xC400006F ∷ 0x84000073 ∷ 0xC4000073 ∷ 0x84000072 ∷ 0xC4000072 ∷ 0x84000077
    ∷ 0x84000074 ∷ 0xC4000074 ∷ 0x84000076 ∷ 0x84000085 ∷ 0x8400006D ∷ 0x8400007D ∷ 0x8400007E
    ∷ 0x8400007F ∷ 0x84000080 ∷ 0x84000081 ∷ 0x84000082 ∷ 0x84000083 ∷ 0xC4000083 ∷ 0x84000086
    ∷ 0x8400006B ∷ []

unfoldable pub handle_features : Regs → Proxy → Reply
handle_features r s =
    if any (λ id. r.x1 == id) supported_ids
    then (record (succeed r) { x2 = 0 }, s)
    else fail r s not_supported

abbrev pub bad_buffers : ℕ → ℕ → ℕ → Bool
bad_buffers tx rx n =
    not (bit_and tx 0xFFF == 0) || not (bit_and rx 0xFFF == 0) || n == 0 || ltb 1 n

abbrev pub map_buffers : ℕ → ℕ → ℕ → FfaMailbox → FfaMailbox
map_buffers tx rx n b = record b {
  tx_ipa = tx;
  rx_ipa = rx;
  page_count = n;
  mapped = true;
  rx_held_by_proxy = true;
}

unfoldable pub handle_rxtx_map : Regs → Proxy → Reply
handle_rxtx_map r s =
    let n = r.x3 % 2 ^ 32 in
    let b = get_mailbox s s.vm in
    if bad_buffers r.x1 r.x2 n
    then fail r s invalid_parameters
    else (if not (is_guest_ram r.x1 (n * 4096)) || not (is_guest_ram r.x2 (n * 4096))
        then fail r s invalid_parameters
        else (if b.mapped
            then fail r s denied
            else (succeed r, put_mailbox s s.vm (map_buffers r.x1 r.x2 n b))))

unfoldable pub handle_rxtx_unmap : Regs → Proxy → Reply
handle_rxtx_unmap r s =
    if not (get_mailbox s s.vm).mapped then fail r s denied else (succeed r, put_mailbox s s.vm new)

unfoldable pub handle_rx_release : Regs → Proxy → Reply
handle_rx_release r s =
    let b = get_mailbox s s.vm in
    if not b.mapped
    then fail r s denied
    else (succeed r, put_mailbox s s.vm (record b { rx_held_by_proxy = true; msg_pending = false }))

-- Little-endian writes.
abbrev pub write_u8 : Bytes → ℕ → ℕ → Bytes
write_u8 m p v q = if p == q then v % 2 ^ 8 else m q

abbrev pub write_u16 : Bytes → ℕ → ℕ → Bytes
write_u16 m p v = write_u8 (write_u8 m p v) (p + 1) (v / 2 ^ 8)

abbrev pub write_u32 : Bytes → ℕ → ℕ → Bytes
write_u32 m p v = write_u16 (write_u16 m p v) (p + 2) (v / 2 ^ 16)

-- The descriptor of a stub partition; each has one execution context and the properties 1.
unfoldable pub write_partition : Bytes → ℕ → ℕ → Bytes
write_partition m p id = write_u32 (write_u16 (write_u16 m p id) (p + 2) 1) (p + 4) 1

unfoldable pub handle_partition_info_get : Regs → Proxy → Reply
unfolding write_partition
handle_partition_info_get r s =
    let b = get_mailbox s s.vm in
    let ram = write_partition (write_partition s.ram b.rx_ipa 0x8001) (b.rx_ipa + 8) 0x8002 in
    if not b.mapped
    then fail r s denied
    else (if not b.rx_held_by_proxy then fail r s busy else (
      record (succeed r) { x2 = 2 },
      record (put_mailbox s s.vm (record b { rx_held_by_proxy = false })) { ram = ram },
    ))
