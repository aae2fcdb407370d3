-- ===== src/Ffa/Proxy/Messages.antt =====
-- src/ffa/proxy.rs: direct and indirect messages.
use hypervisor.Prelude.{
  ℕ, ◌+◌, ◌-◌, ◌*◌, ◌%◌, ◌^◌, true, false, ◌&&◌, not, Option, none, some, min, bit_or, ltb, leb,
  ◌==◌, if◌then◌else◌,
}
use hypervisor.Ffa.Ids.{
  denied, invalid_parameters, busy, no_data, ffa_spmc_id, partition_id_to_vm_id,
}
use hypervisor.Ffa.StubSpmc.{is_valid_sp}
use hypervisor.Ffa.Mailbox.{FfaMailbox}
use hypervisor.Ffa.Descriptors.{Bytes, read_u16, read_u32}
use hypervisor.Ffa.Proxy.State.{Regs, Proxy, Reply, fail, succeed, get_mailbox, put_mailbox, caller}
use hypervisor.Ffa.Proxy.Discovery.{forward_ffa_to_spmc}
use hypervisor.Ffa.Proxy.Notify.{sender_of, receiver_of}

abbrev pub direct_req_64 : ℕ
direct_req_64 = 0xC400006F

unfoldable pub direct_response : Regs → ℕ → ℕ → Regs
direct_response r sender receiver = record r {
  x0 = if r.x0 == direct_req_64 then 0xC4000070 else 0x84000070;
  x1 = bit_or (receiver * 2 ^ 16) sender;
}

unfoldable pub handle_msg_send_direct_req : (Regs → Regs) → Regs → Proxy → Reply
unfolding direct_response
handle_msg_send_direct_req smc r s =
    if not (sender_of r == caller s)
    then fail r s invalid_parameters
    else (if s.spmc_present && leb ffa_spmc_id (receiver_of r)
        then forward_ffa_to_spmc smc r s
        else (if not (is_valid_sp (receiver_of r))
            then fail r s invalid_parameters
            else (direct_response r (sender_of r) (receiver_of r), s)))

-- `copy_nonoverlapping`.
unfoldable pub copy_bytes : Bytes → ℕ → ℕ → ℕ → Bytes
copy_bytes m src dst n a = if leb dst a && ltb a (dst + n) then m (src + (a - dst)) else m a

-- The sum is one of `u32`.
abbrev pub message_length : ℕ → ℕ
message_length size = min ((8 + size) % 2 ^ 32) 4096

abbrev pub receive : FfaMailbox → ℕ → FfaMailbox
receive b sender = record b { msg_pending = true; msg_sender_id = sender; rx_held_by_proxy = false }

unfoldable pub deliver : Regs → Proxy → ℕ → ℕ → Reply
unfolding copy_bytes
deliver r s tx vm =
    let b = get_mailbox s vm in
    let sender = read_u16 s.ram tx in
    let size = read_u32 s.ram (tx + 4) in
    if not b.mapped
    then fail r s denied
    else (if not b.rx_held_by_proxy
        then fail r s busy
        else (if b.msg_pending then fail r s busy else (
          succeed r,
          record (put_mailbox s vm (receive b sender)) {
            ram = copy_bytes s.ram tx b.rx_ipa (message_length size);
          },
        )))

abbrev pub deliver_to : Regs → Proxy → ℕ → Option ℕ → Reply
deliver_to r s tx none = fail r s invalid_parameters
deliver_to r s tx (some vm) = deliver r s tx vm

unfoldable pub handle_msg_send2 : Regs → Proxy → Reply
unfolding deliver
handle_msg_send2 r s =
    let b = get_mailbox s s.vm in
    let tx = b.tx_ipa in
    if not b.mapped
    then fail r s denied
    else (if not (read_u16 s.ram tx == caller s)
        then fail r s invalid_parameters
        else deliver_to r s tx (partition_id_to_vm_id (read_u16 s.ram (tx + 2))))

unfoldable pub handle_msg_wait : Regs → Proxy → Reply
handle_msg_wait r s =
    let b = get_mailbox s s.vm in
    if not b.mapped
    then fail r s denied
    else (if b.msg_pending
        then (record (succeed r) { x1 = b.msg_sender_id }, s)
        else fail r s no_data)
