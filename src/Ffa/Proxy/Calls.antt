-- ===== src/Ffa/Proxy/Calls.antt =====
-- src/ffa/proxy.rs: handles, features and indirect messages.
use hypervisor.Prelude.{
  ℕ, ◌+◌, ◌-◌, ◌*◌, ◌/◌, ◌%◌, ◌^◌, ◌<◌, ◌≤◌, ◌≡◌, refl, sym, subst, ◌∙◌, ap, arith, Bool, true,
  false, not, ◌&&◌, Option, none, some, any, bit_or, ◌==◌, if◌then◌else◌, get_or-set_self, length,
  ◌⊎◌, inl, inr, ltb, leb,
}
use hypervisor.Bits.Fields.{bit_and-ones, bit_or_fields, bit_or-zero, zero-bit_or}
use hypervisor.Ffa.Ids.{
  FfaError, denied, busy, invalid_parameters, partition_id_to_vm_id, ffa_max_vms,
  partition_id-vm_id,
}
use hypervisor.Ffa.Descriptors.{Bytes, read_u16, read_u32}
use hypervisor.Ffa.Mailbox.{FfaMailbox, new}
use hypervisor.Ffa.Proxy.State.{
  Regs, Proxy, Reply, request_handle, reply_handle, get_mailbox, put_mailbox, caller, ffa_error,
}
use hypervisor.Ffa.Proxy.Messages.{
  message_length, deliver, deliver_to, handle_msg_send2, receive, copy_bytes,
}
use hypervisor.Ffa.Proxy.Ownership.{Refused}
use hypervisor.Ffa.Proxy.Discovery.{supported_ids}
use hypervisor.Ffa.Proxy.Dispatch.{Function, function_of, mem_donate, unknown}

join_words : (a b : ℕ) → a < 2 ^ 32 → bit_or a (b * 2 ^ 32) ≡ b * 2 ^ 32 + a
join_words a b l =
    ap (λ (t : ℕ). bit_or t (b * 2 ^ 32)) low
    ∙ ap (λ (t : ℕ). bit_or (0 * 2 ^ 32 + a) t) whole
    ∙ bit_or_fields 32 0 a b 0 l (omega arith)
    ∙ rw (bit_or-zero, zero-bit_or) refl
  where
    low : a ≡ 0 * 2 ^ 32 + a
    low = omega arith

    whole : b * 2 ^ 32 ≡ b * 2 ^ 32 + 0
    whole = omega arith

-- A handle of 64 bits that a reply carries in x2 and x3, passed back in x1 and x2, is the same
-- handle.
pub request_handle-reply_handle :
    (h : ℕ) (r r' : Regs)
    → h < 2 ^ 64
    → r'.x1 ≡ (reply_handle r h).x2
    → r'.x2 ≡ (reply_handle r h).x3
    → request_handle r' ≡ h
unfolding request_handle reply_handle
request_handle-reply_handle h r r' l a b =
    let low = h % 2 ^ 32 in
    let high = h / 2 ^ 32 in
    rw (a, b, bit_and-ones 32 h, bit_and-ones 32 low, bit_and-ones 32 high)
      (join_words (low % 2 ^ 32) (high % 2 ^ 32) (omega arith) ∙ omega (arith, l))

-- The calls that the proxy does not refuse.
unfoldable pub is_implemented : Function → Bool
is_implemented mem_donate = false
is_implemented unknown = false
is_implemented _ = true

-- FFA_FEATURES reports a function ID as supported exactly if the proxy has a handler for it.
pub function_of-supported_ids :
    (id : ℕ) → any (λ k. id == k) supported_ids ≡ is_implemented (function_of id)
unfolding function_of is_implemented
function_of-supported_ids id = ground arith

-- The state after a message of the calling VM has been delivered to the VM `vm`.
pub record Delivered (s : Proxy) (vm : ℕ) (s' : Proxy) : Type 0 where
  pub sender_id : read_u16 s.ram (get_mailbox s s.vm).tx_ipa ≡ caller s
  pub was_free :
      ((get_mailbox s vm).mapped ≡ true)
      × ((get_mailbox s vm).rx_held_by_proxy ≡ true)
      × ((get_mailbox s vm).msg_pending ≡ false)
  pub copied :
      (i : ℕ)
      → 8 + read_u32 s.ram ((get_mailbox s s.vm).tx_ipa + 4) < 2 ^ 32
      → i < 8 + read_u32 s.ram ((get_mailbox s s.vm).tx_ipa + 4)
      → i < 4096
      → s'.ram ((get_mailbox s vm).rx_ipa + i) ≡ s.ram ((get_mailbox s s.vm).tx_ipa + i)
  pub untouched :
      (a : ℕ)
      → (a < (get_mailbox s vm).rx_ipa) ⊎ ((get_mailbox s vm).rx_ipa + 4096 ≤ a)
      → s'.ram a ≡ s.ram a
  pub pending : (get_mailbox s' vm).msg_pending ≡ true
  pub from_caller : (get_mailbox s' vm).msg_sender_id ≡ caller s
  pub held_by_vm : (get_mailbox s' vm).rx_held_by_proxy ≡ false

abbrev pub IsDelivery : Regs → Proxy → Reply → Type 0
IsDelivery r s out =
    Refused r s out
    ⊎ ((vm : ℕ) × ((partition_id_to_vm_id (read_u16 s.ram ((get_mailbox s s.vm).tx_ipa + 2))
            ≡ some vm)
          × Delivered s vm out.1))

-- A test with an error on one side.
if-IsDelivery :
    (r : Regs) (s : Proxy) (c : Bool) (e : FfaError) (out : Reply)
    → (c ≡ false → IsDelivery r s out)
    → IsDelivery r s (if c then (ffa_error r e, s) else out)
if-IsDelivery r s true e out f = inl (e, refl)
if-IsDelivery r s false e out f = f refl

received :
    (s : Proxy) (vm : ℕ) (b : FfaMailbox)
    → vm < length s.boxes
    → get_mailbox (put_mailbox s vm b) vm ≡ b
received s vm b l = get_or-set_self s.boxes vm b new l

copied_byte : (m : Bytes) (src dst n i : ℕ) → i < n → copy_bytes m src dst n (dst + i) ≡ m (src + i)
unfolding copy_bytes
copied_byte m src dst n i l = rw (inside, same_byte) refl
  where
    inside : (leb dst (dst + i) && ltb (dst + i) (dst + n)) ≡ true
    inside = ground arith

    same_byte : src + (dst + i - dst) ≡ src + i
    same_byte = omega arith

-- The copy covers a message that fits in its 32 bits, up to one page.
within : (size i : ℕ) → 8 + size < 2 ^ 32 → i < 8 + size → i < 4096 → i < message_length size
within size i fits below page = omega arith

kept_byte :
    (m : Bytes) (src dst n a : ℕ)
    → n ≤ 4096
    → (a < dst) ⊎ (dst + 4096 ≤ a)
    → copy_bytes m src dst n a ≡ m a
unfolding copy_bytes
kept_byte m src dst n a short out = ground (arith, short, out)

deliver-IsDelivery :
    (r : Regs) (s : Proxy) (vm : ℕ)
    → vm < length s.boxes
    → read_u16 s.ram (get_mailbox s s.vm).tx_ipa ≡ caller s
    → partition_id_to_vm_id (read_u16 s.ram ((get_mailbox s s.vm).tx_ipa + 2)) ≡ some vm
    → IsDelivery r s (deliver r s (get_mailbox s s.vm).tx_ipa vm)
unfolding deliver
deliver-IsDelivery r s vm l e to =
    let b = get_mailbox s vm in
    let tx = (get_mailbox s s.vm).tx_ipa in
    if-IsDelivery r s (not b.mapped) denied _ λ m.
      if-IsDelivery r s (not b.rx_held_by_proxy) busy _ λ x.
        if-IsDelivery r s b.msg_pending busy _ λ y. inr (
          vm,
          (
            to,
            record {
              sender_id = e;
              was_free = (ground (arith, m), ground (arith, x), y);
              copied = λ i fits below page.
                  copied_byte s.ram tx b.rx_ipa (message_length (read_u32 s.ram (tx + 4))) i
                    (within (read_u32 s.ram (tx + 4)) i fits below page);
              untouched = λ a out.
                  kept_byte s.ram tx b.rx_ipa (message_length (read_u32 s.ram (tx + 4))) a
                    (omega arith) out;
              pending =
                  ap (λ (c : FfaMailbox). c.msg_pending)
                    (received s vm (receive b (read_u16 s.ram tx)) l);
              from_caller =
                  ap (λ (c : FfaMailbox). c.msg_sender_id)
                    (received s vm (receive b (read_u16 s.ram tx)) l)
                  ∙ e;
              held_by_vm =
                  ap (λ (c : FfaMailbox). c.rx_held_by_proxy)
                    (received s vm (receive b (read_u16 s.ram tx)) l);
            },
          ),
        )

vm_id-lt : (part vm : ℕ) → partition_id_to_vm_id part ≡ some vm → vm < ffa_max_vms
vm_id-lt part vm e = ((partition_id-vm_id vm part).1 e).0

deliver_to-IsDelivery :
    (r : Regs) (s : Proxy) (o : Option ℕ)
    → length s.boxes ≡ ffa_max_vms
    → read_u16 s.ram (get_mailbox s s.vm).tx_ipa ≡ caller s
    → partition_id_to_vm_id (read_u16 s.ram ((get_mailbox s s.vm).tx_ipa + 2)) ≡ o
    → IsDelivery r s (deliver_to r s (get_mailbox s s.vm).tx_ipa o)
deliver_to-IsDelivery r s none l e to = inl (invalid_parameters, refl)
deliver_to-IsDelivery r s (some vm) l e to =
    deliver-IsDelivery r s vm
      (subst (λ n. vm < n) (sym l)
        (vm_id-lt (read_u16 s.ram ((get_mailbox s s.vm).tx_ipa + 2)) vm to))
      e to

-- FFA_MSG_SEND2 either refuses, and then nothing has changed, or the message came from the VM that
-- it names as its sender, the receiver's RX buffer was free, and afterwards the receiver has a pending
-- message from that sender and owns the buffer. The buffer then holds the header of eight bytes and the
-- payload, up to one page, unless their length does not fit in 32 bits; no byte outside that page of
-- the buffer changes. There are as many mailboxes as partition IDs of VMs.
pub handle_msg_send2-IsDelivery :
    (r : Regs) (s : Proxy) → length s.boxes ≡ ffa_max_vms → IsDelivery r s (handle_msg_send2 r s)
unfolding handle_msg_send2
handle_msg_send2-IsDelivery r s l =
    let b = get_mailbox s s.vm in
    if-IsDelivery r s (not b.mapped) denied _ λ m.
      if-IsDelivery r s (not (read_u16 s.ram b.tx_ipa == caller s)) invalid_parameters _ λ x.
        deliver_to-IsDelivery r s (partition_id_to_vm_id (read_u16 s.ram (b.tx_ipa + 2))) l
          (ground (arith, x)) refl
