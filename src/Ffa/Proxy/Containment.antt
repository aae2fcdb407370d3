-- ===== src/Ffa/Proxy/Containment.antt =====
-- src/ffa/proxy.rs: the memory that the handlers of buffers and messages write.
use hypervisor.Prelude.{
  ℕ, ◌+◌, ◌*◌, ◌%◌, ◌^◌, ◌≤◌, ◌≡◌, refl, ◌∙◌, arith, Bool, true, false, not, Option, none, some,
  All, All-set, All-get_or, leb, ltb, ◌&&◌, ◌==◌, ◌||◌, if◌then◌else◌,
}
use hypervisor.Ffa.Mailbox.{FfaMailbox, new}
use hypervisor.Ffa.Descriptors.{Bytes, read_u16, read_u32}
use hypervisor.Ffa.Proxy.State.{Regs, Proxy, Reply, get_mailbox, put_mailbox, is_guest_ram, caller}
use hypervisor.Ffa.Proxy.Discovery.{
  handle_rxtx_map, handle_rxtx_unmap, handle_rx_release, handle_partition_info_get, write_partition,
  bad_buffers, map_buffers,
}
use hypervisor.Ffa.Proxy.Messages.{
  handle_msg_send2, deliver, deliver_to, copy_bytes, message_length, receive,
}

-- A page that lies in guest RAM.
abbrev pub InRam : ℕ → Type 0
InRam p = is_guest_ram p 4096 ≡ true

abbrev pub HasBuffers : FfaMailbox → Type 0
HasBuffers b = b.mapped ≡ true → InRam b.tx_ipa × InRam b.rx_ipa

-- The registered buffers lie in guest RAM.
abbrev pub IsSafe : Proxy → Type 0
IsSafe s = All HasBuffers s.boxes

-- The bytes outside guest RAM are the same.
abbrev pub SameOutside : Bytes → Bytes → Type 0
SameOutside m m' = (a : ℕ) → is_guest_ram a 1 ≡ false → m' a ≡ m a

-- What a call that starts in `s` may leave behind.
pub record Contained (s : Proxy) (out : Reply) : Type 0 where
  pub safe : IsSafe out.1
  pub outside : SameOutside s.ram out.1.ram

new-HasBuffers : HasBuffers new
new-HasBuffers h = absurd (cc)

mailbox-HasBuffers : (s : Proxy) (vm : ℕ) → IsSafe s → HasBuffers (get_mailbox s vm)
mailbox-HasBuffers s vm h = All-get_or HasBuffers s.boxes vm new new-HasBuffers h

pub unchanged : (s : Proxy) (r : Regs) → IsSafe s → Contained s (r, s)
unchanged s r h = record { safe = h; outside = λ a o. refl }

put-Contained :
    (s : Proxy) (r : Regs) (vm : ℕ) (b : FfaMailbox)
    → IsSafe s
    → HasBuffers b
    → Contained s (r, put_mailbox s vm b)
put-Contained s r vm b h p = record {
  safe = All-set HasBuffers s.boxes vm b p h;
  outside = λ a o. refl;
}

buffers-InRam :
    (tx rx n : ℕ)
    → bad_buffers tx rx n ≡ false
    → (not (is_guest_ram tx (n * 4096)) || not (is_guest_ram rx (n * 4096))) ≡ false
    → InRam tx × InRam rx
unfolding is_guest_ram
buffers-InRam tx rx n e g = ground (arith, e, g)

-- A test keeps what both of its branches keep.
pub if-Contained :
    (s : Proxy) (c : Bool) (a b : Reply)
    → (c ≡ true → Contained s a)
    → (c ≡ false → Contained s b)
    → Contained s (if c then a else b)
if-Contained s true a b f g = f refl
if-Contained s false a b f g = g refl

pub rxtx_map-Contained : (r : Regs) (s : Proxy) → IsSafe s → Contained s (handle_rxtx_map r s)
unfolding handle_rxtx_map
rxtx_map-Contained r s h =
    let n = r.x3 % 2 ^ 32 in
    if-Contained s (bad_buffers r.x1 r.x2 n) _ _ (λ e. unchanged s _ h)
      λ e.
        if-Contained s (not (is_guest_ram r.x1 (n * 4096)) || not (is_guest_ram r.x2 (n * 4096))) _
          _ (λ g. unchanged s _ h)
          λ g.
            if-Contained s (get_mailbox s s.vm).mapped _ _ (λ m. unchanged s _ h)
              λ m.
                put-Contained s _ s.vm (map_buffers r.x1 r.x2 n (get_mailbox s s.vm)) h
                  (λ _. buffers-InRam r.x1 r.x2 n e g)

pub rxtx_unmap-Contained : (r : Regs) (s : Proxy) → IsSafe s → Contained s (handle_rxtx_unmap r s)
unfolding handle_rxtx_unmap
rxtx_unmap-Contained r s h =
    if-Contained s (not (get_mailbox s s.vm).mapped) _ _ (λ m. unchanged s _ h)
      λ m. put-Contained s _ s.vm new h new-HasBuffers

pub rx_release-Contained : (r : Regs) (s : Proxy) → IsSafe s → Contained s (handle_rx_release r s)
unfolding handle_rx_release
rx_release-Contained r s h =
    if-Contained s (not (get_mailbox s s.vm).mapped) _ _ (λ m. unchanged s _ h)
      λ m.
        put-Contained s _ s.vm
          (record (get_mailbox s s.vm) { rx_held_by_proxy = true; msg_pending = false }) h
          (mailbox-HasBuffers s s.vm h)

-- An address outside guest RAM lies in no page of it.
outside_page : (p a : ℕ) → InRam p → is_guest_ram a 1 ≡ false → leb p a && ltb a (p + 4096) ≡ false
unfolding is_guest_ram
outside_page p a h o = ground (arith, h, o)

write_partition-outside :
    (m : Bytes) (p q a id : ℕ)
    → p ≤ q
    → q + 8 ≤ p + 4096
    → leb p a && ltb a (p + 4096) ≡ false
    → write_partition m q id a ≡ m a
unfolding write_partition
write_partition-outside m p q a id l u o = ground (arith, o)

pub partition_info_get-Contained :
    (r : Regs) (s : Proxy) → IsSafe s → Contained s (handle_partition_info_get r s)
unfolding handle_partition_info_get
partition_info_get-Contained r s h =
    let b = get_mailbox s s.vm in
    let p = b.rx_ipa in
    if-Contained s (not b.mapped) _ _ (λ m. unchanged s _ h)
      λ m.
        if-Contained s (not b.rx_held_by_proxy) _ _ (λ m. unchanged s _ h)
          λ x. record {
            safe =
                All-set HasBuffers s.boxes s.vm (record b { rx_held_by_proxy = false })
                  (mailbox-HasBuffers s s.vm h) h;
            outside = λ a o.
                let out = outside_page p a (mailbox-HasBuffers s s.vm h (ground (arith, m))).1 o in
                write_partition-outside (write_partition s.ram p 0x8001) p (p + 8) a 0x8002
                  (omega arith) (omega arith) out
                ∙ write_partition-outside s.ram p p a 0x8001 (omega arith) (omega arith) out;
          }

copy-outside :
    (m : Bytes) (src p n a : ℕ)
    → n ≤ 4096
    → leb p a && ltb a (p + 4096) ≡ false
    → copy_bytes m src p n a ≡ m a
unfolding copy_bytes
copy-outside m src p n a l o = ground (arith, o)

deliver-Contained : (r : Regs) (s : Proxy) (tx vm : ℕ) → IsSafe s → Contained s (deliver r s tx vm)
unfolding deliver
deliver-Contained r s tx vm h =
    let b = get_mailbox s vm in
    let p = b.rx_ipa in
    let n = message_length (read_u32 s.ram (tx + 4)) in
    if-Contained s (not b.mapped) _ _ (λ m. unchanged s _ h)
      λ m.
        if-Contained s (not b.rx_held_by_proxy) _ _ (λ m. unchanged s _ h)
          λ x.
            if-Contained s b.msg_pending _ _ (λ m. unchanged s _ h)
              λ y. record {
                safe =
                    All-set HasBuffers s.boxes vm (receive b (read_u16 s.ram tx))
                      (mailbox-HasBuffers s vm h) h;
                outside = λ a o.
                    copy-outside s.ram tx p n a (omega arith)
                      (outside_page p a (mailbox-HasBuffers s vm h (ground (arith, m))).1 o);
              }

deliver_to-Contained :
    (r : Regs) (s : Proxy) (tx : ℕ) (o : Option ℕ) → IsSafe s → Contained s (deliver_to r s tx o)
deliver_to-Contained r s tx none h = unchanged s _ h
deliver_to-Contained r s tx (some vm) h = deliver-Contained r s tx vm h

pub send2-Contained : (r : Regs) (s : Proxy) → IsSafe s → Contained s (handle_msg_send2 r s)
unfolding handle_msg_send2
send2-Contained r s h =
    if-Contained s (not (get_mailbox s s.vm).mapped) _ _ (λ m. unchanged s _ h)
      λ m.
        if-Contained s (not (read_u16 s.ram (get_mailbox s s.vm).tx_ipa == caller s)) _ _
          (λ m. unchanged s _ h) λ x. deliver_to-Contained r s _ _ h
