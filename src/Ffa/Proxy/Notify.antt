-- ===== src/Ffa/Proxy/Notify.antt =====
-- src/ffa/proxy.rs: the calls on notifications.
use hypervisor.Prelude.{
  ℕ, ◌+◌, ◌*◌, ◌/◌, ◌%◌, ◌^◌, List, [], ◌∷◌, length, take, bit_and, bit_or, ◌==◌, if◌then◌else◌,
  Result, ok, err,
}
use hypervisor.Ffa.Ids.{FfaError, no_data}
use hypervisor.Ffa.Notifications.{
  Endpoints, bitmap_create, bitmap_destroy, bind, unbind, set_bits, get_bits, info_get,
}
use hypervisor.Ffa.Proxy.State.{Regs, Proxy, Reply, fail, succeed}

abbrev pub sender_of : Regs → ℕ
sender_of r = bit_and (r.x1 / 2 ^ 16) 0xFFFF

abbrev pub receiver_of : Regs → ℕ
receiver_of r = bit_and r.x1 0xFFFF

-- The bitmap in x3 and x4.
unfoldable pub request_bitmap : Regs → ℕ
request_bitmap r = bit_or r.x3 (r.x4 * 2 ^ 32 % 2 ^ 64)

-- `Ok(()) => x0 = SUCCESS, Err(code) => ffa_error(code)`.
abbrev pub reply_unit : Regs → Proxy → Endpoints × Result FfaError ℕ → Reply
reply_unit r s (es, err e) = fail r (record s { notifications = es }) e
reply_unit r s (es, ok v) = (succeed r, record s { notifications = es })

unfoldable pub handle_notification_bitmap_create : Regs → Proxy → Reply
handle_notification_bitmap_create r s =
    reply_unit r s (bitmap_create s.notifications (r.x1 % 2 ^ 16))

unfoldable pub handle_notification_bitmap_destroy : Regs → Proxy → Reply
handle_notification_bitmap_destroy r s =
    reply_unit r s (bitmap_destroy s.notifications (r.x1 % 2 ^ 16))

unfoldable pub handle_notification_bind : Regs → Proxy → Reply
handle_notification_bind r s =
    reply_unit r s (bind s.notifications (sender_of r) (receiver_of r) (request_bitmap r))

unfoldable pub handle_notification_unbind : Regs → Proxy → Reply
handle_notification_unbind r s =
    reply_unit r s (unbind s.notifications (sender_of r) (receiver_of r) (request_bitmap r))

unfoldable pub handle_notification_set : Regs → Proxy → Reply
handle_notification_set r s =
    reply_unit r s (set_bits s.notifications (sender_of r) (receiver_of r) (request_bitmap r))

abbrev pub reply_pending : Regs → Proxy → Endpoints × Result FfaError ℕ → Reply
reply_pending r s (es, err e) = fail r (record s { notifications = es }) e
reply_pending r s (es, ok v) =
    (record (succeed r) { x2 = v; x3 = 0; x4 = 0; x5 = 0 }, record s { notifications = es })

unfoldable pub handle_notification_get : Regs → Proxy → Reply
handle_notification_get r s = reply_pending r s (get_bits s.notifications (r.x1 % 2 ^ 16))

-- The loop that packs IDs of 16 bits, from place `i` on.
unfoldable pub pack_ids : ℕ → ℕ → List ℕ → ℕ
pack_ids i acc [] = acc
pack_ids i acc (id ∷ ids) = pack_ids (i + 1) (bit_or acc (id * 2 ^ (i * 16) % 2 ^ 64)) ids

unfoldable pub handle_notification_info_get : Regs → Proxy → Reply
unfolding pack_ids
handle_notification_info_get r s =
    let ids = info_get s.notifications in
    let packed = pack_ids 0 0 (take 4 ids) in
    if length ids == 0
    then fail r s no_data
    else (record (succeed r) { x2 = length ids; x3 = packed }, s)
