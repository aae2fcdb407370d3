-- ===== src/Ffa/Notifications.antt =====
-- src/ffa/notifications.rs: pending notifications of eight endpoints, and who may raise which.
pub mod Binds
pub mod Delivery
mod Tests
use hypervisor.Prelude.{
  ℕ, zero, suc, ◌+◌, ◌-◌, ◌^◌, ◌≡◌, Bool, true, false, ◌&&◌, not, Option, none, some, List, [], ◌∷◌,
  ◌++◌, get_or, set, replicate, update_first, any, bit_and, bit_or, ◌==◌, leb, if◌then◌else◌,
  Result, ok, err, length,
}
use hypervisor.Bits.Test.{complement}
use hypervisor.Ffa.Ids.{
  FfaError, denied, invalid_parameters, no_memory, ffa_max_vms, partition_id_to_vm_id,
  vm_id_to_partition_id,
}

pub record NotifBind : Type 0 where
  pub sender_id : ℕ
  pub bitmap : ℕ
  pub active : Bool

abbrev pub new_bind : NotifBind
new_bind = record { sender_id = 0; bitmap = 0; active = false }

abbrev pub max_binds : ℕ
max_binds = 8

-- `EndpointNotifState`.
pub record Endpoint : Type 0 where
  pub enabled : Bool
  pub pending : ℕ
  pub binds : List NotifBind

abbrev pub new_endpoint : Endpoint
new_endpoint = record { enabled = false; pending = 0; binds = replicate max_binds new_bind }

abbrev pub max_endpoints : ℕ
max_endpoints = 8

-- `NOTIF_STATE`.
abbrev pub Endpoints : Type 0
Endpoints = List Endpoint

abbrev pub init : Endpoints
init = replicate max_endpoints new_endpoint

abbrev pub or_sp : ℕ → Option ℕ → Option ℕ
or_sp part (some vm) = some vm
or_sp part none =
    if part == 0x8001
    then some ffa_max_vms
    else (if part == 0x8002 then some (ffa_max_vms + 1) else none)

unfoldable pub endpoint_index : ℕ → Option ℕ
endpoint_index part = or_sp part (partition_id_to_vm_id part)

abbrev pub Reply : Type 0
Reply = Endpoint × Result FfaError ℕ

-- `get_state(part)?`, and then the rest of the call on that endpoint.
abbrev pub on_index : Endpoints → Option ℕ → (Endpoint → Reply) → Endpoints × Result FfaError ℕ
on_index es none f = (es, err invalid_parameters)
on_index es (some i) f = let (e, r) = f (get_or es i new_endpoint) in (set es i e, r)

abbrev pub on_endpoint : Endpoints → ℕ → (Endpoint → Reply) → Endpoints × Result FfaError ℕ
on_endpoint es part f = on_index es (endpoint_index part) f

unfoldable pub create_bitmap : Endpoint → Reply
create_bitmap e = if e.enabled then (e, err denied) else (record e { enabled = true }, ok 0)

-- The source resets every element of the array.
unfoldable pub destroy_bitmap : Endpoint → Reply
destroy_bitmap e = if not e.enabled then (e, err denied) else (
  record e { enabled = false; pending = 0; binds = replicate (length e.binds) new_bind },
  ok 0,
)

abbrev pub overlaps : ℕ → NotifBind → Bool
overlaps bitmap b = b.active && not (bit_and b.bitmap bitmap == 0)

abbrev pub put_binds : Endpoint → FfaError → List NotifBind × Bool → Reply
put_binds e code (bs, b) = (record e { binds = bs }, if b then ok 0 else err code)

unfoldable pub bind_sender : ℕ → ℕ → Endpoint → Reply
bind_sender sender bitmap e =
    if not e.enabled
    then (e, err denied)
    else (if any (overlaps bitmap) e.binds
        then (e, err denied)
        else put_binds e no_memory (
            update_first (λ b. not b.active)
              (λ b. record { sender_id = sender; bitmap = bitmap; active = true }) e.binds))

abbrev pub binds_some : ℕ → ℕ → NotifBind → Bool
binds_some sender bitmap b = b.active && b.sender_id == sender && not (bit_and b.bitmap bitmap == 0)

abbrev pub unbound : ℕ → NotifBind → NotifBind
unbound bitmap b =
    let left = bit_and b.bitmap (complement 64 bitmap) in
    record b { bitmap = left; active = if left == 0 then false else b.active }

unfoldable pub unbind_sender : ℕ → ℕ → Endpoint → Reply
unbind_sender sender bitmap e =
    put_binds e denied (update_first (binds_some sender bitmap) (unbound bitmap) e.binds)

-- The bits that a sender may raise; the loop ors the bitmaps of its binds, in order.
unfoldable pub allowed_from : ℕ → ℕ → List NotifBind → ℕ
allowed_from sender acc [] = acc
allowed_from sender acc (b ∷ bs) =
    allowed_from sender (if b.active && b.sender_id == sender then bit_or acc b.bitmap else acc) bs

unfoldable pub set_pending : ℕ → ℕ → Endpoint → Reply
unfolding allowed_from
set_pending sender bitmap e =
    if not e.enabled
    then (e, err denied)
    else (if not (bit_and bitmap (complement 64 (allowed_from sender 0 e.binds)) == 0)
        then (e, err denied)
        else (record e { pending = bit_or e.pending bitmap }, ok 0))

unfoldable pub get_pending : Endpoint → Reply
get_pending e = if not e.enabled then (e, err denied) else (record e { pending = 0 }, ok e.pending)

abbrev pub bitmap_create : Endpoints → ℕ → Endpoints × Result FfaError ℕ
bitmap_create es part = on_endpoint es part create_bitmap

abbrev pub bitmap_destroy : Endpoints → ℕ → Endpoints × Result FfaError ℕ
bitmap_destroy es part = on_endpoint es part destroy_bitmap

unfoldable pub bind : Endpoints → ℕ → ℕ → ℕ → Endpoints × Result FfaError ℕ
bind es sender receiver bitmap =
    if bitmap == 0
    then (es, err invalid_parameters)
    else on_endpoint es receiver (bind_sender sender bitmap)

abbrev pub unbind : Endpoints → ℕ → ℕ → ℕ → Endpoints × Result FfaError ℕ
unbind es sender receiver bitmap = on_endpoint es receiver (unbind_sender sender bitmap)

-- `set`.
abbrev pub set_bits : Endpoints → ℕ → ℕ → ℕ → Endpoints × Result FfaError ℕ
set_bits es sender receiver bitmap = on_endpoint es receiver (set_pending sender bitmap)

-- `get`.
abbrev pub get_bits : Endpoints → ℕ → Endpoints × Result FfaError ℕ
get_bits es receiver = on_endpoint es receiver get_pending

abbrev pub has_pending : Endpoint → Bool
has_pending e = e.enabled && not (e.pending == 0)

-- One of the two scans of `info_get`: `n` endpoints from index `i` on, which have the partition IDs
-- from `part` on. The list holds the IDs found so far, at most four.
unfoldable pub scan_pending : ℕ → ℕ → ℕ → Endpoints → List ℕ → List ℕ
scan_pending zero i part es ids = ids
scan_pending (suc n) i part es ids = scan_pending n (i + 1) (part + 1) es (
    if leb 4 (length ids)
    then ids
    else (if has_pending (get_or es i new_endpoint) then ids ++ part ∷ [] else ids))

-- The IDs of the partitions with pending notifications; the count is the length.
unfoldable pub info_get : Endpoints → List ℕ
unfolding scan_pending
info_get es =
    scan_pending 2 ffa_max_vms 0x8001 es
      (scan_pending ffa_max_vms 0 (vm_id_to_partition_id 0) es [])
