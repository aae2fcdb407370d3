-- ===== src/Ffa/Proxy/Safety.antt =====
-- src/ffa/proxy.rs: lemmas on the remaining handlers and on the dispatch.
use hypervisor.Prelude.{
  ℕ, refl, Bool, true, false, not, ◌&&◌, leb, Option, none, some, List, Bool-cases, inl, inr, ◌==◌,
  if◌then◌else◌, Result, ok, err, any, length,
}
use hypervisor.Mm.Allocator.{Heap}
use hypervisor.Ffa.Ids.{FfaError, ffa_spmc_id}
use hypervisor.Ffa.StubSpmc.{Spmc, ShareInfo, is_valid_sp, record_share}
use hypervisor.Ffa.Memory.{to_bits, shared_owned}
use hypervisor.Ffa.Notifications.{Endpoints, info_get}
use hypervisor.Ffa.Proxy.State.{Regs, Proxy, caller, get_mailbox, pages}
use hypervisor.Ffa.Proxy.Discovery.{
  handle_version, handle_id_get, handle_spm_id_get, handle_run, handle_features, supported_ids,
}
use hypervisor.Ffa.Proxy.Sharing.{
  Request, handle_mem_share_or_lend, handle_mem_reclaim, share_request, share_parsed, share_checked,
  share_owned, share_pages, reply_share, set_ownership, reclaim_found, is_valid_receiver, s2ap_none,
  s2ap_ro,
}
use hypervisor.Ffa.Proxy.Borrowing.{
  handle_mem_retrieve_req, handle_mem_relinquish, retrieve_found, retrieve_mapped, relinquish_found,
}
use hypervisor.Ffa.Proxy.Notify.{
  sender_of, receiver_of, handle_notification_bitmap_create, handle_notification_bitmap_destroy,
  handle_notification_bind, handle_notification_unbind, handle_notification_set,
  handle_notification_get, handle_notification_info_get, reply_unit, reply_pending,
}
use hypervisor.Ffa.Proxy.Messages.{handle_msg_send_direct_req, handle_msg_wait}
use hypervisor.Ffa.Proxy.Dispatch.{
  Function, version, id_get, features, rxtx_map, rxtx_unmap, rx_release, partition_info_get,
  msg_send_direct_req, mem_share, mem_lend, mem_reclaim, mem_retrieve_req, mem_relinquish,
  mem_donate, spm_id_get, run, notification_bitmap_create, notification_bitmap_destroy,
  notification_bind, notification_unbind, notification_set, notification_get, notification_info_get,
  msg_send2, msg_wait, unknown, call,
}
use hypervisor.Ffa.Proxy.Containment.{
  IsSafe, Contained, unchanged, if-Contained, rxtx_map-Contained, rxtx_unmap-Contained,
  rx_release-Contained, partition_info_get-Contained, send2-Contained,
}

run-Contained :
    (smc : Regs → Regs) (r : Regs) (s : Proxy) → IsSafe s → Contained s (handle_run smc r s)
unfolding handle_run
run-Contained smc r s h =
    if-Contained s s.spmc_present _ _ (λ p. unchanged s _ h) (λ p. unchanged s _ h)

features-Contained : (r : Regs) (s : Proxy) → IsSafe s → Contained s (handle_features r s)
unfolding handle_features
features-Contained r s h =
    if-Contained s (any (λ id. r.x1 == id) supported_ids) _ _ (λ p. unchanged s _ h)
      (λ p. unchanged s _ h)

reply_unit-Contained :
    (r : Regs) (s : Proxy) (o : Endpoints × Result FfaError ℕ)
    → IsSafe s
    → Contained s (reply_unit r s o)
reply_unit-Contained r s (es, err e) h = record { safe = h; outside = λ a o. refl }
reply_unit-Contained r s (es, ok v) h = record { safe = h; outside = λ a o. refl }

reply_pending-Contained :
    (r : Regs) (s : Proxy) (o : Endpoints × Result FfaError ℕ)
    → IsSafe s
    → Contained s (reply_pending r s o)
reply_pending-Contained r s (es, err e) h = record { safe = h; outside = λ a o. refl }
reply_pending-Contained r s (es, ok v) h = record { safe = h; outside = λ a o. refl }

set_ownership-Contained :
    (s : Proxy) (r : Regs) (sw s2ap : ℕ) (ps : List ℕ) (spmc : Spmc)
    → IsSafe s
    → Contained s (r, record (set_ownership s sw s2ap ps) { spmc = spmc })
unfolding set_ownership
set_ownership-Contained s r sw s2ap ps spmc h = elim (Bool-cases (s.vttbr == 0)) [
  | inl e ↦ rw e (record { safe = h; outside = λ a o. refl })
  | inr e ↦ rw e (record { safe = h; outside = λ a o. refl })
]

reply_share-Contained :
    (r : Regs) (s : Proxy) (sw s2ap : ℕ) (ps : List ℕ) (o : Spmc × Option ℕ)
    → IsSafe s
    → Contained s (reply_share r (set_ownership s sw s2ap ps) o)
reply_share-Contained r s sw s2ap ps (spmc, none) h = set_ownership-Contained s _ sw s2ap ps spmc h
reply_share-Contained r s sw s2ap ps (spmc, some v) h =
    set_ownership-Contained s _ sw s2ap ps spmc h

share_owned-Contained :
    (r : Regs) (s : Proxy) (q : Request) (lend : Bool) (o : Result FfaError (Unit {0}))
    → IsSafe s
    → Contained s (share_owned r s q lend o)
unfolding share_pages
share_owned-Contained r s q lend (err e) h = unchanged s _ h
share_owned-Contained r s q lend (ok u) h =
    let sw = to_bits shared_owned in
    let s2ap = if lend then s2ap_none else s2ap_ro in
    let ps = pages q.ranges in
    reply_share-Contained r s sw s2ap ps
      (record_share (set_ownership s sw s2ap ps).spmc (caller s) q.receiver q.ranges q.page_count
        lend)
      h

share_parsed-Contained :
    (r : Regs) (s : Proxy) (lend : Bool) (o : Result FfaError Request)
    → IsSafe s
    → Contained s (share_parsed r s lend o)
unfolding share_checked
share_parsed-Contained r s lend (err e) h = unchanged s _ h
share_parsed-Contained r s lend (ok q) h =
    if-Contained s (not (is_valid_receiver q.receiver)) _ _ (λ e. unchanged s _ h)
      λ e.
        if-Contained s (not (q.sender == 0) && not (q.sender == caller s)) _ _
          (λ g. unchanged s _ h) λ g. share_owned-Contained r s q lend _ h

share_or_lend-Contained :
    (r : Regs) (s : Proxy) (lend : Bool)
    → IsSafe s
    → Contained s (handle_mem_share_or_lend r s lend)
unfolding handle_mem_share_or_lend
share_or_lend-Contained r s lend h = share_parsed-Contained r s lend (share_request r s) h

reclaim_found-Contained :
    (r : Regs) (s : Proxy) (o : Option ShareInfo) → IsSafe s → Contained s (reclaim_found r s o)
reclaim_found-Contained r s none h = unchanged s _ h
reclaim_found-Contained r s (some i) h =
    if-Contained s i.retrieved _ _ (λ e. unchanged s _ h) λ e. set_ownership-Contained s _ _ _ _ _ h

retrieve_mapped-Contained :
    (r : Regs) (s : Proxy) (o : Heap × Bool) → IsSafe s → Contained s (retrieve_mapped r s o)
retrieve_mapped-Contained r s (t, true) h = record { safe = h; outside = λ a o. refl }
retrieve_mapped-Contained r s (t, false) h = record { safe = h; outside = λ a o. refl }

retrieve_found-Contained :
    (r : Regs) (s : Proxy) (o : Option ShareInfo) → IsSafe s → Contained s (retrieve_found r s o)
retrieve_found-Contained r s none h = unchanged s _ h
retrieve_found-Contained r s (some i) h =
    if-Contained s (not (caller s == i.receiver_id)) _ _ (λ e. unchanged s _ h)
      λ e.
        if-Contained s i.retrieved _ _ (λ g. unchanged s _ h) λ g. retrieve_mapped-Contained r s _ h

relinquish_found-Contained :
    (r : Regs) (s : Proxy) (o : Option ShareInfo) → IsSafe s → Contained s (relinquish_found r s o)
relinquish_found-Contained r s none h = unchanged s _ h
relinquish_found-Contained r s (some i) h =
    if-Contained s (not (caller s == i.receiver_id)) _ _ (λ e. unchanged s _ h)
      λ e.
        if-Contained s (not i.retrieved) _ _ (λ g. unchanged s _ h)
          λ g. record { safe = h; outside = λ a o. refl }

info_get-Contained :
    (r : Regs) (s : Proxy) → IsSafe s → Contained s (handle_notification_info_get r s)
unfolding handle_notification_info_get
info_get-Contained r s h =
    if-Contained s (length (info_get s.notifications) == 0) _ _ (λ e. unchanged s _ h)
      (λ e. unchanged s _ h)

direct_req-Contained :
    (smc : Regs → Regs) (r : Regs) (s : Proxy)
    → IsSafe s
    → Contained s (handle_msg_send_direct_req smc r s)
unfolding handle_msg_send_direct_req
direct_req-Contained smc r s h =
    if-Contained s (not (sender_of r == caller s)) _ _ (λ e. unchanged s _ h)
      λ e.
        if-Contained s (s.spmc_present && leb ffa_spmc_id (receiver_of r)) _ _
          (λ g. unchanged s _ h)
          λ g.
            if-Contained s (not (is_valid_sp (receiver_of r))) _ _ (λ v. unchanged s _ h)
              (λ v. unchanged s _ h)

msg_wait-Contained : (r : Regs) (s : Proxy) → IsSafe s → Contained s (handle_msg_wait r s)
unfolding handle_msg_wait
msg_wait-Contained r s h =
    if-Contained s (not (get_mailbox s s.vm).mapped) _ _ (λ e. unchanged s _ h)
      λ e.
        if-Contained s (get_mailbox s s.vm).msg_pending _ _ (λ g. unchanged s _ h)
          (λ g. unchanged s _ h)

pub call-Contained :
    (smc : Regs → Regs) (f : Function) (r : Regs) (s : Proxy)
    → IsSafe s
    → Contained s (call smc f r s)
unfolding call handle_version handle_id_get handle_spm_id_get handle_mem_reclaim
    handle_mem_retrieve_req handle_mem_relinquish handle_notification_bitmap_create
    handle_notification_bitmap_destroy handle_notification_bind handle_notification_unbind
    handle_notification_set handle_notification_get
call-Contained smc version r s h = unchanged s _ h
call-Contained smc id_get r s h = unchanged s _ h
call-Contained smc features r s h = features-Contained r s h
call-Contained smc rxtx_map r s h = rxtx_map-Contained r s h
call-Contained smc rxtx_unmap r s h = rxtx_unmap-Contained r s h
call-Contained smc rx_release r s h = rx_release-Contained r s h
call-Contained smc partition_info_get r s h = partition_info_get-Contained r s h
call-Contained smc msg_send_direct_req r s h = direct_req-Contained smc r s h
call-Contained smc mem_share r s h = share_or_lend-Contained r s false h
call-Contained smc mem_lend r s h = share_or_lend-Contained r s true h
call-Contained smc mem_reclaim r s h = reclaim_found-Contained r s _ h
call-Contained smc mem_retrieve_req r s h = retrieve_found-Contained r s _ h
call-Contained smc mem_relinquish r s h = relinquish_found-Contained r s _ h
call-Contained smc mem_donate r s h = unchanged s _ h
call-Contained smc spm_id_get r s h = unchanged s _ h
call-Contained smc run r s h = run-Contained smc r s h
call-Contained smc notification_bitmap_create r s h = reply_unit-Contained r s _ h
call-Contained smc notification_bitmap_destroy r s h = reply_unit-Contained r s _ h
call-Contained smc notification_bind r s h = reply_unit-Contained r s _ h
call-Contained smc notification_unbind r s h = reply_unit-Contained r s _ h
call-Contained smc notification_set r s h = reply_unit-Contained r s _ h
call-Contained smc notification_get r s h = reply_pending-Contained r s _ h
call-Contained smc notification_info_get r s h = info_get-Contained r s h
call-Contained smc msg_send2 r s h = send2-Contained r s h
call-Contained smc msg_wait r s h = msg_wait-Contained r s h
call-Contained smc unknown r s h =
    if-Contained s s.spmc_present _ _ (λ p. unchanged s _ h) (λ p. unchanged s _ h)
